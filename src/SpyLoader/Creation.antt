-- ===== src/SpyLoader/Creation.antt =====
-- source/SpyLoader.cpp: the ids after `createSpiedNamespaces`.
use mathlib.Core.List.{append-nil, append_assoc}
use mathlib.Core.Path.{subst}
use spytester.Base.{
  ℕ, ◌+◌, ◌≤◌, ◌≡◌, refl, sym, ap, ◌∙◌, true, false, List, [], ◌∷◌, ◌++◌, Option, none, some, ◌==◌,
  ==_refl, if◌then◌else◌, arith,
}
use spytester.SpyLoader.{
  NamespaceIds, base_id, insert, emplace, has_key, extract, reserve_namespace_id,
  release_namespace_id, open_namespace, open_namespaces, close_namespaces, create_spied_namespaces,
  all_closed,
}
use spytester.Base.Counts.{one, count}
use spytester.SpyLoader.Ids.{keys, held, count-insert, count-emplace, count-extract, count-has_key}

-- The ids of the link maps that could be made.
abbrev pub opened : List (Option ℕ) → List ℕ
opened [] = []
opened (none ∷ os) = opened os
opened (some id ∷ os) = id ∷ opened os

module _ {N : Type 0} where
  abbrev pub fill : N → List ℕ → List (ℕ × N) → List (ℕ × N)
  fill n [] u = u
  fill n (i ∷ is) u = fill n is (emplace i n u)

  -- Each namespace reserves the id that was made available just before.
  pub open_namespaces_lem :
      (n : N) (os : List (Option ℕ)) (u : List (ℕ × N)) (ids : List ℕ)
      → open_namespaces n os (record { avl = []; used = u }, ids)
        ≡ (record { avl = []; used = fill n (opened os) u }, ids ++ opened os)
  unfolding open_namespaces open_namespace insert reserve_namespace_id
  open_namespaces_lem n [] u ids =
      ap (λ l. (record { avl = []; used = u }, l)) (sym (append-nil ids))
  open_namespaces_lem n (none ∷ os) u ids = open_namespaces_lem n os u ids
  open_namespaces_lem n (some id ∷ os) u ids =
      open_namespaces_lem n os (emplace id n u) (ids ++ (id ∷ []))
      ∙ ap (λ l. (record { avl = []; used = fill n (opened os) (emplace id n u) }, l))
          (append_assoc ids (id ∷ []) (opened os))

  count-fill :
      (n : N) (is : List ℕ) (u : List (ℕ × N)) (k : ℕ)
      → ((j : ℕ) → count j is + count j (keys u) ≤ 1)
      → count k (keys (fill n is u)) ≡ count k is + count k (keys u)
  count-fill n [] u k h = omega arith
  count-fill n (i ∷ is) u k h = omega (
    arith,
    count-fill n is (emplace i n u) k (λ j. omega (arith, count-emplace j i n u free, h j)),
    count-emplace k i n u free,
  )
    where
      free : count i (keys u) ≡ 0
      free = ground (arith, h i)

  close_namespaces_lem :
      (ids : List ℕ) (s : NamespaceIds N)
      → ((j : ℕ) → held j s ≤ 1)
      → ((j : ℕ) → count j ids ≤ count j (keys s.used))
      → count base_id ids ≡ 0
      → (k : ℕ)
      → (count k (close_namespaces ids s).avl ≡ count k s.avl + count k ids)
        × (count k (keys (close_namespaces ids s).used) + count k ids ≡ count k (keys s.used))
  unfolding close_namespaces release_namespace_id
  close_namespaces_lem [] s h sub nb k = (omega arith, omega arith)
  close_namespaces_lem (id ∷ ids) s h sub nb k =
      let next =
        close_namespaces_lem ids t (λ j. omega (arith, h j, gained j, lost j))
          (λ j. omega (arith, sub j, lost j)) (omega (arith, nb)) k in
      subst
        (λ (r : NamespaceIds N).
          (count k (close_namespaces ids r).avl ≡ count k s.avl + count k (id ∷ ids))
          × (count k (keys (close_namespaces ids r).used) + count k (id ∷ ids)
              ≡ count k (keys s.used)))
        (sym chosen) (omega (arith, next.0, gained k), omega (arith, next.1, lost k))
    where
      own : one id id ≡ 1
      own = rw (==_refl id)

      present : has_key id s.used ≡ true
      present = count-has_key id s.used (λ e. omega (arith, own, sub id, e))

      t : NamespaceIds N
      t = record { avl = insert id s.avl; used = extract id s.used }

      not_base : (id == base_id) ≡ false
      not_base = ground (arith, nb)

      released : release_namespace_id id s ≡ t
      released = rw present

      chosen : (if id == base_id then s else release_namespace_id id s) ≡ t
      chosen = rw not_base released

      gained : (j : ℕ) → count j (insert id s.avl) ≡ one j id + count j s.avl
      gained j = count-insert j id s.avl (omega (arith, own, h id, sub id))

      lost : (j : ℕ) → one j id + count j (keys (extract id s.used)) ≡ count j (keys s.used)
      lost j = count-extract j id s.used present

  none_left : (u : List (ℕ × N)) → ((k : ℕ) → count k (keys u) ≡ 0) → u ≡ []
  none_left [] h = refl
  none_left ((i, n) ∷ u) h = absurd (omega (arith, own, h i))
    where
      own : one i i ≡ 1
      own = rw (==_refl i)

  -- If the link maps that could be made have different ids, none of them that of the base namespace,
  -- then after the creation on an empty loader every one of these ids is available once, no other
  -- id is, and none is in use.
  pub create_spied_namespaces_lem :
      (n : N) (os : List (Option ℕ))
      → ((j : ℕ) → count j (opened os) ≤ 1)
      → count base_id (opened os) ≡ 0
      → let s = create_spied_namespaces n os (record { avl = []; used = [] }) in
        ((k : ℕ) → count k s.avl ≡ count k (opened os)) × (s.used ≡ [])
  unfolding create_spied_namespaces all_closed
  create_spied_namespaces_lem n os h nb =
      rw (open_namespaces_lem n os [] [])
        (λ k. (closed k).0, none_left _ (λ k. omega (arith, (closed k).1, filled k)))
    where
      full : NamespaceIds N
      full = record { avl = []; used = fill n (opened os) [] }

      filled : (k : ℕ) → count k (keys (fill n (opened os) [])) ≡ count k (opened os)
      filled k = omega (arith, count-fill n (opened os) [] k (λ j. omega (arith, h j)))

      closed :
          (k : ℕ)
          → (count k (close_namespaces (opened os) full).avl ≡ count k (opened os))
            × (count k (keys (close_namespaces (opened os) full).used) + count k (opened os)
                ≡ count k (keys full.used))
      closed k =
          let c =
            close_namespaces_lem (opened os) full (λ j. omega (arith, h j, filled j))
              (λ j. omega (arith, filled j)) nb k in
          (omega (arith, c.0), c.1)
