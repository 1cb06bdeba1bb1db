-- ===== src/SpyLoader/Ids.antt =====
-- source/SpyLoader.cpp: who holds a namespace id after reservations and releases.
use spytester.Base.Counts.{one, count}
use spytester.Base.{
  ℕ, ◌+◌, ◌≤◌, ◌≡◌, ◌≢◌, ◌⊎◌, refl, ◌∙◌, true, false, List, [], ◌∷◌, ==_refl, Bool-cases, inl, inr,
  arith,
}
use spytester.SpyLoader.{
  NamespaceIds, no_id, insert, emplace, has_key, extract, reserve_namespace_id,
  release_namespace_id,
}

pub count-insert :
    (k i : ℕ) (js : List ℕ) → count i js ≡ 0 → count k (insert i js) ≡ one k i + count k js
unfolding insert
count-insert k i [] h = refl
count-insert k i (j ∷ js) h = ground (arith, count-insert k i js)

-- The calls that namespaces make.
pub data IdCall (N : Type 0) : Type 0 where
  reserve : N → IdCall N
  release : ℕ → IdCall N

module _ {N : Type 0} where
  abbrev pub keys : List (ℕ × N) → List ℕ
  keys [] = []
  keys ((i, n) ∷ rest) = i ∷ keys rest

  pub count-emplace :
      (k i : ℕ) (n : N) (us : List (ℕ × N))
      → count i (keys us) ≡ 0
      → count k (keys (emplace i n us)) ≡ one k i + count k (keys us)
  unfolding emplace
  count-emplace k i n [] h = refl
  count-emplace k i n ((j, o) ∷ us) h = ground (arith, count-emplace k i n us)

  pub count-extract :
      (k i : ℕ) (us : List (ℕ × N))
      → has_key i us ≡ true
      → one k i + count k (keys (extract i us)) ≡ count k (keys us)
  unfolding has_key extract
  count-extract k i [] h = absurd (no h)
    where
      no : false ≡ true → ⊥
      no e = ground arith
  count-extract k i ((j, o) ∷ us) h = ground (arith, count-extract k i us)

  pub count-has_key : (i : ℕ) (us : List (ℕ × N)) → count i (keys us) ≢ 0 → has_key i us ≡ true
  unfolding has_key
  count-has_key i [] h = absurd (h refl)
  count-has_key i ((j, o) ∷ us) h = ground (arith, count-has_key i us)

  pub has_key-lt : (i : ℕ) (us : List (ℕ × N)) → has_key i us ≡ true → 1 ≤ count i (keys us)
  unfolding has_key
  has_key-lt i [] h = ground arith
  has_key-lt i ((j, o) ∷ us) h = ground (arith, has_key-lt i us)

  -- How often an id is available or in use.
  abbrev pub held : ℕ → NamespaceIds N → ℕ
  held k s = count k s.avl + count k (keys s.used)

  pub reserve-held :
      (n : N) (s : NamespaceIds N) (k : ℕ)
      → ((j : ℕ) → held j s ≤ 1)
      → held k (reserve_namespace_id n s).0 ≡ held k s
  unfolding reserve_namespace_id
  reserve-held n s k h = from s.avl h
    where
      from :
          (l : List ℕ)
          → ((j : ℕ) → count j l + count j (keys s.used) ≤ 1)
          → held k (reserve_namespace_id n (record s { avl = l })).0
            ≡ count k l + count k (keys s.used)
      from [] g = refl
      from (i ∷ is) g = omega (arith, count-emplace k i n s.used (ground (arith, g i)))

  pub release-held :
      (id : ℕ) (s : NamespaceIds N) (k : ℕ)
      → ((j : ℕ) → held j s ≤ 1)
      → held k (release_namespace_id id s) ≡ held k s
  unfolding release_namespace_id
  release-held id s k h = elim (Bool-cases (has_key id s.used)) [
    | inl e ↦ rw e (
        omega (
          arith,
          count-extract k id s.used e,
          count-insert k id s.avl (omega (arith, h id, has_key-lt id s.used e)),
        ))
    | inr e ↦ rw e
  ]

  -- What a history of calls leads to.
  unfoldable pub id_calls : List (IdCall N) → NamespaceIds N → NamespaceIds N
  id_calls [] s = s
  id_calls (reserve n ∷ cs) s = id_calls cs (reserve_namespace_id n s).0
  id_calls (release id ∷ cs) s = id_calls cs (release_namespace_id id s)

  -- If every id is available once or in use once, and not both, then no history of reservations and
  -- releases loses an id or doubles one.
  id_calls-held :
      (cs : List (IdCall N)) (s : NamespaceIds N) (k : ℕ)
      → ((j : ℕ) → held j s ≤ 1)
      → held k (id_calls cs s) ≡ held k s
  unfolding id_calls
  id_calls-held [] s k h = refl
  id_calls-held (reserve n ∷ cs) s k h =
      id_calls-held cs (reserve_namespace_id n s).0 k
        (λ j. ground (arith, reserve-held n s j h, h j))
      ∙ reserve-held n s k h
  id_calls-held (release id ∷ cs) s k h =
      id_calls-held cs (release_namespace_id id s) k
        (λ j. ground (arith, release-held id s j h, h j))
      ∙ release-held id s k h

  -- The list of ids that a reservation finds available.
  abbrev pub Reserved : N → NamespaceIds N → NamespaceIds N × ℕ → Type 0
  Reserved n s (s', id) =
      ((s.avl ≡ []) × (s' ≡ s) × (id ≡ no_id))
      ⊎ ((count id s.avl ≡ 1)
          × (count id (keys s.used) ≡ 0)
          × (count id s'.avl ≡ 0)
          × (count id (keys s'.used) ≡ 1))

  -- If no id is both available and in use, or either of them twice: a reservation gives an id that
  -- was available and not in use, and that is now in use and not available; with no id available it
  -- changes nothing and gives -2.
  reserve_namespace_id_lem :
      (n : N) (s : NamespaceIds N)
      → ((j : ℕ) → held j s ≤ 1)
      → Reserved n s (reserve_namespace_id n s)
  unfolding reserve_namespace_id
  reserve_namespace_id_lem n s h = from s.avl h
    where
      from :
          (l : List ℕ)
          → ((j : ℕ) → count j l + count j (keys s.used) ≤ 1)
          → Reserved n (record s { avl = l }) (reserve_namespace_id n (record s { avl = l }))
      from [] g = inl (refl, refl, refl)
      from (i ∷ is) g =
          let free : count i (keys s.used) ≡ 0 = omega (arith, own, g i) in
          inr (
            omega (arith, own, g i),
            free,
            omega (arith, own, g i),
            omega (arith, own, count-emplace i i n s.used free),
          )
        where
          own : one i i ≡ 1
          own = rw (==_refl i)
