-- ===== src/SpyLoader/Pool.antt =====
-- source/SpyLoader.cpp: what the namespace ids promise to the namespaces, in bags that forget how the
-- loader keeps them, and that any history of calls keeps the promise.
use spytester.Base.Counts.{one, count}
use spytester.Base.Bags.{Bag, HaveSame, bag_of, among, put, without, count-without, take_out}
use mathlib.Core.Quot
use mathlib.Core.Path.{subst}
use spytester.Base.{
  ℕ, ◌+◌, ◌≤◌, ◌≡◌, ◌⊎◌, refl, ap, ◌∙◌, true, false, List, [], ◌∷◌, ltb, ==_refl, Bool-cases, inl,
  inr, if◌then◌else◌, arith,
}
use spytester.SpyLoader.{
  NamespaceIds, no_id, insert, emplace, has_key, extract, reserve_namespace_id,
  release_namespace_id,
}
use spytester.SpyLoader.Ids.{
  IdCall, reserve, release, id_calls, keys, held, count-insert, count-emplace, count-extract,
  count-has_key, has_key-lt, reserve-held, release-held,
}

-- The ids that are free and those that are taken.
pub record Pool : Type 0 where
  pub free : Bag
  pub taken : Bag

-- A taken id becomes free; any other changes nothing.
abbrev pub given_back : ℕ → Pool → Pool
given_back i p =
    if ltb 0 (among i p.taken)
    then record { free = put i p.free; taken = take_out i p.taken }
    else p

-- Some free id is taken, or none is free and the answer is -2.
abbrev pub Reserves : Pool → Pool → ℕ → Type 0
Reserves p q id =
    ((p.free ≡ bag_of []) × (q ≡ p) × (id ≡ no_id))
    ⊎ ((among id p.free ≡ 1) × (q ≡ record { free = take_out id p.free; taken = put id p.taken }))

-- A history of calls and the answers to its reservations, from one pool to another.
abbrev pub Serves : {N : Type 0} → List (IdCall N) → List ℕ → Pool → Pool → Type 0
Serves [] [] p q = q ≡ p
Serves [] (a ∷ answers) p q = ⊥
Serves (reserve n ∷ cs) [] p q = ⊥
Serves (reserve n ∷ cs) (a ∷ answers) p q = (p' : Pool) × Reserves p p' a × Serves cs answers p' q
Serves (release i ∷ cs) answers p q = Serves cs answers (given_back i p) q

same_pool :
    (a b : List ℕ) (c d : List ℕ)
    → HaveSame a b
    → HaveSame c d
    → ◌≡◌ {A = Pool}
        (record { free = bag_of a; taken = bag_of c })
        (record { free = bag_of b; taken = bag_of d })
same_pool a b c d h k =
    ap (λ x. record { free = x; taken = bag_of c }) (Quot.sound h)
    ∙ ap (λ x. record { free = bag_of b; taken = x }) (Quot.sound k)

module _ {N : Type 0} where
  abbrev pub pool_of : NamespaceIds N → Pool
  pool_of s = record { free = bag_of s.avl; taken = bag_of (keys s.used) }

  -- The ids that a history's reservations give.
  unfoldable pub id_answers : List (IdCall N) → NamespaceIds N → List ℕ
  id_answers [] s = []
  id_answers (reserve n ∷ cs) s = let (s', id) = reserve_namespace_id n s in id ∷ id_answers cs s'
  id_answers (release i ∷ cs) s = id_answers cs (release_namespace_id i s)

  release-given_back :
      (i : ℕ) (s : NamespaceIds N)
      → ((j : ℕ) → held j s ≤ 1)
      → pool_of (release_namespace_id i s) ≡ given_back i (pool_of s)
  unfolding release_namespace_id among put take_out
  release-given_back i s h = elim (Bool-cases (has_key i s.used)) [
    | inl e ↦
        let there : 1 ≤ count i (keys s.used) = has_key-lt i s.used e in
        let full : ltb 0 (count i (keys s.used)) ≡ true = ground (arith, there) in
        rw (e, full)
          (same_pool (insert i s.avl) (i ∷ s.avl) (keys (extract i s.used))
            (without i (keys s.used)) (count-insert_free (omega (arith, h i, there)))
            (λ k. omega (arith, count-without k i (keys s.used), count-extract k i s.used e)))
    | inr e ↦
        let full : ltb 0 (count i (keys s.used)) ≡ false =
          ground (arith, e, count-has_key i s.used) in
        rw (e, full) refl
  ]
    where
      count-insert_free : count i s.avl ≡ 0 → HaveSame (insert i s.avl) (i ∷ s.avl)
      count-insert_free z k = count-insert k i s.avl z

  reserve-Reserves :
      (n : N) (s : NamespaceIds N)
      → ((j : ℕ) → held j s ≤ 1)
      → let (s', id) = reserve_namespace_id n s in Reserves (pool_of s) (pool_of s') id
  unfolding reserve_namespace_id among put take_out
  reserve-Reserves n s h = from s.avl h
    where
      from :
          (avl : List ℕ)
          → ((j : ℕ) → count j avl + count j (keys s.used) ≤ 1)
          → let (s', id) = reserve_namespace_id n (record s { avl = avl }) in
            Reserves (pool_of (record s { avl = avl })) (pool_of s') id
      from [] g = inl (refl, refl, refl)
      from (i ∷ is) g =
          let own : one i i ≡ 1 = rw (==_refl i) in
          let free : count i (keys s.used) ≡ 0 = omega (arith, own, g i) in
          inr (
            omega (arith, own, g i),
            same_pool is (without i (i ∷ is)) (keys (emplace i n s.used)) (i ∷ keys s.used)
                (λ k. omega (arith, count-without k i (i ∷ is)))
                (λ k. count-emplace k i n s.used free),
          )

  -- If no id is both available and in use, or either of them twice: any history of reservations and
  -- releases, with the answers that the loader gives, is one that the pool of the ids allows, from the
  -- ids that are free and taken before to those that are so afterwards. There a reservation takes
  -- some free id, or answers -2 where none is free, and a release frees the id if it is taken.
  pub id_calls-Serves :
      (cs : List (IdCall N)) (s : NamespaceIds N)
      → ((j : ℕ) → held j s ≤ 1)
      → Serves cs (id_answers cs s) (pool_of s) (pool_of (id_calls cs s))
  unfolding id_calls id_answers
  id_calls-Serves [] s h = refl
  id_calls-Serves (reserve n ∷ cs) s h = (
    pool_of (reserve_namespace_id n s).0,
    reserve-Reserves n s h,
    id_calls-Serves cs (reserve_namespace_id n s).0
        (λ j. ground (arith, reserve-held n s j h, h j)),
  )
  id_calls-Serves (release i ∷ cs) s h =
      subst
        (λ p.
          Serves cs (id_answers cs (release_namespace_id i s)) p
            (pool_of (id_calls cs (release_namespace_id i s))))
        (release-given_back i s h)
        (id_calls-Serves cs (release_namespace_id i s)
          (λ j. ground (arith, release-held i s j h, h j)))
