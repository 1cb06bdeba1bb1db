-- ===== src/DynamicNamespace/Object/Lifetime.antt =====
-- source/DynamicNamespace.cpp: the id of a namespace, from its constructor to its destructor.
use mathlib.Core.Path.{subst}
use spytester.Base.Counts.{one, count}
use spytester.Base.{
  ℕ, ◌+◌, ◌≤◌, ◌≡◌, ◌≢◌, ◌⊎◌, refl, sym, ap, ◌∙◌, true, false, List, [], ◌∷◌, Option, none, some,
  ◌==◌, ==_refl, ==→eq, Bool-cases, if◌then◌else◌, inl, inr, arith,
}
use spytester.SpyLoader.{
  NamespaceIds, no_id, base_id, emplace, has_key, reserve_namespace_id, release_namespace_id,
}
use spytester.SpyLoader.Ids.{
  keys, held, count-insert, count-emplace, count-extract, count-has_key, has_key-lt,
}
use spytester.DynamicNamespace.Object.{Namespace, initialised, checked, new, destroy}

own : (i : ℕ) → one i i ≡ 1
own i = rw (==_refl i)

not_base : (i : ℕ) (is us : List ℕ) → count base_id (i ∷ is) + count base_id us ≡ 0 → i ≢ base_id
not_base i is us h e = ground (arith, h, own i, e)

kept_apart : (i : ℕ) → i ≢ base_id → (i == base_id) ≡ false
kept_apart i h = ground (arith, h)

module _ {D : Type 0} where
  abbrev id_or : ℕ → Option (Namespace D) → ℕ
  id_or id none = id
  id_or id (some ns) = ns.id

  module _ (link_map : ℕ → Option ℕ) (open_loader : ℕ → Option D) (main_of : D → ℕ) (argc : ℕ)
      (argv : ℕ → ℕ) (envp : List ℕ) where
    -- The members for an id.
    abbrev pub started : ℕ → Option (Namespace D)
    started = initialised link_map open_loader main_of argc argv envp

    kept : (id : ℕ) → id_or id (started id) ≡ id
    unfolding initialised
    kept id = ground arith

    pub started-id : (id : ℕ) (ns : Namespace D) → started id ≡ some ns → ns.id ≡ id
    started-id id ns h = sym (ap (id_or id) h) ∙ kept id

module _ {N : Type 0} where
  -- The same ids are available and in use.
  abbrev pub SameIds : NamespaceIds N → NamespaceIds N → Type 0
  SameIds s t =
      (k : ℕ) → (count k t.avl ≡ count k s.avl) × (count k (keys t.used) ≡ count k (keys s.used))

  -- No id is available or in use twice, or both; -2 and the base namespace's are neither.
  pub record IsLoader (s : NamespaceIds N) : Type 0 where
    pub held_once : (k : ℕ) → held k s ≤ 1
    pub no_no_id : held no_id s ≡ 0
    pub no_base : held base_id s ≡ 0

  reserve-release :
      (n : N) (s : NamespaceIds N)
      → IsLoader s
      → let (s', id) = reserve_namespace_id n s in
        SameIds s (release_namespace_id id s') × (id ≢ base_id)
  unfolding reserve_namespace_id release_namespace_id
  reserve-release n s l = from s.avl l.held_once l.no_no_id l.no_base
    where
      from :
          (avl : List ℕ)
          → ((k : ℕ) → count k avl + count k (keys s.used) ≤ 1)
          → count no_id avl + count no_id (keys s.used) ≡ 0
          → count base_id avl + count base_id (keys s.used) ≡ 0
          → let (s', id) = reserve_namespace_id n (record s { avl = avl }) in
            SameIds (record s { avl = avl }) (release_namespace_id id s') × (id ≢ base_id)
      from [] h hn hb = elim (Bool-cases (has_key no_id s.used)) [
        | inl e ↦ absurd (omega (arith, has_key-lt no_id s.used e))
        | inr e ↦ rw e ((λ k. (refl, refl)), λ z. omega arith)
      ]
      from (i ∷ is) h hn hb =
          let free : count i (keys s.used) ≡ 0 = omega (arith, own i, h i) in
          let gone : count i is ≡ 0 = omega (arith, own i, h i) in
          let there : has_key i (emplace i n s.used) ≡ true =
            count-has_key i (emplace i n s.used)
              (λ z. omega (arith, own i, z, count-emplace i i n s.used free)) in
          rw there (
            (λ k. (
              count-insert k i is gone,
              omega (
                arith,
                count-extract k i (emplace i n s.used) there,
                count-emplace k i n s.used free,
              ),
            )),
            not_base i is (keys s.used) hb,
          )

  -- The id is in use, and no longer available, though no namespace has it.
  abbrev pub IsLost : ℕ → NamespaceIds N → NamespaceIds N → Type 0
  IsLost id s t = (count id s.avl ≡ 1) × (count id t.avl ≡ 0) × (count id (keys t.used) ≡ 1)

  reserve_cases :
      (n : N) (s : NamespaceIds N)
      → IsLoader s
      → let (s', id) = reserve_namespace_id n s in ((s.avl ≡ []) × (s' ≡ s)) ⊎ IsLost id s s'
  unfolding reserve_namespace_id
  reserve_cases n s l = from s.avl l.held_once
    where
      from :
          (avl : List ℕ)
          → ((k : ℕ) → count k avl + count k (keys s.used) ≤ 1)
          → let (s', id) = reserve_namespace_id n (record s { avl = avl }) in
            ((avl ≡ []) × (s' ≡ record s { avl = avl })) ⊎ IsLost id (record s { avl = avl }) s'
      from [] h = inl (refl, refl)
      from (i ∷ is) h =
          let free : count i (keys s.used) ≡ 0 = omega (arith, own i, h i) in
          inr (
            omega (arith, own i, h i),
            omega (arith, own i, h i),
            omega (arith, own i, count-emplace i i n s.used free),
          )

  module _ {D : Type 0} (link_map : ℕ → Option ℕ) (open_loader : ℕ → Option D) (main_of : D → ℕ)
      (argc : ℕ) (argv : ℕ → ℕ) (envp : List ℕ) where
    -- What the constructor says by its end, on the id that it has reserved.
    abbrev pub Created : NamespaceIds N → ℕ → NamespaceIds N × Option (Namespace D) → Type 0
    Created s id (t, some ns) =
        (ns.id ≡ id) × (ns.create_main_thread ≢ 0) × SameIds s (destroy ns t)
    Created s id (t, none) =
        ((started link_map open_loader main_of argc argv envp id ≡ none)
          × (((s.avl ≡ []) × (t ≡ s)) ⊎ IsLost id s t))
        ⊎ ((ns : Namespace D) × (started link_map open_loader main_of argc argv envp id ≡ some ns)
            × (ns.create_main_thread ≡ 0)
            × SameIds s t)

    -- On a loader of which no id is available or in use twice, and that has neither -2 nor the base
    -- namespace's id: a namespace whose constructor returns has the id that it reserved and a function
    -- to create the main thread, and its destructor leaves the same ids available and in use as before
    -- the constructor. Where the constructor throws for that function, it does so itself. Where it
    -- throws for the link map or for libSpyLoader.so, then either no id was available and nothing has
    -- changed, or the id that it reserved is lost: in use, with no namespace to release it.
    pub new-Created :
        (n : N) (s : NamespaceIds N)
        → IsLoader s
        → Created s
            (reserve_namespace_id n s).1
            (new link_map open_loader main_of n argc argv envp s)
    unfolding new checked destroy
    new-Created n s l =
        from (started link_map open_loader main_of argc argv envp (reserve_namespace_id n s).1) refl
      where
        s1 : NamespaceIds N
        s1 = (reserve_namespace_id n s).0

        id : ℕ
        id = (reserve_namespace_id n s).1

        destroyed : (ns : Namespace D) → ns.id ≡ id → SameIds s (destroy ns s1)
        destroyed ns e =
            subst (λ x. SameIds s (if x == base_id then s1 else release_namespace_id x s1)) (sym e)
              (rw (kept_apart id (reserve-release n s l).1) (reserve-release n s l).0)

        from :
            (o : Option (Namespace D))
            → started link_map open_loader main_of argc argv envp id ≡ o
            → Created s id (checked s1 o)
        from none e = inl (e, reserve_cases n s l)
        from (some ns) e = elim (Bool-cases (ns.create_main_thread == 0)) [
          | inl z ↦ rw z (
              inr (
                ns,
                e,
                ==→eq _ _ z,
                subst (λ x. SameIds s (release_namespace_id x s1))
                    (sym (started-id link_map open_loader main_of argc argv envp id ns e))
                    (reserve-release n s l).0,
              ))
          | inr z ↦ rw z (
            started-id link_map open_loader main_of argc argv envp id ns e,
            (λ q. ground (arith, z, q)),
            destroyed ns (started-id link_map open_loader main_of argc argv envp id ns e),
          )
        ]
