-- ===== src/SpyLoader/Keys.antt =====
-- source/SpyLoader.cpp: a thread key is created and deleted in every namespace, so that it is the
-- same in all of them. What libpthread does in one namespace is a parameter: the state of its keys
-- goes to the next state, a result that is 0 on success, and the key.
use mathlib.Core.Path.{subst, ap₂}
use spytester.Base.{
  ℕ, ◌-◌, ◌^◌, ◌≡◌, ◌≢◌, ◌⊎◌, inl, inr, refl, sym, ap, ◌∙◌, List, [], ◌∷◌, ◌++◌, ◌==◌, ==→eq,
  Bool-cases, if◌then◌else◌, arith,
}

-- The result -1, for a key that is not the base namespace's.
abbrev pub incoherent : ℕ
incoherent = 2 ^ 32 - 1

module _ {K : Type 0} (delete : ℕ → K → K × ℕ) where
  unfoldable pub pthread_key_delete : ℕ → List K → List K × ℕ
  pthread_key_delete key [] = ([], 0)
  pthread_key_delete key (k ∷ ks) =
      let (k', res) = delete key k in
      let (ks', last) = pthread_key_delete key ks in
      if res == 0 then (k' ∷ ks', last) else (k' ∷ ks, res)

module _ {K : Type 0} (create : K → K × ℕ × ℕ) where
  -- The loop over the namespaces after the first.
  unfoldable pub create_in : ℕ → List K → List K × ℕ
  create_in key [] = ([], 0)
  create_in key (k ∷ ks) =
      let (k', res, tmp_key) = create k in
      let (ks', last) = create_in key ks in
      if res == 0
      then (if key == tmp_key then (k' ∷ ks', last) else (k' ∷ ks, incoherent))
      else (k' ∷ ks, res)

  -- On the base namespace's state and those of the others: the states, the result, and the key.
  unfoldable pub pthread_key_create : K → List K → K × List K × ℕ × ℕ
  pthread_key_create b ks =
      let (b', res, key) = create b in
      let (ks', last) = create_in key ks in
      if res == 0 then (b', ks', last, key) else (b', ks, res, key)

  -- Every one of the namespaces creates the key.
  abbrev pub Creates : ℕ → List K → Type 0
  Creates key [] = Unit {0}
  Creates key (k ∷ ks) = ((create k).1 ≡ 0) × ((create k).2 ≡ key) × Creates key ks

  abbrev pub after : List K → List K
  after [] = []
  after (k ∷ ks) = (create k).0 ∷ after ks

  -- Those of a prefix do, and the next one fails or gives another key.
  abbrev pub StopsAt : ℕ → List K → List K → Type 0
  StopsAt key ks ks' =
      (done : List K) × (k : K) × (rest : List K) × (ks ≡ done ++ (k ∷ rest))
      × Creates key done
      × (((create k).1 ≢ 0) ⊎ ((create k).2 ≢ key))
      × (ks' ≡ after done ++ ((create k).0 ∷ rest))

  abbrev Outcome : ℕ → List K → List K → ℕ → Type 0
  Outcome key ks ks' r =
      (Creates key ks × (ks' ≡ after ks) × (r ≡ 0)) ⊎ (StopsAt key ks ks' × (r ≢ 0))

  create_in_lem : (key : ℕ) (ks : List K) → Outcome key ks (create_in key ks).0 (create_in key ks).1
  unfolding create_in
  create_in_lem key [] = inl (tt, refl, refl)
  create_in_lem key (k ∷ ks) = elim (Bool-cases ((create k).1 == 0)) [
    | inr e ↦
        let fails : (create k).1 ≢ 0 = λ z. ground arith in
        rw e (inr (([], k, ks, refl, tt, inl fails, refl), fails))
    | inl e ↦ rw e (elim (Bool-cases (key == (create k).2)) [
      | inr d ↦
          let other : (create k).2 ≢ key = λ z. ground arith in
          rw d (inr (([], k, ks, refl, tt, inr other, refl), λ z. omega arith))
      | inl d ↦ rw d (elim (create_in_lem key ks) [
        | inl (c, s, z) ↦ inl ((==→eq _ _ e, sym (==→eq _ _ d), c), ap (λ l. (create k).0 ∷ l) s, z)
        | inr ((done, j, rest, p, c, f, q), nz) ↦ inr (
          (
            k ∷ done,
            j,
            rest,
            ap (λ l. k ∷ l) p,
            (==→eq _ _ e, sym (==→eq _ _ d), c),
            f,
            ap (λ l. (create k).0 ∷ l) q,
          ),
          nz,
        )
      ])
    ])
  ]

  -- `pthreadKeyCreate` returns 0 if the base namespace creates a key and every other namespace the
  -- same one, and otherwise it does not return 0. If the base namespace fails, no other is asked; if
  -- another fails or gives another key, those before it have created theirs, and keep it.
  pub pthread_key_create_lem :
      (b : K) (ks : List K)
      → let (b', ks', r, key) = pthread_key_create b ks in
        (b' ≡ (create b).0)
        × (key ≡ (create b).2)
        × (((create b).1 ≢ 0) × (ks' ≡ ks) × (r ≡ (create b).1)
            ⊎ (((create b).1 ≡ 0)
                × ((Creates key ks × (ks' ≡ after ks) × (r ≡ 0)) ⊎ (StopsAt key ks ks' × (r ≢ 0)))))
  unfolding pthread_key_create
  pthread_key_create_lem b ks = elim (Bool-cases ((create b).1 == 0)) [
    | inr e ↦ rw e (refl, refl, inl (λ z. ground arith, refl, refl))
    | inl e ↦ rw e (refl, refl, inr (==→eq _ _ e, create_in_lem (create b).2 ks))
  ]

  module _ (delete : ℕ → K → K × ℕ) where
    delete_after :
        ((k : K) → (create k).1 ≡ 0 → delete (create k).2 (create k).0 ≡ (k, 0))
        → (key : ℕ) (ks : List K) → Creates key ks
        → pthread_key_delete delete key (after ks) ≡ (ks, 0)
    unfolding pthread_key_delete
    delete_after law key [] c = refl
    delete_after law key (k ∷ ks) (z, e, c) =
        rw (undone e) (ap (λ p. (k ∷ p.0, p.1)) (delete_after law key ks c))
      where
        undone : (create k).2 ≡ key → delete key (create k).0 ≡ (k, 0)
        undone same = subst (λ i. delete i (create k).0 ≡ (k, 0)) same (law k z)

    -- If deleting a key that was just created undoes the creation in each namespace, then a
    -- `pthreadKeyCreate` that returns 0, followed by `pthreadKeyDelete` of its key, returns 0 again
    -- and leaves every namespace as it was.
    pub create-delete :
        (b : K) (ks : List K)
        → ((k : K) → (create k).1 ≡ 0 → delete (create k).2 (create k).0 ≡ (k, 0))
        → (pthread_key_create b ks).2 ≡ 0
        → let (b', ks', r, key) = pthread_key_create b ks in
          pthread_key_delete delete key (b' ∷ ks') ≡ (b ∷ ks, 0)
    create-delete b ks law ok = elim (pthread_key_create_lem b ks).2 [
      | inl (nz, _, r) ↦ absurd (nz (sym r ∙ ok))
      | inr (z, inr (_, nz)) ↦ absurd (nz ok)
      | inr (z, inl (c, s, _)) ↦
          ap (pthread_key_delete delete (pthread_key_create b ks).3)
            (ap₂ (λ x xs. x ∷ xs) (pthread_key_create_lem b ks).0 s)
          ∙ delete_after law (pthread_key_create b ks).3 (b ∷ ks)
              (z, sym (pthread_key_create_lem b ks).1, c)
    ]
