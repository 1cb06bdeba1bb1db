-- ===== src/SpiedProgram/Relinking/Links.antt =====
-- source/SpiedProgram.cpp: the relinkages after the visits of some modules.
use spytester.Base.Chains.{◌>>=◌}
use spytester.Base.{
  ℕ, ◌≡◌, refl, ap, ◌∙◌, Bool, true, false, List, [], ◌∷◌, Option, none, some, ◌==◌, ==→eq, ==_refl,
  Bool-cases, if◌then◌else◌, inl, inr, ◌⊎◌,
}
use spytester.Base.Texts.{Text}
use spytester.ElfFile.{DynEntry}
use spytester.Relinkage.{Space, Mprotect, Relinkage, Rela, relink, invalidate}
use spytester.DynamicModule.Links.{
  set_ins, add_in_relinkage, remove_in_relinkage, Out, World, set_out, is_needed, erase_found,
  unrelink, emplace_out, relink_needed, relink_module,
}
use spytester.DynamicModule.Links.Entries.{leads, same_link_refl}
use spytester.DynamicModule.Links.Registry.{IfEnds, IfEnds-bind}
use spytester.DynamicNamespace.Libraries.Iteration.{each}
use spytester.SpiedProgram.Relinking.{relink_to}

-- The module has a relinkage to the destination.
abbrev pub IsLinked : (ℕ → Text) → ℕ → World → ℕ → Type 0
IsLinked name dst w m = leads dst (w.out m (name dst)) ≡ true

-- No relinkage to the destination is lost.
abbrev pub KeepsLinks : (ℕ → Text) → ℕ → World → World → Type 0
KeepsLinks name dst w w' = (m : ℕ) → IsLinked name dst w m → IsLinked name dst w' m

-- The module does not need the destination, or has a relinkage to it.
abbrev pub IsServed : (ℕ → Text) → (ℕ → List ℕ) → (ℕ → List DynEntry) → ℕ → World → ℕ → Type 0
IsServed name dynstr dynamic dst w m =
    (is_needed (dynstr m) (name dst) (dynamic m) ≡ some false) ⊎ IsLinked name dst w m

abbrev pub AllServed : (ℕ → Text) → (ℕ → List ℕ) → (ℕ → List DynEntry) → ℕ → World → List ℕ → Type 0
AllServed name dynstr dynamic dst w [] = Unit {0}
AllServed name dynstr dynamic dst w (m ∷ ms) =
    IsServed name dynstr dynamic dst w m × AllServed name dynstr dynamic dst w ms

IfEnds-map :
    (P Q : World → Type 0) (o : Option World) → ((w : World) → P w → Q w) → IfEnds P o → IfEnds Q o
IfEnds-map P Q none f h = tt
IfEnds-map P Q (some w) f h = f w h

module _ (page : ℕ) (mprotect : Mprotect) (name : ℕ → Text) (relas : ℕ → List Rela)
    (dynamic_symbol : ℕ → Text → ℕ) where
  abbrev Others : ℕ → Text → World → World → Type 0
  Others m lib w w' = (s : ℕ) → (s == m) ≡ false → w'.out s lib ≡ w.out s lib

  unrelink-Others :
      (m : ℕ) (lib : Text) (w : World) → IfEnds (Others m lib w) (unrelink page mprotect m lib w)
  unfolding unrelink erase_found
  unrelink-Others m lib w = from (w.out m lib)
    where
      from : (o : Option Out) → IfEnds (Others m lib w) (erase_found page mprotect m lib o w)
      from none = λ s h. refl
      from (some o) = gone o (invalidate page mprotect o.relinkage w.space)
        where
          gone :
              (o : Out) (x : Option (Relinkage × Space))
              → IfEnds (Others m lib w) (
                  x >>= λ r.
                  if w.alive o.destination
                  then some (record w {
                    space = r.1;
                    out = set_out w.out m lib none;
                    ins =
                        set_ins w.ins o.destination
                          (remove_in_relinkage m lib (w.ins o.destination));
                  })
                  else none)
          gone o none = tt
          gone o (some (r, sp)) = elim (Bool-cases (w.alive o.destination)) [
            | inl a ↦ rw a (λ s h. rw h refl)
            | inr a ↦ rw a tt
          ]

  emplace_out-links :
      (m dst : ℕ) (w : World)
      → IfEnds
          (λ w'. IsLinked name dst w' m × Others m (name dst) w w')
          (emplace_out page mprotect name relas dynamic_symbol m dst w)
  unfolding emplace_out
  emplace_out-links m dst w = from (relink page mprotect (dynamic_symbol dst) (relas m) w.space)
    where
      from :
          (x : Option (Relinkage × Space))
          → IfEnds
              (λ w'. IsLinked name dst w' m × Others m (name dst) w w')
              (x >>= λ r. some (record w {
                space = r.1;
                out =
                    set_out w.out m
                      (name dst)
                      (some (record { relinkage = r.0; destination = dst }));
                ins = set_ins w.ins dst (add_in_relinkage m (name dst) (w.ins dst));
              }))
      from none = tt
      from (some (r, sp)) = (rw (same_link_refl m (name dst)) (==_refl dst), λ s h. rw h refl)

  relink_needed-links :
      (m dst : ℕ) (w : World)
      → IfEnds
          (λ w'. IsLinked name dst w' m × KeepsLinks name dst w w')
          (relink_needed page mprotect name relas dynamic_symbol m dst w)
  unfolding relink_needed
  relink_needed-links m dst w =
      IfEnds-bind (Others m (name dst) w) _ _ _ (unrelink-Others m (name dst) w) (λ w1 k.
        IfEnds-map (λ w2. IsLinked name dst w2 m × Others m (name dst) w1 w2)
          (λ w2. IsLinked name dst w2 m × KeepsLinks name dst w w2)
          (emplace_out page mprotect name relas dynamic_symbol m dst w1)
          (λ w2 q. (q.0, λ s h. kept w1 w2 s k q h)) (emplace_out-links m dst w1))
    where
      kept :
          (w1 w2 : World) (s : ℕ)
          → Others m (name dst) w w1
          → IsLinked name dst w2 m × Others m (name dst) w1 w2
          → IsLinked name dst w s
          → IsLinked name dst w2 s
      kept w1 w2 s k (l, q) h = elim (Bool-cases (s == m)) [
        | inl e ↦ ap (λ x. leads dst (w2.out x (name dst))) (==→eq s m e) ∙ l
        | inr e ↦ ap (leads dst) (q s e ∙ k s e) ∙ h
      ]

  module _ (dynstr : ℕ → List ℕ) (dynamic : ℕ → List DynEntry) (throws : ℕ → Bool) where
    relink_module-links :
        (m dst : ℕ) (w : World)
        → IfEnds
            (λ w'. IsServed name dynstr dynamic dst w' m × KeepsLinks name dst w w')
            (relink_module page mprotect name relas dynamic_symbol dynstr dynamic m dst w)
    unfolding relink_module
    relink_module-links m dst w = from (is_needed (dynstr m) (name dst) (dynamic m)) refl
      where
        from :
            (x : Option Bool)
            → is_needed (dynstr m) (name dst) (dynamic m) ≡ x
            → IfEnds
                (λ w'. IsServed name dynstr dynamic dst w' m × KeepsLinks name dst w w')
                (x >>= λ needed.
                  if needed
                  then relink_needed page mprotect name relas dynamic_symbol m dst w
                  else some w)
        from none e = tt
        from (some false) e = (inl e, λ s h. h)
        from (some true) e =
            IfEnds-map (λ w'. IsLinked name dst w' m × KeepsLinks name dst w w')
              (λ w'. IsServed name dynstr dynamic dst w' m × KeepsLinks name dst w w') _
              (λ w' q. (inr q.0, q.1)) (relink_needed-links m dst w)

    abbrev pub visit : ℕ → Option World → ℕ → Option World × Bool
    visit = relink_to page mprotect name relas dynamic_symbol dynstr dynamic throws

    -- How the visits of some modules end.
    abbrev pub Visited : ℕ → List ℕ → World → Option World × Bool → Type 0
    Visited dst ms w (none, b) = Unit {0}
    Visited dst ms w (some w', b) =
        KeepsLinks name dst w w' × ((b ≡ false) ⊎ AllServed name dynstr dynamic dst w' ms)

    none-Visited :
        (dst : ℕ) (ms ns : List ℕ) (w : World) → Visited dst ns w (each (visit dst) none ms)
    unfolding relink_to
    none-Visited dst [] ns w = tt
    none-Visited dst (m ∷ ms) ns w = tt

    Visited-cons :
        (dst m : ℕ) (ms : List ℕ) (w w1 : World) (r : Option World × Bool)
        → KeepsLinks name dst w w1
        → IsServed name dynstr dynamic dst w1 m
        → Visited dst ms w1 r
        → Visited dst (m ∷ ms) w r
    Visited-cons dst m ms w w1 (none, b) k s v = tt
    Visited-cons dst m ms w w1 (some w2, b) k s (k2, inl e) = ((λ x h. k2 x (k x h)), inl e)
    Visited-cons dst m ms w w1 (some w2, b) k (inl n) (k2, inr all) =
        ((λ x h. k2 x (k x h)), inr (inl n, all))
    Visited-cons dst m ms w w1 (some w2, b) k (inr l) (k2, inr all) =
        ((λ x h. k2 x (k x h)), inr (inr (k2 m l), all))

    pub each-Visited :
        (dst : ℕ) (ms : List ℕ) (w : World) → Visited dst ms w (each (visit dst) (some w) ms)
    unfolding relink_to
    each-Visited dst [] w = ((λ s h. h), inr tt)
    each-Visited dst (m ∷ ms) w = elim (Bool-cases (throws m)) [
      | inl e ↦ rw e ((λ s h. h), inl refl)
      | inr e ↦ rw e (
          on_end (relink_module page mprotect name relas dynamic_symbol dynstr dynamic m dst w)
            (relink_module-links m dst w) (each-Visited dst ms))
    ]
      where
        on_end :
            (o : Option World)
            → IfEnds (λ w'. IsServed name dynstr dynamic dst w' m × KeepsLinks name dst w w') o
            → ((w1 : World) → Visited dst ms w1 (each (visit dst) (some w1) ms))
            → Visited dst (m ∷ ms) w (each (visit dst) o ms)
        on_end none h ih = none-Visited dst ms (m ∷ ms) w
        on_end (some w1) h ih = Visited-cons dst m ms w w1 _ h.1 h.0 (ih w1)
