-- ===== src/DynamicModule/Links/Registry.antt =====
-- source/DynamicModule.cpp and source/Relinkage.cpp: the registration of relinkages with their
-- destinations.
use spytester.Base.Chains.{◌>>=◌}
use spytester.Base.{
  ℕ, ◌≡◌, refl, Bool, true, false, List, [], ◌∷◌, Option, none, some, Bool-cases, if◌then◌else◌,
  inl, inr,
}
use spytester.Base.Texts.{Text}
use spytester.ElfFile.{DynEntry}
use spytester.Relinkage.{Space, Mprotect, Relinkage, Rela, relink, invalidate}
use spytester.DynamicModule.Links.{
  Out, World, set_out, set_ins, add_in_relinkage, remove_in_relinkage, is_needed, erase_found,
  unrelink, emplace_out, relink_needed, relink_module,
}
use spytester.DynamicModule.Links.Entries.{
  IsRegistered, same_link_refl, removed-IsRegistered, added-IsRegistered,
}

-- What holds at the end of a run, if the process is not killed before.
abbrev pub IfEnds : (World → Type 0) → Option World → Type 0
IfEnds P none = Unit {0}
IfEnds P (some w) = P w

pub IfEnds-bind :
    (P Q : World → Type 0) (o : Option World) (f : World → Option World)
    → IfEnds P o
    → ((w : World) → P w → IfEnds Q (f w))
    → IfEnds Q (o >>= f)
IfEnds-bind P Q none f h k = tt
IfEnds-bind P Q (some w) f h k = k w h

pub data LinkCall : Type 0 where
  relink_call : ℕ → ℕ → LinkCall
  unrelink_call : ℕ → Text → LinkCall

module _ (page : ℕ) (mprotect : Mprotect) where
  unrelink-IsRegistered :
      (src : ℕ) (lib : Text) (w : World)
      → IsRegistered w
      → IfEnds (λ w'. IsRegistered w' × (w'.out src lib ≡ none)) (unrelink page mprotect src lib w)
  unfolding unrelink erase_found
  unrelink-IsRegistered src lib w h = from (w.out src lib) refl
    where
      Done : World → Type 0
      Done w' = IsRegistered w' × (w'.out src lib ≡ none)

      on_result :
          (o : Out) (x : Option (Relinkage × Space))
          → w.out src lib ≡ some o
          → IfEnds Done (
              x >>= λ r.
              if w.alive o.destination
              then some (record w {
                space = r.1;
                out = set_out w.out src lib none;
                ins =
                    set_ins w.ins o.destination (remove_in_relinkage src lib (w.ins o.destination));
              })
              else none)
      on_result o none e = tt
      on_result o (some (r, sp)) e = elim (Bool-cases (w.alive o.destination)) [
        | inl a ↦ rw a (removed-IsRegistered w src lib o sp h e, rw (same_link_refl src lib) refl)
        | inr a ↦ rw a tt
      ]

      from :
          (o : Option Out) → w.out src lib ≡ o → IfEnds Done (erase_found page mprotect src lib o w)
      from none e = (h, e)
      from (some o) e = on_result o (invalidate page mprotect o.relinkage w.space) e

  module _ (name : ℕ → Text) (relas : ℕ → List Rela) (dynamic_symbol : ℕ → Text → ℕ)
      (dynstr : ℕ → List ℕ) (dynamic : ℕ → List DynEntry) where
    emplace_out-IsRegistered :
        (src dst : ℕ) (w : World)
        → IsRegistered w
        → w.out src (name dst) ≡ none
        → IfEnds IsRegistered (emplace_out page mprotect name relas dynamic_symbol src dst w)
    unfolding emplace_out
    emplace_out-IsRegistered src dst w h e =
        from (relink page mprotect (dynamic_symbol dst) (relas src) w.space)
      where
        from :
            (x : Option (Relinkage × Space))
            → IfEnds IsRegistered (
                x >>= λ r. some (record w {
                  space = r.1;
                  out =
                      set_out w.out src
                        (name dst)
                        (some (record { relinkage = r.0; destination = dst }));
                  ins = set_ins w.ins dst (add_in_relinkage src (name dst) (w.ins dst));
                }))
        from none = tt
        from (some (r, sp)) = added-IsRegistered w src (name dst) dst r sp h e

    relink_needed-IsRegistered :
        (src dst : ℕ) (w : World)
        → IsRegistered w
        → IfEnds IsRegistered (relink_needed page mprotect name relas dynamic_symbol src dst w)
    unfolding relink_needed
    relink_needed-IsRegistered src dst w h =
        IfEnds-bind (λ w'. IsRegistered w' × (w'.out src (name dst) ≡ none)) IsRegistered _ _
          (unrelink-IsRegistered src (name dst) w h)
          (λ w' k. emplace_out-IsRegistered src dst w' k.0 k.1)

    relink_module-IsRegistered :
        (src dst : ℕ) (w : World)
        → IsRegistered w
        → IfEnds IsRegistered
            (relink_module page mprotect name relas dynamic_symbol dynstr dynamic src dst w)
    unfolding relink_module
    relink_module-IsRegistered src dst w h = from (is_needed (dynstr src) (name dst) (dynamic src))
      where
        from :
            (x : Option Bool)
            → IfEnds IsRegistered (
                x >>= λ needed.
                if needed
                then relink_needed page mprotect name relas dynamic_symbol src dst w
                else some w)
        from none = tt
        from (some true) = relink_needed-IsRegistered src dst w h
        from (some false) = h

    unfoldable pub link_calls : List LinkCall → World → Option World
    link_calls [] w = some w
    link_calls (relink_call src dst ∷ cs) w =
        relink_module page mprotect name relas dynamic_symbol dynstr dynamic src dst w
        >>= link_calls cs
    link_calls (unrelink_call src lib ∷ cs) w = unrelink page mprotect src lib w >>= link_calls cs

    -- If each module knows exactly the relinkages that lead to it, this stays so after any calls of
    -- `relink` and `unrelink` on any modules that end without the process being killed, whatever the
    -- system's `mprotect` does.
    pub link_calls-IsRegistered :
        (cs : List LinkCall) (w : World) → IsRegistered w → IfEnds IsRegistered (link_calls cs w)
    unfolding link_calls
    link_calls-IsRegistered [] w h = h
    link_calls-IsRegistered (relink_call src dst ∷ cs) w h =
        IfEnds-bind IsRegistered IsRegistered _ (link_calls cs)
          (relink_module-IsRegistered src dst w h) (link_calls-IsRegistered cs)
    link_calls-IsRegistered (unrelink_call src lib ∷ cs) w h =
        IfEnds-bind (λ w'. IsRegistered w' × (w'.out src lib ≡ none)) IsRegistered _ (link_calls cs)
          (unrelink-IsRegistered src lib w h) (λ w' k. link_calls-IsRegistered cs w' k.0)
