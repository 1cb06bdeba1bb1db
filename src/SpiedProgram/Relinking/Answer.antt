-- ===== src/SpiedProgram/Relinking/Answer.antt =====
-- source/SpiedProgram.cpp: the result of `relink`.
use spytester.Base.{ℕ, ◌≡◌, Bool, true, false, List, Option, none, some, ◌⊎◌}
use spytester.Base.Texts.{Text}
use spytester.ElfFile.{DynEntry}
use spytester.Relinkage.{Mprotect, Rela}
use spytester.DynamicModule.Links.{World}
use spytester.DynamicNamespace.Libraries.{Libraries, load, sync_modules}
use spytester.DynamicNamespace.Libraries.Iteration.{modules}
use spytester.SpiedProgram.Relinking.{Relinked, returned, raised, killed}
use spytester.SpiedProgram.Relinking.Links.{KeepsLinks, AllServed}

module _ (page : ℕ) (mprotect : Mprotect) (name : ℕ → Text) (relas : ℕ → List Rela)
    (dynamic_symbol : ℕ → Text → ℕ) (dynstr : ℕ → List ℕ) (dynamic : ℕ → List DynEntry)
    (throws : ℕ → Bool) (open_spied : Text → Option ℕ) (open_here : Text → Option ℕ)
    (link_maps : List Text) where
  -- The calling namespace's modules, brought up to date.
  abbrev pub here_modules : Libraries ℕ → List ℕ
  here_modules here =
      let l = (sync_modules open_here link_maps here).0 in modules l.dynamic_lib l.executable

  -- What each end of the call says.
  abbrev pub Answers : Text → World → Libraries ℕ → Libraries ℕ → Relinked → Type 0
  Answers lib w spied here (returned true w') =
      (dst : ℕ) × ((load open_spied lib spied).1 ≡ some dst)
      × KeepsLinks name dst w w'
      × AllServed name dynstr dynamic dst w' (here_modules here)
  Answers lib w spied here (returned false w') =
      (((load open_spied lib spied).1 ≡ none) × (w' ≡ w))
      ⊎ ((dst : ℕ) × ((load open_spied lib spied).1 ≡ some dst) × KeepsLinks name dst w w')
  Answers lib w spied here raised = (sync_modules open_here link_maps here).1 ≡ false
  Answers lib w spied here killed = Unit {0}
