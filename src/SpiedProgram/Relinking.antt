-- ===== src/SpiedProgram/Relinking.antt =====
-- source/SpiedProgram.cpp: `relink`, on the modules of the namespace that calls it. That namespace is
-- what SpyLoader::getCurrentNamespace gives, `none` for the null pointer. Modules are numbers, as in
-- DynamicModule.Links; `throws` are those whose tables cannot be read.
pub mod Links
mod Answer
mod Tests
use spytester.Base.{ℕ, Bool, true, false, List, [], ◌∷◌, Option, none, some, if◌then◌else◌}
use spytester.Base.Texts.{Text}
use spytester.ElfFile.{DynEntry}
use spytester.Relinkage.{Mprotect, Rela}
use spytester.DynamicModule.Links.{World, relink_module}
use spytester.DynamicNamespace.Libraries.{Libraries, load, iterate_over_module}

-- How a call ends: with a result, with an exception, or with the process.
pub data Relinked : Type 0 where
  returned : Bool → World → Relinked
  raised killed : Relinked

unfoldable pub ended : Option (Option World × Bool) → Relinked
ended none = raised
ended (some (none, b)) = killed
ended (some (some w, b)) = returned b w

module _ (page : ℕ) (mprotect : Mprotect) (name : ℕ → Text) (relas : ℕ → List Rela)
    (dynamic_symbol : ℕ → Text → ℕ) (dynstr : ℕ → List ℕ) (dynamic : ℕ → List DynEntry)
    (throws : ℕ → Bool) where
  -- The function that is called on each module.
  unfoldable pub relink_to : ℕ → Option World → ℕ → Option World × Bool
  relink_to dst none m = (none, false)
  relink_to dst (some w) m =
      if throws m
      then (some w, false)
      else (relink_module page mprotect name relas dynamic_symbol dynstr dynamic m dst w, true)

  module _ (open_spied : Text → Option ℕ) (open_here : Text → Option ℕ)
      (link_maps : List Text) where
    relink_all : Option ℕ → World → Libraries ℕ → Libraries ℕ × Relinked
    relink_all none w here = (here, returned false w)
    relink_all (some dst) w here =
        let (here', r) = iterate_over_module open_here (relink_to dst) (some w) link_maps here in
        (here', ended r)

    -- On the spied namespace's libraries and those of the calling namespace.
    unfoldable pub relink_program :
        Text
        → World
        → Libraries ℕ
        → Option (Libraries ℕ)
        → Libraries ℕ × Option (Libraries ℕ) × Relinked
    unfolding relink_all load
    relink_program lib w spied none = (spied, none, returned false w)
    relink_program lib w spied (some here) =
        let (spied', dst) = load open_spied lib spied in
        let (here', r) = relink_all dst w here in (spied', some here', r)
