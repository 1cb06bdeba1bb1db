-- ===== src/DynamicModule/Links.antt =====
-- include/DynamicModule.h and source/DynamicModule.cpp, with the constructor and the destructor of
-- source/Relinkage.cpp: the relinkages between modules. A module is a number; a relinkage is known
-- by its source and by its destination's name, under which the source keeps it. What a module's ELF
-- file gives is a parameter: its string table and its dynamic entries, its relocations, its symbols.
-- `none` is a store that kills the process, or an access to a module that is gone.
pub mod Entries
pub mod Registry
mod Undo
mod Tests
use spytester.Base.Chains.{◌>>=◌}
use spytester.Base.{
  ℕ, Bool, true, false, ◌&&◌, List, [], ◌∷◌, Option, none, some, ◌==◌, if◌then◌else◌,
}
use spytester.Base.Texts.{Text, same_text, c_string}
use spytester.ElfFile.{DynEntry}
use spytester.Relinkage.{Space, Mprotect, Relinkage, Rela, relink, invalidate}

-- An entry of `_outRelinkages`.
pub record Out : Type 0 where
  pub relinkage : Relinkage
  pub destination : ℕ

-- The memory; `_outRelinkages` of each module; `_inRelinkages`; and which modules there are.
pub record World : Type 0 where
  pub space : Space
  pub out : ℕ → Text → Option Out
  pub ins : ℕ → List (ℕ × Text)
  pub alive : ℕ → Bool

abbrev pub same_link : ℕ → Text → ℕ → Text → Bool
same_link s l src lib = (s == src) && same_text l lib

abbrev pub set_out : (ℕ → Text → Option Out) → ℕ → Text → Option Out → ℕ → Text → Option Out
set_out out src lib o s l = if same_link s l src lib then o else out s l

abbrev pub set_ins : (ℕ → List (ℕ × Text)) → ℕ → List (ℕ × Text) → ℕ → List (ℕ × Text)
set_ins ins dst ls d = if d == dst then ls else ins d

abbrev pub has : ℕ → Text → List (ℕ × Text) → Bool
has s l [] = false
has s l ((src, lib) ∷ rest) = if same_link s l src lib then true else has s l rest

abbrev pub add_in_relinkage : ℕ → Text → List (ℕ × Text) → List (ℕ × Text)
add_in_relinkage src lib ls = if has src lib ls then ls else (src, lib) ∷ ls

abbrev pub remove_in_relinkage : ℕ → Text → List (ℕ × Text) → List (ℕ × Text)
remove_in_relinkage src lib [] = []
remove_in_relinkage src lib ((s, l) ∷ rest) =
    if same_link s l src lib
    then remove_in_relinkage src lib rest
    else (s, l) ∷ remove_in_relinkage src lib rest

-- Whether a DT_NEEDED entry has the name; `none` for a name past the string table.
abbrev pub or_later : Text → Option Bool → Option Text → Option Bool
or_later lib later none = none
or_later lib later (some t) = if same_text t lib then some true else later

unfoldable pub is_needed : List ℕ → Text → List DynEntry → Option Bool
unfolding c_string
is_needed strs lib [] = some false
is_needed strs lib (d ∷ ds) =
    let later = is_needed strs lib ds in
    if d.tag == 1 then or_later lib later (c_string strs d.val) else later

module _ (page : ℕ) (mprotect : Mprotect) where
  -- The end of a relinkage that is in the map: its destructor, and its entry's removal.
  unfoldable pub erase_found : ℕ → Text → Option Out → World → Option World
  erase_found src lib none w = some w
  erase_found src lib (some o) w = do
    (r, s) ← invalidate page mprotect o.relinkage w.space
    if w.alive o.destination
        then some (record w {
          space = s;
          out = set_out w.out src lib none;
          ins = set_ins w.ins o.destination (remove_in_relinkage src lib (w.ins o.destination));
        })
        else none

  unfoldable pub unrelink : ℕ → Text → World → Option World
  unfolding erase_found
  unrelink src lib w = erase_found src lib (w.out src lib) w

  module _ (name : ℕ → Text) (relas : ℕ → List Rela) (dynamic_symbol : ℕ → Text → ℕ) where
    -- `emplace`, with the constructor of the relinkage, whose last step is the registration.
    unfoldable pub emplace_out : ℕ → ℕ → World → Option World
    emplace_out src dst w = do
      (r, s) ← relink page mprotect (dynamic_symbol dst) (relas src) w.space
      some (record w {
        space = s;
        out = set_out w.out src (name dst) (some (record { relinkage = r; destination = dst }));
        ins = set_ins w.ins dst (add_in_relinkage src (name dst) (w.ins dst));
      })

    unfoldable pub relink_needed : ℕ → ℕ → World → Option World
    unfolding unrelink emplace_out
    relink_needed src dst w = unrelink src (name dst) w >>= emplace_out src dst

    module _ (dynstr : ℕ → List ℕ) (dynamic : ℕ → List DynEntry) where
      unfoldable pub relink_module : ℕ → ℕ → World → Option World
      unfolding is_needed relink_needed
      relink_module src dst w = do
        needed ← is_needed (dynstr src) (name dst) (dynamic src)
        if needed then relink_needed src dst w else some w

  -- The destructor's loop, over `_inRelinkages`.
  abbrev pub invalidated : ℕ → Text → Option Out → World → Option World
  invalidated src lib none w = none
  invalidated src lib (some o) w = do
    (r, s) ← invalidate page mprotect o.relinkage w.space
    some (record w { space = s; out = set_out w.out src lib (some (record o { relinkage = r })) })

  unfoldable pub invalidate_ins : List (ℕ × Text) → World → Option World
  invalidate_ins [] w = some w
  invalidate_ins ((src, lib) ∷ rest) w =
      invalidated src lib (w.out src lib) w >>= invalidate_ins rest

  -- The destructor's body; the destruction of the members is not part of it.
  unfoldable pub destroy_module : ℕ → World → Option World
  unfolding invalidate_ins
  destroy_module dst w = do
    w1 ← invalidate_ins (w.ins dst) w
    some (record w1 { alive = λ m. if m == dst then false else w1.alive m })
