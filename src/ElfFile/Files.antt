-- ===== src/ElfFile/Files.antt =====
-- source/ElfFile.cpp: `getElfFile` and the table of the files that have been opened, by their paths.
-- Opening and reading a file, the constructor of ElfFile, is a parameter, `build` on the file at the
-- path; so is what readlink gives for /proc/self/exe. Whether `std::map::emplace` makes its object
-- before it looks for the key is open: each of the two calls has a Boolean for it.
pub mod Kept
mod Tests
use spytester.Base.{
  ℕ, zero, suc, Bool, true, false, ◌&&◌, not, List, [], ◌∷◌, Option, none, some, ◌==◌, leb, length,
  if◌then◌else◌,
}
use spytester.Base.Texts.{Text}
use spytester.ElfFile.{
  Elf, Outcome, done, thrown, undefined, Built, built, not_opened, closed_again, out_of_bounds,
}
use spytester.DynamicNamespace.Libraries.{lookup, insert, is_some}

-- `elfFiles`, and the number of file descriptors that objects of ElfFile hold.
pub record Files : Type 0 where
  pub elf_files : List (Text × Elf)
  pub descriptors : ℕ

abbrev pub path_max : ℕ
path_max = 4096

-- A text as a C string.
abbrev pub before_nul : Text → Text
before_nul [] = []
before_nul (c ∷ cs) = let rest = before_nul cs in if c == 0 then [] else c ∷ rest

-- The destructor.
abbrev pub close_one : ℕ → ℕ
close_one zero = zero
close_one (suc n) = n

-- A constructed object goes into the table.
abbrev pub inserted : Text → Built → Files → Files × Outcome Text
inserted path (built e) s =
    (record { elf_files = insert path e s.elf_files; descriptors = suc s.descriptors }, done path)
inserted path not_opened s = (s, thrown)
inserted path closed_again s = (s, thrown)
inserted path out_of_bounds s = (s, undefined)

-- A constructed object whose key is taken is destroyed.
abbrev pub discarded : Text → Built → Files → Files × Outcome Text
discarded path (built e) s = (record s { descriptors = close_one (suc s.descriptors) }, done path)
discarded path not_opened s = (s, thrown)
discarded path closed_again s = (s, thrown)
discarded path out_of_bounds s = (s, undefined)

-- `emplace(path, path)`, with the key of the entry for the reference to it.
unfoldable pub emplace : Bool → (Text → Built) → Text → Files → Files × Outcome Text
emplace eager make path s =
    let taken = is_some (lookup path s.elf_files) in
    if taken && not eager
    then (s, done path)
    else if taken
    then discarded path (make path) s
    else inserted path (make path) s

module _ (eager_self eager_path : Bool) (make : Text → Built) where
  -- The buffer has no room for the NUL behind a link of `path_max` bytes.
  unfoldable pub from_link : Option Text → Files → Files × Outcome Text
  unfolding emplace
  from_link none s = (s, thrown)
  from_link (some t) s =
      if leb path_max (length t) then (s, undefined) else emplace eager_self make (before_nul t) s

  unfoldable pub get_elf_file : Option Text → Text → Files → Files × Outcome Text
  unfolding emplace from_link
  get_elf_file self [] s = from_link self s
  get_elf_file self (c ∷ cs) s = emplace eager_path make (c ∷ cs) s
