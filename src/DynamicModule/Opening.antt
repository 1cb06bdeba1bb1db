-- ===== src/DynamicModule/Opening.antt =====
-- source/DynamicModule.cpp: how a module comes to be, and what is kept of it: the handle that dlmopen
-- gives, the link map that dlinfo gives for it, and the ELF file at the link map's name, from the
-- table of ElfFile. dlmopen, dlinfo and dladdr are parameters.
mod Outcomes
mod Tests
use spytester.Base.{ℕ, suc, Bool, List, [], ◌∷◌, Option, none, some}
use spytester.Base.Texts.{Text}
use spytester.ElfFile.{Outcome, done, thrown, undefined, Built}
use spytester.ElfFile.Files.{Files, get_elf_file}

-- The link map's address and name.
pub record LinkMap : Type 0 where
  pub l_addr : ℕ
  pub l_name : Text

-- `_elf` is a reference into the table, by its key.
pub record Module (H : Type 0) : Type 0 where
  pub name : Text
  pub handle : H
  pub lm : LinkMap
  pub elf : Text

-- The table of files, and the handles that have been opened and not closed.
pub record Opened (H : Type 0) : Type 0 where
  pub files : Files
  pub handles : List H

module _ {H : Type 0} where
  -- The members in their order: an exception ends the constructor, and no destructor closes the handle.
  abbrev pub with_file :
      Text → H → LinkMap → List H → Files × Outcome Text → Opened H × Outcome (Module H)
  with_file name h lm hs (files, done path) = (
    record { files = files; handles = hs },
    done (record { name = name; handle = h; lm = lm; elf = path }),
  )
  with_file name h lm hs (files, thrown) = (record { files = files; handles = hs }, thrown)
  with_file name h lm hs (files, undefined) = (record { files = files; handles = hs }, undefined)

  module _ (get_file : Text → Files → Files × Outcome Text) where
    abbrev pub with_map : Text → H → Option LinkMap → Opened H → Opened H × Outcome (Module H)
    with_map name h none s = (record s { handles = h ∷ s.handles }, thrown)
    with_map name h (some lm) s = with_file name h lm (h ∷ s.handles) (get_file lm.l_name s.files)

    abbrev pub with_handle :
        (H → Option LinkMap) → Text → Option H → Opened H → Opened H × Outcome (Module H)
    with_handle dlinfo name none s = (s, thrown)
    with_handle dlinfo name (some h) s = with_map name h (dlinfo h) s

  -- The constructor; the parameters of `getElfFile` come first.
  unfoldable pub construct :
      Bool
      → Bool
      → (Text → Built)
      → Option Text
      → (Text → ℕ → Option H)
      → (H → Option LinkMap)
      → Text
      → ℕ
      → Opened H
      → Opened H × Outcome (Module H)
  construct eager_self eager_path make self dlmopen dlinfo name id s =
      with_handle (get_elf_file eager_self eager_path make self) dlinfo name (dlmopen name id) s

-- `getMangledName`, from the name that dladdr gives, if it gives one.
unfoldable pub get_mangled_name : Option Text → Text
get_mangled_name none = []
get_mangled_name (some sname) = sname
