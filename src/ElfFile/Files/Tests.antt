-- ===== src/ElfFile/Files/Tests.antt =====
-- source/ElfFile.cpp: a table with the file `a`.
use spytester.Base.{ℕ, ◌≡◌, refl, true, false, [], ◌∷◌, none, some}
use spytester.Base.Texts.{Text, same_text}
use spytester.ElfFile.{Elf, fresh, done, thrown, Built, built, not_opened}
use spytester.DynamicNamespace.Libraries.{lookup, insert}
use spytester.ElfFile.Files.{Files, emplace, from_link, get_elf_file}
use spytester.ElfFile.Files.Kept.{Served, get_elf_file-Served}

abbrev elf : ℕ → Elf
elf n = fresh (record { entry = n; shoff = 0; shentsize = 64; shnum = 0; shstrndx = 0 }) []

abbrev files : Files
files = record { elf_files = (b'a' ∷ [], elf 1) ∷ []; descriptors = 1 }

-- `b` is the only file that can still be opened.
abbrev open_b : Text → Built
open_b [] = not_opened
open_b (c ∷ cs) = elim (same_text (c ∷ cs) (b'b' ∷ [])) [
  | true ↦ built (elf 2)
  | false ↦ not_opened
]

-- The program is `b`.
abbrev after_self : Files
after_self = record { elf_files = (b'a' ∷ [], elf 1) ∷ (b'b' ∷ [], elf 2) ∷ []; descriptors = 2 }

get_self :
    get_elf_file true false open_b (some (b'b' ∷ [])) [] files ≡ (after_self, done (b'b' ∷ []))
unfolding get_elf_file from_link emplace lookup insert
get_self = refl

-- `a` is in the table, but an eager `emplace` tries to open it again.
get_known : get_elf_file true true open_b none (b'a' ∷ []) files ≡ (files, thrown)
unfolding get_elf_file emplace lookup
get_known = refl

get_elf_file-Served_example :
    Served open_b
      (some (b'b' ∷ 0 ∷ []))
      []
      files
      (get_elf_file true false open_b (some (b'b' ∷ 0 ∷ [])) [] files)
get_elf_file-Served_example =
    get_elf_file-Served true false open_b (some (b'b' ∷ 0 ∷ [])) [] files refl
