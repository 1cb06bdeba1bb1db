-- ===== src/DynamicModule/Opening/Tests.antt =====
-- source/DynamicModule.cpp: a module `z` of the file `b`, and one whose file cannot be read.
use spytester.Base.{ℕ, ◌≡◌, refl, true, false, [], ◌∷◌, Option, none, some, if◌then◌else◌}
use spytester.Base.Texts.{Text, same_text}
use spytester.ElfFile.{Elf, fresh, thrown, Built, built, not_opened}
use spytester.DynamicNamespace.Libraries.{lookup, insert}
use spytester.ElfFile.Files.{emplace, get_elf_file}
use spytester.DynamicModule.Opening.{LinkMap, Opened, construct}
use spytester.DynamicModule.Opening.Outcomes.{Constructs, construct-Constructs}

abbrev elf : Elf
elf = fresh (record { entry = 0x40; shoff = 0; shentsize = 64; shnum = 0; shstrndx = 0 }) []

abbrev open_b : Text → Built
open_b path = if same_text path (b'b' ∷ []) then built elf else not_opened

-- The handle of a library is the first byte of its name.
abbrev dlmopen : Text → ℕ → Option ℕ
dlmopen [] id = none
dlmopen (c ∷ cs) id = some c

abbrev dlinfo : ℕ → Option LinkMap
dlinfo h = some (record {
  l_addr = 0x1000;
  l_name = (if same_text (h ∷ []) (b'z' ∷ []) then b'b' else b'c') ∷ [];
})

abbrev nothing : Opened ℕ
nothing = record { files = record { elf_files = []; descriptors = 0 }; handles = [] }

construct_z : (construct true false open_b none dlmopen dlinfo (b'z' ∷ []) 2 nothing).0 ≡ record {
  files = record { elf_files = (b'b' ∷ [], elf) ∷ []; descriptors = 1 };
  handles = b'z' ∷ [];
}
unfolding construct get_elf_file emplace lookup insert
construct_z = refl

-- The handle stays open.
construct_y :
    construct true false open_b none dlmopen dlinfo (b'y' ∷ []) 2 nothing
    ≡ (record { files = nothing.files; handles = b'y' ∷ [] }, thrown)
unfolding construct get_elf_file emplace lookup
construct_y = refl

construct-Constructs_example :
    Constructs none dlmopen dlinfo
      (b'z' ∷ [])
      2
      nothing
      (construct true false open_b none dlmopen dlinfo (b'z' ∷ []) 2 nothing)
construct-Constructs_example =
    construct-Constructs none dlmopen dlinfo true false open_b (b'z' ∷ []) 2 nothing refl
