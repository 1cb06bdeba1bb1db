-- ===== src/DynamicModule/Tests.antt =====
-- source/DynamicModule.cpp: a module with one function, `f`, and one relocation against it.
use spytester.Base.{
  ℕ, zero, suc, ◌+◌, ◌-◌, ◌*◌, ◌^◌, ◌≡◌, refl, Bool, List, [], ◌∷◌, ◌++◌, some, length, arith,
}
use spytester.Base.Texts.{take, drop, replicate, c_string, until_nul}
use spytester.ElfFile.{File, Elf, Shdr, Layout, done, fresh, entries}
use spytester.ElfFile.Contents.{IsFile}
use spytester.Relinkage.{find_rela, collect}
use spytester.DynamicModule.{iterate_over_relocations, rela_name, OnRela}
use spytester.DynamicModule.Relocations.{iterate_over_relocations-collect}

abbrev padded : List ℕ → List ℕ
padded l = l ++ replicate (24 - length l) 0

-- The strings, two symbols, and a relocation.
abbrev content : List ℕ
content = 0 ∷ 102 ∷ 0 ∷ (padded [] ++ (padded (1 ∷ 18 ∷ 1 ∷ 16 ∷ []) ++ padded (32 ∷ 1 ∷ 7 ∷ [])))

abbrev file : File
file = record {
  seek = λ offset. some offset;
  read = λ offset n. some (take n (drop offset content));
}

file-IsFile : IsFile content file
file-IsFile = record { seeks = λ offset. refl; reads = λ offset n h. refl }

abbrev byte : ℕ → List ℕ → ℕ
byte n [] = 0
byte zero (c ∷ cs) = c
byte (suc n) (c ∷ cs) = byte n cs

-- A layout in which every field is one byte.
abbrev layout : Layout
layout = record {
  ehdr = λ b. record { entry = 0; shoff = 0; shentsize = 64; shnum = 3; shstrndx = 9 };
  shdr = λ b. record { type = 0; flags = 0; offset = 0; size = 0; entsize = 0 };
  sym = λ b. record { name = byte 0 b; info = byte 1 b; shndx = byte 2 b; value = byte 3 b };
  dyn = λ b. record { tag = byte 0 b; val = byte 1 b };
  rela = λ b. record { offset = byte 0 b; info = byte 1 b * 2 ^ 32 + byte 2 b };
}

abbrev section : ℕ → ℕ → ℕ → ℕ → ℕ → Shdr
section type flags offset size entsize = record {
  type = type;
  flags = flags;
  offset = offset;
  size = size;
  entsize = entsize;
}

abbrev elf : Elf
elf = fresh (layout.ehdr []) (section 3 2 0 3 0 ∷ section 11 2 3 48 24 ∷ section 4 2 51 24 24 ∷ [])

-- The callback counts the relocations and stops at the first.
abbrev count_one : OnRela ℕ
count_one s type name addr = (suc s, Bool.false)

iterate_over_relocations-collect_example :
    (iterate_over_relocations file layout 0x1000 (find_rela (λ t. 0x7000)) [] elf).1
    ≡ done (record { addr = 0x1020; value = 0x7000 } ∷ [])
unfolding c_string until_nul entries rela_name collect
iterate_over_relocations-collect_example =
    iterate_over_relocations-collect content file file-IsFile layout 0x1000 (λ t. 0x7000) elf
      (
        (omega arith, λ h. ground arith),
        ((omega arith, λ h. (refl, refl)), ((omega arith, λ h. (refl, refl)), tt)),
      )
      refl refl refl ((λ h. ground arith), tt)
