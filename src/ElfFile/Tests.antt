-- ===== src/ElfFile/Tests.antt =====
-- source/ElfFile.cpp: a file with two sections of relocations and one of strings.
use spytester.Base.{ℕ, ◌≡◌, ◌≢◌, refl, sym, List, [], ◌∷◌, ◌++◌, some, none, arith}
use spytester.Base.Texts.{take, drop, replicate}
use spytester.ElfFile.{File, Elf, Shdr, Layout, done, undefined, relocations, get_table}
use spytester.ElfFile.Bounds.{get_table-defined, IsLimited}
use spytester.ElfFile.Contents.{get_table-contents, IsFile}

abbrev content : List ℕ
content = replicate 24 1 ++ replicate 48 2 ++ (0 ∷ 97 ∷ 0 ∷ []) ++ replicate 24 3

abbrev file : File
file = record {
  seek = λ offset. some offset;
  read = λ offset n. some (take n (drop offset content));
}

-- No read succeeds.
abbrev unreadable : File
unreadable = record { seek = λ offset. some offset; read = λ offset n. none }

abbrev section : ℕ → ℕ → ℕ → ℕ → Shdr
section type offset size entsize = record {
  type = type;
  flags = 0;
  offset = offset;
  size = size;
  entsize = entsize;
}

abbrev sections : List Shdr
sections = section 4 0 24 24 ∷ section 3 72 3 0 ∷ section 4 75 24 24 ∷ []

abbrev elf : Elf
elf = record {
  header = record { entry = 0; shoff = 0; shentsize = 64; shnum = 3; shstrndx = 9 };
  sections = sections;
  dynamic = none;
  symtab = none;
  dynsym = none;
  strtab = none;
  dynstr = none;
  rela = none;
}

file-IsFile : IsFile content file
file-IsFile = record { seeks = λ offset. refl; reads = λ offset n h. refl }

get_table-contents_example :
    (get_table file relocations elf).1 ≡ done (replicate 24 1 ++ replicate 24 3)
get_table-contents_example = get_table-contents content file file-IsFile relocations elf refl (
  (omega arith, λ h. (refl, refl)),
  ((omega arith, λ h. ground arith), ((omega arith, λ h. (refl, refl)), tt)),
)

-- A file that ends in the middle of the section of strings.
abbrev short : File
short = record {
  seek = λ offset. some offset;
  read = λ offset n. some (take n (drop offset (take 74 content)));
}

unreadable-IsLimited : IsLimited unreadable
unreadable-IsLimited offset n bytes e = ground arith

get_table-defined_example : (get_table unreadable relocations elf).1 ≢ undefined
get_table-defined_example = get_table-defined unreadable unreadable-IsLimited relocations elf (
  (λ h. (omega arith, omega arith, refl)),
  ((λ h. ground arith), ((λ h. (omega arith, omega arith, refl)), tt)),
)

-- A layout that reads the numbers from single bytes.
abbrev first_byte : List ℕ → ℕ
first_byte [] = 0
first_byte (c ∷ cs) = c

abbrev layout : Layout
layout = record {
  ehdr = λ b. record { entry = first_byte b; shoff = 0; shentsize = 64; shnum = 1; shstrndx = 0 };
  shdr = λ b. section (first_byte b) 0 0 0;
  sym = λ b. record { name = first_byte b; info = 0; shndx = 0; value = 0 };
  dyn = λ b. record { tag = first_byte b; val = 0 };
  rela = λ b. record { offset = first_byte b; info = 0 };
}
