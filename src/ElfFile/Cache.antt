-- ===== src/ElfFile/Cache.antt =====
-- source/ElfFile.cpp: the vectors that are kept after the first call of a getter.
pub mod Reading
use spytester.Base.{
  ℕ, suc, ◌≡◌, ◌⊎◌, inl, inr, sym, ◌∙◌, Bool, true, false, Bool-cases, List, [], ◌∷◌, ◌++◌, Option,
  none, some, ◌==◌, arith,
}
use spytester.ElfFile.{
  File, Elf, Shdr, Outcome, done, thrown, Filled, filled, broken, overrun, over, Table,
  dynamic_table, symbols, dynamic_symbols, strings, dynamic_strings, relocations, store_bytes,
  read_at, read_section, fill, fill_first, fill_rela, of_type, table_room, is_strtab, str_room,
  sizeof_dyn, sizeof_sym, sizeof_rela, sht_dynamic, sht_symtab, sht_dynsym, sht_rela, extend,
  if_filled,
}
use spytester.ElfFile.Cache.Reading.{Torn}

-- The optional that a getter fills.
abbrev pub kept_of : Table → Elf → Option (List ℕ)
kept_of dynamic_table e = e.dynamic
kept_of symbols e = e.symtab
kept_of dynamic_symbols e = e.dynsym
kept_of strings e = e.strtab
kept_of dynamic_strings e = e.dynstr
kept_of relocations e = e.rela

-- What two calls of a getter give, by what was kept before and what the first call reads.
abbrev pub BothCalls :
    File
    → Table
    → List Shdr
    → Option (List ℕ)
    → Filled
    → Outcome (List ℕ)
    → Outcome (List ℕ)
    → Type 0
BothCalls f t ss (some v) r out again = (out ≡ done v) × (again ≡ done v)
BothCalls f t ss none (filled v) out again = (out ≡ done v) × (again ≡ done v)
BothCalls f t ss none (broken v) out again = (out ≡ thrown) × (again ≡ done v) × Torn f t ss v
BothCalls f t ss none overrun out again = ⊥
