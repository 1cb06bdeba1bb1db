-- ===== src/ElfFile.antt =====
-- include/ElfFile.h and source/ElfFile.cpp: an ELF file whose tables are read on demand and kept. The
-- open file is a parameter, `File`, and so is `Layout`, what the structures of <elf.h> say of their
-- bytes. A table is kept as the bytes of its vector. What C++ leaves undefined, a division by zero
-- or a write past a vector, is an outcome of its own.
mod Cache
mod Bounds
pub mod Contents
pub mod Files
mod Tests
use spytester.Base.{
  ℕ, zero, suc, ◌+◌, ◌-◌, ◌*◌, ◌/◌, ◌^◌, ◌≤◌, ◌≡◌, Bool, true, false, ◌&&◌, not, List, [], ◌∷◌,
  ◌++◌, Option, none, some, bit_and, ltb, leb, ◌==◌, if◌then◌else◌, length,
}
use spytester.Base.Texts.{Text, take, drop, replicate}

-- `lseek` to an offset gives the offset reached, and `read` from an offset the bytes that it stores,
-- as many as asked for at most; `none` is -1.
pub record File : Type 0 where
  pub seek : ℕ → Option ℕ
  pub read : ℕ → ℕ → Option (List ℕ)

pub record Ehdr : Type 0 where
  pub entry : ℕ
  pub shoff : ℕ
  pub shentsize : ℕ
  pub shnum : ℕ
  pub shstrndx : ℕ

pub record Shdr : Type 0 where
  pub type : ℕ
  pub flags : ℕ
  pub offset : ℕ
  pub size : ℕ
  pub entsize : ℕ

pub record Sym : Type 0 where
  pub name : ℕ
  pub info : ℕ
  pub shndx : ℕ
  pub value : ℕ

pub record DynEntry : Type 0 where
  pub tag : ℕ
  pub val : ℕ

pub record RelaEntry : Type 0 where
  pub offset : ℕ
  pub info : ℕ

pub record Layout : Type 0 where
  pub ehdr : List ℕ → Ehdr
  pub shdr : List ℕ → Shdr
  pub sym : List ℕ → Sym
  pub dyn : List ℕ → DynEntry
  pub rela : List ℕ → RelaEntry

-- The sizes of the structures, the section types and the flag that the code names.
abbrev pub sizeof_ehdr : ℕ
sizeof_ehdr = 64

abbrev pub sizeof_shdr : ℕ
sizeof_shdr = 64

abbrev pub sizeof_sym : ℕ
sizeof_sym = 24

abbrev pub sizeof_dyn : ℕ
sizeof_dyn = 16

abbrev pub sizeof_rela : ℕ
sizeof_rela = 24

abbrev pub sht_symtab : ℕ
sht_symtab = 2

abbrev pub sht_strtab : ℕ
sht_strtab = 3

abbrev pub sht_rela : ℕ
sht_rela = 4

abbrev pub sht_dynamic : ℕ
sht_dynamic = 6

abbrev pub sht_dynsym : ℕ
sht_dynsym = 11

abbrev pub shf_alloc : ℕ
shf_alloc = 2

pub data Outcome {ℓ} (A : Type ℓ) : Type ℓ where
  done : A → Outcome A
  thrown undefined : Outcome A

-- The entries of a vector, from its bytes.
unfoldable pub entries {ℓ} : {A : Type ℓ} → ℕ → ℕ → (List ℕ → A) → List ℕ → List A
entries zero size decode bytes = []
entries (suc n) size decode bytes =
    decode (take size bytes) ∷ entries n size decode (drop size bytes)

-- The object: its header, its section headers, and the six optional vectors.
pub record Elf : Type 0 where
  pub header : Ehdr
  pub sections : List Shdr
  pub dynamic : Option (List ℕ)
  pub symtab : Option (List ℕ)
  pub dynsym : Option (List ℕ)
  pub strtab : Option (List ℕ)
  pub dynstr : Option (List ℕ)
  pub rela : Option (List ℕ)

-- A buffer that has been written from its start.
abbrev pub over : ℕ → List ℕ → List ℕ
over room bytes = bytes ++ replicate (room - length bytes) 0

-- A vector after reading: complete, or as it stands when the read has thrown.
pub data Filled : Type 0 where
  filled broken : List ℕ → Filled
  overrun : Filled

-- `read` for `size` bytes into a buffer of `room` bytes, with the test on the bytes read.
unfoldable pub store_bytes : ℕ → ℕ → Option (List ℕ) → Filled
store_bytes room size none = broken (over room [])
store_bytes room size (some bytes) =
    if ltb room (length bytes)
    then overrun
    else if length bytes == size
    then filled (over room bytes)
    else broken (over room bytes)

unfoldable pub read_at : ℕ → ℕ → ℕ → (ℕ → ℕ → Option (List ℕ)) → Option ℕ → Filled
unfolding store_bytes
read_at room size offset read none = broken (over room [])
read_at room size offset read (some reached) =
    if reached == offset then store_bytes room size (read offset size) else broken (over room [])

-- What `emplace` leaves in the optional, and what the getter then returns.
unfoldable pub remember : Option (List ℕ) → Filled → Option (List ℕ) × Outcome (List ℕ)
remember (some v) r = (some v, done v)
remember none (filled v) = (some v, done v)
remember none (broken v) = (some v, thrown)
remember none overrun = (none, undefined)

abbrev pub table_room : ℕ → Shdr → Option ℕ
table_room sizeof s = if s.entsize == 0 then none else some (s.size / s.entsize * sizeof)

abbrev pub of_type : ℕ → ℕ → Shdr → Bool
of_type t i s = s.type == t

-- The tests of the two string tables, by the SHF_ALLOC flag.
abbrev pub is_strtab : Bool → ℕ → ℕ → Shdr → Bool
is_strtab allocated shstrndx i s =
    let alloc = not (bit_and s.flags shf_alloc == 0) in
    (s.type == sht_strtab) && (if allocated then alloc else not alloc) && not (i == shstrndx)

abbrev pub str_room : Shdr → Option ℕ
str_room s = some s.size

-- A further part of the vector of relocations, behind the `v` that is there.
abbrev pub extend : List ℕ → Filled → Filled
extend v (filled part) = filled (v ++ part)
extend v (broken part) = broken (v ++ part)
extend v overrun = overrun

abbrev pub if_filled : Filled → (List ℕ → Filled) → Filled
if_filled (filled v) next = next v
if_filled (broken v) next = broken v
if_filled overrun next = overrun

module _ (f : File) where
  -- `readSection` into a buffer of `room` bytes.
  unfoldable pub read_section : ℕ → Shdr → Filled
  unfolding read_at
  read_section room s = read_at room s.size s.offset f.read (f.seek s.offset)

  -- `v.resize(...)` and `readSection`, for a vector of that many bytes; the number of entries of a
  -- table may be undefined.
  unfoldable pub fill : Option ℕ → Shdr → Filled
  unfolding read_section
  fill none s = overrun
  fill (some room) s = read_section room s

  -- The loops that end at the first section of a kind; `i` counts the sections passed.
  unfoldable pub fill_first : (ℕ → Shdr → Bool) → (Shdr → Option ℕ) → ℕ → List Shdr → Filled
  unfolding fill
  fill_first kind room i [] = filled []
  fill_first kind room i (s ∷ ss) =
      let later = fill_first kind room (suc i) ss in if kind i s then fill (room s) s else later

  unfoldable pub get_dynamic : Elf → Elf × Outcome (List ℕ)
  unfolding remember fill_first
  get_dynamic e =
      let (kept, out) =
        remember e.dynamic
          (fill_first (of_type sht_dynamic) (table_room sizeof_dyn) 0 e.sections) in
      (record e { dynamic = kept }, out)

  unfoldable pub get_sym_tab : Elf → Elf × Outcome (List ℕ)
  unfolding remember fill_first
  get_sym_tab e =
      let (kept, out) =
        remember e.symtab (fill_first (of_type sht_symtab) (table_room sizeof_sym) 0 e.sections) in
      (record e { symtab = kept }, out)

  unfoldable pub get_dyn_sym_tab : Elf → Elf × Outcome (List ℕ)
  unfolding remember fill_first
  get_dyn_sym_tab e =
      let (kept, out) =
        remember e.dynsym (fill_first (of_type sht_dynsym) (table_room sizeof_sym) 0 e.sections) in
      (record e { dynsym = kept }, out)

  unfoldable pub get_str_tab : Elf → Elf × Outcome (List ℕ)
  unfolding remember fill_first
  get_str_tab e =
      let (kept, out) =
        remember e.strtab (fill_first (is_strtab false e.header.shstrndx) str_room 0 e.sections) in
      (record e { strtab = kept }, out)

  unfoldable pub get_dyn_str_tab : Elf → Elf × Outcome (List ℕ)
  unfolding remember fill_first
  get_dyn_str_tab e =
      let (kept, out) =
        remember e.dynstr (fill_first (is_strtab true e.header.shstrndx) str_room 0 e.sections) in
      (record e { dynstr = kept }, out)

  -- The loop of `getRela`, over all sections of relocations.
  unfoldable pub fill_rela : List ℕ → List Shdr → Filled
  unfolding fill
  fill_rela v [] = filled v
  fill_rela v (s ∷ ss) = elim (s.type == sht_rela) [
    | true ↦ if_filled (extend v (fill (table_room sizeof_rela s) s)) (λ v'. fill_rela v' ss)
    | false ↦ fill_rela v ss
  ]

  unfoldable pub get_rela : Elf → Elf × Outcome (List ℕ)
  unfolding remember fill_rela
  get_rela e =
      let (kept, out) = remember e.rela (fill_rela [] e.sections) in (record e { rela = kept }, out)

-- The six getters, by the table that they give.
pub data Table : Type 0 where
  dynamic_table symbols dynamic_symbols strings dynamic_strings relocations : Table

module _ (f : File) where
  unfoldable pub get_table : Table → Elf → Elf × Outcome (List ℕ)
  get_table dynamic_table = get_dynamic f
  get_table symbols = get_sym_tab f
  get_table dynamic_symbols = get_dyn_sym_tab f
  get_table strings = get_str_tab f
  get_table dynamic_strings = get_dyn_str_tab f
  get_table relocations = get_rela f

-- The constructor: the file cannot be opened, it is closed again after a failed read, or it is read.
pub data Built : Type 0 where
  built : Elf → Built
  not_opened closed_again out_of_bounds : Built

-- The object before any table is asked for.
abbrev pub fresh : Ehdr → List Shdr → Elf
fresh h ss = record {
  header = h;
  sections = ss;
  dynamic = none;
  symtab = none;
  dynsym = none;
  strtab = none;
  dynstr = none;
  rela = none;
}

module _ (lay : Layout) where
  build_sections : Ehdr → Filled → Built
  build_sections h (filled v) = built (fresh h (entries h.shnum sizeof_shdr lay.shdr v))
  build_sections h (broken v) = closed_again
  build_sections h overrun = out_of_bounds

  -- `e_shnum * e_shentsize` is an `int`.
  build_header : File → Filled → Built
  unfolding build_sections read_at
  build_header f (filled v) =
      let h = lay.ehdr v in
      let bytes = h.shnum * h.shentsize in
      if ltb bytes (2 ^ 31)
      then build_sections h (read_at (h.shnum * sizeof_shdr) bytes h.shoff f.read (f.seek h.shoff))
      else out_of_bounds
  build_header f (broken v) = closed_again
  build_header f overrun = out_of_bounds

  unfoldable pub build : Option File → Built
  unfolding build_header store_bytes
  build none = not_opened
  build (some f) = build_header f (store_bytes sizeof_ehdr sizeof_ehdr (f.read 0 sizeof_ehdr))
