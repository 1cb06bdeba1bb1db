-- ===== src/ElfFile/Cache/Reading.antt =====
-- source/ElfFile.cpp: the vectors that a read which fails leaves behind.
use spytester.Base.{
  ℕ, suc, ◌≡◌, ◌⊎◌, inl, inr, refl, sym, ap, ◌∙◌, Bool, true, false, Bool-cases, List, [], ◌∷◌,
  ◌++◌, Option, none, some, ◌==◌, arith,
}
use spytester.ElfFile.{
  File, Elf, Shdr, Filled, filled, broken, overrun, over, Table, dynamic_table, symbols,
  dynamic_symbols, strings, dynamic_strings, relocations, store_bytes, read_at, read_section, fill,
  fill_first, fill_rela, of_type, table_room, is_strtab, str_room, sizeof_dyn, sizeof_sym,
  sizeof_rela, sht_dynamic, sht_symtab, sht_dynsym, sht_rela, extend, if_filled,
}

-- The reading that the first call of a getter makes.
abbrev pub reading : File → Table → Elf → Filled
reading f dynamic_table e = fill_first f (of_type sht_dynamic) (table_room sizeof_dyn) 0 e.sections
reading f symbols e = fill_first f (of_type sht_symtab) (table_room sizeof_sym) 0 e.sections
reading f dynamic_symbols e = fill_first f (of_type sht_dynsym) (table_room sizeof_sym) 0 e.sections
reading f strings e = fill_first f (is_strtab false e.header.shstrndx) str_room 0 e.sections
reading f dynamic_strings e = fill_first f (is_strtab true e.header.shstrndx) str_room 0 e.sections
reading f relocations e = fill_rela f [] e.sections

-- What `read` stored for a section: nothing, or the bytes that it gave.
abbrev pub IsStored : File → Shdr → List ℕ → Type 0
IsStored f s bytes = (bytes ≡ []) ⊎ (f.read s.offset s.size ≡ some bytes)

-- A vector as a read that fails for one of the sections leaves it: what was stored for that section
-- and zeros, behind the bytes `earlier`.
abbrev pub TornAt : File → (List Shdr → List ℕ → Type 0) → List Shdr → List ℕ → Type 0
TornAt f Before ss v =
    (before : List Shdr) × (s : Shdr) × (after : List Shdr) × (earlier : List ℕ) × (room : ℕ)
    × (bytes : List ℕ) × (ss ≡ before ++ s ∷ after)
    × Before before earlier
    × (v ≡ earlier ++ over room bytes)
    × IsStored f s bytes

-- Only the relocations have bytes in front: those that the sections before give.
abbrev pub Torn : File → Table → List Shdr → List ℕ → Type 0
Torn f relocations ss v = TornAt f (λ before earlier. fill_rela f [] before ≡ filled earlier) ss v
Torn f _ ss v = TornAt f (λ before earlier. earlier ≡ []) ss v

-- A read that fails, into a vector of its own.
Tears : File → Shdr → Filled → Type 0
Tears f s r =
    (v : List ℕ)
    → r ≡ broken v
    → (room : ℕ) × (bytes : List ℕ) × (v ≡ over room bytes) × IsStored f s bytes

broken_injective : {v w : List ℕ} → broken v ≡ broken w → v ≡ w
broken_injective e = cc

store_bytes-Torn :
    (room size : ℕ) (got : Option (List ℕ)) (v : List ℕ)
    → store_bytes room size got ≡ broken v
    → (bytes : List ℕ) × (v ≡ over room bytes) × ((bytes ≡ []) ⊎ (got ≡ some bytes))
unfolding store_bytes
store_bytes-Torn room size none v e = ([], cc, inl refl)
store_bytes-Torn room size (some bytes) v e = (bytes, ground arith, inr refl)

read_at-Torn :
    (room size offset : ℕ) (read : ℕ → ℕ → Option (List ℕ)) (reached : Option ℕ) (v : List ℕ)
    → read_at room size offset read reached ≡ broken v
    → (bytes : List ℕ) × (v ≡ over room bytes) × ((bytes ≡ []) ⊎ (read offset size ≡ some bytes))
unfolding read_at
read_at-Torn room size offset read none v e = ([], cc, inl refl)
read_at-Torn room size offset read (some reached) v e = elim (Bool-cases (reached == offset)) [
  | inl h ↦ store_bytes-Torn room size (read offset size) v (rw h at e)
  | inr h ↦ ([], broken_injective (sym (rw h at e)), inl refl)
]

fill-Tears : (f : File) (room : Option ℕ) (s : Shdr) → Tears f s (fill f room s)
unfolding fill read_section Tears
fill-Tears f none s v e = cc
fill-Tears f (some room) s v e =
    let (bytes, same, from) = read_at-Torn room s.size s.offset f.read (f.seek s.offset) v e in
    (room, bytes, same, from)

fill_first-Torn :
    (f : File) (kind : ℕ → Shdr → Bool) (room : Shdr → Option ℕ) (i : ℕ) (ss : List Shdr)
    (v : List ℕ)
    → fill_first f kind room i ss ≡ broken v
    → TornAt f (λ before earlier. earlier ≡ []) ss v
unfolding fill_first Tears
fill_first-Torn f kind room i [] v e = cc
fill_first-Torn f kind room i (s ∷ ss) v e = elim (Bool-cases (kind i s)) [
  | inl h ↦
      let (size, bytes, same, from) = fill-Tears f (room s) s v (rw h at e) in
      ([], s, ss, [], size, bytes, refl, refl, same, from)
  | inr h ↦
      let (before, x, after, earlier, size, bytes, split, none_there, same, from) =
        fill_first-Torn f kind room (suc i) ss v (rw h at e) in
      (s ∷ before, x, after, earlier, size, bytes, ap (λ l. s ∷ l) split, none_there, same, from)
]

-- What the sections give behind the bytes that are there.
abbrev TornBehind : File → List ℕ → List Shdr → List ℕ → Type 0
TornBehind f start ss v =
    TornAt f (λ before earlier. fill_rela f start before ≡ filled earlier) ss v

-- The section s of relocations, by how its part is read.
rela-Torn :
    (f : File) (start : List ℕ) (s : Shdr) (ss : List Shdr) (part : Filled) (v : List ℕ)
    → s.type == sht_rela ≡ true
    → fill f (table_room sizeof_rela s) s ≡ part
    → Tears f s part
    → ((w : List ℕ) → fill_rela f w ss ≡ broken v → TornBehind f w ss v)
    → if_filled (extend start part) (λ w. fill_rela f w ss) ≡ broken v
    → TornBehind f start (s ∷ ss) v
unfolding Tears fill_rela
rela-Torn f start s ss (filled w) v h p torn later e =
    let (before, x, after, earlier, size, bytes, split, given, same, from) = later (start ++ w) e in
    (
      s ∷ before,
      x,
      after,
      earlier,
      size,
      bytes,
      ap (λ l. s ∷ l) split,
      rw (h, fill_rela) (rw p given),
      same,
      from,
    )
rela-Torn f start s ss (broken w) v h p torn later e =
    let (size, bytes, same, from) = torn w refl in
    (
      [],
      s,
      ss,
      start,
      size,
      bytes,
      refl,
      refl,
      broken_injective (sym e) ∙ ap (λ l. start ++ l) same,
      from,
    )
rela-Torn f start s ss overrun v h p torn later e = cc

fill_rela-Torn :
    (f : File) (start : List ℕ) (ss : List Shdr) (v : List ℕ)
    → fill_rela f start ss ≡ broken v
    → TornBehind f start ss v
unfolding fill_rela
fill_rela-Torn f start [] v e = cc
fill_rela-Torn f start (s ∷ ss) v e = elim (Bool-cases (s.type == sht_rela)) [
  | inl h ↦
      rela-Torn f start s ss (fill f (table_room sizeof_rela s) s) v h refl
        (fill-Tears f (table_room sizeof_rela s) s) (λ w. fill_rela-Torn f w ss v)
        (rw (h, fill_rela) at e)
  | inr h ↦
      let (before, x, after, earlier, size, bytes, split, given, same, from) =
        fill_rela-Torn f start ss v (rw (h, fill_rela) at e) in
      (
        s ∷ before,
        x,
        after,
        earlier,
        size,
        bytes,
        ap (λ l. s ∷ l) split,
        rw (h, fill_rela) given,
        same,
        from,
      )
]

pub reading-Torn :
    (f : File) (t : Table) (e : Elf) (v : List ℕ) → reading f t e ≡ broken v → Torn f t e.sections v
reading-Torn f dynamic_table e v h = fill_first-Torn f _ _ 0 e.sections v h
reading-Torn f symbols e v h = fill_first-Torn f _ _ 0 e.sections v h
reading-Torn f dynamic_symbols e v h = fill_first-Torn f _ _ 0 e.sections v h
reading-Torn f strings e v h = fill_first-Torn f _ _ 0 e.sections v h
reading-Torn f dynamic_strings e v h = fill_first-Torn f _ _ 0 e.sections v h
reading-Torn f relocations e v h = fill_rela-Torn f [] e.sections v h
