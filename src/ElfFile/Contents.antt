-- ===== src/ElfFile/Contents.antt =====
-- source/ElfFile.cpp: the getters against a plain description of the tables of a file.
use spytester.Base.{
  ℕ, suc, ◌+◌, ◌*◌, ◌/◌, ◌%◌, ◌^◌, ◌≤◌, ◌<◌, ◌≡◌, inl, inr, refl, sym, ap, ◌∙◌, Bool, true, false,
  List, [], ◌∷◌, ◌++◌, Option, none, some, ltb, lt→ltb, ◌==◌, ==→eq, ==_refl, Bool-cases, length,
  if◌then◌else◌, arith,
}
use native.Mathlib.Nat.{div-add-mod'}
use mathlib.Core.List.{append-nil, append_assoc}
use spytester.Base.Texts.{take, drop, length-take, length-drop}
use spytester.ElfFile.{
  File, Elf, Ehdr, Layout, Built, built, out_of_bounds, build, build_header, build_sections, fresh,
  entries, sizeof_ehdr, sizeof_shdr, Shdr, done, Filled, filled, store_bytes, read_at, read_section,
  fill, extend, if_filled, of_type, is_strtab, table_room, str_room, sht_dynamic, sht_symtab,
  sht_dynsym, sht_rela, remember, Table, dynamic_table, symbols, dynamic_symbols, strings,
  dynamic_strings, relocations, get_dynamic, get_sym_tab, get_dyn_sym_tab, get_str_tab,
  get_dyn_str_tab, get_rela, get_table, fill_first, fill_rela,
}
use spytester.ElfFile.Bounds.{is_table, entry_size}

-- An open file with these contents: an offset can be sought, and what lies within the contents is
-- read in full.
pub record IsFile (content : List ℕ) (f : File) : Type 0 where
  pub seeks : (offset : ℕ) → f.seek offset ≡ some offset
  pub reads :
      (offset n : ℕ)
      → offset + n ≤ length content
      → f.read offset n ≡ some (take n (drop offset content))

-- A section within the contents, of whole entries if it is a table.
abbrev pub Whole : List ℕ → Shdr → Type 0
Whole content s =
    (s.offset + s.size ≤ length content)
    × (is_table s.type ≡ true → (s.entsize ≡ entry_size s.type) × (s.size % entry_size s.type ≡ 0))

abbrev pub AllWhole : List ℕ → List Shdr → Type 0
AllWhole content [] = Unit {0}
AllWhole content (s ∷ ss) = Whole content s × AllWhole content ss

-- The bytes of a section, those of the first section of a kind, and those of all relocations.
abbrev pub slice : List ℕ → Shdr → List ℕ
slice content s = take s.size (drop s.offset content)

abbrev pub first_slice : List ℕ → (ℕ → Shdr → Bool) → ℕ → List Shdr → List ℕ
first_slice content kind i [] = []
first_slice content kind i (s ∷ ss) =
    let later = first_slice content kind (suc i) ss in if kind i s then slice content s else later

abbrev pub rela_slices : List ℕ → List Shdr → List ℕ
rela_slices content [] = []
rela_slices content (s ∷ ss) =
    let later = rela_slices content ss in
    if s.type == sht_rela then slice content s ++ later else later

abbrev pub contents : List ℕ → Table → Elf → List ℕ
contents content dynamic_table e = first_slice content (of_type sht_dynamic) 0 e.sections
contents content symbols e = first_slice content (of_type sht_symtab) 0 e.sections
contents content dynamic_symbols e = first_slice content (of_type sht_dynsym) 0 e.sections
contents content strings e = first_slice content (is_strtab false e.header.shstrndx) 0 e.sections
contents content dynamic_strings e =
    first_slice content (is_strtab true e.header.shstrndx) 0 e.sections
contents content relocations e = rela_slices content e.sections

-- A table that has not been asked for.
abbrev pub IsUnread : Table → Elf → Type 0
IsUnread dynamic_table e = e.dynamic ≡ none
IsUnread symbols e = e.symtab ≡ none
IsUnread dynamic_symbols e = e.dynsym ≡ none
IsUnread strings e = e.strtab ≡ none
IsUnread dynamic_strings e = e.dynstr ≡ none
IsUnread relocations e = e.rela ≡ none

remember_new :
    (k : Option (List ℕ)) (r : Filled) (v : List ℕ)
    → k ≡ none
    → r ≡ filled v
    → (remember k r).1 ≡ done v
unfolding remember
remember_new k r v e g = rw (e, g) refl

whole_table :
    (z : ℕ) (s : Shdr) → 0 < z → s.entsize ≡ z → s.size % z ≡ 0 → table_room z s ≡ some s.size
whole_table z s pos e w = elim (Bool-cases (s.entsize == 0)) [
  | inl n ↦ absurd (omega (arith, ==→eq s.entsize 0 n))
  | inr n ↦ rw n (ap some (ap (λ k. s.size / k * z) e ∙ omega (arith, div-add-mod' s.size z)))
]

module _ (content : List ℕ) (f : File) (law : IsFile content f) where
  slice-length :
      (offset n : ℕ) → offset + n ≤ length content → length (take n (drop offset content)) ≡ n
  slice-length offset n h =
      length-take n (drop offset content) (omega (arith, length-drop offset content (omega arith)))

  store_bytes-slice :
      (offset n : ℕ)
      → offset + n ≤ length content
      → store_bytes n n (f.read offset n) ≡ filled (take n (drop offset content))
  unfolding store_bytes
  store_bytes-slice offset n h =
      rw (law.reads offset n h)
        (ground (arith, slice-length offset n h, append-nil (take n (drop offset content))))

  read_at-slice :
      (offset n : ℕ)
      → offset + n ≤ length content
      → read_at n n offset f.read (f.seek offset) ≡ filled (take n (drop offset content))
  unfolding read_at
  read_at-slice offset n h =
      rw (law.seeks offset) (rw (==_refl offset) (store_bytes-slice offset n h))

  read_section-slice :
      (s : Shdr)
      → s.offset + s.size ≤ length content
      → read_section f s.size s ≡ filled (slice content s)
  unfolding read_section
  read_section-slice s h = read_at-slice s.offset s.size h

  string-slice : (s : Shdr) → Whole content s → fill f (str_room s) s ≡ filled (slice content s)
  unfolding fill
  string-slice s w = read_section-slice s w.0

  table-slice :
      (t i : ℕ) (s : Shdr)
      → is_table t ≡ true
      → 0 < entry_size t
      → Whole content s
      → of_type t i s ≡ true
      → fill f (table_room (entry_size t) s) s ≡ filled (slice content s)
  unfolding fill
  table-slice t i s k pos w e =
      let same = ==→eq s.type t e in
      let fit = w.1 (rw same k) in
      rw (whole_table (entry_size t) s pos (rw (← same) fit.0) (rw (← same) fit.1))
        (read_section-slice s w.0)

  fill_first-slice :
      (kind : ℕ → Shdr → Bool) (room : Shdr → Option ℕ)
      → ((i : ℕ) (s : Shdr)
          → Whole content s
          → kind i s ≡ true
          → fill f (room s) s ≡ filled (slice content s))
      → (i : ℕ) (ss : List Shdr) → AllWhole content ss
      → fill_first f kind room i ss ≡ filled (first_slice content kind i ss)
  unfolding fill_first
  fill_first-slice kind room g i [] w = refl
  fill_first-slice kind room g i (s ∷ ss) w = elim (Bool-cases (kind i s)) [
    | inl e ↦ rw e (g i s w.0 e)
    | inr e ↦ rw e (fill_first-slice kind room g (suc i) ss w.1)
  ]

  fill_rela-slices :
      (v : List ℕ) (ss : List Shdr)
      → AllWhole content ss
      → fill_rela f v ss ≡ filled (v ++ rela_slices content ss)
  unfolding fill_rela
  fill_rela-slices v [] w = ap filled (sym (append-nil v))
  fill_rela-slices v (s ∷ ss) w = elim (Bool-cases (s.type == sht_rela)) [
    | inl e ↦
        rw (e, fill_rela)
          (ap (λ r. if_filled (extend v r) (λ v'. fill_rela f v' ss))
              (table-slice sht_rela 0 s refl (omega arith) w.0 e)
            ∙ fill_rela-slices (v ++ slice content s) ss w.1
            ∙ ap filled (append_assoc v (slice content s) (rela_slices content ss)))
    | inr e ↦ rw (e, fill_rela) (fill_rela-slices v ss w.1)
  ]

  -- On a file of readable contents, whose sections lie within them and hold whole entries of the
  -- structures' sizes: the first call of each getter returns the bytes of the first section of its
  -- kind, or nothing if there is none; that of `getRela` returns the bytes of all sections of
  -- relocations, in the order of the sections.
  pub get_table-contents :
      (t : Table) (e : Elf)
      → IsUnread t e
      → AllWhole content e.sections
      → (get_table f t e).1 ≡ done (contents content t e)
  unfolding get_table get_dynamic get_sym_tab get_dyn_sym_tab get_str_tab get_dyn_str_tab get_rela
  get_table-contents dynamic_table e h w =
      remember_new e.dynamic _ _ h (
        fill_first-slice _ _ (λ i s. table-slice sht_dynamic i s refl (omega arith)) 0 e.sections w)
  get_table-contents symbols e h w =
      remember_new e.symtab _ _ h
        (fill_first-slice _ _ (λ i s. table-slice sht_symtab i s refl (omega arith)) 0 e.sections w)
  get_table-contents dynamic_symbols e h w =
      remember_new e.dynsym _ _ h
        (fill_first-slice _ _ (λ i s. table-slice sht_dynsym i s refl (omega arith)) 0 e.sections w)
  get_table-contents strings e h w =
      remember_new e.strtab _ _ h
        (fill_first-slice _ str_room (λ i s h _. string-slice s h) 0 e.sections w)
  get_table-contents dynamic_strings e h w =
      remember_new e.dynstr _ _ h
        (fill_first-slice _ str_room (λ i s h _. string-slice s h) 0 e.sections w)
  get_table-contents relocations e h w =
      remember_new e.rela _ _ h (fill_rela-slices [] e.sections w)

  -- On a file of readable contents that hold an ELF header and, where it says, the section headers,
  -- each of the structure's size and fewer than 2 ^ 31 bytes in all: the constructor succeeds, with
  -- the header and the section headers that the contents hold, and no table read.
  build-contents :
      (lay : Layout)
      → sizeof_ehdr ≤ length content
      → (lay.ehdr (take sizeof_ehdr content)).shoff
          + (lay.ehdr (take sizeof_ehdr content)).shnum * sizeof_shdr
        ≤ length content
      → (lay.ehdr (take sizeof_ehdr content)).shentsize ≡ sizeof_shdr
      → (lay.ehdr (take sizeof_ehdr content)).shnum * sizeof_shdr < 2 ^ 31
      → let h = lay.ehdr (take sizeof_ehdr content) in
        build lay (some f)
        ≡ built (
            fresh h (
              entries h.shnum sizeof_shdr lay.shdr
                (take (h.shnum * sizeof_shdr) (drop h.shoff content))))
  unfolding build build_header build_sections
  build-contents lay hh hs z small =
      ap (build_header lay f) (store_bytes-slice 0 sizeof_ehdr (omega arith))
      ∙ header (lay.ehdr (take sizeof_ehdr content)) hs z small
    where
      sections_of : Ehdr → ℕ → Built
      sections_of h n =
          if ltb n (2 ^ 31)
          then build_sections lay h
              (read_at (h.shnum * sizeof_shdr) n h.shoff f.read (f.seek h.shoff))
          else out_of_bounds

      header :
          (h : Ehdr)
          → h.shoff + h.shnum * sizeof_shdr ≤ length content
          → h.shentsize ≡ sizeof_shdr
          → h.shnum * sizeof_shdr < 2 ^ 31
          → sections_of h (h.shnum * h.shentsize)
            ≡ built (
                fresh h (
                  entries h.shnum sizeof_shdr lay.shdr
                    (take (h.shnum * sizeof_shdr) (drop h.shoff content))))
      header h inside whole few =
          ap (λ k. sections_of h (h.shnum * k)) whole
          ∙ rw (lt→ltb (h.shnum * sizeof_shdr) (2 ^ 31) few)
              (ap (build_sections lay h) (read_at-slice h.shoff (h.shnum * sizeof_shdr) inside))
