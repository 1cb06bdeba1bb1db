-- ===== src/ElfFile/Bounds.antt =====
-- source/ElfFile.cpp: the vectors that the getters fill, and whether a read runs past their end.
use native.Mathlib.Nat.{div-add-mod, mul-le-mul_left}
use spytester.Base.{
  ℕ, suc, ◌*◌, ◌/◌, ◌%◌, ◌≤◌, ◌<◌, ◌≡◌, ◌≢◌, inl, inr, refl, Bool, true, List, [], ◌∷◌, Option,
  none, some, ◌==◌, ==→eq, Bool-cases, length, if◌then◌else◌, arith,
}
use spytester.ElfFile.{
  File, Elf, Shdr, undefined, Filled, filled, broken, overrun, store_bytes, read_at, read_section,
  fill, extend, if_filled, of_type, table_room, str_room, sizeof_dyn, sizeof_sym, sizeof_rela,
  sht_dynamic, sht_symtab, sht_dynsym, sht_rela, remember, Table, dynamic_table, symbols,
  dynamic_symbols, strings, dynamic_strings, relocations, get_dynamic, get_sym_tab, get_dyn_sym_tab,
  get_str_tab, get_dyn_str_tab, get_rela, get_table, fill_first, fill_rela,
}

-- The sections that hold tables, and the size of the structure that each holds.
abbrev pub is_table : ℕ → Bool
is_table t =
    if t == sht_dynamic
    then true
    else if t == sht_symtab
    then true
    else if t == sht_dynsym
    then true
    else t == sht_rela

abbrev pub entry_size : ℕ → ℕ
entry_size t = if t == sht_dynamic then sizeof_dyn else sizeof_sym

-- Entries that are no larger than the structure they are read into, and none of them cut short.
abbrev pub Fits : Shdr → Type 0
Fits s =
    is_table s.type ≡ true
    → (0 < s.entsize) × (s.entsize ≤ entry_size s.type) × (s.size % s.entsize ≡ 0)

abbrev pub AllFit : List Shdr → Type 0
AllFit [] = Unit {0}
AllFit (s ∷ ss) = Fits s × AllFit ss

-- `read` stores no more than it is asked for.
abbrev pub IsLimited : File → Type 0
IsLimited f = (offset n : ℕ) (bytes : List ℕ) → f.read offset n ≡ some bytes → length bytes ≤ n

store_bytes-safe :
    (room size : ℕ) (o : Option (List ℕ))
    → ((bytes : List ℕ) → o ≡ some bytes → length bytes ≤ size)
    → size ≤ room
    → store_bytes room size o ≢ overrun
unfolding store_bytes
store_bytes-safe room size none lim le = λ e. cc
store_bytes-safe room size (some bytes) lim le = ground (arith, lim bytes refl)

read_at-safe :
    (room size offset : ℕ) (read : ℕ → ℕ → Option (List ℕ)) (o : Option ℕ)
    → ((bytes : List ℕ) → read offset size ≡ some bytes → length bytes ≤ size)
    → size ≤ room
    → read_at room size offset read o ≢ overrun
unfolding read_at
read_at-safe room size offset read none lim le = λ e. cc
read_at-safe room size offset read (some reached) lim le =
    ground (arith, store_bytes-safe room size (read offset size) lim le)

pub remember-safe : (k : Option (List ℕ)) (r : Filled) → r ≢ overrun → (remember k r).1 ≢ undefined
unfolding remember
remember-safe (some v) r h = λ e. cc
remember-safe none (filled v) h = λ e. cc
remember-safe none (broken v) h = λ e. cc
remember-safe none overrun h = absurd (h refl)

whole_room :
    (sizeof : ℕ) (s : Shdr)
    → s.entsize ≤ sizeof
    → s.size % s.entsize ≡ 0
    → s.size ≤ s.size / s.entsize * sizeof
whole_room sizeof s le z =
    omega (arith, mul-le-mul_left (s.size / s.entsize) le, div-add-mod s.size s.entsize)

module _ (f : File) (lim : IsLimited f) where
  read_section-safe : (room : ℕ) (s : Shdr) → s.size ≤ room → read_section f room s ≢ overrun
  unfolding read_section
  read_section-safe room s le =
      read_at-safe room s.size s.offset f.read (f.seek s.offset) (lim s.offset s.size) le

  fill-safe :
      (sizeof : ℕ) (s : Shdr)
      → 0 < s.entsize
      → s.entsize ≤ sizeof
      → s.size % s.entsize ≡ 0
      → fill f (table_room sizeof s) s ≢ overrun
  unfolding fill
  fill-safe sizeof s pos le z =
      ground (arith, read_section-safe (s.size / s.entsize * sizeof) s (whole_room sizeof s le z))

  fill_first-safe :
      (kind : ℕ → Shdr → Bool) (room : Shdr → Option ℕ)
      → ((i : ℕ) (s : Shdr) → Fits s → kind i s ≡ true → fill f (room s) s ≢ overrun)
      → (i : ℕ) (ss : List Shdr) → AllFit ss
      → fill_first f kind room i ss ≢ overrun
  unfolding fill_first
  fill_first-safe kind room g i [] a = λ e. cc
  fill_first-safe kind room g i (s ∷ ss) a = elim (Bool-cases (kind i s)) [
    | inl e ↦ rw e (g i s a.0 e)
    | inr e ↦ rw e (fill_first-safe kind room g (suc i) ss a.1)
  ]

  table-safe :
      (t : ℕ)
      → is_table t ≡ true
      → (i : ℕ) (s : Shdr) → Fits s
      → of_type t i s ≡ true
      → fill f (table_room (entry_size t) s) s ≢ overrun
  table-safe t k i s fits e =
      let same = ==→eq s.type t e in
      let fit = fits (rw same k) in fill-safe (entry_size t) s fit.0 (rw (← same) fit.1) fit.2

  string-safe :
      (kind : ℕ → Shdr → Bool) (i : ℕ) (s : Shdr)
      → Fits s
      → kind i s ≡ true
      → fill f (str_room s) s ≢ overrun
  unfolding fill
  string-safe kind i s fits e = read_section-safe s.size s (omega arith)

  extend-safe : (v : List ℕ) (r : Filled) → r ≢ overrun → extend v r ≢ overrun
  extend-safe v (filled w) h = λ e. cc
  extend-safe v (broken w) h = λ e. cc
  extend-safe v overrun h = absurd (h refl)

  if_filled-safe :
      (r : Filled) (next : List ℕ → Filled)
      → r ≢ overrun
      → ((v : List ℕ) → next v ≢ overrun)
      → if_filled r next ≢ overrun
  if_filled-safe (filled w) next h n = n w
  if_filled-safe (broken w) next h n = λ e. cc
  if_filled-safe overrun next h n = absurd (h refl)

  fill_rela-safe : (v : List ℕ) (ss : List Shdr) → AllFit ss → fill_rela f v ss ≢ overrun
  unfolding fill_rela
  fill_rela-safe v [] a = λ e. cc
  fill_rela-safe v (s ∷ ss) a = elim (Bool-cases (s.type == sht_rela)) [
    | inl e ↦
        rw (e, fill_rela)
          (if_filled-safe (extend v (fill f (table_room sizeof_rela s) s)) _
            (extend-safe v _ (table-safe sht_rela refl 0 s a.0 e)) (λ w. fill_rela-safe w ss a.1))
    | inr e ↦ rw (e, fill_rela) (fill_rela-safe v ss a.1)
  ]

  -- No getter writes past the vector that it has made, or divides by zero, if `read` never stores
  -- more than it is asked for and every section that holds a table gives its entries a size above 0,
  -- no larger than the structure's, and a whole number of them. The file's contents, its reads that
  -- fail and those that fall short, do not matter.
  pub get_table-defined :
      (t : Table) (e : Elf) → AllFit e.sections → (get_table f t e).1 ≢ undefined
  unfolding get_table get_dynamic get_sym_tab get_dyn_sym_tab get_str_tab get_dyn_str_tab get_rela
  get_table-defined dynamic_table e a =
      remember-safe e.dynamic _ (fill_first-safe _ _ (table-safe sht_dynamic refl) 0 e.sections a)
  get_table-defined symbols e a =
      remember-safe e.symtab _ (fill_first-safe _ _ (table-safe sht_symtab refl) 0 e.sections a)
  get_table-defined dynamic_symbols e a =
      remember-safe e.dynsym _ (fill_first-safe _ _ (table-safe sht_dynsym refl) 0 e.sections a)
  get_table-defined strings e a =
      remember-safe e.strtab _ (fill_first-safe _ str_room (string-safe _) 0 e.sections a)
  get_table-defined dynamic_strings e a =
      remember-safe e.dynstr _ (fill_first-safe _ str_room (string-safe _) 0 e.sections a)
  get_table-defined relocations e a = remember-safe e.rela _ (fill_rela-safe [] e.sections a)
