-- ===== src/DynamicModule.antt =====
-- include/DynamicModule.h and source/DynamicModule.cpp: a module of the dynamic linker, whose symbols
-- and relocations are found in its ELF file. The object keeps the file's tables as they are asked
-- for; the address at which the module is loaded, `l_addr` of its link map, is a parameter.
mod Symbols
mod Relocations
pub mod Links
mod Opening
mod Tests
use spytester.Base.{
  ℕ, ◌+◌, ◌*◌, ◌/◌, ◌%◌, ◌^◌, Bool, true, false, ◌&&◌, ◌||◌, not, List, [], ◌∷◌, Option, none, some,
  ◌==◌, if◌then◌else◌, length, get_elem?,
}
use spytester.Base.Texts.{Text, same_text, c_string}
use spytester.ElfFile.{
  File, Elf, Sym, DynEntry, RelaEntry, Layout, Outcome, done, thrown, undefined, entries,
  sizeof_sym, sizeof_dyn, sizeof_rela, get_dynamic, get_sym_tab, get_dyn_sym_tab, get_str_tab,
  get_dyn_str_tab, get_rela,
}

-- STT_OBJECT and STT_FUNC; `ELF64_ST_TYPE` is the low half of a byte.
abbrev pub is_defined : Sym → Bool
is_defined s = (s.info % 16 == 2 || s.info % 16 == 1) && not (s.shndx == 0)

-- What a step on the file's object hands on.
unfoldable pub after {ℓ κ} :
    {A : Type ℓ} {B : Type κ} → Elf × Outcome A → (A → Elf → Elf × Outcome B) → Elf × Outcome B
after (e, done a) next = next a e
after (e, thrown) next = (e, thrown)
after (e, undefined) next = (e, undefined)

-- The vectors that the bytes stand for.
abbrev pub syms_of : Layout → List ℕ → List Sym
syms_of lay v = entries (length v / sizeof_sym) sizeof_sym lay.sym v

abbrev pub relas_of : Layout → List ℕ → List RelaEntry
relas_of lay v = entries (length v / sizeof_rela) sizeof_rela lay.rela v

-- `l_addr + st_value`, in 64 bits.
abbrev pub placed : ℕ → ℕ → ℕ
placed l_addr value = (l_addr + value) % 2 ^ 64

-- The test of a symbol's name, which reads the string table, and what follows where it differs.
unfoldable pub match_name : ℕ → Text → Sym → Outcome ℕ → Option Text → Outcome ℕ
match_name l_addr symb_name s later none = undefined
match_name l_addr symb_name s later (some t) =
    if same_text symb_name t then done (placed l_addr s.value) else later

-- The loop over a table of symbols; 0 is the null pointer.
unfoldable pub find_symbol : ℕ → List ℕ → Text → List Sym → Outcome ℕ
unfolding match_name c_string
find_symbol l_addr strs symb_name [] = done 0
find_symbol l_addr strs symb_name (s ∷ ss) =
    let later = find_symbol l_addr strs symb_name ss in
    if is_defined s then match_name l_addr symb_name s later (c_string strs s.name) else later

-- The callback of `iterateOverRelocations`, over what it changes: the relocation's type, the name of
-- its symbol and its address go to whether the loop goes on.
abbrev pub OnRela : Type 0 → Type 0
OnRela S = S → ℕ → Text → ℕ → S × Bool

abbrev named : List ℕ → Option Sym → Option Text
named strs none = none
named strs (some s) = c_string strs s.name

-- `&dynstr[dynsym[ELF64_R_SYM(r_info)].st_name]`.
unfoldable pub rela_name : List ℕ → List Sym → RelaEntry → Option Text
unfolding c_string
rela_name strs syms r = named strs (get_elem? syms (r.info / 2 ^ 32))

module _ {S : Type 0} (on_rela : OnRela S) (l_addr : ℕ) (strs : List ℕ) (syms : List Sym) where
  -- The test of the callback's result; `rest` is the loop over the relocations that follow.
  unfoldable pub go_on : (S → Outcome S) → S × Bool → Outcome S
  go_on rest (s, true) = rest s
  go_on rest (s, false) = done s

  unfoldable pub on_named : (S → Outcome S) → S → RelaEntry → Option Text → Outcome S
  unfolding go_on
  on_named rest s r none = undefined
  on_named rest s r (some name) =
      go_on rest (on_rela s (r.info % 2 ^ 32) name (placed l_addr r.offset))

  unfoldable pub iterate_from : S → List RelaEntry → Outcome S
  unfolding rela_name on_named
  iterate_from s [] = done s
  iterate_from s (r ∷ rs) = on_named (λ s'. iterate_from s' rs) s r (rela_name strs syms r)

module _ (f : File) (lay : Layout) (l_addr : ℕ) where
  unfoldable pub get_dynamic_symbol : Text → Elf → Elf × Outcome ℕ
  unfolding after find_symbol
  get_dynamic_symbol symb_name e = after (get_dyn_str_tab f e) λ dynstr e1.
      after (get_dyn_sym_tab f e1)
        λ dynsym e2. (e2, find_symbol l_addr dynstr symb_name (syms_of lay dynsym))

  -- The search in the other table of symbols.
  unfoldable pub get_static_symbol : Text → Elf → Elf × Outcome ℕ
  unfolding after find_symbol
  get_static_symbol symb_name e = after (get_str_tab f e) λ strtab e1.
      after (get_sym_tab f e1)
        λ symtab e2. (e2, find_symbol l_addr strtab symb_name (syms_of lay symtab))

  unfoldable pub get_symbol : Text → Elf → Elf × Outcome ℕ
  unfolding after get_dynamic_symbol get_static_symbol
  get_symbol symb_name e =
      after (get_dynamic_symbol symb_name e)
        λ addr e1. if addr == 0 then get_static_symbol symb_name e1 else (e1, done addr)

  -- `getSymbol` on a pointer: the name that `dladdr` gives, empty if it gives none, is looked up.
  unfoldable pub get_symbol_of : Text → Elf → Elf × Outcome ℕ
  unfolding get_symbol
  get_symbol_of [] e = (e, done 0)
  get_symbol_of (c ∷ cs) e = get_symbol (c ∷ cs) e

  unfoldable pub iterate_over_relocations : {S : Type 0} → OnRela S → S → Elf → Elf × Outcome S
  unfolding after iterate_from
  iterate_over_relocations on_rela s e = after (get_dyn_str_tab f e) λ dynstr e1.
      after (get_dyn_sym_tab f e1) λ dynsym e2. after (get_rela f e2) λ rela e3.
        (e3, iterate_from on_rela l_addr dynstr (syms_of lay dynsym) s (relas_of lay rela))

  -- The null pointer for an ELF header without an entry point.
  unfoldable pub get_entry_point : Elf → ℕ
  get_entry_point e = if e.header.entry == 0 then 0 else placed l_addr e.header.entry
