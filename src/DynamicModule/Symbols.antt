-- ===== src/DynamicModule/Symbols.antt =====
-- source/DynamicModule.cpp: where a symbol is found.
use spytester.Base.{
  ℕ, ◌≡◌, ◌≢◌, inl, inr, refl, ap, ◌∙◌, Bool, true, false, ◌&&◌, List, [], ◌∷◌, Option, none, some,
  Bool-cases, if◌then◌else◌, find_if,
}
use spytester.Base.Texts.{Text, same_text, c_string}
use spytester.ElfFile.{Elf, Sym, Layout, Outcome, done, Table}
use spytester.ElfFile.Contents.{contents}
use spytester.DynamicModule.{is_defined, after, syms_of, placed, match_name, find_symbol}

-- Every defined symbol has a name that ends within the strings.
abbrev pub AllNamed : List ℕ → List Sym → Type 0
AllNamed strs [] = Unit {0}
AllNamed strs (s ∷ ss) = (is_defined s ≡ true → c_string strs s.name ≢ none) × AllNamed strs ss

abbrev pub has_name : Text → Option Text → Bool
has_name symb_name none = false
has_name symb_name (some t) = same_text symb_name t

-- A function or an object that is defined in the binary under a name.
abbrev pub defines : List ℕ → Text → Sym → Bool
defines strs symb_name s = is_defined s && has_name symb_name (c_string strs s.name)

abbrev found_at : ℕ → Option Sym → ℕ
found_at l_addr none = 0
found_at l_addr (some s) = placed l_addr s.value

-- The address of the first such symbol, or 0.
abbrev pub lookup : ℕ → List ℕ → Text → List Sym → ℕ
lookup l_addr strs symb_name syms = found_at l_addr (find_if (defines strs symb_name) syms)

match_name_lem :
    (l_addr : ℕ) (symb_name : Text) (s : Sym) (later : Outcome ℕ) (o : Option Text)
    → o ≢ none
    → match_name l_addr symb_name s later o
      ≡ (if has_name symb_name o then done (placed l_addr s.value) else later)
unfolding match_name
match_name_lem l_addr symb_name s later none h = absurd (h refl)
match_name_lem l_addr symb_name s later (some t) h = refl

pub find_symbol-lookup :
    (l_addr : ℕ) (strs : List ℕ) (symb_name : Text) (syms : List Sym)
    → AllNamed strs syms
    → find_symbol l_addr strs symb_name syms ≡ done (lookup l_addr strs symb_name syms)
unfolding find_symbol find_if
find_symbol-lookup l_addr strs symb_name [] n = refl
find_symbol-lookup l_addr strs symb_name (s ∷ ss) n = elim (Bool-cases (is_defined s)) [
  | inr e ↦ rw e (find_symbol-lookup l_addr strs symb_name ss n.1)
  | inl e ↦ rw e (
      match_name_lem l_addr symb_name s _ (c_string strs s.name) (n.0 e)
      ∙ elim (Bool-cases (has_name symb_name (c_string strs s.name))) [
        | inl h ↦ rw h
        | inr h ↦ rw h (find_symbol-lookup l_addr strs symb_name ss n.1)
      ])
]

pub after_done {ℓ κ} :
    {A : Type ℓ} {B : Type κ} (p : Elf × Outcome A) (next : A → Elf → Elf × Outcome B) (a : A)
    → p.1 ≡ done a
    → after p next ≡ next a p.0
unfolding after
after_done p next a h = ap (λ out. after (p.0, out) next) h

-- The strings and the symbols that a lookup reads, in a file's contents.
abbrev pub lookup_in : List ℕ → Layout → ℕ → Table → Table → Text → Elf → ℕ
lookup_in content lay l_addr strs syms symb_name e =
    lookup l_addr (contents content strs e) symb_name (syms_of lay (contents content syms e))
