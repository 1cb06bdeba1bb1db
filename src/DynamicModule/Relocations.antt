-- ===== src/DynamicModule/Relocations.antt =====
-- source/DynamicModule.cpp, with the callback of source/Relinkage.cpp: the relocations of a module.
use mathlib.Core.List.{append-nil, append_assoc}
use spytester.Base.{
  ℕ, ◌%◌, ◌^◌, ◌≡◌, ◌≢◌, refl, sym, ap, ◌∙◌, Bool, true, false, List, [], ◌∷◌, ◌++◌, Option, none,
  some, if◌then◌else◌,
}
use spytester.Base.Texts.{Text}
use spytester.ElfFile.{
  File, Elf, Sym, RelaEntry, Layout, Outcome, done, dynamic_strings, dynamic_symbols, relocations,
  get_table, get_rela, get_dyn_sym_tab, get_dyn_str_tab,
}
use spytester.ElfFile.Contents.{IsFile, IsUnread, AllWhole, contents, get_table-contents}
use spytester.Relinkage.{Rela, Reloc, find_rela, collect}
use spytester.DynamicModule.{
  syms_of, relas_of, placed, rela_name, OnRela, go_on, on_named, iterate_from,
  iterate_over_relocations,
}
use spytester.DynamicModule.Symbols.{after_done}

abbrev name_or_empty : Option Text → Text
name_or_empty none = []
name_or_empty (some t) = t

-- A relocation as the callback is shown it.
abbrev pub row : ℕ → List ℕ → List Sym → RelaEntry → Rela
row l_addr strs syms r = record {
  type = r.info % 2 ^ 32;
  name = name_or_empty (rela_name strs syms r);
  addr = placed l_addr r.offset;
}

abbrev pub rows : ℕ → List ℕ → List Sym → List RelaEntry → List Rela
rows l_addr strs syms [] = []
rows l_addr strs syms (r ∷ rs) = row l_addr strs syms r ∷ rows l_addr strs syms rs

-- Every relocation has a symbol, and that a name which ends within the strings.
abbrev pub AllRelasNamed : List ℕ → List Sym → List RelaEntry → Type 0
AllRelasNamed strs syms [] = Unit {0}
AllRelasNamed strs syms (r ∷ rs) = (rela_name strs syms r ≢ none) × AllRelasNamed strs syms rs

-- The callback on the rows, until it stops.
abbrev pub visit : {S : Type 0} → OnRela S → S → List Rela → S
visit on_rela s [] = s
visit on_rela s (r ∷ rs) =
    let (s', next) = on_rela s r.type r.name r.addr in
    let rest = visit on_rela s' rs in if next then rest else s'

module _ {S : Type 0} (on_rela : OnRela S) (l_addr : ℕ) (strs : List ℕ) (syms : List Sym) where
  go_on_done :
      (rest : S → Outcome S) (rest' : S → S) (p : S × Bool)
      → ((s : S) → rest s ≡ done (rest' s))
      → go_on on_rela l_addr strs syms rest p ≡ done (if p.1 then rest' p.0 else p.0)
  unfolding go_on
  go_on_done rest rest' (s, true) h = h s
  go_on_done rest rest' (s, false) h = refl

  on_named_done :
      (rest : S → Outcome S) (rest' : S → S) (s : S) (r : RelaEntry) (o : Option Text)
      → o ≢ none
      → ((s : S) → rest s ≡ done (rest' s))
      → on_named on_rela l_addr strs syms rest s r o
        ≡ done (
            let (s', next) =
              on_rela s (r.info % 2 ^ 32) (name_or_empty o) (placed l_addr r.offset) in
            if next then rest' s' else s')
  unfolding on_named
  on_named_done rest rest' s r none n h = absurd (n refl)
  on_named_done rest rest' s r (some name) n h = go_on_done rest rest' _ h

  pub iterate_from-visit :
      (s : S) (rs : List RelaEntry)
      → AllRelasNamed strs syms rs
      → iterate_from on_rela l_addr strs syms s rs
        ≡ done (visit on_rela s (rows l_addr strs syms rs))
  unfolding iterate_from
  iterate_from-visit s [] n = refl
  iterate_from-visit s (r ∷ rs) n =
      on_named_done _ (λ s'. visit on_rela s' (rows l_addr strs syms rs)) s r
        (rela_name strs syms r) n.0 (λ s'. iterate_from-visit s' rs n.1)

add_if :
    (dynamic_symbol : Text → ℕ) (acc : List Reloc) (rs : List Rela) (b : Bool) (r : Reloc)
    → ((acc : List Reloc)
        → visit (find_rela dynamic_symbol) acc rs ≡ acc ++ collect dynamic_symbol rs)
    → visit (find_rela dynamic_symbol) (if b then acc ++ (r ∷ []) else acc) rs
      ≡ acc ++ (if b then r ∷ collect dynamic_symbol rs else collect dynamic_symbol rs)
add_if dynamic_symbol acc rs true r ih =
    ih (acc ++ (r ∷ [])) ∙ append_assoc acc (r ∷ []) (collect dynamic_symbol rs)
add_if dynamic_symbol acc rs false r ih = ih acc

visit-collect :
    (dynamic_symbol : Text → ℕ) (acc : List Reloc) (rs : List Rela)
    → visit (find_rela dynamic_symbol) acc rs ≡ acc ++ collect dynamic_symbol rs
unfolding collect find_rela
visit-collect dynamic_symbol acc [] = sym (append-nil acc)
visit-collect dynamic_symbol acc (r ∷ rs) =
    add_if dynamic_symbol acc rs _ _ (λ acc'. visit-collect dynamic_symbol acc' rs)

-- The rows of a file's relocations.
abbrev pub rows_in : List ℕ → Layout → ℕ → Elf → List Rela
rows_in content lay l_addr e =
    rows l_addr (contents content dynamic_strings e)
      (syms_of lay (contents content dynamic_symbols e))
      (relas_of lay (contents content relocations e))

module _ (content : List ℕ) (f : File) (law : IsFile content f) (lay : Layout) (l_addr : ℕ) where
  -- On a readable ELF file none of whose tables has been asked for, whose sections lie within its
  -- contents and hold whole entries, and whose relocations all have a symbol with a name:
  -- `iterateOverRelocations` calls its callback on the type, the name and the address of each
  -- relocation of all sections, in their order, until the callback stops it.
  iterate_over_relocations-visit :
      {S : Type 0} (on_rela : OnRela S) (s : S) (e : Elf)
      → AllWhole content e.sections
      → IsUnread dynamic_strings e
      → IsUnread dynamic_symbols e
      → IsUnread relocations e
      → AllRelasNamed
          (contents content dynamic_strings e)
          (syms_of lay (contents content dynamic_symbols e))
          (relas_of lay (contents content relocations e))
      → (iterate_over_relocations f lay l_addr on_rela s e).1
        ≡ done (visit on_rela s (rows_in content lay l_addr e))
  unfolding iterate_over_relocations get_dyn_str_tab get_dyn_sym_tab get_rela get_table
  iterate_over_relocations-visit on_rela s e w u1 u2 u3 n =
      ap (λ p. p.1)
        (after_done (get_dyn_str_tab f e) _ _
            (get_table-contents content f law dynamic_strings e u1 w)
          ∙ after_done (get_dyn_sym_tab f e1) _ _
              (get_table-contents content f law dynamic_symbols e1 u2 w)
          ∙ after_done (get_rela f e2) _ _ (get_table-contents content f law relocations e2 u3 w))
      ∙ iterate_from-visit on_rela l_addr _ _ s _ n
    where
      e1 : Elf
      e1 = (get_dyn_str_tab f e).0

      e2 : Elf
      e2 = (get_dyn_sym_tab f e1).0

  -- On a readable ELF file none of whose tables has been asked for, whose sections lie within its
  -- contents and hold whole entries, and whose relocations all have a symbol with a name: the
  -- relocations that a relinkage of the module collects by its callback are those of type GLOB_DAT or
  -- JUMP_SLOT whose symbol the destination defines, in the order of the sections.
  pub iterate_over_relocations-collect :
      (dynamic_symbol : Text → ℕ) (e : Elf)
      → AllWhole content e.sections
      → IsUnread dynamic_strings e
      → IsUnread dynamic_symbols e
      → IsUnread relocations e
      → AllRelasNamed
          (contents content dynamic_strings e)
          (syms_of lay (contents content dynamic_symbols e))
          (relas_of lay (contents content relocations e))
      → (iterate_over_relocations f lay l_addr (find_rela dynamic_symbol) [] e).1
        ≡ done (collect dynamic_symbol (rows_in content lay l_addr e))
  iterate_over_relocations-collect dynamic_symbol e w u1 u2 u3 n =
      iterate_over_relocations-visit (find_rela dynamic_symbol) [] e w u1 u2 u3 n
      ∙ ap done (visit-collect dynamic_symbol [] (rows_in content lay l_addr e))
