-- ===== src/DynamicModule/Links/Tests.antt =====
-- source/DynamicModule.cpp: module 1, which needs the library `z`, and module 2, which is that library.
use mathlib.Core.Path.{subst}
use spytester.Base.{ℕ, ◌≡◌, refl, sym, true, List, [], ◌∷◌, some, none, if◌then◌else◌, ◌==◌, arith}
use spytester.Base.Texts.{Text, c_string, until_nul}
use spytester.ElfFile.{DynEntry}
use spytester.Relinkage.{Rela, collect}
use spytester.Relinkage.Sample.{whole, whole-IsMprotect, space, dynamic_symbol, relas, collect_two}
use spytester.Relinkage.Installing.{Installed}
use spytester.Relinkage.Redirect.{IsSpread}
use spytester.DynamicModule.Links.{World, is_needed, relink_module, unrelink}
use spytester.DynamicModule.Links.Entries.{IsRegistered}
use spytester.DynamicModule.Links.Registry.{
  LinkCall, relink_call, unrelink_call, IfEnds, link_calls, link_calls-IsRegistered,
}
use spytester.DynamicModule.Links.Undo.{SameLinks, relink-unrelink}

abbrev name : ℕ → Text
name m = if m == 2 then b'z' ∷ [] else []

abbrev module_relas : ℕ → List Rela
module_relas m = if m == 1 then relas else []

abbrev dynstr : ℕ → List ℕ
dynstr m = 0 ∷ b'z' ∷ 0 ∷ []

abbrev dynamic : ℕ → List DynEntry
dynamic m = record { tag = 5; val = 0 } ∷ record { tag = 1; val = 1 } ∷ []

abbrev world : World
world = record { space = space; out = λ s l. none; ins = λ d. []; alive = λ m. true }

abbrev calls : List LinkCall
calls = relink_call 1 2 ∷ relink_call 1 2 ∷ unrelink_call 1 (b'z' ∷ []) ∷ relink_call 1 2 ∷ []

link_calls-IsRegistered_example :
    IfEnds IsRegistered
      (link_calls 4096 whole name module_relas (λ m. dynamic_symbol) dynstr dynamic calls world)
link_calls-IsRegistered_example =
    link_calls-IsRegistered 4096 whole name module_relas (λ m. dynamic_symbol) dynstr dynamic calls
      world (λ s l d. refl)

relink-unrelink_example :
    (w1 : World) × (relink_module 4096 whole name module_relas
        (λ m. dynamic_symbol)
        dynstr
        dynamic
        1
        2
        world
      ≡ some w1)
    × Installed (collect dynamic_symbol relas) w1.space.words
    × (w2 : World) × (unrelink 4096 whole 1 (b'z' ∷ []) w1 ≡ some w2)
    × (w2.space.words ≡ space.words)
    × SameLinks world w2
unfolding is_needed c_string until_nul
relink-unrelink_example =
    relink-unrelink 4096 whole (omega arith) whole-IsMprotect
      (λ s a n. (record s { writable = λ x. true }, refl)) name module_relas (λ m. dynamic_symbol)
      dynstr dynamic 1 2 world refl refl (λ s l d. refl) refl
      (subst (IsSpread 4096) (sym collect_two) (omega arith, (omega arith, tt), refl))
