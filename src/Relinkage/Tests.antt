-- ===== src/Relinkage/Tests.antt =====
-- source/Relinkage.cpp: relocations in a page that `mprotect` opens for writing.
use spytester.Base.{ℕ, ◌≡◌, refl, true, false, [], ◌∷◌, some, arith}
use mathlib.Core.Path.{sym, subst}
use spytester.Relinkage.{Space, Relinkage, write_relocations, collect, relink, invalidate}
use spytester.Relinkage.Range.{write_relocations-descending}
use spytester.Relinkage.Swap.{Fresh}
use spytester.Relinkage.Installing.{Installed}
use spytester.Relinkage.Redirect.{IsSpread, relink-invalidate}
use spytester.Relinkage.Sample.{whole, whole-IsMprotect, space, dynamic_symbol, relas, collect_two}

relink-invalidate_example :
    (r1 : Relinkage) × (s1 : Space) × (relink 4096 whole dynamic_symbol relas space ≡ some (r1, s1))
    × Installed (collect dynamic_symbol relas) s1.words
    × ((x : ℕ) → Fresh x (collect dynamic_symbol relas) → s1.words x ≡ x)
    × (r2 : Relinkage) × (s2 : Space) × (invalidate 4096 whole r1 s1 ≡ some (r2, s2))
    × (s2.words ≡ space.words)
    × (r2.validity ≡ false)
relink-invalidate_example =
    relink-invalidate 4096 whole (omega arith) whole-IsMprotect
      (λ s a n. (record s { writable = λ x. true }, refl)) dynamic_symbol relas space
      (subst (IsSpread 4096) (sym collect_two) (omega arith, (omega arith, tt), refl))

-- A single relocation is not written.
write_relocations-descending_example :
    write_relocations 4096 whole (record { addr = 0x3018; value = 0x7001 } ∷ []) space
    ≡ some (record { addr = 0x3018; value = 0x7001 } ∷ [], space)
write_relocations-descending_example =
    write_relocations-descending 4096 whole (record { addr = 0x3018; value = 0x7001 } ∷ []) space
      (omega arith, tt)
