-- ===== src/Base/Counts.antt =====
-- How often a number stands in a list.
use Prim.Native.Nat.{ℕ, ◌+◌}
use mathlib.Core.Path.{◌≡◌}
use mathlib.Core.List.{List, [], ◌∷◌, ◌++◌}
use native.Mathlib.Omega.{arith}
use spytester.Base.Lists.{◌==◌, if◌then◌else◌}

abbrev pub one : ℕ → ℕ → ℕ
one k i = if k == i then 1 else 0

-- How often an id stands in a list.
abbrev pub count : ℕ → List ℕ → ℕ
count k [] = 0
count k (i ∷ is) = one k i + count k is

pub count-append : (k : ℕ) (xs ys : List ℕ) → count k (xs ++ ys) ≡ count k xs + count k ys
count-append k [] ys = omega arith
count-append k (x ∷ xs) ys = omega (arith, count-append k xs ys)
