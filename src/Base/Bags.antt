-- ===== src/Base/Bags.antt =====
-- Bags of numbers: lists without their order.
use Prim.Native.Nat.{ℕ, ◌-◌}
use mathlib.Core.Path.{◌≡◌}
use mathlib.Core.Quot
use mathlib.Core.Quot.{Quot, Quot-set}
use mathlib.Core.List.{List, [], ◌∷◌}
use native.Mathlib.Omega.{arith}
use spytester.Base.Lists.{◌==◌, if◌then◌else◌}
use spytester.Base.Counts.{one, count}

abbrev pub HaveSame : List ℕ → List ℕ → Type 0
HaveSame xs ys = (k : ℕ) → count k xs ≡ count k ys

abbrev pub Bag : Type 0
Bag = Quot HaveSame

abbrev pub bag_of : List ℕ → Bag
bag_of = Quot.mk

-- How often a number is in a bag.
unfoldable pub among : ℕ → Bag → ℕ
among k = Quot.lift (hlevel) (count k) λ xs ys h. h k

unfoldable pub put : ℕ → Bag → Bag
put i = Quot.lift Quot-set (λ xs. bag_of (i ∷ xs)) λ xs ys h. Quot.sound λ k. omega (arith, h k)

abbrev pub without : ℕ → List ℕ → List ℕ
without i [] = []
without i (j ∷ js) = let rest = without i js in if i == j then js else j ∷ rest

pub count-without : (k i : ℕ) (js : List ℕ) → count k (without i js) ≡ count k js - one k i
count-without k i [] = ground arith
count-without k i (j ∷ js) = ground (arith, count-without k i js)

-- A number that is not in the bag changes nothing.
unfoldable pub take_out : ℕ → Bag → Bag
take_out i =
    Quot.lift Quot-set (λ xs. bag_of (without i xs))
      λ xs ys h. Quot.sound λ k. omega (arith, h k, count-without k i xs, count-without k i ys)
