-- ===== src/Base/Texts.antt =====
-- Texts as lists of bytes, and the parts of lists that are read by position.
use Prim.Native.Nat.{ℕ, zero, suc, ◌+◌, ◌≤◌}
use mathlib.Core.Path.{◌≡◌, refl, ap}
use mathlib.Core.Bool.{Bool, true, false}
use mathlib.Core.Option.{Option, none, some}
use mathlib.Core.List.{List, [], ◌∷◌}
use native.Mathlib.Omega.{arith}
use spytester.Base.Lists.{ltb, ◌==◌, length, if◌then◌else◌}

abbrev pub Text : Type 0
Text = List ℕ

abbrev pub same_text : Text → Text → Bool
same_text [] [] = true
same_text (a ∷ s) (b ∷ t) = let rest = same_text s t in if a == b then rest else false
same_text _ _ = false

pub same_text→eq : (s t : Text) → same_text s t ≡ true → s ≡ t
same_text→eq [] [] h = refl
same_text→eq [] (b ∷ t) h = cc
same_text→eq (a ∷ s) [] h = cc
same_text→eq (a ∷ s) (b ∷ t) h = ground (arith, same_text→eq s t)

pub same_text_refl : (s : Text) → same_text s s ≡ true
same_text_refl [] = refl
same_text_refl (a ∷ s) = ground (arith, same_text_refl s)

module _ {ℓ} {A : Type ℓ} where
  abbrev pub take : ℕ → List A → List A
  take zero xs = []
  take (suc n) [] = []
  take (suc n) (x ∷ xs) = x ∷ take n xs

  abbrev pub drop : ℕ → List A → List A
  drop zero xs = xs
  drop (suc n) [] = []
  drop (suc n) (x ∷ xs) = drop n xs

  abbrev pub replicate : ℕ → A → List A
  replicate zero x = []
  replicate (suc n) x = x ∷ replicate n x

  pub length-replicate : (n : ℕ) (x : A) → length (replicate n x) ≡ n
  length-replicate zero x = refl
  length-replicate (suc n) x = ap suc (length-replicate n x)

  pub length-take : (n : ℕ) (xs : List A) → n ≤ length xs → length (take n xs) ≡ n
  length-take zero xs h = refl
  length-take (suc n) [] h = absurd (omega arith)
  length-take (suc n) (x ∷ xs) h = ap suc (length-take n xs (omega arith))

  pub length-drop : (n : ℕ) (xs : List A) → n ≤ length xs → length (drop n xs) + n ≡ length xs
  length-drop zero xs h = omega arith
  length-drop (suc n) [] h = absurd (omega arith)
  length-drop (suc n) (x ∷ xs) h = omega (arith, length-drop n xs)

-- The characters of an array from an offset to the next NUL; `none` runs past its end.
unfoldable pub until_nul : List ℕ → Option Text
until_nul [] = none
until_nul (c ∷ cs) =
    let rest = until_nul cs in
    if c == 0 then some [] else elim rest [ none ↦ none | some t ↦ some (c ∷ t) ]

unfoldable pub c_string : List ℕ → ℕ → Option Text
unfolding until_nul
c_string cs off = until_nul (drop off cs)

-- `std::string::find_last_of` for one character.
unfoldable pub find_last_of : ℕ → Text → Option ℕ
find_last_of c [] = none
find_last_of c (x ∷ xs) = elim (find_last_of c xs) [
  | some i ↦ some (suc i)
  | none ↦ if x == c then some 0 else none
]

-- The order of std::string.
unfoldable pub less_text : Text → Text → Bool
less_text s [] = false
less_text [] (b ∷ t) = true
less_text (a ∷ s) (b ∷ t) =
    let rest = less_text s t in if ltb a b then true else if a == b then rest else false
