-- ===== src/Logger/Prefix.antt =====
-- source/Logger.cpp: what a prefix says.
use spytester.Base.{
  ℕ, zero, suc, ◌+◌, ◌-◌, ◌*◌, ◌/◌, ◌%◌, ◌<◌, ◌≡◌, refl, sym, ap, ◌∙◌, [], ◌∷◌, ◌++◌, none, some,
  ltb, length, ◌≢◌, ==_refl, inl, inr, Bool-cases, arith,
}
use spytester.Base.Texts.{Text, drop, find_last_of}
use spytester.Logger.{decimal_from, to_string, file_part, prefix}

-- Reads a number back, digit by digit.
abbrev pub read_from : ℕ → Text → ℕ
read_from n [] = n
read_from n (d ∷ ds) = read_from (10 * n + (d - b'0')) ds

read_from-append :
    (n : ℕ) (s : Text) (d : ℕ) → read_from n (s ++ d ∷ []) ≡ 10 * read_from n s + (d - b'0')
read_from-append n [] d = refl
read_from-append n (c ∷ s) d = read_from-append (10 * n + (c - b'0')) s d

decimal_from-read : (fuel n : ℕ) → n < fuel → read_from 0 (decimal_from fuel n) ≡ n
unfolding decimal_from
decimal_from-read zero n h = absurd (omega arith)
decimal_from-read (suc fuel) n h = elim (Bool-cases (ltb n 10)) [
  | inl e ↦ rw e (omega arith)
  | inr e ↦ rw e (
      read_from-append 0 (decimal_from fuel (n / 10)) (b'0' + n % 10)
      ∙ ground (arith, decimal_from-read fuel (n / 10)))
]

find_last_of-append :
    (c : ℕ) (dir base : Text)
    → find_last_of c base ≡ none
    → find_last_of c (dir ++ c ∷ base) ≡ some (length dir)
unfolding find_last_of
find_last_of-append c [] base h = rw (h, ==_refl c) refl
find_last_of-append c (d ∷ dir) base h = rw (find_last_of-append c dir base h) refl

drop_all : (dir : Text) (c : ℕ) (base : Text) → drop (suc (length dir)) (dir ++ c ∷ base) ≡ base
drop_all [] c base = refl
drop_all (d ∷ dir) c base = drop_all dir c base

abbrev pub HasNo : ℕ → Text → Type 0
HasNo c [] = Unit {0}
HasNo c (x ∷ xs) = (x ≢ c) × HasNo c xs

HasNo-find : (c : ℕ) (base : Text) → HasNo c base → find_last_of c base ≡ none
unfolding find_last_of
HasNo-find c [] h = refl
HasNo-find c (x ∷ xs) h = rw (HasNo-find c xs h.1) (ground (arith, h.0))

-- For a file name without a slash and a directory of any kind: the prefix is the name, a colon, the
-- line in digits, and the function in brackets; it is the same whatever directory the file's path
-- begins with; and the digits, read back, are the line.
prefix-file :
    (dir base function : Text) (line : ℕ)
    → HasNo b'/' base
    → (digits : Text) × (prefix base function line
        ≡ base ++ (b':' ∷ (digits ++ (b' ' ∷ b'[' ∷ (function ++ (b']' ∷ []))))))
      × (prefix (dir ++ b'/' ∷ base) function line ≡ prefix base function line)
      × (read_from 0 digits ≡ line)
unfolding prefix to_string
prefix-file dir base function line h = (
  to_string line,
  rw (HasNo-find b'/' base h) refl,
  ap (λ t. t ++ (b':' ∷ (to_string line ++ (b' ' ∷ b'[' ∷ (function ++ (b']' ∷ []))))))
      (ap (file_part (dir ++ b'/' ∷ base))
          (find_last_of-append b'/' dir base (HasNo-find b'/' base h))
        ∙ drop_all dir b'/' base
        ∙ sym (ap (file_part base) (HasNo-find b'/' base h))),
  decimal_from-read (suc line) line (omega arith),
)
