-- ===== src/BreakPoint/Word.antt =====
-- source/Breakpoint.cpp: the word that `set` writes, byte by byte.
use Prim.Native.Nat.{min, max}
use native.Mathlib.Nat.{pow-suc}
use spytester.Base.{
  ℕ, zero, suc, ◌+◌, ◌-◌, ◌*◌, ◌/◌, ◌^◌, ◌≤◌, ◌<◌, ◌≡◌, refl, ap, ◌∙◌, true, bit_and, bit_or, ◌==◌,
  ==→eq, arith,
}
use spytester.Base.Bits.{
  bit, bit-lt, zero-bit, bit-bit_and, bit-bit_or, passes_below, passes_below-at,
}
use native.Mathlib.Decide.{dec_lt}
use spytester.BreakPoint.{int3, new_word}

-- Numbers with the same bits are equal.
bits_ext : (n x y : ℕ) → x + y ≤ n → ((k : ℕ) → bit x k ≡ bit y k) → x ≡ y
bits_ext zero x y h e = omega arith
bits_ext (suc n) x y h e =
    omega (arith, e 0, bits_ext n (x / 2) (y / 2) (omega arith) (λ k. e (suc k)))

bit_above : (n x k : ℕ) → x < 2 ^ n → n ≤ k → bit x k ≡ 0
bit_above zero zero k h le = zero-bit k
bit_above zero (suc x) k h le = absurd (omega arith)
bit_above (suc n) x zero h le = absurd (omega arith)
bit_above (suc n) x (suc k) h le =
    bit_above n (x / 2) k (omega (arith, pow-suc 2 n, h)) (omega arith)

ones_table : passes_below (λ k. bit (2 ^ 56 - 1) k == 1) 56 ≡ true
unfolding passes_below
ones_table = refl

-- The upper seven bytes meet a mask of 56 ones.
upper_kept : (q k : ℕ) → q < 2 ^ 56 → min (bit q k) (bit (2 ^ 56 - 1) k) ≡ bit q k
upper_kept q k h = elim (dec_lt k 56) [
  | yes lt ↦ omega (
    arith,
    bit-lt q k,
    ==→eq (bit (2 ^ 56 - 1) k) 1
        (passes_below-at (λ j. bit (2 ^ 56 - 1) j == 1) 56 ones_table k lt),
  )
  | no ge ↦ omega (arith, bit_above 56 q k h (omega arith))
]

-- Bits from the ninth on are those of the quotient by 256.
bit_shift : (w k : ℕ) → bit (w / 256) k ≡ bit (w / 2 / 2 / 2 / 2 / 2 / 2 / 2 / 2) k
bit_shift w k = ap (λ x. bit x k) (omega arith)

abbrev masked : ℕ → ℕ
masked w = bit_or (bit_and w (2 ^ 64 - 2 ^ 8)) int3

bit-masked :
    (w k : ℕ) → bit (masked w) k ≡ max (min (bit w k) (bit (2 ^ 64 - 2 ^ 8) k)) (bit int3 k)
bit-masked w k = simp (bit-bit_or, bit-bit_and)

same_bits :
    (w k : ℕ)
    → w < 2 ^ 64
    → max (min (bit w k) (bit (2 ^ 64 - 2 ^ 8) k)) (bit int3 k) ≡ bit (w / 256 * 256 + int3) k
same_bits w zero h = omega arith
same_bits w (suc zero) h = omega arith
same_bits w (suc (suc zero)) h = omega arith
same_bits w (suc (suc (suc zero))) h = omega arith
same_bits w (suc (suc (suc (suc zero)))) h = omega arith
same_bits w (suc (suc (suc (suc (suc zero))))) h = omega arith
same_bits w (suc (suc (suc (suc (suc (suc zero)))))) h = omega arith
same_bits w (suc (suc (suc (suc (suc (suc (suc zero))))))) h = omega arith
same_bits w (suc (suc (suc (suc (suc (suc (suc (suc k)))))))) h = omega (
  arith,
  zero-bit k,
  bit_shift w k,
  bit_shift (w / 256 * 256 + int3) k,
  ap (λ x. bit x k) (quotient w),
  upper_kept (w / 256) k (omega arith),
)
  where
    quotient : (v : ℕ) → (v / 256 * 256 + int3) / 256 ≡ v / 256
    quotient v = omega arith

-- The first byte of the written word is INT3, and the other seven are those of the word read.
pub new_word_lem : (w : ℕ) → w < 2 ^ 64 → new_word w ≡ w / 256 * 256 + int3
unfolding new_word
new_word_lem w h = bits_ext _ _ _ sum_le (λ k. bit-masked w k ∙ same_bits w k h)
  where
    sum_le : masked w + (w / 256 * 256 + int3) ≤ masked w + (w / 256 * 256 + int3)
    sum_le = omega arith
