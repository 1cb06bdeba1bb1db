-- ===== src/Base/Bits.antt =====
-- The bits of the native numbers, and the laws of `bit_and` and `bit_or` read bit by bit.
use Prim.Native.Nat.{
  ℕ, zero, suc, ◌+◌, ◌*◌, ◌/◌, ◌%◌, ◌≤◌, ◌<◌, min, max, bit_and, bit_or, digits, bit_and-bitwise,
  bit_or-bitwise,
}
use mathlib.Core.Path.{◌≡◌, refl, sym, ap, ◌∙◌}
use mathlib.Core.Bool.{Bool, true, ◌&&◌}
use native.Mathlib.Omega.{arith}

-- Bit k of x.
abbrev pub bit : ℕ → ℕ → ℕ
bit x zero = x % 2
bit x (suc k) = bit (x / 2) k

pub bit-lt : (x k : ℕ) → bit x k < 2
bit-lt x zero = omega arith
bit-lt x (suc k) = bit-lt (x / 2) k

pub zero-bit : (k : ℕ) → bit 0 k ≡ 0
zero-bit zero = refl
zero-bit (suc k) = zero-bit k

-- A digit-wise operation acts on each bit by itself.
module _ (z : ℕ → ℕ) (f : ℕ → ℕ → ℕ) (rest : (b k : ℕ) → bit (z b) k ≡ f 0 (bit b k))
    (small : (x y : ℕ) → x < 2 → y < 2 → f x y < 2) where
  bit-digits : (n a b k : ℕ) → a ≤ n → bit (digits z f n a b) k ≡ f (bit a k) (bit b k)
  bit-digits zero zero b k h = rest b k ∙ ap (λ t. f t (bit b k)) (sym (zero-bit k))
  bit-digits zero (suc a) b k h = absurd (omega arith)
  bit-digits (suc n) zero b k h = rest b k ∙ ap (λ t. f t (bit b k)) (sym (zero-bit k))
  bit-digits (suc n) (suc a) b zero h =
      omega (arith, small (suc a % 2) (b % 2) (omega arith) (omega arith))
  bit-digits (suc n) (suc a) b (suc k) h =
      ap (λ t. bit t k) halved ∙ bit-digits n (suc a / 2) (b / 2) k (omega arith)
    where
      halved :
          (digits z f n (suc a / 2) (b / 2) * 2 + f (suc a % 2) (b % 2)) / 2
          ≡ digits z f n (suc a / 2) (b / 2)
      halved = omega (arith, small (suc a % 2) (b % 2) (omega arith) (omega arith))

pub bit-bit_and : (a b k : ℕ) → bit (bit_and a b) k ≡ min (bit a k) (bit b k)
bit-bit_and a b k = rw (bit_and-bitwise a b) (
    bit-digits (λ b. zero) min (λ b j. zero-bit j ∙ omega arith) (λ x y p q. omega arith) a a b k
      (omega arith))

pub bit-bit_or : (a b k : ℕ) → bit (bit_or a b) k ≡ max (bit a k) (bit b k)
bit-bit_or a b k =
    rw (bit_or-bitwise a b)
      (bit-digits (λ b. b) max (λ b j. omega arith) (λ x y p q. omega arith) a a b k (omega arith))

-- A test that passes at every number under n, found by evaluation.
unfoldable pub passes_below : (ℕ → Bool) → ℕ → Bool
passes_below test zero = true
passes_below test (suc n) = passes_below test n && test n

pub passes_below-at :
    (test : ℕ → Bool) (n : ℕ) → passes_below test n ≡ true → (x : ℕ) → x < n → test x ≡ true
unfolding passes_below
passes_below-at test zero all x below = absurd (omega arith)
passes_below-at test (suc n) all x below = ground (arith, passes_below-at test n (ground arith) x)
