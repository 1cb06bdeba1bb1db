-- ===== src/WatchPoint/Dr7.antt =====
-- source/WatchPoint.cpp: the word that is written to dr7, bit by bit. Slot i has its enable bits at
-- 2i and 2i + 1, its trigger at 16 + 4i and 17 + 4i, and its length at the two bits above.
use Prim.Native.Nat.{min, max}
use spytester.Base.{
  ℕ, zero, suc, ◌+◌, ◌-◌, ◌*◌, ◌/◌, ◌<◌, ◌≡◌, refl, ◌∙◌, Bool, true, ◌&&◌, leb, ◌==◌, ==→eq,
  if◌then◌else◌, arith,
}
use spytester.Base.Bits.{bit, bit-lt, bit-bit_and, bit-bit_or, passes_below, passes_below-at}
use spytester.WatchPoint.{
  Trigger, Size, execution, write, read_write, bytes1, bytes2, bytes4, bytes8, trigger_code,
  size_code, keep_mask, enable_mask, trigger_mask, size_mask, disable_mask, programmed, disabled,
}

-- What bit k is to become, where b is its value before.
abbrev pub enabled_bit : ℕ → ℕ → Bool
enabled_bit i k = k / 2 == i

abbrev pub control_bit : ℕ → ℕ → Bool
control_bit i k = (k - 16) / 4 == i && leb 16 k

abbrev pub wanted : ℕ → Trigger → Size → ℕ → ℕ → ℕ
wanted i t s k b =
    if enabled_bit i k
    then 1
    else if control_bit i k
    then bit (trigger_code t + 4 * size_code s) (k - (16 + 4 * i))
    else b

-- What the code makes of it, mask by mask.
abbrev obtained : ℕ → Trigger → Size → ℕ → ℕ → ℕ
obtained i t s k b =
    max (max (max (min b (bit (keep_mask i) k)) (bit (enable_mask i) k)) (bit (trigger_mask i t) k))
      (bit (size_mask i s) k)

bit-programmed :
    (dr7 i : ℕ) (t : Trigger) (s : Size) (k : ℕ)
    → bit (programmed dr7 i t s) k ≡ obtained i t s k (bit dr7 k)
unfolding programmed
bit-programmed dr7 i t s k = simp (bit-bit_or, bit-bit_and)

-- At both values that a bit can have.
both : (ℕ → ℕ → Bool) → ℕ → Bool
both test k = test k 0 && test k 1

both-at : (test : ℕ → ℕ → Bool) (k b : ℕ) → both test k ≡ true → b < 2 → test k b ≡ true
unfolding both
both-at test k zero h lt = ground arith
both-at test k (suc zero) h lt = ground arith
both-at test k (suc (suc b)) h lt = absurd (omega arith)

low_test : ℕ → Trigger → Size → ℕ → ℕ → Bool
low_test i t s k b = obtained i t s k b == wanted i t s k b

low_table : ℕ → Trigger → Size → Bool
unfolding low_test both passes_below
low_table i t s = passes_below (both (low_test i t s)) 32

low_slots : Trigger → Size → Bool
unfolding low_table passes_below
low_slots t s = passes_below (λ i. low_table i t s) 4

low_slots-all : (t : Trigger) (s : Size) → low_slots t s ≡ true
unfolding low_slots
low_slots-all execution bytes1 = refl
low_slots-all execution bytes2 = refl
low_slots-all execution bytes4 = refl
low_slots-all execution bytes8 = refl
low_slots-all write bytes1 = refl
low_slots-all write bytes2 = refl
low_slots-all write bytes4 = refl
low_slots-all write bytes8 = refl
low_slots-all read_write bytes1 = refl
low_slots-all read_write bytes2 = refl
low_slots-all read_write bytes4 = refl
low_slots-all read_write bytes8 = refl

-- In the lower half of dr7, where all the fields lie, `set` turns on both enable bits of its slot,
-- stores the trigger and the length in the slot's control field, and leaves every other bit as it
-- was: for each of the four slots, each trigger, each size, and any previous value.
pub programmed_low :
    (dr7 i : ℕ) (t : Trigger) (s : Size) (k : ℕ)
    → i < 4
    → k < 32
    → bit (programmed dr7 i t s) k ≡ wanted i t s k (bit dr7 k)
unfolding low_slots low_test
programmed_low dr7 i t s k hi hk =
    bit-programmed dr7 i t s k
    ∙ ==→eq _ _ (
        both-at (low_test i t s) k (bit dr7 k)
          (passes_below-at (both (low_test i t s)) 32
            (passes_below-at (λ j. low_table j t s) 4 (low_slots-all t s) i hi) k hk)
          (bit-lt dr7 k))

-- The upper half, whose bits the processor reserves.
abbrev pub upper : ℕ → Size → ℕ → ℕ
upper i s b = if i == 3 then (if leb 2 (size_code s) then 1 else 0) else b

upper_test : ℕ → Trigger → Size → ℕ → ℕ → Bool
upper_test i t s k b = obtained i t s (32 + k) b == upper i s b

upper_table : ℕ → Trigger → Size → Bool
unfolding upper_test both passes_below
upper_table i t s = passes_below (both (upper_test i t s)) 32

upper_slots : Trigger → Size → Bool
unfolding upper_table passes_below
upper_slots t s = passes_below (λ i. upper_table i t s) 4

upper_slots-all : (t : Trigger) (s : Size) → upper_slots t s ≡ true
unfolding upper_slots
upper_slots-all execution bytes1 = refl
upper_slots-all execution bytes2 = refl
upper_slots-all execution bytes4 = refl
upper_slots-all execution bytes8 = refl
upper_slots-all write bytes1 = refl
upper_slots-all write bytes2 = refl
upper_slots-all write bytes4 = refl
upper_slots-all write bytes8 = refl
upper_slots-all read_write bytes1 = refl
upper_slots-all read_write bytes2 = refl
upper_slots-all read_write bytes4 = refl
upper_slots-all read_write bytes8 = refl

-- The upper half of dr7 is kept for the slots 0, 1 and 2. For slot 3 it is overwritten, whatever
-- it held: by ones for a watchpoint of four or eight bytes, by zeros for a smaller one.
programmed-upper :
    (dr7 i : ℕ) (t : Trigger) (s : Size) (k : ℕ)
    → i < 4
    → k < 32
    → bit (programmed dr7 i t s) (32 + k) ≡ upper i s (bit dr7 (32 + k))
unfolding upper_slots upper_test
programmed-upper dr7 i t s k hi hk =
    bit-programmed dr7 i t s (32 + k)
    ∙ ==→eq _ _ (
        both-at (upper_test i t s) k (bit dr7 (32 + k))
          (passes_below-at (both (upper_test i t s)) 32
            (passes_below-at (λ j. upper_table j t s) 4 (upper_slots-all t s) i hi) k hk)
          (bit-lt dr7 (32 + k)))

off_test : ℕ → ℕ → ℕ → Bool
off_test i k b = min b (bit (disable_mask i) k) == (if enabled_bit i k then 0 else b)

off_table : ℕ → Bool
unfolding off_test both passes_below
off_table i = passes_below (both (off_test i)) 64

off_tables-all : passes_below off_table 4 ≡ true
unfolding off_table
off_tables-all = refl

-- `unset` turns off both enable bits of its slot, and leaves the other 62 bits of dr7 as they were.
pub disabled_bits :
    (dr7 i k : ℕ)
    → i < 4
    → k < 64
    → bit (disabled dr7 i) k ≡ (if enabled_bit i k then 0 else bit dr7 k)
unfolding disabled off_table off_test
disabled_bits dr7 i k hi hk =
    bit-bit_and dr7 (disable_mask i) k
    ∙ ==→eq _ _ (
        both-at (off_test i) k (bit dr7 k)
          (passes_below-at (both (off_test i)) 64 (passes_below-at off_table 4 off_tables-all i hi)
            k hk)
          (bit-lt dr7 k))
