-- ===== src/SpiedThread/Hits.antt =====
-- source/SpiedThread.cpp: which watchpoint a SIGTRAP is put down to.
use Prim.Native.Nat.{min}
use native.Mathlib.Decide.{ℕ_discrete}
use spytester.Base.{
  ℕ, zero, suc, ◌/◌, ◌≤◌, ◌<◌, ◌≡◌, ◌≢◌, ◌⊎◌, inl, inr, refl, sym, ap, ◌∙◌, Bool, true, false, not,
  Bool-cases, bit_and, get_elem?, ◌==◌, ==→eq, ==_refl, if◌then◌else◌, arith,
}
use spytester.Base.Bits.{bit, bit-lt, zero-bit, bit-bit_and, passes_below, passes_below-at}
use spytester.Base.Words.{shl32, not32, widen}
use spytester.Tracer.{Request, Reply}
use spytester.SpiedThread.{World, set_dr6}
use spytester.SpiedThread.Event.{Dladdr, report_hit, hits, clear_hit, hit_slot, slots}

-- A number all of whose bits are 0 is 0.
zero_of_bits : (n x : ℕ) → x ≤ n → ((k : ℕ) → bit x k ≡ 0) → x ≡ 0
zero_of_bits zero x h z = omega arith
zero_of_bits (suc n) zero h z = refl
zero_of_bits (suc n) (suc x) h z =
    omega (arith, z 0, zero_of_bits n (suc x / 2) (omega arith) (λ k. z (suc k)))

one_hot : (i k : ℕ) → i < 4 → bit (widen (shl32 1 i)) k ≡ (if k == i then 1 else 0)
one_hot zero zero h = refl
one_hot zero (suc k) h = ground (arith, zero-bit k)
one_hot (suc zero) zero h = refl
one_hot (suc zero) (suc zero) h = refl
one_hot (suc zero) (suc (suc k)) h = ground (arith, zero-bit k)
one_hot (suc (suc zero)) zero h = refl
one_hot (suc (suc zero)) (suc zero) h = refl
one_hot (suc (suc zero)) (suc (suc zero)) h = refl
one_hot (suc (suc zero)) (suc (suc (suc k))) h = ground (arith, zero-bit k)
one_hot (suc (suc (suc zero))) zero h = refl
one_hot (suc (suc (suc zero))) (suc zero) h = refl
one_hot (suc (suc (suc zero))) (suc (suc zero)) h = refl
one_hot (suc (suc (suc zero))) (suc (suc (suc zero))) h = refl
one_hot (suc (suc (suc zero))) (suc (suc (suc (suc k)))) h = ground (arith, zero-bit k)
one_hot (suc (suc (suc (suc i)))) k h = absurd (omega arith)

masked :
    (dr6 i k : ℕ)
    → i < 4
    → bit (bit_and dr6 (widen (shl32 1 i))) k ≡ (if k == i then bit dr6 k else 0)
masked dr6 i k h =
    bit-bit_and dr6 _ k ∙ ap (min (bit dr6 k)) (one_hot i k h) ∙ ground (arith, bit-lt dr6 k)

masked_zero : (dr6 i : ℕ) → i < 4 → bit dr6 i ≡ 0 → bit_and dr6 (widen (shl32 1 i)) ≡ 0
masked_zero dr6 i h z = zero_of_bits _ _ le-self (λ k. masked dr6 i k h ∙ at k)
  where
    le-self : bit_and dr6 (widen (shl32 1 i)) ≤ bit_and dr6 (widen (shl32 1 i))
    le-self = omega arith

    at : (k : ℕ) → (if k == i then bit dr6 k else 0) ≡ 0
    at k = elim (Bool-cases (k == i)) [
      | inl e ↦ rw e (ap (bit dr6) (==→eq k i e) ∙ z)
      | inr e ↦ rw e
    ]

masked_one : (dr6 i : ℕ) → i < 4 → bit dr6 i ≡ 1 → bit_and dr6 (widen (shl32 1 i)) ≢ 0
masked_one dr6 i h o e = absurd (
    omega (arith, o, rw (==_refl i) at (sym (masked dr6 i i h) ∙ ap (λ x. bit x i) e ∙ zero-bit i)))

to_test : (b n : ℕ) → b < 2 → (b ≡ 0 → n ≡ 0) → (b ≡ 1 → n ≢ 0) → not (n == 0) ≡ (b == 1)
to_test zero n lt z o = ground (arith, z refl)
to_test (suc zero) n lt z o = ground (arith, o refl)
to_test (suc (suc b)) n lt z o = absurd (omega arith)

-- The test of slot i is that of bit i.
pub hits_lem : (dr6 i : ℕ) → i < 4 → hits dr6 i ≡ (bit dr6 i == 1)
hits_lem dr6 i h =
    to_test (bit dr6 i) (bit_and dr6 (widen (shl32 1 i))) (bit-lt dr6 i) (masked_zero dr6 i h)
      (masked_one dr6 i h)

clear_test : ℕ → ℕ → Bool
clear_test i k = bit (widen (not32 (shl32 1 i))) k == (if k == i then 0 else 1)

clear_table : passes_below (λ i. passes_below (clear_test i) 64) 4 ≡ true
unfolding passes_below clear_test
clear_table = refl

-- Clearing slot i turns bit i off and keeps the other 63.
pub clear_hit_bits :
    (dr6 i k : ℕ) → i < 4 → k < 64 → bit (clear_hit dr6 i) k ≡ (if k == i then 0 else bit dr6 k)
unfolding clear_test
clear_hit_bits dr6 i k hi hk =
    bit-bit_and dr6 _ k
    ∙ ap (min (bit dr6 k)) (
        ==→eq _ _ (
          passes_below-at (clear_test i) 64
            (passes_below-at (λ j. passes_below (clear_test j) 64) 4 clear_table i hi) k hk))
    ∙ ground (arith, bit-lt dr6 k)

hit_cases :
    (dr6 i : ℕ)
    → i < 4
    → ((hits dr6 i ≡ true) × (bit dr6 i ≡ 1)) ⊎ ((hits dr6 i ≡ false) × (bit dr6 i ≡ 0))
hit_cases dr6 i h = go (hits dr6 i) (bit dr6 i) (hits_lem dr6 i h) (bit-lt dr6 i)
  where
    go :
        (t : Bool) (b : ℕ) → t ≡ (b == 1) → b < 2 → ((t ≡ true) × (b ≡ 1)) ⊎ ((t ≡ false) × (b ≡ 0))
    go t b e lt = ground arith

-- No bit under n is set.
ClearBelow : ℕ → ℕ → Type 0
ClearBelow dr6 n = (j : ℕ) → j < n → bit dr6 j ≡ 0

clear_none : (dr6 : ℕ) → ClearBelow dr6 0
unfolding ClearBelow
clear_none dr6 j h = absurd (omega arith)

clear_next : (dr6 n : ℕ) → ClearBelow dr6 n → bit dr6 n ≡ 0 → ClearBelow dr6 (suc n)
unfolding ClearBelow
clear_next dr6 n below z j h = elim (ℕ_discrete j n) [
  | yes e ↦ rw e z
  | no ne ↦ below j (omega arith)
]

module _ {M : Type 0} (exec : M → Request → M × Reply) (dladdr : Dladdr) where
  -- A hit of slot i: its bit is cleared in the cached debug status, which is to be written back, and
  -- the callback of the watchpoint in that slot is queued.
  abbrev pub slot_hit : ℕ → ℕ → World M → World M
  slot_hit i dr6 w = hit_slot (get_elem? w.thread.watch_points i) (set_dr6 exec (clear_hit dr6 i) w)

  -- The loop over the watchpoints takes the lowest of the slots 0 to 3 whose bit is set in the debug
  -- status, and that one only; with none of the four bits set it does nothing and reports no hit.
  report_hit_first :
      (dr6 : ℕ) (w : World M)
      → (((i : ℕ) → i < 4 → bit dr6 i ≡ 0) × (report_hit exec dladdr slots dr6 w ≡ (w, false)))
        ⊎ ((i : ℕ) × (i < 4)
            × (bit dr6 i ≡ 1)
            × ((j : ℕ) → j < i → bit dr6 j ≡ 0)
            × (report_hit exec dladdr slots dr6 w ≡ (slot_hit i dr6 w, true)))
  unfolding report_hit ClearBelow
  report_hit_first dr6 w = elim (hit_cases dr6 0 (omega arith)) [
    | inl (t0, b0) ↦ inr (0, omega arith, b0, clear_none dr6, rw t0)
    | inr (f0, z0) ↦
        let c1 = clear_next dr6 0 (clear_none dr6) z0 in
        elim (hit_cases dr6 1 (omega arith)) [
          | inl (t1, b1) ↦ inr (1, omega arith, b1, c1, rw (f0, t1))
          | inr (f1, z1) ↦
              let c2 = clear_next dr6 1 c1 z1 in
              elim (hit_cases dr6 2 (omega arith)) [
                | inl (t2, b2) ↦ inr (2, omega arith, b2, c2, rw (f0, f1, t2))
                | inr (f2, z2) ↦
                    let c3 = clear_next dr6 2 c2 z2 in
                    elim (hit_cases dr6 3 (omega arith)) [
                      | inl (t3, b3) ↦ inr (3, omega arith, b3, c3, rw (f0, f1, f2, t3))
                      | inr (f3, z3) ↦ inl (clear_next dr6 3 c3 z3, rw (f0, f1, f2, f3))
                    ]
              ]
        ]
  ]
