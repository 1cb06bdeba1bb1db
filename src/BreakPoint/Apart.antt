-- ===== src/BreakPoint/Apart.antt =====
-- source/Breakpoint.cpp: two breakpoints whose words do not meet.
use spytester.Base.{
  ℕ, zero, suc, ◌+◌, ◌≤◌, ◌<◌, ◌≡◌, ◌⊎◌, inl, inr, refl, ap, ◌∙◌, true, false, [], ◌∷◌, ◌++◌, arith,
}
use spytester.Tracer.{Tracer}
use spytester.BreakPoint.{BreakPoint, new_word, set, unset}
use spytester.BreakPoint.Text.{
  Memory, IsBytes, Text, read, write, write_outside, write-read, exec, word_at, catch_up_from,
  catch_up, final,
}
use spytester.BreakPoint.Patch.{
  IsQuiet, catching_up, patched, region, patched_at, final-catching_up, queued, set_off, unset_on,
  final-queued, final-queued_outside, final-quiet_at,
}

catch_up_from_nil :
    (n : ℕ) (m : Memory) → catch_up_from n [] m ≡ record { memory = m; pending = [] }
unfolding catch_up_from
catch_up_from_nil zero m = refl
catch_up_from_nil (suc n) m = refl

catch_up_from_outside :
    (n : ℕ) (m : Memory) (a w x : ℕ)
    → (x < a) ⊎ (a + 8 ≤ x)
    → (catch_up_from n ((a, w) ∷ []) m).memory x ≡ m x
unfolding catch_up_from
catch_up_from_outside zero m a w x out = refl
catch_up_from_outside (suc n) m a w x out =
    ap (λ (s : Text). s.memory x) (catch_up_from_nil n (write 8 m a w))
    ∙ write_outside 8 m a w x out

-- Whether or not a write that waits alone is made, the bytes outside its word stay.
catching_up_outside :
    (n : ℕ) (t : Tracer Text) (a w x : ℕ)
    → IsQuiet t
    → (x < a) ⊎ (a + 8 ≤ x)
    → (catching_up n (queued t a w)).machine.memory x ≡ t.machine.memory x
unfolding catch_up
catching_up_outside n t a w x quiet out =
    ap (λ l. (catch_up_from n (l ++ (a, w) ∷ []) t.machine.memory).memory x) quiet
    ∙ catch_up_from_outside n t.machine.memory a w x out

read_same :
    (n : ℕ) (m m' : Memory) (a : ℕ)
    → ((x : ℕ) → a ≤ x → x < a + n → m x ≡ m' x)
    → read n m a ≡ read n m' a
unfolding read
read_same zero m m' a e = refl
read_same (suc n) m m' a e =
    let low = e a (omega arith) (omega arith) in
    let high = read_same n m m' (suc a) (λ x lo hi. e x (omega arith) (omega arith)) in
    omega (arith, low, high)

-- Two breakpoints at least eight bytes apart, neither set, over a text of bytes with no write
-- waiting: after both are set and the one set first is removed, the writes that the tracer has made or
-- has still to make lead to the memory with the other's INT3 and every other byte as it was at the
-- start, however many of its writes the tracer has made between the calls.
pub unset_apart :
    (a b : BreakPoint) (t : Tracer Text) (n k x : ℕ)
    → a.is_set ≡ false
    → b.is_set ≡ false
    → (a.addr + 8 ≤ b.addr) ⊎ (b.addr + 8 ≤ a.addr)
    → IsQuiet t
    → IsBytes t.machine.memory
    → let (t1, a1, _) = set exec word_at a t in
      let (t2, b2, _) = set exec word_at b (catching_up n t1) in
      let (t3, a3, _) = unset exec word_at a1 (catching_up k t2) in
      final t3.machine x ≡ patched t.machine.memory b.addr x
unset_apart a b t n k x offa offb apart quiet bytes = rw (set_off a t offa) (
    rw (set_off b (catching_up n t1) offb) (
      rw (unset_on on_a (catching_up k t2) refl) (
        final-queued (catching_up k t2) a.addr on_a.backup x ∙ elim (region a.addr x) [
          | inl (lo, hi) ↦
              write-read 8 (final (catching_up k t2).machine) t.machine.memory a.addr x bytes lo hi
              ∙ ground arith
          | inr out ↦
              write_outside 8 (final (catching_up k t2).machine) a.addr on_a.backup x out
              ∙ final-catching_up k t2 x
              ∙ both out
        ])))
  where
    on_a : BreakPoint
    on_a = record a { backup = read 8 t.machine.memory a.addr; is_set = true }

    t1 : Tracer Text
    t1 = queued t a.addr (new_word on_a.backup)

    m1 : Memory
    m1 = (catching_up n t1).machine.memory

    t2 : Tracer Text
    t2 = queued (catching_up n t1) b.addr (new_word (read 8 m1 b.addr))

    same : read 8 m1 b.addr ≡ read 8 t.machine.memory b.addr
    same =
        read_same 8 m1 t.machine.memory b.addr
          (λ y lo hi. catching_up_outside n t a.addr (new_word on_a.backup) y quiet (ground arith))

    both : (x < a.addr) ⊎ (a.addr + 8 ≤ x) → final t2.machine x ≡ patched t.machine.memory b.addr x
    both out =
        final-queued (catching_up n t1) b.addr (new_word (read 8 m1 b.addr)) x
        ∙ ap (λ w. write 8 (final (catching_up n t1).machine) b.addr (new_word w) x) same
        ∙ patched_at (final (catching_up n t1).machine) t.machine.memory b.addr x bytes (
            final-catching_up n t1 x
            ∙ final-queued_outside t a.addr (new_word on_a.backup) x out
            ∙ final-quiet_at t x quiet)
