-- ===== src/BreakPoint/Overlap.antt =====
-- source/Breakpoint.cpp: two breakpoints, and two uses of one, whose words meet.
use spytester.Base.{
  ℕ, ◌+◌, ◌≤◌, ◌<◌, ◌≡◌, ◌⊎◌, refl, ap, ◌∙◌, true, false, List, [], ◌∷◌, ◌++◌, arith,
}
use spytester.Tracer.{Tracer}
use spytester.BreakPoint.{BreakPoint, new_word, set, unset}
use spytester.BreakPoint.Text.{
  Memory, IsBytes, Text, read, write, write-read, exec, word_at, settle, catch_up_from, catch_up,
  final,
}
use spytester.BreakPoint.Patch.{
  IsQuiet, catching_up, patched, patched_at, copied_at, final-catching_up, queued, set_off,
  unset_on, final-queued, final-queued_outside, final-quiet_at,
}

-- The tracer makes all its writes.
abbrev settled : Tracer Text → Tracer Text
settled t = record t { machine = record { memory = final t.machine; pending = [] } }

patched-IsBytes :
    (m m' : Memory) (a : ℕ) → IsBytes m → ((x : ℕ) → m' x ≡ patched m a x) → IsBytes m'
patched-IsBytes m m' a b e x = ground (arith, e x, b x)

settled_at : (t : Tracer Text) (x : ℕ) → final (settled t).machine x ≡ final t.machine x
unfolding settle
settled_at t x = refl

catch_up_one :
    (s : Text) (a w : ℕ) (rest : List (ℕ × ℕ))
    → s.pending ≡ (a, w) ∷ rest
    → catch_up 1 s ≡ record { memory = write 8 s.memory a w; pending = rest }
unfolding catch_up
catch_up_one s a w rest e = ap (λ l. catch_up_from 1 l s.memory) e

-- If the tracer has made the write of `set` but not yet that of `unset` when the breakpoint is set
-- again, the second `set` saves INT3 as the byte to restore: after the breakpoint is removed for
-- good and all writes are made, INT3 stays in the program, and the breakpoint counts as not set.
set_again_early :
    (bp : BreakPoint) (t : Tracer Text) (x : ℕ)
    → bp.is_set ≡ false
    → IsQuiet t
    → IsBytes t.machine.memory
    → let (t1, bp1, _) = set exec word_at bp t in
      let (t2, bp2, _) = unset exec word_at bp1 t1 in
      let (t3, bp3, _) = set exec word_at bp2 (catching_up 1 t2) in
      let (t4, bp4, _) = unset exec word_at bp3 t3 in
      (final t4.machine x ≡ patched t.machine.memory bp.addr x) × (bp4.is_set ≡ false)
set_again_early bp t x off quiet bytes = rw (set_off bp t off) (
    rw (unset_on first t1 refl) (
      rw (set_off (record first { is_set = false }) t3 refl)
        (rw (unset_on second t4 refl) (ends, refl))))
  where
    word : ℕ
    word = new_word (read 8 t.machine.memory bp.addr)

    first : BreakPoint
    first = record bp { backup = read 8 t.machine.memory bp.addr; is_set = true }

    t1 : Tracer Text
    t1 = queued t bp.addr word

    t3 : Tracer Text
    t3 = catching_up 1 (queued t1 bp.addr first.backup)

    second : BreakPoint
    second = record bp { backup = read 8 t3.machine.memory bp.addr; is_set = true }

    t4 : Tracer Text
    t4 = queued t3 bp.addr (new_word second.backup)

    queue :
        (l : List (ℕ × ℕ))
        → l ≡ []
        → (l ++ (bp.addr, word) ∷ []) ++ (bp.addr, first.backup) ∷ []
          ≡ (bp.addr, word) ∷ (bp.addr, first.backup) ∷ []
    queue l e = rw e

    caught : (y : ℕ) → t3.machine.memory y ≡ patched t.machine.memory bp.addr y
    caught y =
        ap (λ (s : Text). s.memory y)
          (catch_up_one (queued t1 bp.addr first.backup).machine bp.addr word
            ((bp.addr, first.backup) ∷ []) (queue t.machine.pending quiet))
        ∙ patched_at t.machine.memory t.machine.memory bp.addr y bytes refl

    before : (x < bp.addr) ⊎ (bp.addr + 8 ≤ x) → final t3.machine x ≡ t.machine.memory x
    before out =
        final-catching_up 1 (queued t1 bp.addr first.backup) x
        ∙ final-queued_outside t1 bp.addr first.backup x out
        ∙ final-queued_outside t bp.addr word x out
        ∙ final-quiet_at t x quiet

    ends : final (queued t4 bp.addr second.backup).machine x ≡ patched t.machine.memory bp.addr x
    ends =
        final-queued t4 bp.addr second.backup x
        ∙ copied_at (final t4.machine) t3.machine.memory bp.addr x
            (patched-IsBytes t.machine.memory t3.machine.memory bp.addr bytes caught)
            (λ out.
              final-queued_outside t3 bp.addr (new_word second.backup) x out
              ∙ before out
              ∙ unpatched out)
        ∙ caught x
      where
        unpatched : (x < bp.addr) ⊎ (bp.addr + 8 ≤ x) → t.machine.memory x ≡ t3.machine.memory x
        unpatched out = ground (arith, caught x)

-- Two breakpoints less than eight bytes apart: removing the one at the lower address also takes
-- away the other's INT3, although that one still counts as set.
unset_overlapping :
    (a b : BreakPoint) (t : Tracer Text)
    → a.is_set ≡ false
    → b.is_set ≡ false
    → a.addr < b.addr
    → b.addr < a.addr + 8
    → IsQuiet t
    → IsBytes t.machine.memory
    → let (t1, a1, _) = set exec word_at a t in
      let (t2, b2, _) = set exec word_at b (settled t1) in
      let (t3, a3, _) = unset exec word_at a1 (settled t2) in
      (final t3.machine b.addr ≡ t.machine.memory b.addr) × (b2.is_set ≡ true)
unset_overlapping a b t offa offb lo hi quiet bytes = rw (set_off a t offa) (
    rw (set_off b (settled t1) offb) (
      rw (unset_on on_a (settled t2) refl) (
        final-queued (settled t2) a.addr on_a.backup b.addr
            ∙ write-read 8 (final (settled t2).machine) t.machine.memory a.addr b.addr bytes
                (omega arith) hi,
        refl,
      )))
  where
    on_a : BreakPoint
    on_a = record a { backup = read 8 t.machine.memory a.addr; is_set = true }

    t1 : Tracer Text
    t1 = queued t a.addr (new_word on_a.backup)

    t2 : Tracer Text
    t2 = queued (settled t1) b.addr (new_word (read 8 (final t1.machine) b.addr))
