-- ===== src/BreakPoint/Patch.antt =====
-- source/Breakpoint.cpp: one breakpoint over the program's memory, with the tracer's writes made at
-- any time.
use spytester.Base.{
  ℕ, zero, suc, ◌+◌, ◌≤◌, ◌<◌, ◌≡◌, ◌⊎◌, inl, inr, refl, ap, ◌∙◌, true, false, List, [], ◌∷◌, ◌++◌,
  ◌==◌, if◌then◌else◌, arith,
}
use spytester.Tracer.{Tracer, poke_data}
use spytester.BreakPoint.{BreakPoint, int3, new_word, set, unset}
use spytester.BreakPoint.Text.{
  Memory, IsBytes, Text, read, write, write_outside, write-read, patch_lem, exec, word_at, settle,
  catch_up_from, catch_up, final,
}

-- A tracer over a text with no write waiting.
abbrev pub IsQuiet : Tracer Text → Type 0
IsQuiet t = t.machine.pending ≡ []

-- The tracing thread makes up to n of its writes.
abbrev pub catching_up : ℕ → Tracer Text → Tracer Text
catching_up n t = record t { machine = catch_up n t.machine }

final-catch_up_from :
    (n : ℕ) (l : List (ℕ × ℕ)) (m : Memory) → final (catch_up_from n l m) ≡ settle l m
unfolding catch_up_from settle
final-catch_up_from zero l m = refl
final-catch_up_from (suc n) [] m = refl
final-catch_up_from (suc n) ((a, w) ∷ rest) m = final-catch_up_from n rest (write 8 m a w)

-- The order of the writes is fixed, so when they are made does not change where they lead.
pub final-catch_up : (n : ℕ) (s : Text) → final (catch_up n s) ≡ final s
unfolding catch_up
final-catch_up n s = final-catch_up_from n s.pending s.memory

settle-append :
    (xs : List (ℕ × ℕ)) (a w : ℕ) (m : Memory)
    → settle (xs ++ (a, w) ∷ []) m ≡ write 8 (settle xs m) a w
unfolding settle
settle-append [] a w m = refl
settle-append ((b, v) ∷ rest) a w m = settle-append rest a w (write 8 m b v)

-- A write that joins the queue comes last.
pub final-append :
    (s : Text) (a w : ℕ)
    → final (record s { pending = s.pending ++ (a, w) ∷ [] }) ≡ write 8 (final s) a w
final-append s a w = settle-append s.pending a w s.memory

-- The byte that INT3 leaves in the memory, and those that it does not.
abbrev pub patched : Memory → ℕ → Memory
patched m a x = if x == a then int3 else m x

pub region : (a x : ℕ) → ((a ≤ x) × (x < a + 8)) ⊎ ((x < a) ⊎ (a + 8 ≤ x))
region a x = ground arith

pub patched_at :
    (m m' : Memory) (a x : ℕ)
    → IsBytes m'
    → m x ≡ m' x
    → write 8 m a (new_word (read 8 m' a)) x ≡ patched m' a x
patched_at m m' a x b e = elim (region a x) [
  | inl (lo, hi) ↦ patch_lem m m' a x b lo hi
  | inr out ↦ write_outside 8 m a _ x out ∙ ground arith
]

pub copied_at :
    (m m' : Memory) (a x : ℕ)
    → IsBytes m'
    → ((x < a) ⊎ (a + 8 ≤ x) → m x ≡ m' x)
    → write 8 m a (read 8 m' a) x ≡ m' x
copied_at m m' a x b h = elim (region a x) [
  | inl (lo, hi) ↦ write-read 8 m m' a x b lo hi
  | inr out ↦ write_outside 8 m a _ x out ∙ h out
]

-- The tracer with one more write in its queue.
abbrev pub queued : Tracer Text → ℕ → ℕ → Tracer Text
queued t a w = record t {
  machine = record t.machine { pending = t.machine.pending ++ (a, w) ∷ [] };
  sent = poke_data t.tracee_pid a w ∷ t.sent;
}

pub set_off :
    (bp : BreakPoint) (t : Tracer Text)
    → bp.is_set ≡ false
    → set exec word_at bp t ≡ (
      queued t bp.addr (new_word (read 8 t.machine.memory bp.addr)),
      record bp { backup = read 8 t.machine.memory bp.addr; is_set = true },
      true,
    )
unfolding set exec word_at
set_off bp t off = ground arith

pub unset_on :
    (bp : BreakPoint) (t : Tracer Text)
    → bp.is_set ≡ true
    → unset exec word_at bp t ≡ (queued t bp.addr bp.backup, record bp { is_set = false }, true)
unfolding unset exec
unset_on bp t on = ground arith

final-quiet : (t : Tracer Text) → IsQuiet t → final t.machine ≡ t.machine.memory
unfolding settle
final-quiet t quiet = rw quiet

-- Setting a breakpoint over a quiet text leads to the memory with INT3 at its address, every other
-- byte kept, and records the word that was there.
pub set_patches :
    (bp : BreakPoint) (t : Tracer Text) (x : ℕ)
    → bp.is_set ≡ false
    → IsQuiet t
    → IsBytes t.machine.memory
    → let (t', bp', done) = set exec word_at bp t in
      (final t'.machine x ≡ patched t.machine.memory bp.addr x)
      × (bp' ≡ record bp { backup = read 8 t.machine.memory bp.addr; is_set = true })
      × (done ≡ true)
set_patches bp t x off quiet bytes = rw (set_off bp t off) (
  ap (λ (m : Memory). m x) (final-append t.machine bp.addr _)
      ∙ patched_at (final t.machine) t.machine.memory bp.addr x bytes
          (ap (λ (m : Memory). m x) (final-quiet t quiet)),
  refl,
  refl,
)

pub final-queued :
    (t : Tracer Text) (a w x : ℕ) → final (queued t a w).machine x ≡ write 8 (final t.machine) a w x
final-queued t a w x = ap (λ (m : Memory). m x) (final-append t.machine a w)

pub final-queued_outside :
    (t : Tracer Text) (a w x : ℕ)
    → (x < a) ⊎ (a + 8 ≤ x)
    → final (queued t a w).machine x ≡ final t.machine x
final-queued_outside t a w x out =
    final-queued t a w x ∙ write_outside 8 (final t.machine) a w x out

pub final-catching_up :
    (n : ℕ) (t : Tracer Text) (x : ℕ) → final (catching_up n t).machine x ≡ final t.machine x
final-catching_up n t x = ap (λ (m : Memory). m x) (final-catch_up n t.machine)

pub final-quiet_at : (t : Tracer Text) (x : ℕ) → IsQuiet t → final t.machine x ≡ t.machine.memory x
final-quiet_at t x quiet = ap (λ (m : Memory). m x) (final-quiet t quiet)

-- A breakpoint that is set over a quiet text and then removed leaves the memory as it was, however
-- many of the writes the tracer has made in between.
pub set-unset_restores :
    (bp : BreakPoint) (t : Tracer Text) (n x : ℕ)
    → bp.is_set ≡ false
    → IsQuiet t
    → IsBytes t.machine.memory
    → let (t1, bp1, _) = set exec word_at bp t in
      let (t2, bp2, _) = unset exec word_at bp1 (catching_up n t1) in
      (final t2.machine x ≡ t.machine.memory x) × (bp2.is_set ≡ false)
set-unset_restores bp t n x off quiet bytes = rw (set_off bp t off) (
    rw (unset_on on_bp (catching_up n t1) refl) (
      final-queued (catching_up n t1) bp.addr on_bp.backup x
          ∙ copied_at (final (catching_up n t1).machine) t.machine.memory bp.addr x bytes (λ out.
            final-catching_up n t1 x
            ∙ final-queued_outside t bp.addr word x out
            ∙ final-quiet_at t x quiet),
      refl,
    ))
  where
    word : ℕ
    word = new_word (read 8 t.machine.memory bp.addr)

    t1 : Tracer Text
    t1 = queued t bp.addr word

    on_bp : BreakPoint
    on_bp = record bp { backup = read 8 t.machine.memory bp.addr; is_set = true }
