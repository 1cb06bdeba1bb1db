-- ===== src/BreakPoint/Text.antt =====
-- The memory of the traced program as source/Breakpoint.cpp reaches it: `*_addr` reads it at once,
-- since tracer and tracee share it, while PTRACE_POKEDATA writes wait in the tracer's queue. The
-- address space is that of ℕ, so that a word does not wrap at its end.
use spytester.Base.{
  ℕ, zero, suc, ◌+◌, ◌*◌, ◌/◌, ◌%◌, ◌^◌, ◌≤◌, ◌<◌, ◌≡◌, ◌⊎◌, inl, refl, ◌∙◌, List, [], ◌∷◌, ◌++◌,
  ◌==◌, ==_refl, if◌then◌else◌, arith,
}
use native.Mathlib.Nat.{pow-suc}
use native.Mathlib.Decide.{ℕ_discrete}
use spytester.Tracer.{Request, Reply, poke_data}
use spytester.BreakPoint.{int3, new_word}
use spytester.BreakPoint.Word.{new_word_lem}

-- A byte for each address.
abbrev pub Memory : Type 0
Memory = ℕ → ℕ

abbrev pub IsBytes : Memory → Type 0
IsBytes m = (a : ℕ) → m a < 256

abbrev update : Memory → ℕ → ℕ → Memory
update m a v x = if x == a then v else m x

-- n bytes from an address on, the lowest first.
unfoldable pub read : ℕ → Memory → ℕ → ℕ
read zero m a = 0
read (suc n) m a = m a + 256 * read n m (suc a)

unfoldable pub write : ℕ → Memory → ℕ → ℕ → Memory
write zero m a w = m
write (suc n) m a w = write n (update m a (w % 256)) (suc a) (w / 256)

pub read-lt : (n : ℕ) (m : Memory) (a : ℕ) → IsBytes m → read n m a < 256 ^ n
unfolding read
read-lt zero m a b = omega arith
read-lt (suc n) m a b = omega (arith, pow-suc 256 n, b a, read-lt n m (suc a) b)

pub write_outside : (n : ℕ) (m : Memory) (a w x : ℕ) → (x < a) ⊎ (a + n ≤ x) → write n m a w x ≡ m x
unfolding write
write_outside zero m a w x o = refl
write_outside (suc n) m a w x o =
    ground (arith, write_outside n (update m a (w % 256)) (suc a) (w / 256) x)

-- Writing back what was read elsewhere, at the same address, copies it.
pub write-read :
    (n : ℕ) (m m' : Memory) (a x : ℕ)
    → IsBytes m'
    → a ≤ x
    → x < a + n
    → write n m a (read n m' a) x ≡ m' x
unfolding write read
write-read zero m m' a x b lo hi = absurd (omega arith)
write-read (suc n) m m' a x b lo hi =
    let r = read n m' (suc a) in
    let low : (m' a + 256 * r) % 256 ≡ m' a = omega (arith, b a) in
    let high : (m' a + 256 * r) / 256 ≡ r = omega (arith, b a) in
    rw (low, high)
      (elim (ℕ_discrete x a) [
        | yes e ↦
            write_outside n (update m a (m' a)) (suc a) r x (inl (omega arith)) ∙ rw (e, ==_refl a)
        | no ne ↦ write-read n (update m a (m' a)) m' (suc a) x b (omega arith) (omega arith)
      ])

write_patched :
    (n : ℕ) (m m' : Memory) (a v c x : ℕ)
    → IsBytes m'
    → v % 256 ≡ c
    → v / 256 ≡ read n m' (suc a)
    → a ≤ x
    → x < a + suc n
    → write (suc n) m a v x ≡ (if x == a then c else m' x)
unfolding write
write_patched n m m' a v c x b low high lo hi =
    let r = read n m' (suc a) in
    rw (low, high)
      (elim (ℕ_discrete x a) [
        | yes e ↦ write_outside n (update m a c) (suc a) r x (inl (omega arith)) ∙ rw (e, ==_refl a)
        | no ne ↦
            write-read n (update m a c) m' (suc a) x b (omega arith) (omega arith) ∙ ground arith
      ])

read_parts :
    (n : ℕ) (m : Memory) (a : ℕ)
    → IsBytes m
    → (read (suc n) m a % 256 ≡ m a) × (read (suc n) m a / 256 ≡ read n m (suc a))
unfolding read
read_parts n m a b = (omega (arith, b a), omega (arith, b a))

-- Patching the first byte of a word that was read leaves the other seven.
pub patch_lem :
    (m m' : Memory) (a x : ℕ)
    → IsBytes m'
    → a ≤ x
    → x < a + 8
    → write 8 m a (new_word (read 8 m' a)) x ≡ (if x == a then int3 else m' x)
patch_lem m m' a x b lo hi =
    let word : new_word (read 8 m' a) ≡ read 8 m' a / 256 * 256 + int3 =
      new_word_lem (read 8 m' a) (read-lt 8 m' a b) in
    write_patched 7 m m' a (new_word (read 8 m' a)) int3 x b (omega (arith, word))
      (omega (arith, word, (read_parts 7 m' a b).1)) lo hi

-- The memory with the writes that the tracer has still to make, oldest first.
pub record Text : Type 0 where
  pub memory : Memory
  pub pending : List (ℕ × ℕ)

abbrev no_reply : Reply
no_reply = record { res = 0; err = 0; regs = record { rip = 0; rbp = 0; others = [] } }

-- A PTRACE_POKEDATA waits in the queue; the other requests do not touch the memory.
unfoldable pub exec : Text → Request → Text × Reply
exec s (poke_data pid a w) = (record s { pending = s.pending ++ (a, w) ∷ [] }, no_reply)
exec s r = (s, no_reply)

unfoldable pub word_at : Text → ℕ → ℕ
word_at s a = read 8 s.memory a

-- The tracer makes every write that waits, in order; `settle` is what the memory will be.
unfoldable pub settle : List (ℕ × ℕ) → Memory → Memory
settle [] m = m
settle ((a, w) ∷ rest) m = settle rest (write 8 m a w)

-- The tracer makes the first n of the writes that wait.
unfoldable pub catch_up_from : ℕ → List (ℕ × ℕ) → Memory → Text
catch_up_from zero pending m = record { memory = m; pending = pending }
catch_up_from (suc n) [] m = record { memory = m; pending = [] }
catch_up_from (suc n) ((a, w) ∷ rest) m = catch_up_from n rest (write 8 m a w)

unfoldable pub catch_up : ℕ → Text → Text
unfolding catch_up_from
catch_up n s = catch_up_from n s.pending s.memory

abbrev pub final : Text → Memory
final s = settle s.pending s.memory
