-- ===== src/WrappedFunction/Writes.antt =====
-- include/WrappedFunction.h: the relocation of a wrapped function, which `wrapping` and the destructor
-- write through the tracer, over the memory of BreakPoint.Text.
use mathlib.Core.Path.{fun_ext}
use native.Mathlib.Nat.{pow-suc}
use spytester.Base.{
  ℕ, zero, suc, ◌+◌, ◌%◌, ◌/◌, ◌^◌, ◌≤◌, ◌<◌, ◌≡◌, ◌≢◌, ◌⊎◌, inl, inr, refl, ap, ◌∙◌, Bool, true,
  false, ◌==◌, Bool-cases, ==_refl, ==→eq, if◌then◌else◌, arith,
}
use spytester.Tracer.{Tracer, write_word, command_ptrace}
use spytester.BreakPoint.Text.{Memory, Text, read, write, write_outside, exec, final}
use spytester.BreakPoint.Patch.{
  queued, catching_up, final-queued, final-queued_outside, final-catching_up,
}
use spytester.WrappedFunction.{Wrapper, Wrappers, WrappedFunction, wrapping, destroy}

-- Bytes that are read where they were written.
read-write : (n : ℕ) (m : Memory) (a w : ℕ) → w < 256 ^ n → read n (write n m a w) a ≡ w
unfolding read write
read-write zero m a w h = omega arith
read-write (suc n) m a w h =
    let low = write_outside n m1 (suc a) (w / 256) a (inl (omega arith)) ∙ own in
    let high = read-write n m1 (suc a) (w / 256) (omega (arith, pow-suc 256 n, h)) in
    omega (arith, low, high)
  where
    m1 : Memory
    m1 x = if x == a then w % 256 else m x

    own : (if a == a then w % 256 else m a) ≡ w % 256
    own = rw (==_refl a) refl

module _ {W : Type 0} where
  -- The write that `wrapping` makes, through the queue.
  wrapping-queued :
      (active : Bool) (wf : WrappedFunction) (p : Wrappers W) (t : Tracer Text)
      → wf.rela_addr ≢ 0
      → let w = p.wrappers wf.wrapper in
        wrapping exec active wf p t
        ≡ (queued t wf.rela_addr (if active then w.static_wrapper else w.wrapped_function), true)
  unfolding wrapping write_word command_ptrace exec
  wrapping-queued active wf p t h = elim (Bool-cases (wf.rela_addr == 0)) [
    | inl e ↦ absurd (h (==→eq wf.rela_addr 0 e))
    | inr e ↦ rw e refl
  ]

  -- For a wrapped function whose relocation was found, with pointers of 64 bits: once the tracer has
  -- made its writes, the relocation holds the static wrapper after `wrapping(true)`, and after
  -- `wrapping(false)`, or the destructor, it holds the function again, however many of the writes
  -- were made in between; and none of the three changes a byte outside the relocation.
  pub wrapping_lem :
      (wf : WrappedFunction) (p : Wrappers W) (t : Tracer Text) (n : ℕ)
      → wf.rela_addr ≢ 0
      → (p.wrappers wf.wrapper).static_wrapper < 256 ^ 8
      → (p.wrappers wf.wrapper).wrapped_function < 256 ^ 8
      → let w = p.wrappers wf.wrapper in
        let (t1, on) = wrapping exec true wf p t in
        let (t2, off) = wrapping exec false wf p (catching_up n t1) in
        let (t3, _) = destroy exec wf p (catching_up n t1) in
        (on ≡ true)
        × (off ≡ true)
        × (read 8 (final t1.machine) wf.rela_addr ≡ w.static_wrapper)
        × (read 8 (final t2.machine) wf.rela_addr ≡ w.wrapped_function)
        × (read 8 (final t3.machine) wf.rela_addr ≡ w.wrapped_function)
        × ((x : ℕ)
            → (x < wf.rela_addr) ⊎ (wf.rela_addr + 8 ≤ x)
            → (final t1.machine x ≡ final t.machine x)
              × (final t2.machine x ≡ final t.machine x)
              × (final t3.machine x ≡ final t.machine x))
  unfolding destroy write_word command_ptrace exec
  wrapping_lem wf p t n h hs hw = rw (wrapping-queued true wf p t h) (
      rw (wrapping-queued false wf p (catching_up n t1) h) (
        refl,
        refl,
        holds t w.static_wrapper hs,
        holds (catching_up n t1) w.wrapped_function hw,
        holds (catching_up n t1) w.wrapped_function hw,
        (λ x out. (once x out, twice x out, twice x out)),
      ))
    where
      w : Wrapper W
      w = p.wrappers wf.wrapper

      t1 : Tracer Text
      t1 = queued t wf.rela_addr w.static_wrapper

      holds :
          (s : Tracer Text) (v : ℕ)
          → v < 256 ^ 8
          → read 8 (final (queued s wf.rela_addr v).machine) wf.rela_addr ≡ v
      holds s v lt =
          ap (λ m. read 8 m wf.rela_addr) (fun_ext (final-queued s wf.rela_addr v))
          ∙ read-write 8 (final s.machine) wf.rela_addr v lt

      once :
          (x : ℕ)
          → (x < wf.rela_addr) ⊎ (wf.rela_addr + 8 ≤ x)
          → final t1.machine x ≡ final t.machine x
      once x out = final-queued_outside t wf.rela_addr w.static_wrapper x out

      twice :
          (x : ℕ)
          → (x < wf.rela_addr) ⊎ (wf.rela_addr + 8 ≤ x)
          → final (queued (catching_up n t1) wf.rela_addr w.wrapped_function).machine x
            ≡ final t.machine x
      twice x out =
          final-queued_outside (catching_up n t1) wf.rela_addr w.wrapped_function x out
          ∙ final-catching_up n t1 x
          ∙ once x out
