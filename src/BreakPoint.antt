-- ===== src/BreakPoint.antt =====
-- include/Breakpoint.h and source/Breakpoint.cpp: a software breakpoint, which replaces the first
-- byte of an instruction. `set` reads the program's memory directly and writes it through the
-- tracer's queue; `word_at` is that direct read of eight bytes.
mod Word
pub mod Text
pub mod Patch
mod Overlap
mod Apart
mod Resume
mod Tests
use spytester.Base.{ℕ, ◌-◌, ◌^◌, Bool, true, false, not, List, bit_and, bit_or, if◌then◌else◌}
use spytester.Base.Words.{pred64}
use spytester.Tracer.{Request, Reply, Tracer, write_word}
use spytester.Context.{Context, break_hit, execute_callback}
use spytester.SpiedThread.{World, get_rip, jump, resume}
use spytester.SpiedThread.Event.{Event, Dladdr, step_once}

abbrev pub int3 : ℕ
int3 = 0xcc

pub record BreakPoint : Type 0 where
  pub addr : ℕ
  pub backup : ℕ
  pub is_set : Bool

-- `(backup & (~0xFF)) | INT3`, where the complement of the int widens to 64 bits.
unfoldable pub new_word : ℕ → ℕ
new_word w = bit_or (bit_and w (2 ^ 64 - 2 ^ 8)) int3

-- The constructor; the backup is not initialised, and not read before `set` stores it.
unfoldable pub new : ℕ → BreakPoint
new addr = record { addr = addr; backup = 0; is_set = false }

-- `hit` queues the callback for the thread; the default callback only prints.
unfoldable pub hit : {M : Type 0} → BreakPoint → World M → World M
hit bp w = record w { ctx = execute_callback (break_hit bp.addr w.thread.tid) w.ctx }

module _ {M : Type 0} (exec : M → Request → M × Reply) (word_at : M → ℕ → ℕ) where
  unfoldable pub set : BreakPoint → Tracer M → Tracer M × BreakPoint × Bool
  unfolding write_word
  set bp t =
      let backup = word_at t.machine bp.addr in
      if bp.is_set then (t, bp, true) else (
        (write_word exec t bp.addr (new_word backup)).0,
        record bp { backup = backup; is_set = true },
        true,
      )

  unfoldable pub unset : BreakPoint → Tracer M → Tracer M × BreakPoint × Bool
  unfolding write_word
  unset bp t =
      if bp.is_set
      then ((write_word exec t bp.addr bp.backup).0, record bp { is_set = false }, true)
      else (t, bp, true)

  -- An operation on the tracer, within a thread's world.
  abbrev within : (Tracer M → Tracer M × BreakPoint × Bool) → World M → World M × BreakPoint × Bool
  within f w =
      let (t, bp, done) = f w.ctx.tracer in
      (record w { ctx = record w.ctx { tracer = t } }, bp, done)

  -- `jump(getRip() - 1)`, back onto the breakpoint.
  unfoldable pub step_back : World M → World M
  step_back w = let (w1, rip) = get_rip exec w in jump exec (pred64 rip) w1

  unfoldable pub resume_and_unset : BreakPoint → World M → World M × BreakPoint × Bool
  unfolding step_back unset
  resume_and_unset bp w =
      let (w1, bp1, cleared) = within (unset bp) (step_back w) in
      let (w2, resumed) = resume exec 0 w1 in
      if cleared then (w2, bp1, resumed) else (w1, bp1, false)

  -- The conjunction stops at the first call that fails; `es` arrives during the single step.
  unfoldable pub resume_and_set :
      Dladdr → List ℕ → List Event → BreakPoint → World M → World M × BreakPoint × Bool
  resume_and_set dladdr bps es bp w =
      let (w1, bp1, cleared) = within (unset bp) (step_back w) in
      let (w2, _, stepped) = step_once exec dladdr bps es w1 in
      let (w3, bp3, replaced) = within (set bp1) w2 in
      let (w4, resumed) = resume exec 0 w3 in
      if not cleared
      then (w1, bp1, false)
      else if not stepped
      then (w2, bp1, false)
      else if not replaced
      then (w3, bp3, false)
      else (w4, bp3, resumed)
