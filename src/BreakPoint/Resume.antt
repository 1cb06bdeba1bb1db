-- ===== src/BreakPoint/Resume.antt =====
-- source/Breakpoint.cpp: going on from a breakpoint.
use spytester.Base.{ℕ, ◌≡◌, true, false, some, List, ◌∷◌, arith}
use spytester.Base.Words.{pred64}
use spytester.Tracer.{
  Regs, Request, Reply, peek_dr, poke_data, get_regs, set_regs, cont, single_step,
}
use spytester.SpiedThread.{
  World, old, sync, new_values, stopped, is_stopped, get_rip, jump, resume, write_registers,
}
use spytester.SpiedThread.Event.{Event, Dladdr, stepping, step_once}
use spytester.SpiedThread.Registers.{machine_regs}
use spytester.SpiedThread.Waiting.{wait_for_reached}
use spytester.BreakPoint.{
  BreakPoint, new_word, set, unset, within, step_back, resume_and_unset, resume_and_set,
}

module _ {M : Type 0} (exec : M → Request → M × Reply) (word_at : M → ℕ → ℕ) where
  -- The registers as they were read, one instruction byte back.
  abbrev pub backed : World M → Regs
  backed w = record (machine_regs exec w) { rip = pred64 (machine_regs exec w).rip }

  -- On a stopped thread whose registers have not been read since, `resumeAndUnset` on a set
  -- breakpoint reads the registers, restores the saved word, moves the instruction pointer back by
  -- one and continues the thread, in this order; the breakpoint is then not set.
  resume_and_unset_lem :
      (bp : BreakPoint) (w : World M)
      → w.thread.state ≡ stopped
      → w.thread.reg_sync ≡ old
      → bp.is_set ≡ true
      → let (w', bp', done) = resume_and_unset exec word_at bp w in
        (w'.ctx.tracer.sent
          ≡ cont w.thread.tid 0
            ∷ set_regs w.thread.tid (backed w)
            ∷ poke_data w.ctx.tracer.tracee_pid bp.addr bp.backup
            ∷ get_regs w.thread.tid
            ∷ peek_dr w.thread.tid 6
            ∷ w.ctx.tracer.sent)
        × (bp' ≡ record bp { is_set = false })
        × (done ≡ true)
  unfolding resume_and_unset get_rip jump resume
  resume_and_unset_lem bp w s o on = ground arith

  -- The thread as `resumeAndSet` has it before the single step.
  abbrev pub cleared : BreakPoint → World M → World M
  cleared bp w = (within exec word_at (unset exec word_at bp) (step_back exec word_at w)).0

  cleared_lem :
      (bp : BreakPoint) (w : World M)
      → w.thread.state ≡ stopped
      → w.thread.reg_sync ≡ old
      → bp.is_set ≡ true
      → ((cleared bp w).thread.state ≡ stopped)
        × ((cleared bp w).thread.tid ≡ w.thread.tid)
        × ((cleared bp w).thread.reg_sync ≡ new_values)
        × ((cleared bp w).thread.future_regs ≡ false)
        × ((cleared bp w).thread.future_dr6
            ≡ some (exec w.ctx.tracer.machine (peek_dr w.thread.tid 6)).1.res)
        × ((cleared bp w).thread.regs ≡ backed w)
        × ((cleared bp w).ctx.tracer.tracee_pid ≡ w.ctx.tracer.tracee_pid)
        × ((cleared bp w).ctx.tracer.sent
            ≡ poke_data w.ctx.tracer.tracee_pid bp.addr bp.backup
              ∷ get_regs w.thread.tid
              ∷ peek_dr w.thread.tid 6
              ∷ w.ctx.tracer.sent)
  unfolding step_back unset get_rip jump
  cleared_lem bp w s o on = ground arith

  stepping_lem :
      (dladdr : Dladdr) (w : World M)
      → w.thread.reg_sync ≡ new_values
      → w.thread.future_regs ≡ false
      → (v : ℕ) → w.thread.future_dr6 ≡ some v
      → ((stepping exec dladdr w).thread.state ≡ w.thread.state)
        × ((stepping exec dladdr w).thread.tid ≡ w.thread.tid)
        × ((stepping exec dladdr w).thread.reg_sync ≡ sync)
        × ((stepping exec dladdr w).ctx.tracer.tracee_pid ≡ w.ctx.tracer.tracee_pid)
        × ((stepping exec dladdr w).ctx.tracer.sent
            ≡ single_step w.thread.tid ∷ set_regs w.thread.tid w.thread.regs ∷ w.ctx.tracer.sent)
  unfolding stepping write_registers
  stepping_lem dladdr w n f v d = ground arith

  -- The word that the breakpoint is set on the second time.
  abbrev pub word_again : Dladdr → BreakPoint → World M → ℕ
  word_again dladdr bp w = word_at (stepping exec dladdr (cleared bp w)).ctx.tracer.machine bp.addr

  -- On a stopped thread whose registers have not been read since, `resumeAndSet` on a set breakpoint
  -- reads the registers, restores the saved word, moves the instruction pointer back by one, asks
  -- for a single step, writes INT3 again over the word that it then finds, and continues the thread,
  -- in this order. It does all of this whatever events come, for it waits for none: the thread is
  -- continued without the trap of the single step having been seen.
  pub resume_and_set_lem :
      (dladdr : Dladdr) (bps : List ℕ) (es : List Event) (bp : BreakPoint) (w : World M)
      → w.thread.state ≡ stopped
      → w.thread.reg_sync ≡ old
      → bp.is_set ≡ true
      → let (w', bp', done) = resume_and_set exec word_at dladdr bps es bp w in
        (w'.ctx.tracer.sent
          ≡ cont w.thread.tid 0
            ∷ poke_data w.ctx.tracer.tracee_pid bp.addr (new_word (word_again dladdr bp w))
            ∷ single_step w.thread.tid
            ∷ set_regs w.thread.tid (backed w)
            ∷ poke_data w.ctx.tracer.tracee_pid bp.addr bp.backup
            ∷ get_regs w.thread.tid
            ∷ peek_dr w.thread.tid 6
            ∷ w.ctx.tracer.sent)
        × (bp' ≡ record bp { backup = word_again dladdr bp w; is_set = true })
        × (done ≡ true)
  unfolding resume_and_set step_once set unset resume
  resume_and_set_lem dladdr bps es bp w s o on =
      let c = cleared_lem bp w s o on in
      ground (
        arith,
        c,
        stepping_lem dladdr (cleared bp w) c.2 c.3 _ c.4,
        wait_for_reached exec dladdr bps is_stopped es (stepping exec dladdr (cleared bp w)),
      )
