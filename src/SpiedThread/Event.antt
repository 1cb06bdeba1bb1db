-- ===== src/SpiedThread/Event.antt =====
-- source/SpiedThread.cpp: what a thread does with an event that waitpid reports for it, and the
-- calls that wait for one. The signals and PTRACE_EVENT_CLONE have their values on Linux x86_64.
-- A wait is given the events that arrive before its timeout; `deliver` is what the listening thread
-- does with each, the search for a breakpoint in source/SpiedProgram.cpp included.
use spytester.Base.{
  ℕ, ◌-◌, Bool, true, false, not, ◌||◌, List, [], ◌∷◌, Option, none, some, bit_and, ◌==◌,
  if◌then◌else◌, get_elem?, find_if,
}
use spytester.Base.Words.{shl32, not32, widen, pred64}
use spytester.Tracer.{Request, Reply, single_step, detach, tkill}
use spytester.Context.{watch_hit, break_hit, execute_callback}
use spytester.WatchPoint.{WatchPoint}
use spytester.SpiedThread.{
  State, World, undetermined, stopped, continued, terminated, exited, is_stopped, set_state,
  command, read_registers, get_rip, get_rbp, get_dr6, set_dr6, resume, write_registers,
}

abbrev pub sigtrap : ℕ
sigtrap = 5

abbrev pub sigsegv : ℕ
sigsegv = 11

abbrev pub sigterm : ℕ
sigterm = 15

abbrev pub sigstop : ℕ
sigstop = 19

abbrev pub event_clone : ℕ
event_clone = 3

-- The arguments of `handleEvent`.
pub record Event : Type 0 where
  pub state : State
  pub signal : ℕ
  pub status : ℕ
  pub ptrace_event : ℕ

-- What `dladdr` says of an address: nothing, or the nearest symbol if there is one.
abbrev pub Dladdr : Type 0
Dladdr = ℕ → Option (Option ℕ)

-- `dr6 & (1 << idx)`, and `dr6 & ~(1 << idx)`.
abbrev pub hits : ℕ → ℕ → Bool
hits dr6 i = not (bit_and dr6 (widen (shl32 1 i)) == 0)

abbrev pub clear_hit : ℕ → ℕ → ℕ
clear_hit dr6 i = bit_and dr6 (widen (not32 (shl32 1 i)))

abbrev pub slots : List ℕ
slots = 0 ∷ 1 ∷ 2 ∷ 3 ∷ []

abbrev pub is_over : State → Bool
is_over terminated = true
is_over exited = true
is_over _ = false

module _ {M : Type 0} where
  -- `WatchPoint::hit`, for the thread's slot.
  abbrev pub hit_slot : Option (WatchPoint × Bool) → World M → World M
  hit_slot none w = w
  hit_slot (some (wp, _)) w = record w {
    ctx = execute_callback (watch_hit w.thread.tid wp.idx) w.ctx;
  }

  abbrev expect_trap : Bool → World M → World M
  expect_trap b w = record w { thread = record w.thread { trap_expected = b } }

  module _ (exec : M → Request → M × Reply) (dladdr : Dladdr) where
    -- The registers that `backtrace` reads; the frames that it prints change no state.
    abbrev pub located : Option (Option ℕ) → World M → World M
    located (some none) w = w
    located _ w = (get_rbp exec w).0

    unfoldable pub backtrace : World M → World M × Bool
    backtrace w = let (w1, rip) = get_rip exec w in (located (dladdr rip) w1, true)

    -- The loop over the watchpoints, which ends at the first hit.
    unfoldable pub report_hit : List ℕ → ℕ → World M → World M × Bool
    report_hit [] dr6 w = (w, false)
    report_hit (i ∷ rest) dr6 w =
        if hits dr6 i
        then (hit_slot (get_elem? w.thread.watch_points i) (set_dr6 exec (clear_hit dr6 i) w), true)
        else report_hit rest dr6 w

    -- The parts of the SIGTRAP case: a single step that was expected, and a clone.
    unfoldable pub end_step : World M → World M × Bool
    end_step w = if w.thread.trap_expected then (expect_trap false w, true) else (w, false)

    unfoldable pub follow_clone : ℕ → World M → World M × Bool
    follow_clone event w = if event == event_clone then resume exec 0 w else (w, false)

    unfoldable pub handle_trap : ℕ → World M → World M × Bool
    handle_trap event w =
        let (w1, stepped) = end_step w in
        let (w2, cloned) = follow_clone event w1 in
        let (w3, dr6) = get_dr6 exec w2 in
        let (w4, watched) = report_hit slots dr6 w3 in (w4, stepped || (cloned || watched))

    unfoldable pub handle_stop : ℕ → ℕ → World M → World M × Bool
    handle_stop signal ptrace_event w =
        if signal == sigtrap
        then handle_trap ptrace_event w
        else if signal == sigsegv
        then ((backtrace w).0, false)
        else if signal == sigstop
        then (w, false)
        else ((resume exec signal w).0, true)

    unfoldable pub dispatch : State → Event → World M → World M × Bool
    unfolding handle_stop
    dispatch continued e w = (set_state continued w, true)
    dispatch exited e w = (set_state exited w, true)
    dispatch terminated e w = (set_state terminated w, true)
    dispatch stopped e w = handle_stop e.signal e.ptrace_event (set_state stopped w)
    dispatch undetermined e w = (w, false)

    unfoldable pub handle_event : Event → World M → World M × Bool
    unfolding dispatch
    handle_event e w = dispatch e.state e (read_registers exec w)

    -- The listening thread's part after `handleEvent`: for an event that was not handled, the first
    -- breakpoint at pc - 1 is hit. Breakpoints are given by their addresses.
    unfoldable pub hit_break : List ℕ → ℕ → World M → World M
    hit_break bps pc w = elim (find_if (λ a. a == pred64 pc) bps) [
      | none ↦ w
      | some a ↦ record w { ctx = execute_callback (break_hit a w.thread.tid) w.ctx }
    ]

    unfoldable pub deliver : List ℕ → Event → World M → World M
    unfolding hit_break
    deliver bps e w =
        let (w1, handled) = handle_event e w in
        let (w2, pc) = get_rip exec w1 in if handled then w1 else hit_break bps pc w2

    -- `_stateCV.wait_for`: the events still to come, and whether the state was reached in time.
    unfoldable pub wait_for :
        List ℕ → (State → Bool) → List Event → World M → World M × List Event × Bool
    unfolding deliver
    wait_for bps reached [] w = (w, [], reached w.thread.state)
    wait_for bps reached (e ∷ es) w =
        let rest = wait_for bps reached es (deliver bps e w) in
        if reached w.thread.state then (w, e ∷ es, true) else rest

    -- `singleStep` up to its wait.
    unfoldable pub stepping : World M → World M
    unfolding command
    stepping w =
        let w1 = expect_trap true (write_registers exec w) in
        (command exec (single_step w1.thread.tid) w1).0

    unfoldable pub step_once : List ℕ → List Event → World M → World M × List Event × Bool
    step_once bps es w =
        let (w1, later, success) = wait_for bps is_stopped es (stepping w) in
        (if success then w1 else expect_trap false w1, later, success)

    -- `tkill` for the thread.
    unfoldable pub kill : ℕ → World M → World M
    unfolding tkill
    kill sig w = record w {
      ctx = record w.ctx { tracer = (tkill exec w.ctx.tracer w.thread.tid sig).0 };
    }

    unfoldable pub stop : List ℕ → List Event → World M → World M × List Event × Bool
    stop bps es w =
        let waited = wait_for bps is_stopped es (kill sigstop w) in
        if is_stopped w.thread.state then (w, es, true) else waited

    -- The second half of `terminate`, after the wait for the thread to stop.
    unfoldable pub terminate_from :
        List ℕ → World M × List Event × Bool → World M × List Event × Bool
    terminate_from bps (w, later, true) = wait_for bps is_over later (resume exec sigterm w).0
    terminate_from bps (w, later, false) = (w, later, false)

    unfoldable pub terminate : List ℕ → List Event → World M → World M × List Event × Bool
    terminate bps es w =
        let running = if is_stopped w.thread.state then (resume exec 0 w).0 else w in
        let result = terminate_from bps (wait_for bps is_stopped es (kill sigterm running)) in
        if is_over w.thread.state then (w, es, true) else result

    -- The pid that is detached is `_tid - 2`; a traced thread has a tid above 2.
    unfoldable pub detach_thread : World M → World M × Bool
    unfolding command
    detach_thread w =
        let (w1, reply) = command exec (detach (w.thread.tid - 2) sigstop) w in (w1, reply.res == 0)
