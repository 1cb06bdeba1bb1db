-- ===== src/SpiedThread/Handling.antt =====
-- source/SpiedThread.cpp: what `handleEvent` does on each of its branches.
use spytester.Base.{
  ℕ, ◌≡◌, ◌≢◌, inl, inr, refl, ap, ◌∙◌, Bool, true, Bool-cases, List, [], ◌∷◌, Option, none, some,
  get_elem?, ◌==◌, if◌then◌else◌, arith,
}
use spytester.Tracer.{Request, Reply, cont}
use spytester.WatchPoint.{WatchPoint}
use spytester.SpiedThread.{
  State, World, undetermined, stopped, continued, terminated, exited, set_state, read_registers,
  get_rip, get_rbp, get_dr6, set_dr6, resume,
}
use spytester.SpiedThread.Event.{
  Event, Dladdr, handle_event, handle_trap, report_hit, hits, hit_slot, slots, backtrace, end_step,
  follow_clone, sigtrap, sigsegv, sigstop, event_clone,
}

module _ {M : Type 0} (exec : M → Request → M × Reply) (dladdr : Dladdr) where
  -- The state in which an event leaves a thread.
  abbrev after_stop : ℕ → ℕ → State
  after_stop signal ptrace_event =
      if signal == sigtrap
      then (if ptrace_event == event_clone then continued else stopped)
      else if signal == sigsegv
      then stopped
      else if signal == sigstop
      then stopped
      else continued

  abbrev pub settled : State → Event → State → State
  settled continued e s = continued
  settled exited e s = exited
  settled terminated e s = terminated
  settled stopped e s = after_stop e.signal e.ptrace_event
  settled undetermined e s = s

  read_registers-state : (w : World M) → (read_registers exec w).thread.state ≡ w.thread.state
  unfolding read_registers
  read_registers-state w = ground arith

  get_dr6-state : (w : World M) → (get_dr6 exec w).0.thread.state ≡ w.thread.state
  unfolding get_dr6
  get_dr6-state w = ground arith

  set_dr6-state : (v : ℕ) (w : World M) → (set_dr6 exec v w).thread.state ≡ w.thread.state
  unfolding set_dr6
  set_dr6-state v w = ground arith

  backtrace-state : (w : World M) → (backtrace exec dladdr w).0.thread.state ≡ w.thread.state
  unfolding backtrace get_rip get_rbp
  backtrace-state w = ground arith

  hit_slot-state :
      (o : Option (WatchPoint × Bool)) (w : World M) → (hit_slot o w).thread.state ≡ w.thread.state
  hit_slot-state none w = refl
  hit_slot-state (some (wp, b)) w = refl

  report_hit-state :
      (is : List ℕ) (dr6 : ℕ) (w : World M)
      → (report_hit exec dladdr is dr6 w).0.thread.state ≡ w.thread.state
  unfolding report_hit
  report_hit-state [] dr6 w = refl
  report_hit-state (i ∷ rest) dr6 w = elim (Bool-cases (hits dr6 i)) [
    | inl e ↦ rw e (hit_slot-state (get_elem? w.thread.watch_points i) _ ∙ set_dr6-state _ w)
    | inr e ↦ rw e (report_hit-state rest dr6 w)
  ]

  resume-state : (sig : ℕ) (w : World M) → (resume exec sig w).0.thread.state ≡ continued
  unfolding resume
  resume-state sig w = refl

  end_step-state : (w : World M) → (end_step exec dladdr w).0.thread.state ≡ w.thread.state
  unfolding end_step
  end_step-state w = ground arith

  follow_clone-state :
      (event : ℕ) (w : World M)
      → (follow_clone exec dladdr event w).0.thread.state
        ≡ (if event == event_clone then continued else w.thread.state)
  unfolding follow_clone
  follow_clone-state event w = ground (arith, resume-state 0 w)

  handle_trap-state :
      (event : ℕ) (w : World M)
      → (handle_trap exec dladdr event w).0.thread.state
        ≡ (if event == event_clone then continued else w.thread.state)
  unfolding handle_trap
  handle_trap-state event w =
      report_hit-state slots _ _
      ∙ get_dr6-state _
      ∙ follow_clone-state event (end_step exec dladdr w).0
      ∙ ap (λ s. if event == event_clone then continued else s) (end_step-state w)

  -- Every event sets the thread's state to the one that it reports, but for two kinds of stop after
  -- which the thread is running again: at a clone, and at a signal other than SIGTRAP, SIGSEGV and
  -- SIGSTOP. An undetermined event leaves the state as it was.
  pub handle_event-state :
      (e : Event) (w : World M)
      → (handle_event exec dladdr e w).0.thread.state ≡ settled e.state e w.thread.state
  unfolding handle_event set_state
  handle_event-state e w = ground (
    arith,
    read_registers-state w,
    handle_trap-state e.ptrace_event (set_state stopped (read_registers exec w)),
    backtrace-state (set_state stopped (read_registers exec w)),
    resume-state e.signal (set_state stopped (read_registers exec w)),
  )

  read_registers-tid : (w : World M) → (read_registers exec w).thread.tid ≡ w.thread.tid
  unfolding read_registers
  read_registers-tid w = ground arith

  -- A stop by a signal other than SIGTRAP, SIGSEGV and SIGSTOP is handled by passing the signal on:
  -- the last request continues the thread with it.
  handle_event_forwards :
      (e : Event) (w : World M)
      → e.state ≡ stopped
      → e.signal ≢ sigtrap
      → e.signal ≢ sigsegv
      → e.signal ≢ sigstop
      → let (w', handled) = handle_event exec dladdr e w in
        (handled ≡ true)
        × (w'.ctx.tracer.sent
            ≡ cont w.thread.tid e.signal ∷ (read_registers exec w).ctx.tracer.sent)
        × (w'.thread.state ≡ continued)
  unfolding handle_event resume set_state
  handle_event_forwards e w s a b c = ground (arith, read_registers-tid w)
