-- ===== src/SpiedThread/Identity.antt =====
-- source/SpiedThread.cpp: the tid of a thread under its operations.
use spytester.Base.{
  ℕ, ◌≡◌, inl, inr, refl, ◌∙◌, Bool, Bool-cases, List, [], ◌∷◌, Option, none, some, arith,
}
use spytester.Tracer.{Request, Reply}
use spytester.WatchPoint.{WatchPoint}
use spytester.SpiedThread.{
  World, set_state, read_registers, get_rip, get_rbp, get_dr6, set_dr6, resume, stopped,
}
use spytester.SpiedThread.Event.{
  Event, Dladdr, deliver, handle_event, handle_trap, report_hit, hit_break, hit_slot, hits, slots,
  end_step, follow_clone, backtrace,
}

module _ {M : Type 0} (exec : M → Request → M × Reply) (dladdr : Dladdr) where
  read_registers-tid : (w : World M) → (read_registers exec w).thread.tid ≡ w.thread.tid
  unfolding read_registers
  read_registers-tid w = ground arith

  get_rip-tid : (w : World M) → (get_rip exec w).0.thread.tid ≡ w.thread.tid
  unfolding get_rip
  get_rip-tid w = ground arith

  get_dr6-tid : (w : World M) → (get_dr6 exec w).0.thread.tid ≡ w.thread.tid
  unfolding get_dr6
  get_dr6-tid w = ground arith

  set_dr6-tid : (v : ℕ) (w : World M) → (set_dr6 exec v w).thread.tid ≡ w.thread.tid
  unfolding set_dr6
  set_dr6-tid v w = ground arith

  pub resume-tid : (sig : ℕ) (w : World M) → (resume exec sig w).0.thread.tid ≡ w.thread.tid
  unfolding resume
  resume-tid sig w = ground arith

  backtrace-tid : (w : World M) → (backtrace exec dladdr w).0.thread.tid ≡ w.thread.tid
  unfolding backtrace get_rip get_rbp
  backtrace-tid w = ground arith

  hit_slot-tid :
      (o : Option (WatchPoint × Bool)) (w : World M) → (hit_slot o w).thread.tid ≡ w.thread.tid
  hit_slot-tid none w = refl
  hit_slot-tid (some (wp, b)) w = refl

  report_hit-tid :
      (is : List ℕ) (dr6 : ℕ) (w : World M)
      → (report_hit exec dladdr is dr6 w).0.thread.tid ≡ w.thread.tid
  unfolding report_hit
  report_hit-tid [] dr6 w = refl
  report_hit-tid (i ∷ rest) dr6 w = elim (Bool-cases (hits dr6 i)) [
    | inl e ↦ rw e (hit_slot-tid _ _ ∙ set_dr6-tid _ w)
    | inr e ↦ rw e (report_hit-tid rest dr6 w)
  ]

  follow_clone-tid :
      (event : ℕ) (w : World M) → (follow_clone exec dladdr event w).0.thread.tid ≡ w.thread.tid
  unfolding follow_clone
  follow_clone-tid event w = ground (arith, resume-tid 0 w)

  end_step-tid : (w : World M) → (end_step exec dladdr w).0.thread.tid ≡ w.thread.tid
  unfolding end_step
  end_step-tid w = ground arith

  handle_trap-tid :
      (event : ℕ) (w : World M) → (handle_trap exec dladdr event w).0.thread.tid ≡ w.thread.tid
  unfolding handle_trap
  handle_trap-tid event w =
      report_hit-tid slots _ _ ∙ get_dr6-tid _ ∙ follow_clone-tid event _ ∙ end_step-tid w

  handle_event-tid :
      (e : Event) (w : World M) → (handle_event exec dladdr e w).0.thread.tid ≡ w.thread.tid
  unfolding handle_event set_state
  handle_event-tid e w = ground (
    arith,
    read_registers-tid w,
    handle_trap-tid e.ptrace_event (set_state stopped (read_registers exec w)),
    backtrace-tid (set_state stopped (read_registers exec w)),
    resume-tid e.signal (set_state stopped (read_registers exec w)),
  )

  hit_break-tid :
      (bps : List ℕ) (pc : ℕ) (w : World M)
      → (hit_break exec dladdr bps pc w).thread.tid ≡ w.thread.tid
  unfolding hit_break
  hit_break-tid bps pc w = ground arith

  pub deliver-tid :
      (bps : List ℕ) (e : Event) (w : World M)
      → (deliver exec dladdr bps e w).thread.tid ≡ w.thread.tid
  unfolding deliver
  deliver-tid bps e w = ground (
    arith,
    handle_event-tid e w,
    get_rip-tid (handle_event exec dladdr e w).0,
    hit_break-tid bps (get_rip exec (handle_event exec dladdr e w).0).1
        (get_rip exec (handle_event exec dladdr e w).0).0,
  )
