-- ===== src/SpiedThread/Requests/Events.antt =====
-- source/SpiedThread.cpp: the requests that are sent while events are handled and waited for.
use spytester.Base.{
  ℕ, ◌≡◌, inl, inr, refl, ◌∙◌, Bool, Bool-cases, List, [], ◌∷◌, Option, none, some, ◌==◌, find_if,
  get_elem?,
}
use spytester.Tracer.{Request, Reply}
use spytester.WatchPoint.{WatchPoint}
use spytester.Base.Words.{pred64}
use spytester.Context.{break_hit, execute_callback}
use spytester.SpiedThread.Identity.{deliver-tid}
use spytester.SpiedThread.{
  World, State, undetermined, stopped, continued, terminated, exited, set_state, read_registers,
  get_rip, get_dr6, set_dr6,
}
use spytester.SpiedThread.Event.{
  Event, Dladdr, deliver, dispatch, handle_stop, handle_event, handle_trap, report_hit, hit_break,
  hit_slot, hits, slots, end_step, follow_clone, backtrace, wait_for, sigtrap, sigsegv, sigstop,
  event_clone, clear_hit, located,
}
use spytester.SpiedThread.Requests.{
  Grows, refl-Grows, trans-Grows, set_dr6-Grows, get_dr6-Grows, get_rip-Grows, get_rbp-Grows,
  read_registers-Grows, resume-Grows,
}

module _ {M : Type 0} (exec : M → Request → M × Reply) (dladdr : Dladdr) where
  located-Grows : (o : Option (Option ℕ)) (w : World M) → Grows exec w (located exec dladdr o w)
  located-Grows (some none) w = refl-Grows exec w
  located-Grows (some (some s)) w = get_rbp-Grows exec w
  located-Grows none w = get_rbp-Grows exec w

  backtrace-Grows : (w : World M) → Grows exec w (backtrace exec dladdr w).0
  unfolding backtrace
  backtrace-Grows w =
      let (w1, rip) = get_rip exec w in
      trans-Grows exec w w1 (located exec dladdr (dladdr rip) w1) (get_rip-Grows exec w)
        (located-Grows (dladdr rip) w1)

  hit_slot-Grows : (o : Option (WatchPoint × Bool)) (w : World M) → Grows exec w (hit_slot o w)
  unfolding execute_callback
  hit_slot-Grows none w = refl-Grows exec w
  hit_slot-Grows (some (wp, b)) w = ([], refl)

  report_hit-Grows :
      (is : List ℕ) (dr6 : ℕ) (w : World M) → Grows exec w (report_hit exec dladdr is dr6 w).0
  unfolding report_hit
  report_hit-Grows [] dr6 w = refl-Grows exec w
  report_hit-Grows (i ∷ rest) dr6 w = elim (Bool-cases (hits dr6 i)) [
    | inl e ↦ rw e (
        trans-Grows exec w (set_dr6 exec (clear_hit dr6 i) w)
          (hit_slot (get_elem? w.thread.watch_points i) (set_dr6 exec (clear_hit dr6 i) w))
          (set_dr6-Grows exec _ w) (hit_slot-Grows _ (set_dr6 exec (clear_hit dr6 i) w)))
    | inr e ↦ rw e (report_hit-Grows rest dr6 w)
  ]

  end_step-Grows : (w : World M) → Grows exec w (end_step exec dladdr w).0
  unfolding end_step
  end_step-Grows w = elim (Bool-cases w.thread.trap_expected) [
    | inl e ↦ rw e ([], refl)
    | inr e ↦ rw e ([], refl)
  ]

  follow_clone-Grows : (event : ℕ) (w : World M) → Grows exec w (follow_clone exec dladdr event w).0
  unfolding follow_clone
  follow_clone-Grows event w = elim (Bool-cases (event == event_clone)) [
    | inl e ↦ rw e (resume-Grows exec 0 w)
    | inr e ↦ rw e (refl-Grows exec w)
  ]

  handle_trap-Grows : (event : ℕ) (w : World M) → Grows exec w (handle_trap exec dladdr event w).0
  unfolding handle_trap
  handle_trap-Grows event w =
      let w1 = (end_step exec dladdr w).0 in
      let w2 = (follow_clone exec dladdr event w1).0 in
      let (w3, dr6) = get_dr6 exec w2 in
      trans-Grows exec w w1 (handle_trap exec dladdr event w).0 (end_step-Grows w) (
        trans-Grows exec w1 w2 (handle_trap exec dladdr event w).0 (follow_clone-Grows event w1) (
          trans-Grows exec w2 w3 (report_hit exec dladdr slots dr6 w3).0 (get_dr6-Grows exec w2)
            (report_hit-Grows slots dr6 w3)))

  handle_stop-Grows :
      (signal event : ℕ) (w : World M) → Grows exec w (handle_stop exec dladdr signal event w).0
  unfolding handle_stop
  handle_stop-Grows signal event w = elim (Bool-cases (signal == sigtrap)) [
    | inl e ↦ rw e (handle_trap-Grows event w)
    | inr e ↦ rw e (elim (Bool-cases (signal == sigsegv)) [
      | inl f ↦ rw f (backtrace-Grows w)
      | inr f ↦ rw f (elim (Bool-cases (signal == sigstop)) [
        | inl g ↦ rw g (refl-Grows exec w)
        | inr g ↦ rw g (resume-Grows exec signal w)
      ])
    ])
  ]

  dispatch-Grows :
      (st : State) (e : Event) (w : World M) → Grows exec w (dispatch exec dladdr st e w).0
  unfolding dispatch set_state
  dispatch-Grows continued e w = ([], refl)
  dispatch-Grows exited e w = ([], refl)
  dispatch-Grows terminated e w = ([], refl)
  dispatch-Grows stopped e w = handle_stop-Grows e.signal e.ptrace_event (set_state stopped w)
  dispatch-Grows undetermined e w = ([], refl)

  handle_event-Grows : (e : Event) (w : World M) → Grows exec w (handle_event exec dladdr e w).0
  unfolding handle_event
  handle_event-Grows e w =
      let w1 = read_registers exec w in
      trans-Grows exec w w1 (dispatch exec dladdr e.state e w1).0 (read_registers-Grows exec w)
        (dispatch-Grows e.state e w1)

  hit_break-Grows :
      (bps : List ℕ) (pc : ℕ) (w : World M) → Grows exec w (hit_break exec dladdr bps pc w)
  unfolding hit_break execute_callback
  hit_break-Grows bps pc w =
      elim (find_if (λ a. a == pred64 pc) bps)
        as (λ o. Grows exec w (elim o [
          | none ↦ w
          | some a ↦ record w { ctx = execute_callback (break_hit a w.thread.tid) w.ctx }
        ])) [ none ↦ refl-Grows exec w | some a ↦ ([], refl) ]

  deliver-Grows :
      (bps : List ℕ) (e : Event) (w : World M) → Grows exec w (deliver exec dladdr bps e w)
  unfolding deliver
  deliver-Grows bps e w =
      let (w1, handled) = handle_event exec dladdr e w in
      let (w2, pc) = get_rip exec w1 in
      elim (Bool-cases handled) [
        | inl h ↦ rw h (handle_event-Grows e w)
        | inr h ↦ rw h (
            trans-Grows exec w w1 (hit_break exec dladdr bps pc w2) (handle_event-Grows e w) (
              trans-Grows exec w1 w2 (hit_break exec dladdr bps pc w2) (get_rip-Grows exec w1)
                (hit_break-Grows bps pc w2)))
      ]

  -- A wait takes back no request, and is one for the same thread.
  pub wait_for-Grows :
      (bps : List ℕ) (reached : State → Bool) (es : List Event) (w : World M)
      → let w' = (wait_for exec dladdr bps reached es w).0 in
        Grows exec w w' × (w'.thread.tid ≡ w.thread.tid)
  unfolding wait_for
  wait_for-Grows bps reached [] w = (refl-Grows exec w, refl)
  wait_for-Grows bps reached (e ∷ es) w = elim (Bool-cases (reached w.thread.state)) [
    | inl h ↦ rw h (refl-Grows exec w, refl)
    | inr h ↦
        let (rest, same) = wait_for-Grows bps reached es (deliver exec dladdr bps e w) in
        rw h (
          trans-Grows exec w (deliver exec dladdr bps e w)
              (wait_for exec dladdr bps reached es (deliver exec dladdr bps e w)).0
              (deliver-Grows bps e w) rest,
          same ∙ deliver-tid exec dladdr bps e w,
        )
  ]
