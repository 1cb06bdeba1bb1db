-- ===== src/SpiedThread/Waiting.antt =====
-- source/SpiedThread.cpp: the calls that wait for a thread to change its state.
use mathlib.Core.Path.{subst}
use mathlib.Core.List.{append_assoc}
use spytester.Base.{
  ℕ, ◌≡◌, ◌≢◌, ◌⊎◌, inl, inr, refl, sym, ap, ◌∙◌, Bool, true, false, Bool-cases, List, [], ◌∷◌,
  ◌++◌, if◌then◌else◌, arith,
}
use spytester.Tracer.{Request, Reply, cont, tgkill}
use spytester.SpiedThread.{State, World, stopped, is_stopped, write_registers, resume}
use spytester.SpiedThread.Event.{
  Event, Dladdr, deliver, wait_for, step_once, stop, terminate, terminate_from, stepping, is_over,
  kill, sigstop, sigterm,
}
use spytester.SpiedThread.Identity.{resume-tid}
use spytester.SpiedThread.Requests.{Sent, later-Sent, resume-Sent}
use spytester.SpiedThread.Requests.Events.{wait_for-Grows}

module _ {M : Type 0} (exec : M → Request → M × Reply) (dladdr : Dladdr) (bps : List ℕ) where
  -- How a wait ends: with the state reached, or with every event of the interval used up and the
  -- state not reached.
  abbrev pub Waited : (State → Bool) → World M × List Event × Bool → Type 0
  Waited reached (w, later, success) =
      ((success ≡ true) × (reached w.thread.state ≡ true))
      ⊎ ((success ≡ false) × (reached w.thread.state ≡ false) × (later ≡ []))

  pub wait_for-Waited :
      (reached : State → Bool) (es : List Event) (w : World M)
      → Waited reached (wait_for exec dladdr bps reached es w)
  unfolding wait_for
  wait_for-Waited reached [] w = elim (Bool-cases (reached w.thread.state)) [
    | inl e ↦ inl (e, e)
    | inr e ↦ inr (e, e, refl)
  ]
  wait_for-Waited reached (e ∷ es) w =
      ground (arith, wait_for-Waited reached es (deliver exec dladdr bps e w))

  -- `stop` on a stopped thread returns at once and sends nothing. On any other it succeeds exactly
  -- if the thread is stopped when it returns, and otherwise it has waited for all the events that
  -- came in time.
  stop_lem :
      (es : List Event) (w : World M)
      → ((w.thread.state ≡ stopped) × (stop exec dladdr bps es w ≡ (w, es, true)))
        ⊎ ((w.thread.state ≢ stopped) × Waited is_stopped (stop exec dladdr bps es w))
  unfolding stop
  stop_lem es w = ground (arith, wait_for-Waited is_stopped es (kill exec dladdr sigstop w))

  write_registers-state : (w : World M) → (write_registers exec w).thread.state ≡ w.thread.state
  unfolding write_registers
  write_registers-state w = ground arith

  stepping-state :
      (w : World M)
      → ((stepping exec dladdr w).thread.state ≡ w.thread.state)
        × ((stepping exec dladdr w).thread.trap_expected ≡ true)
  unfolding stepping
  stepping-state w = ground (arith, write_registers-state w)

  pub wait_for_reached :
      (reached : State → Bool) (es : List Event) (w : World M)
      → reached w.thread.state ≡ true
      → wait_for exec dladdr bps reached es w ≡ (w, es, true)
  unfolding wait_for
  wait_for_reached reached [] w h = ground arith
  wait_for_reached reached (e ∷ es) w h = rw h

  -- `singleStep` on a stopped thread does not wait for the step: it reports success with every
  -- event still to come, the trap of the step among them, and with the trap still expected.
  step_once_early :
      (es : List Event) (w : World M)
      → w.thread.state ≡ stopped
      → let (w', later, success) = step_once exec dladdr bps es w in
        (success ≡ true)
        × (later ≡ es)
        × (w'.thread.state ≡ stopped)
        × (w'.thread.trap_expected ≡ true)
  unfolding step_once
  step_once_early es w h =
      ground (arith, stepping-state w, wait_for_reached is_stopped es (stepping exec dladdr w))

  -- The request that wakes a stopped thread before it is sent the signal.
  abbrev woken : World M → List Request
  woken w = if is_stopped w.thread.state then cont w.thread.tid 0 ∷ [] else []

  abbrev killed : World M → List Request
  killed w = tgkill w.ctx.tracer.tracee_pid w.thread.tid sigterm ∷ woken w

  -- How `terminate` ends on a thread that was not over, with the requests it has sent, newest first
  -- and with those of the events between them.
  abbrev pub Ended : World M → World M × List Event × Bool → Type 0
  Ended w (w', later, success) =
      ((success ≡ true)
        × (is_over w'.thread.state ≡ true)
        × Sent (cont w.thread.tid sigterm ∷ killed w) w'.ctx.tracer.sent w.ctx.tracer.sent)
      ⊎ ((success ≡ false) × (later ≡ []) × Sent (killed w) w'.ctx.tracer.sent w.ctx.tracer.sent)

  add-Sent :
      (r : Request) (rs a b c : List Request) → Sent (r ∷ []) c b → Sent rs b a → Sent (r ∷ rs) c a
  add-Sent r rs a b c (zs, k, e, more) s = (zs, k, e, later-Sent rs a b k more s)

  drop-Sent : (r : Request) (rs a c : List Request) → Sent (r ∷ rs) c a → Sent rs c a
  drop-Sent r rs a c (zs, k, e, s) =
      later-Sent rs a k c (zs ++ r ∷ [], e ∙ sym (append_assoc zs (r ∷ []) k)) s

  -- What is known of the second half's start: the thread, and the signal sent to it.
  IsKilled : World M → World M → Type 0
  IsKilled w w' =
      Sent (killed w) w'.ctx.tracer.sent w.ctx.tracer.sent × (w'.thread.tid ≡ w.thread.tid)

  terminate_from-Ended :
      (w : World M) (r : World M × List Event × Bool)
      → Waited is_stopped r
      → IsKilled w r.0
      → Ended w (terminate_from exec dladdr bps r)
  unfolding terminate_from IsKilled
  terminate_from-Ended w (w1, later, false) h (sent, same) = elim h [
    | inl (e, f) ↦ absurd (ground arith)
    | inr (e, f, g) ↦ inr (refl, g, sent)
  ]
  terminate_from-Ended w (w1, later, true) h (sent, same) =
      let w2 = (resume exec sigterm w1).0 in
      let w3 = (wait_for exec dladdr bps is_over later w2).0 in
      let resumed =
        add-Sent (cont w1.thread.tid sigterm) (killed w) w.ctx.tracer.sent w1.ctx.tracer.sent
          w2.ctx.tracer.sent (resume-Sent exec sigterm w1) sent in
      let all =
        later-Sent (cont w1.thread.tid sigterm ∷ killed w) w.ctx.tracer.sent w2.ctx.tracer.sent
          w3.ctx.tracer.sent (wait_for-Grows exec dladdr bps is_over later w2).0 resumed in
      elim (wait_for-Waited is_over later w2) [
        | inl (e, f) ↦ inl (
          e,
          f,
          subst (λ n. Sent (cont n sigterm ∷ killed w) w3.ctx.tracer.sent w.ctx.tracer.sent) same
              all,
        )
        | inr (e, f, g) ↦ inr (
          e,
          g,
          drop-Sent (cont w1.thread.tid sigterm) (killed w) w.ctx.tracer.sent w3.ctx.tracer.sent
              all,
        )
      ]

  abbrev woke : World M → World M
  woke w = if is_stopped w.thread.state then (resume exec 0 w).0 else w

  resume-pid : (w : World M) → (resume exec 0 w).0.ctx.tracer.tracee_pid ≡ w.ctx.tracer.tracee_pid
  unfolding resume write_registers
  resume-pid w = ground arith

  woke-Sent :
      (w : World M)
      → Sent (woken w) (woke w).ctx.tracer.sent w.ctx.tracer.sent
        × ((woke w).thread.tid ≡ w.thread.tid)
        × ((woke w).ctx.tracer.tracee_pid ≡ w.ctx.tracer.tracee_pid)
  woke-Sent w = elim (Bool-cases (is_stopped w.thread.state)) [
    | inl e ↦ rw e (resume-Sent exec 0 w, resume-tid exec dladdr 0 w, resume-pid w)
    | inr e ↦ rw e (([], refl), refl, refl)
  ]

  kill-IsKilled : (w : World M) → IsKilled w (kill exec dladdr sigterm (woke w))
  unfolding kill IsKilled
  kill-IsKilled w =
      let (sent, same, pid) = woke-Sent w in
      (
        (
          [],
          (woke w).ctx.tracer.sent,
          ap (λ r. r ∷ (woke w).ctx.tracer.sent)
              (ap (λ p. tgkill p (woke w).thread.tid sigterm) pid
                ∙ ap (λ n. tgkill w.ctx.tracer.tracee_pid n sigterm) same),
          sent,
        ),
        same,
      )

  wait-IsKilled :
      (es : List Event) (w w1 : World M)
      → IsKilled w w1
      → IsKilled w (wait_for exec dladdr bps is_stopped es w1).0
  unfolding IsKilled
  wait-IsKilled es w w1 (sent, same) =
      let (grows, kept) = wait_for-Grows exec dladdr bps is_stopped es w1 in
      (later-Sent (killed w) w.ctx.tracer.sent w1.ctx.tracer.sent _ grows sent, kept ∙ same)

  -- `terminate` on a thread that has terminated or exited returns at once and sends nothing. On any
  -- other it sends SIGTERM to the thread by tgkill, after a PTRACE_CONT with no signal if the thread
  -- is stopped. It then either succeeds, and has sent after that a PTRACE_CONT with SIGTERM, and the
  -- thread has terminated or exited; or it fails, and has waited for all the events that came in
  -- time. Other requests may stand before, between and after these.
  pub terminate_lem :
      (es : List Event) (w : World M)
      → ((is_over w.thread.state ≡ true) × (terminate exec dladdr bps es w ≡ (w, es, true)))
        ⊎ ((is_over w.thread.state ≡ false) × Ended w (terminate exec dladdr bps es w))
  unfolding terminate
  terminate_lem es w = elim (Bool-cases (is_over w.thread.state)) [
    | inl e ↦ inl (e, rw e)
    | inr e ↦ inr (
      e,
      rw e (
          terminate_from-Ended w _ (wait_for-Waited is_stopped es _)
            (wait-IsKilled es w _ (kill-IsKilled w))),
    )
  ]
