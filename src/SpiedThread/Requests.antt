-- ===== src/SpiedThread/Requests.antt =====
-- source/SpiedThread.cpp: the requests that a thread's operations send, in their order. The tracer
-- lists them newest first, and so do the lists here.
pub mod Events
use mathlib.Core.List.{append_assoc}
use spytester.Base.{
  ℕ, ◌≡◌, inl, inr, refl, sym, ap, ◌∙◌, Bool, true, false, Bool-cases, List, [], ◌∷◌, ◌++◌, Option,
  none, some, ◌==◌, if◌then◌else◌, find_if,
}
use spytester.Tracer.{Request, Reply, cont}
use spytester.WatchPoint.{WatchPoint}
use spytester.Base.Words.{pred64}
use spytester.Context.{break_hit, execute_callback}
use spytester.SpiedThread.Identity.{deliver-tid}
use spytester.SpiedThread.{
  World, State, RegSync, undetermined, stopped, continued, terminated, exited, old, sync,
  new_values, read_by, take_dr6, write_regs, write_dr6, write_by, set_state, read_registers,
  get_rip, get_rbp, get_dr6, set_dr6, write_registers, resume, is_stopped,
}
use spytester.SpiedThread.Event.{
  Event, Dladdr, deliver, dispatch, handle_stop, handle_event, handle_trap, report_hit, hit_break,
  hit_slot, hits, slots, end_step, follow_clone, backtrace, wait_for, sigtrap, sigsegv, sigstop,
  event_clone, clear_hit, located,
}

-- Requests sent between two lists, in this order, with any others around them.
abbrev pub Sent : List Request → List Request → List Request → Type 0
Sent [] after before = (zs : List Request) × (after ≡ zs ++ before)
Sent (r ∷ rs) after before =
    (zs : List Request) × (k : List Request) × (after ≡ zs ++ r ∷ k) × Sent rs k before

pub later-Sent :
    (rs : List Request) (a b c : List Request) → Sent [] c b → Sent rs b a → Sent rs c a
later-Sent [] a b c (zs, e) (ys, f) =
    (zs ++ ys, e ∙ ap (λ l. zs ++ l) f ∙ sym (append_assoc zs ys a))
later-Sent (r ∷ rs) a b c (zs, e) (ys, k, f, s) =
    (zs ++ ys, k, e ∙ ap (λ l. zs ++ l) f ∙ sym (append_assoc zs ys (r ∷ k)), s)

module _ {M : Type 0} (exec : M → Request → M × Reply) where
  -- No request is taken back.
  abbrev pub Grows : World M → World M → Type 0
  Grows w w' = Sent [] w'.ctx.tracer.sent w.ctx.tracer.sent

  pub refl-Grows : (w : World M) → Grows w w
  refl-Grows w = ([], refl)

  pub trans-Grows : (u v w : World M) → Grows u v → Grows v w → Grows u w
  trans-Grows u v w g h = later-Sent [] u.ctx.tracer.sent v.ctx.tracer.sent w.ctx.tracer.sent h g

  read_by-Grows : (st : State) (rs : RegSync) (w : World M) → Grows w (read_by exec st rs w)
  unfolding read_by
  read_by-Grows stopped old w = (_ ∷ _ ∷ [], refl)
  read_by-Grows stopped sync w = refl-Grows w
  read_by-Grows stopped new_values w = refl-Grows w
  read_by-Grows undetermined rs w = refl-Grows w
  read_by-Grows continued rs w = refl-Grows w
  read_by-Grows terminated rs w = refl-Grows w
  read_by-Grows exited rs w = refl-Grows w

  pub read_registers-Grows : (w : World M) → Grows w (read_registers exec w)
  unfolding read_registers
  read_registers-Grows w = read_by-Grows w.thread.state w.thread.reg_sync w

  pub get_rip-Grows : (w : World M) → Grows w (get_rip exec w).0
  unfolding get_rip
  get_rip-Grows w = read_registers-Grows w

  pub get_rbp-Grows : (w : World M) → Grows w (get_rbp exec w).0
  unfolding get_rbp
  get_rbp-Grows w = read_registers-Grows w

  take_dr6-Grows : (o : Option ℕ) (w : World M) → Grows w (take_dr6 exec o w)
  unfolding take_dr6
  take_dr6-Grows none w = refl-Grows w
  take_dr6-Grows (some v) w = ([], refl)

  pub get_dr6-Grows : (w : World M) → Grows w (get_dr6 exec w).0
  unfolding get_dr6
  get_dr6-Grows w =
      trans-Grows w (read_registers exec w) (get_dr6 exec w).0 (read_registers-Grows w)
        (take_dr6-Grows (read_registers exec w).thread.future_dr6 (read_registers exec w))

  pub set_dr6-Grows : (v : ℕ) (w : World M) → Grows w (set_dr6 exec v w)
  unfolding set_dr6
  set_dr6-Grows v w = read_registers-Grows w

  write_regs-Grows : (b : Bool) (w : World M) → Grows w (write_regs exec b w)
  unfolding write_regs
  write_regs-Grows true w = refl-Grows w
  write_regs-Grows false w = (_ ∷ [], refl)

  write_dr6-Grows : (o : Option ℕ) (w : World M) → Grows w (write_dr6 exec o w)
  unfolding write_dr6
  write_dr6-Grows (some v) w = refl-Grows w
  write_dr6-Grows none w = (_ ∷ [], refl)

  write_by-Grows : (rs : RegSync) (w : World M) → Grows w (write_by exec rs w)
  unfolding write_by
  write_by-Grows new_values w =
      let w1 = write_regs exec w.thread.future_regs w in
      trans-Grows w w1 (write_dr6 exec w.thread.future_dr6 w1)
        (write_regs-Grows w.thread.future_regs w) (write_dr6-Grows w.thread.future_dr6 w1)
  write_by-Grows old w = refl-Grows w
  write_by-Grows sync w = refl-Grows w

  write_registers-Grows : (w : World M) → Grows w (write_registers exec w)
  unfolding write_registers
  write_registers-Grows w = write_by-Grows w.thread.reg_sync w

  -- `resume` sends the PTRACE_CONT of its signal.
  pub resume-Sent :
      (sig : ℕ) (w : World M)
      → Sent (cont w.thread.tid sig ∷ []) (resume exec sig w).0.ctx.tracer.sent w.ctx.tracer.sent
  unfolding resume
  resume-Sent sig w = ([], (write_registers exec w).ctx.tracer.sent, refl, write_registers-Grows w)

  pub resume-Grows : (sig : ℕ) (w : World M) → Grows w (resume exec sig w).0
  resume-Grows sig w =
      let (zs, k, e, (ys, f)) = resume-Sent sig w in
      (
        zs ++ (cont w.thread.tid sig ∷ ys),
        e ∙ ap (λ l. zs ++ cont w.thread.tid sig ∷ l) f ∙ sym (append_assoc zs _ _),
      )
