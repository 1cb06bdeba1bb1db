-- ===== src/SpiedProgram/Hit.antt =====
-- source/SpiedProgram.cpp: a thread that runs onto a breakpoint.
use mathlib.Core.List.{append-nil}
use spytester.Base.{
  ℕ, ◌≡◌, ◌≢◌, refl, true, false, List, [], ◌∷◌, ◌++◌, Option, none, some, ◌==◌, find_if,
  if◌then◌else◌, arith,
}
use spytester.Base.Words.{pred64}
use spytester.Tracer.{Request, Reply, failed, peek_dr, get_regs}
use spytester.Context.{Callback, break_hit, execute_callback}
use spytester.SpiedThread.{
  World, sync, set_state, read_registers, get_rip, get_dr6, continued, stopped,
}
use spytester.SpiedThread.Event.{
  Event, Dladdr, deliver, handle_event, handle_trap, end_step, follow_clone, report_hit, hit_break,
  hits, slots, sigtrap, event_clone,
}

abbrev hit_of : ℕ → Option ℕ → List Callback
hit_of tid none = []
hit_of tid (some a) = break_hit a tid ∷ []

module _ {M : Type 0} (exec : M → Request → M × Reply) (dladdr : Dladdr) (bps : List ℕ) where
  -- What the two requests of the listening thread return for a thread that has just stopped.
  abbrev pub debug_status : World M → Reply
  debug_status w = (exec w.ctx.tracer.machine (peek_dr w.thread.tid 6)).1

  abbrev pub registers : World M → Reply
  registers w =
      (exec (exec w.ctx.tracer.machine (peek_dr w.thread.tid 6)).0 (get_regs w.thread.tid)).1

  -- The thread once it has stopped and its debug status was taken.
  seen : World M → World M
  seen w =
      let (m1, status) = exec w.ctx.tracer.machine (peek_dr w.thread.tid 6) in
      let (m2, regs) = exec m1 (get_regs w.thread.tid) in
      record w {
        ctx = record w.ctx {
          tracer = record w.ctx.tracer {
            machine = m2;
            sent = get_regs w.thread.tid ∷ peek_dr w.thread.tid 6 ∷ w.ctx.tracer.sent;
          };
        };
        thread = record w.thread {
          state = stopped;
          reg_sync = sync;
          future_regs = true;
          regs = if regs.res == failed then w.thread.regs else regs.regs;
          dr6 = status.res;
          future_dr6 = none;
        };
      }

  get_dr6-seen : (w : World M) → get_dr6 exec (set_state stopped w) ≡ (seen w, (debug_status w).res)
  unfolding get_dr6 set_state seen
  get_dr6-seen w = refl

  read_running : (w : World M) → w.thread.state ≡ continued → read_registers exec w ≡ w
  unfolding read_registers
  read_running w r = ground arith

  no_hit :
      (dr6 : ℕ) (w : World M)
      → hits dr6 0 ≡ false
      → hits dr6 1 ≡ false
      → hits dr6 2 ≡ false
      → hits dr6 3 ≡ false
      → report_hit exec dladdr slots dr6 w ≡ (w, false)
  unfolding report_hit
  no_hit dr6 w h0 h1 h2 h3 = rw (h0, h1, h2, h3)

  step_over :
      (w : World M)
      → w.thread.trap_expected ≡ false
      → end_step exec dladdr (set_state stopped w) ≡ (set_state stopped w, false)
  unfolding end_step set_state
  step_over w x = rw x

  clone_over :
      (event : ℕ) (w : World M)
      → event ≢ event_clone
      → follow_clone exec dladdr event w ≡ (w, false)
  unfolding follow_clone
  clone_over event w c = ground arith

  trap_unhandled :
      (event : ℕ) (w : World M)
      → event ≢ event_clone
      → w.thread.trap_expected ≡ false
      → hits (debug_status w).res 0 ≡ false
      → hits (debug_status w).res 1 ≡ false
      → hits (debug_status w).res 2 ≡ false
      → hits (debug_status w).res 3 ≡ false
      → handle_trap exec dladdr event (set_state stopped w) ≡ (seen w, false)
  unfolding handle_trap
  trap_unhandled event w c x h0 h1 h2 h3 = ground (
    arith,
    step_over w x,
    clone_over event (set_state stopped w) c,
    get_dr6-seen w,
    no_hit (debug_status w).res (seen w) h0 h1 h2 h3,
  )

  event_unhandled :
      (e : Event) (w : World M)
      → e.state ≡ stopped
      → e.signal ≡ sigtrap
      → w.thread.state ≡ continued
      → handle_trap exec dladdr e.ptrace_event (set_state stopped w) ≡ (seen w, false)
      → handle_event exec dladdr e w ≡ (seen w, false)
  unfolding handle_event
  event_unhandled e w s g r t = ground (arith, read_running w r)

  deliver-seen :
      (w : World M)
      → (registers w).res ≢ failed
      → let w' = hit_break exec dladdr bps (get_rip exec (seen w)).1 (get_rip exec (seen w)).0 in
        (w'.ctx.callbacks
          ≡ w.ctx.callbacks
            ++ hit_of w.thread.tid (find_if (λ a. a == pred64 (registers w).regs.rip) bps))
        × (w'.thread.state ≡ stopped)
        × (w'.ctx.tracer.sent ≡ get_regs w.thread.tid ∷ peek_dr w.thread.tid 6 ∷ w.ctx.tracer.sent)
  unfolding get_rip hit_break execute_callback seen
  deliver-seen w ok = ground (arith, append-nil w.ctx.callbacks)

  -- A running thread that stops by a SIGTRAP with no single step expected, no clone reported and no
  -- watchpoint bit set in its debug status: if its instruction pointer is one past a breakpoint, the
  -- callback of the first such breakpoint is queued for it, and otherwise none is. Either way the
  -- thread stays stopped, and exactly two requests are sent, for the debug status and the registers.
  pub deliver_break :
      (e : Event) (w : World M)
      → e.state ≡ stopped
      → e.signal ≡ sigtrap
      → e.ptrace_event ≢ event_clone
      → w.thread.state ≡ continued
      → w.thread.trap_expected ≡ false
      → hits (debug_status w).res 0 ≡ false
      → hits (debug_status w).res 1 ≡ false
      → hits (debug_status w).res 2 ≡ false
      → hits (debug_status w).res 3 ≡ false
      → (registers w).res ≢ failed
      → let w' = deliver exec dladdr bps e w in
        (w'.ctx.callbacks
          ≡ w.ctx.callbacks
            ++ hit_of w.thread.tid (find_if (λ a. a == pred64 (registers w).regs.rip) bps))
        × (w'.thread.state ≡ stopped)
        × (w'.ctx.tracer.sent ≡ get_regs w.thread.tid ∷ peek_dr w.thread.tid 6 ∷ w.ctx.tracer.sent)
  unfolding deliver
  deliver_break e w s g c r x h0 h1 h2 h3 ok = ground (
    arith,
    event_unhandled e w s g r (trap_unhandled e.ptrace_event w c x h0 h1 h2 h3),
    deliver-seen w ok,
  )
