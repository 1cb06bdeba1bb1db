-- ===== src/SpiedProgram.antt =====
-- include/SpiedProgram.h and source/SpiedProgram.cpp: the program under test, with the threads that
-- are known of and the thread that listens for the events of `waitpid`. The macros that take a wait
-- status apart belong to the C library and are a parameter.
mod Threads
mod Hit
mod Relinking
mod Wrapping
mod Launch
mod Ending
mod Tests
use spytester.Base.{
  ℕ, ◌/◌, ◌%◌, ◌^◌, Bool, true, false, List, [], ◌∷◌, ◌++◌, Option, none, some, ◌==◌, if◌then◌else◌,
}
use mathlib.Core.Option
use spytester.Tracer.{Request, Reply}
use spytester.Context.{Context, Callback, thread_created, execute_callback}
use spytester.SpiedThread.{
  Thread, World, new, resume, undetermined, stopped, continued, terminated, exited,
}
use spytester.SpiedThread.Event.{Event, Dladdr, deliver, stop, terminate, sigtrap}

-- `WIFSTOPPED` and its kin.
pub record WaitMacros : Type 0 where
  pub is_stopped : ℕ → Bool
  pub is_continued : ℕ → Bool
  pub is_exited : ℕ → Bool
  pub is_signaled : ℕ → Bool
  pub stop_sig : ℕ → ℕ
  pub term_sig : ℕ → ℕ
  pub exit_status : ℕ → ℕ

-- The breakpoints are listed by their addresses, which do not change.
pub record Program (M : Type 0) : Type 0 where
  pub pid : ℕ
  pub ctx : Context M
  pub threads : List Thread
  pub break_points : List ℕ
  pub on_creation : Bool  -- whether `_onThreadCreation` holds a function

-- The event that a wait status stands for. In the branch of WIFEXITED a second variable of the name
-- `status` takes the exit status, so that the one passed on keeps its initial 0.
unfoldable pub decode : WaitMacros → ℕ → Event
decode m ws =
    if m.is_stopped ws
    then record {
      state = stopped;
      signal = m.stop_sig ws;
      status = 0;
      ptrace_event = if m.stop_sig ws == sigtrap then (ws / 2 ^ 16) % 2 ^ 16 else 0;
    }
    else if m.is_continued ws
    then record { state = continued; signal = 0; status = 0; ptrace_event = 0 }
    else if m.is_exited ws
    then record {
      state = exited;
      signal = 0;
      status = let status = m.exit_status ws in 0;
      ptrace_event = 0;
    }
    else if m.is_signaled ws
    then record { state = terminated; signal = m.term_sig ws; status = 0; ptrace_event = 0 }
    else record { state = undetermined; signal = 0; status = 0; ptrace_event = 0 }

module _ {M : Type 0} where
  -- The first thread with the tid goes through an operation; `none` where there is no such thread.
  unfoldable pub with_thread :
      ℕ → (World M → World M) → Context M → List Thread → Option (Context M × List Thread)
  with_thread tid f ctx [] = none
  with_thread tid f ctx (t ∷ ts) =
      let w = f (record { ctx = ctx; thread = t }) in
      let later = Option.map (λ (c, rest). (c, t ∷ rest)) (with_thread tid f ctx ts) in
      if tid == t.tid then some (w.ctx, w.thread ∷ ts) else later

  -- `setThreadCreationCallback` and `createBreakPoint`.
  unfoldable pub set_thread_creation_callback : Bool → Program M → Program M
  set_thread_creation_callback b p = record p { on_creation = b }

  unfoldable pub create_break_point : ℕ → Program M → Program M
  create_break_point addr p = record p { break_points = p.break_points ++ addr ∷ [] }

  abbrev pub created : Bool → ℕ → Context M → Context M
  created true tid ctx = execute_callback (thread_created tid) ctx
  created false tid ctx = ctx

  unfoldable pub add_thread : ℕ → Program M → Program M
  add_thread tid p = record p {
    threads = p.threads ++ new tid ∷ [];
    ctx = created p.on_creation tid p.ctx;
  }

  unfoldable pub found_or_new : ℕ → Option (Context M × List Thread) → Program M → Program M
  found_or_new tid none p = add_thread tid p
  found_or_new tid (some (ctx, threads)) p = record p { ctx = ctx; threads = threads }

  module _ (exec : M → Request → M × Reply) (dladdr : Dladdr) (m : WaitMacros) where
    -- One round of the loop in `listenEvent`: a status of the starter process is passed over, the
    -- first status of a tid makes a new thread, and any other goes to the thread.
    unfoldable pub listen_one : ℕ × ℕ → Program M → Program M
    listen_one (tid, ws) p =
        let handled =
          with_thread tid (deliver exec dladdr p.break_points (decode m ws)) p.ctx p.threads in
        if tid == p.pid then p else found_or_new tid handled p

    -- The loop, over what `waitpid` returns until it fails.
    unfoldable pub listen : List (ℕ × ℕ) → Program M → Program M
    listen [] p = p
    listen (e ∷ es) p = listen es (listen_one e p)

    unfoldable pub resume_all : List Thread → Context M → Context M × List Thread
    resume_all [] ctx = (ctx, [])
    resume_all (t ∷ ts) ctx =
        let w = (resume exec 0 (record { ctx = ctx; thread = t })).0 in
        let (ctx', ts') = resume_all ts w.ctx in (ctx', w.thread ∷ ts')

    -- `SpiedProgram::resume`.
    unfoldable pub resume_program : Program M → Program M
    unfolding resume_all
    resume_program p =
        let (ctx, threads) = resume_all p.threads p.ctx in record p { ctx = ctx; threads = threads }

    -- The loop of `SpiedProgram::stop`, with the events that arrive while each thread is waited for.
    stop_all : (ℕ → List Event) → List ℕ → List Thread → Context M → Context M × List Thread
    stop_all events bps [] ctx = (ctx, [])
    stop_all events bps (t ∷ ts) ctx =
        let w = (stop exec dladdr bps (events t.tid) (record { ctx = ctx; thread = t })).0 in
        let (ctx', ts') = stop_all events bps ts w.ctx in (ctx', w.thread ∷ ts')

    unfoldable pub stop_program : (ℕ → List Event) → Program M → Program M
    unfolding stop_all
    stop_program events p =
        let (ctx, threads) = stop_all events p.break_points p.threads p.ctx in
        record p { ctx = ctx; threads = threads }

    -- `SpiedProgram::terminate`, with the events that arrive for the first thread.
    unfoldable pub terminate_program : List Event → Program M → Program M
    terminate_program es p = elim p.threads [
      | [] ↦ p
      | t ∷ ts ↦
          let w =
            (terminate exec dladdr p.break_points es (record { ctx = p.ctx; thread = t })).0 in
          record p { ctx = w.ctx; threads = w.thread ∷ ts }
    ]
