-- ===== src/Tracer/Handshake.antt =====
-- source/Tracer.cpp and source/DynamicNamespace.cpp: how the traced process comes to be, by two
-- threads of control: the tracing thread in `createTracee`, up to the promise that `startTracing`
-- waits for, and the process that it clones in `preStart` and `createMainThread`. Each step is one
-- call of the source, with its outcome. What the kernel does at such a call follows ptrace(2): a
-- traced process that raises a signal stops until it is continued; with PTRACE_O_TRACECLONE so does
-- one that clones a thread, and the thread is traced too; waitpid waits for a stop or the end, and
-- fails where the child is gone.
mod Order
pub mod Progress
mod Tests
use spytester.Base.{Bool, true, false, List, [], ◌∷◌}

-- Where the tracing thread is: at `clone`, at the first `waitpid`, at PTRACE_SETOPTIONS, at the first
-- PTRACE_CONT, at the second `waitpid`, at the second PTRACE_CONT, past `set_value`; `no_tracee` is
-- past `set_value` with -1.
pub data TracerAt : Type 0 where
  cloning first_wait setting continuing second_wait continuing_again told no_tracee : TracerAt

-- Where the starter process is: not cloned yet, at PTRACE_TRACEME, at the first `raise`, stopped by
-- it, at the creation of the main thread, stopped by that, at the second `raise`, stopped by it, past
-- it at the end of `preStart`; the second one, whose result is not looked at, is taken to succeed.
-- `aborting` is stopped by the signal of an abort, and stops again when it is continued; `dead` has
-- ended, `reaped` is gone.
pub data StarterAt : Type 0 where
  absent tracing raising at_first_stop creating at_clone pausing at_pause past : StarterAt
  aborting dead reaped : StarterAt

pub data MainThread : Type 0 where
  no_thread untraced traced : MainThread

-- `option` is PTRACE_O_TRACECLONE; as ghost state, whether a call has failed.
pub record Start : Type 0 where
  pub tracer : TracerAt
  pub starter : StarterAt
  pub main : MainThread
  pub option : Bool
  pub failed : Bool

-- A call of the tracing thread or of the starter, `true` if the kernel grants it.
pub data StartCall : Type 0 where
  by_tracer by_starter : Bool → StartCall

unfoldable pub init : Start
init = record {
  tracer = cloning;
  starter = absent;
  main = no_thread;
  option = false;
  failed = false;
}

-- `clone`; without a process `createTracee` returns.
clone_starter : Bool → Start → Start
clone_starter true s = record s { tracer = first_wait; starter = tracing }
clone_starter false s = record s { tracer = no_tracee; failed = true }

-- `waitpid` and the test of WIFSTOPPED.
wait_first : StarterAt → Start → Start
wait_first at_first_stop s = record s { tracer = setting }
wait_first at_clone s = record s { tracer = setting }
wait_first at_pause s = record s { tracer = setting }
wait_first aborting s = record s { tracer = setting }
wait_first dead s = record s { tracer = second_wait; starter = reaped }
wait_first _ s = s

set_options : Bool → Start → Start
set_options true s = record s { tracer = continuing; option = true }
set_options false s = record s { tracer = continuing; failed = true }

-- PTRACE_CONT, which fails where the process is not stopped; this is only logged.
continued : StarterAt → StarterAt
continued at_first_stop = creating
continued at_clone = pausing
continued at_pause = past
continued p = p

wait_second : StarterAt → Start → Start
wait_second at_first_stop s = s
wait_second at_clone s = record s { tracer = continuing_again }
wait_second at_pause s = record s { tracer = continuing_again }
wait_second aborting s = record s { tracer = continuing_again }
wait_second dead s = record s { tracer = continuing_again; starter = reaped }
wait_second reaped s = record s { tracer = continuing_again }
wait_second _ s = s

tracer_step : TracerAt → Bool → Start → Start
unfolding clone_starter wait_first set_options continued wait_second
tracer_step cloning ok s = clone_starter ok s
tracer_step first_wait ok s = wait_first s.starter s
tracer_step setting ok s = set_options ok s
tracer_step continuing ok s = record s { tracer = second_wait; starter = continued s.starter }
tracer_step second_wait ok s = wait_second s.starter s
tracer_step continuing_again ok s = record s { tracer = told; starter = continued s.starter }
tracer_step told ok s = s
tracer_step no_tracee ok s = s

-- `std::thread`, whose clone is reported with the option set.
create_main : Bool → Start → Start
create_main true s = record s { starter = at_clone; main = traced }
create_main false s = record s { starter = pausing; main = untraced }

-- A call that is not granted ends in an abort: that of an untraced process ends it.
starter_step : StarterAt → Bool → Start → Start
unfolding create_main
starter_step tracing true s = record s { starter = raising }
starter_step tracing false s = record s { starter = dead; failed = true }
starter_step raising true s = record s { starter = at_first_stop }
starter_step raising false s = record s { starter = aborting; failed = true }
starter_step creating true s = create_main s.option s
starter_step creating false s = record s { starter = aborting; failed = true }
starter_step pausing ok s = record s { starter = at_pause }
starter_step _ ok s = s

unfoldable pub make_call : StartCall → Start → Start
unfolding tracer_step starter_step
make_call (by_tracer ok) s = tracer_step s.tracer ok s
make_call (by_starter ok) s = starter_step s.starter ok s

unfoldable pub make_calls : List StartCall → Start → Start
unfolding make_call
make_calls [] s = s
make_calls (a ∷ rest) s = make_calls rest (make_call a s)
