-- ===== src/Sample.antt =====
-- Data that the tests share: a traced process that answers every request, and a thread of it.
use spytester.Base.{ℕ, suc, ◌-◌, ◌^◌, Bool, false, [], ◌∷◌, none}
use spytester.Tracer.{Regs, Request, Reply, Tracer}
use spytester.Context.{Context}
use spytester.WatchPoint.{WatchPoint}
use spytester.SpiedThread.{State, Thread, World, old, stopped}
use spytester.SpiedThread.Event.{Event, Dladdr}

abbrev pub regs : Regs
regs = record { rip = 0x401001; rbp = 0; others = 7 ∷ [] }

-- The state of the process is the number of requests that it has answered.
abbrev pub exec : ℕ → Request → ℕ × Reply
exec n r = (suc n, record { res = 0; err = 0; regs = regs })

-- As `exec`, but PTRACE_PEEKUSER and all else fail.
abbrev pub failing : ℕ → Request → ℕ × Reply
failing n r = (suc n, record { res = 2 ^ 64 - 1; err = 3; regs = regs })

abbrev pub dladdr : Dladdr
dladdr a = none

abbrev pub word_at : ℕ → ℕ → ℕ
word_at n a = 0x90

abbrev pub tracer : Tracer ℕ
tracer = record { machine = 0; tracee_pid = 100; sent = [] }

abbrev pub ctx : Context ℕ
ctx = record { tracer = tracer; callbacks = [] }

abbrev pub slot : ℕ → WatchPoint × Bool
slot i = (record { idx = i; addr = 0; is_set = false }, false)

abbrev pub thread : State → Thread
thread s = record {
  tid = 102;
  regs = record { rip = 0; rbp = 0; others = [] };
  future_regs = false;
  dr6 = 0;
  future_dr6 = none;
  reg_sync = old;
  state = s;
  trap_expected = false;
  watch_points = slot 0 ∷ slot 1 ∷ slot 2 ∷ slot 3 ∷ [];
}

abbrev pub world : State → World ℕ
world s = record { ctx = ctx; thread = thread s }

abbrev pub stop_event : ℕ → Event
stop_event sig = record { state = stopped; signal = sig; status = 0; ptrace_event = 0 }
