-- ===== src/SpiedThread.antt =====
-- include/SpiedThread.h and source/SpiedThread.cpp: a traced thread, with its state and its cached
-- registers. Two futures fetch the registers lazily; a future is the value that its reply holds,
-- until it is taken. All requests go through one queue (Tracer/Loop),
-- so each is carried out where it is sent.
pub mod Event
pub mod Registers
mod Slots
pub mod Waiting
mod Requests
mod Handling
mod Hits
pub mod Identity
mod Tests
use spytester.Base.{
  ℕ, Bool, true, false, List, [], ◌∷◌, map, Option, none, some, bit_and, ◌==◌, if◌then◌else◌,
}
use spytester.Tracer.{
  Regs, Request, Reply, Tracer, failed, peek_dr, poke_dr, get_regs, set_regs, cont, command_ptrace,
}
use spytester.Context.{Callback, Context}
use spytester.WatchPoint
use spytester.WatchPoint.{WatchPoint}

-- `E_State` and `E_RegSync`.
pub data State : Type 0 where
  undetermined stopped continued terminated exited : State

pub data RegSync : Type 0 where
  old sync new_values : RegSync

pub record Thread : Type 0 where
  pub tid : ℕ
  pub regs : Regs
  pub future_regs : Bool  -- `_futureRegs.valid()`
  pub dr6 : ℕ
  pub future_dr6 : Option ℕ
  pub reg_sync : RegSync
  pub state : State
  pub trap_expected : Bool
  pub watch_points : List (WatchPoint × Bool)

-- A thread with what it shares.
pub record World (M : Type 0) : Type 0 where
  pub ctx : Context M
  pub thread : Thread

-- The constructor, with its four watchpoints, none of which is marked as in use.
unfoldable pub new : ℕ → Thread
new tid = record {
  tid = tid;
  regs = record { rip = 0; rbp = 0; others = [] };
  future_regs = false;
  dr6 = 0;
  future_dr6 = none;
  reg_sync = old;
  state = stopped;
  trap_expected = false;
  watch_points = map (λ i. (WatchPoint.new i, false)) (0 ∷ 1 ∷ 2 ∷ 3 ∷ []);
}

abbrev pub is_stopped : State → Bool
is_stopped stopped = true
is_stopped _ = false

module _ {M : Type 0} where
  unfoldable pub set_state : State → World M → World M
  set_state s w = record w { thread = record w.thread { reg_sync = old; state = s } }

  module _ (exec : M → Request → M × Reply) where
    -- A request on behalf of the thread.
    unfoldable pub command : Request → World M → World M × Reply
    unfolding command_ptrace
    command r w =
        let (t, reply) = command_ptrace exec w.ctx.tracer r in
        (record w { ctx = record w.ctx { tracer = t } }, reply)

    -- PTRACE_GETREGS stores the registers if it succeeds.
    abbrev fetched : Regs → Reply → Regs
    fetched regs reply = if reply.res == failed then regs else reply.regs

    fetch : World M → World M
    unfolding command
    fetch w =
        let (w1, dr6) = command (peek_dr w.thread.tid 6) w in
        let (w2, regs) = command (get_regs w.thread.tid) w1 in
        record w2 {
          thread = record w.thread {
            future_dr6 = some dr6.res;
            future_regs = true;
            regs = fetched w.thread.regs regs;
            reg_sync = sync;
          };
        }

    read_by : State → RegSync → World M → World M
    unfolding fetch
    read_by stopped old w = fetch w
    read_by _ _ w = w

    unfoldable pub read_registers : World M → World M
    unfolding read_by
    read_registers w = read_by w.thread.state w.thread.reg_sync w

    -- `_futureRegs.get()`, where it is valid.
    abbrev take_regs : World M → World M
    take_regs w = record w { thread = record w.thread { future_regs = false } }

    unfoldable pub get_rip : World M → World M × ℕ
    unfolding read_registers
    get_rip w = let w' = take_regs (read_registers w) in (w', w'.thread.regs.rip)

    unfoldable pub get_rbp : World M → World M × ℕ
    unfolding read_registers
    get_rbp w = let w' = take_regs (read_registers w) in (w', w'.thread.regs.rbp)

    take_dr6 : Option ℕ → World M → World M
    take_dr6 none w = w
    take_dr6 (some v) w = record w { thread = record w.thread { dr6 = v; future_dr6 = none } }

    unfoldable pub get_dr6 : World M → World M × ℕ
    unfolding read_registers take_dr6
    get_dr6 w =
        let w1 = read_registers w in
        let w2 = take_dr6 w1.thread.future_dr6 w1 in (w2, w2.thread.dr6)

    unfoldable pub jump : ℕ → World M → World M
    unfolding read_registers
    jump addr w =
        let w1 = take_regs (read_registers w) in
        record w1 {
          thread = record w1.thread {
            regs = record w1.thread.regs { rip = addr };
            reg_sync = new_values;
          };
        }

    unfoldable pub set_dr6 : ℕ → World M → World M
    unfolding read_registers
    set_dr6 v w =
        let w1 = read_registers w in
        record w1 {
          thread = record w1.thread { future_dr6 = none; dr6 = v; reg_sync = new_values };
        }

    -- Registers whose fetched values nobody took are not written back.
    write_regs : Bool → World M → World M
    unfolding command
    write_regs true w = w
    write_regs false w = (command (set_regs w.thread.tid w.thread.regs) w).0

    write_dr6 : Option ℕ → World M → World M
    unfolding command
    write_dr6 (some v) w = w
    write_dr6 none w = (command (poke_dr w.thread.tid 6 w.thread.dr6) w).0

    write_by : RegSync → World M → World M
    unfolding write_regs write_dr6
    write_by new_values w =
        let w2 = write_dr6 w.thread.future_dr6 (write_regs w.thread.future_regs w) in
        record w2 { thread = record w.thread { reg_sync = sync } }
    write_by _ w = w

    unfoldable pub write_registers : World M → World M
    unfolding write_by
    write_registers w = write_by w.thread.reg_sync w

    unfoldable pub resume : ℕ → World M → World M × Bool
    unfolding write_registers command set_state
    resume signum w =
        let w1 = write_registers w in
        (set_state continued (command (cont w.thread.tid signum) w1).0, true)
