-- ===== src/Tracer.antt =====
-- include/Tracer.h and source/Tracer.cpp: the requests that clients send to the tracing thread, and
-- the view that a single client has of it. A request is queued, the tracing thread makes the
-- ptrace call, and the client waits for the reply; Tracer/Loop models the queue and the thread
-- themselves. What ptrace does is a parameter: `exec` takes the state of the traced process and a
-- request to the new state and the reply.
pub mod Loop
pub mod Handshake
use spytester.Base.{ℕ, ◌-◌, ◌^◌, List, ◌∷◌}

-- `struct user_regs_struct`: the two registers that the code names, and the others in order.
pub record Regs : Type 0 where
  pub rip : ℕ
  pub rbp : ℕ
  pub others : List ℕ

-- The ptrace requests and signals that the program sends. An address within `struct user` is one
-- of the debug registers.
pub data Request : Type 0 where
  peek_dr : ℕ → ℕ → Request  -- PTRACE_PEEKUSER tid u_debugreg[n]
  poke_dr : ℕ → ℕ → ℕ → Request  -- PTRACE_POKEUSER tid u_debugreg[n] value
  poke_data : ℕ → ℕ → ℕ → Request  -- PTRACE_POKEDATA pid address word
  get_regs : ℕ → Request
  set_regs : ℕ → Regs → Request
  cont : ℕ → ℕ → Request  -- PTRACE_CONT tid signal
  single_step : ℕ → Request
  detach : ℕ → ℕ → Request
  tgkill : ℕ → ℕ → ℕ → Request

-- The pair of result and errno that a future yields, the result as a 64-bit pattern, and the
-- registers that PTRACE_GETREGS stores.
pub record Reply : Type 0 where
  pub res : ℕ
  pub err : ℕ
  pub regs : Regs

-- The result -1.
abbrev pub failed : ℕ
failed = 2 ^ 64 - 1

-- What a client sees: the traced process, the tracee's pid, and the requests sent, newest first.
pub record Tracer (M : Type 0) : Type 0 where
  pub machine : M
  pub tracee_pid : ℕ
  pub sent : List Request

module _ {M : Type 0} (exec : M → Request → M × Reply) where
  -- `commandPTrace`, with the reply that its future will yield.
  unfoldable pub command_ptrace : Tracer M → Request → Tracer M × Reply
  command_ptrace t r =
      let (m, reply) = exec t.machine r in (record t { machine = m; sent = r ∷ t.sent }, reply)

  unfoldable pub write_word : Tracer M → ℕ → ℕ → Tracer M × Reply
  unfolding command_ptrace
  write_word t addr val = command_ptrace t (poke_data t.tracee_pid addr val)

  -- `tkill` queues a command as well, and returns 0 without waiting for it.
  unfoldable pub tkill : Tracer M → ℕ → ℕ → Tracer M × ℕ
  unfolding command_ptrace
  tkill t tid sig = ((command_ptrace t (tgkill t.tracee_pid tid sig)).0, 0)
