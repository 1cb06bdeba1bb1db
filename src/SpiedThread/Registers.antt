-- ===== src/SpiedThread/Registers.antt =====
-- source/SpiedThread.cpp: the register cache, between a stop and the next resume.
use spytester.Base.{ℕ, ◌≡◌, ◌≢◌, List, ◌∷◌, ◌==◌, if◌then◌else◌, arith}
use spytester.Tracer.{Regs, Request, Reply, failed, peek_dr, get_regs, set_regs, cont}
use spytester.SpiedThread.{
  State, World, old, stopped, continued, set_state, get_rip, get_rbp, get_dr6, jump, resume,
}

module _ {M : Type 0} (exec : M → Request → M × Reply) where
  abbrev sent : World M → List Request
  sent w = w.ctx.tracer.sent

  -- `getRip` leaves nothing for a second call to do, which sends no request and returns the same.
  pub get_rip_twice : (w : World M) → get_rip exec (get_rip exec w).0 ≡ get_rip exec w
  unfolding get_rip
  get_rip_twice w = ground arith

  -- After a jump the cached instruction pointer is the target, and reading it sends no request.
  pub get_rip-jump :
      (addr : ℕ) (w : World M)
      → let (w', rip) = get_rip exec (jump exec addr w) in
        (rip ≡ addr) × (sent w' ≡ sent (jump exec addr w))
  unfolding get_rip jump
  get_rip-jump addr w = ground arith

  -- A thread that is not stopped is never asked for its registers: the values cached last are
  -- returned.
  pub getters_running :
      (w : World M)
      → w.thread.state ≢ stopped
      → (sent (get_rip exec w).0 ≡ sent w)
        × ((get_rip exec w).1 ≡ w.thread.regs.rip)
        × (sent (get_rbp exec w).0 ≡ sent w)
        × (sent (get_dr6 exec w).0 ≡ sent w)
  unfolding get_rip get_rbp get_dr6
  getters_running w h = ground arith

  -- The registers of a thread that stopped since they were last read.
  abbrev pub machine_regs : World M → Regs
  machine_regs w =
      let (m, _) = exec w.ctx.tracer.machine (peek_dr w.thread.tid 6) in
      let reply = (exec m (get_regs w.thread.tid)).1 in
      if reply.res == failed then w.thread.regs else reply.regs

  -- For a stopped thread whose registers have not been read since it stopped, a jump followed by a
  -- resume sends, in this order: the two reads, the registers as read with the instruction pointer
  -- replaced, and the request to continue with the signal. The debug status is not written back.
  -- The thread is then running, and its cache is out of date.
  resume-jump :
      (addr sig : ℕ) (w : World M)
      → w.thread.state ≡ stopped
      → w.thread.reg_sync ≡ old
      → let w' = (resume exec sig (jump exec addr w)).0 in
        (sent w'
          ≡ cont w.thread.tid sig
            ∷ set_regs w.thread.tid (record (machine_regs w) { rip = addr })
            ∷ get_regs w.thread.tid
            ∷ peek_dr w.thread.tid 6
            ∷ sent w)
        × (w'.thread.state ≡ continued)
        × (w'.thread.reg_sync ≡ old)
  unfolding jump resume
  resume-jump addr sig w s o = ground arith

  -- A jump or a change of the debug status that has not been written back is dropped when the
  -- thread's state is set, as every event does: the next resume writes no register.
  resume-set_state :
      (s : State) (sig : ℕ) (w : World M)
      → sent (resume exec sig (set_state s w)).0 ≡ cont w.thread.tid sig ∷ sent w
  unfolding resume set_state
  resume-set_state s sig w = ground arith
