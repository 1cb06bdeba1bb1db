-- ===== src/WatchPoint/Requests.antt =====
-- source/WatchPoint.cpp: the requests that `set` and `unset` send, and what they record.
use spytester.Base.{ℕ, ◌<◌, ◌≡◌, ◌≢◌, ◌⊎◌, inl, inr, true, false, ◌∷◌, if◌then◌else◌, arith}
use native.Mathlib.Decide.{ℕ_discrete}
use spytester.Base.Bits.{bit}
use spytester.Tracer.{Request, Reply, Tracer, peek_dr, poke_dr, failed}
use spytester.WatchPoint.{WatchPoint, Trigger, Size, set, unset, programmed, disabled}
use spytester.WatchPoint.Dr7.{wanted, enabled_bit, programmed_low, disabled_bits}

module _ {M : Type 0} (exec : M → Request → M × Reply) where
  -- What the first read of dr7 returns.
  abbrev pub dr7_read : Tracer M → ℕ → ℕ
  dr7_read t tid = (exec t.machine (peek_dr tid 7)).1.res

  -- `set` where dr7 can be read.
  set_succeeds :
      (t : Tracer M) (tid : ℕ) (wp : WatchPoint) (addr : ℕ) (trigger : Trigger) (size : Size)
      → wp.idx < 4
      → dr7_read t tid ≢ failed
      → let (t', wp', done) = set exec t tid wp addr trigger size in
        (done ≡ true)
        × (wp' ≡ record wp { addr = addr; is_set = true })
        × (word : ℕ) × (t'.sent
            ≡ poke_dr tid 7 word ∷ poke_dr tid wp.idx addr ∷ peek_dr tid 7 ∷ t.sent)
        × ((k : ℕ) → k < 32 → bit word k ≡ wanted wp.idx trigger size k (bit (dr7_read t tid) k))
  unfolding set
  set_succeeds t tid wp addr trigger size small ok = (
    ground arith,
    ground arith,
    programmed (dr7_read t tid) wp.idx trigger size,
    ground arith,
    λ k hk. programmed_low (dr7_read t tid) wp.idx trigger size k small hk,
  )

  -- `set` where it cannot.
  set_fails :
      (t : Tracer M) (tid : ℕ) (wp : WatchPoint) (addr : ℕ) (trigger : Trigger) (size : Size)
      → dr7_read t tid ≡ failed
      → let (t', wp', done) = set exec t tid wp addr trigger size in
        (done ≡ false)
        × (wp' ≡ record wp { addr = addr })
        × (t'.sent ≡ poke_dr tid wp.idx addr ∷ peek_dr tid 7 ∷ t.sent)
  unfolding set
  set_fails t tid wp addr trigger size bad = ground arith

  -- `set` on a slot below 4. If dr7 can be read, it succeeds: it marks the watchpoint as set at the
  -- address, and sends three requests, the last of which writes a dr7 that enables the slot with the
  -- trigger and size asked for and keeps the other fields of the value read. If the read fails, it
  -- reports so and leaves the mark and dr7 alone, but the slot's address register is overwritten all
  -- the same, and so is the address that `getAddr` returns.
  pub set_lem :
      (t : Tracer M) (tid : ℕ) (wp : WatchPoint) (addr : ℕ) (trigger : Trigger) (size : Size)
      → wp.idx < 4
      → let (t', wp', done) = set exec t tid wp addr trigger size in
        ((dr7_read t tid ≡ failed)
          × (done ≡ false)
          × (wp' ≡ record wp { addr = addr })
          × (t'.sent ≡ poke_dr tid wp.idx addr ∷ peek_dr tid 7 ∷ t.sent))
        ⊎ ((dr7_read t tid ≢ failed)
            × (done ≡ true)
            × (wp' ≡ record wp { addr = addr; is_set = true })
            × (word : ℕ) × (t'.sent
                ≡ poke_dr tid 7 word ∷ poke_dr tid wp.idx addr ∷ peek_dr tid 7 ∷ t.sent)
            × ((k : ℕ)
                → k < 32
                → bit word k ≡ wanted wp.idx trigger size k (bit (dr7_read t tid) k)))
  set_lem t tid wp addr trigger size small = elim (ℕ_discrete (dr7_read t tid) failed) [
    | yes e ↦ let q = set_fails t tid wp addr trigger size e in inl (e, q.0, q.1, q.2)
    | no e ↦
        let q = set_succeeds t tid wp addr trigger size small e in inr (e, q.0, q.1, q.2, q.3, q.4)
  ]

  -- `unset` reports a failed read of dr7 and then changes nothing. Otherwise it clears the mark and
  -- writes a dr7 in which the slot's enable bits are off and the other bits are those read.
  unset_lem :
      (t : Tracer M) (tid : ℕ) (wp : WatchPoint)
      → wp.idx < 4
      → let (t', wp', done) = unset exec t tid wp in
        ((dr7_read t tid ≡ failed)
          × (done ≡ false)
          × (wp' ≡ wp)
          × (t'.sent ≡ peek_dr tid 7 ∷ t.sent))
        ⊎ ((dr7_read t tid ≢ failed)
            × (done ≡ true)
            × (wp' ≡ record wp { is_set = false })
            × (t'.sent ≡ poke_dr tid 7 (disabled (dr7_read t tid) wp.idx) ∷ peek_dr tid 7 ∷ t.sent)
            × ((k : ℕ)
                → k < 64
                → bit (disabled (dr7_read t tid) wp.idx) k
                  ≡ (if enabled_bit wp.idx k then 0 else bit (dr7_read t tid) k)))
  unfolding unset
  unset_lem t tid wp small = elim (ℕ_discrete (dr7_read t tid) failed) [
    | yes e ↦ inl (e, ground arith, ground arith, ground arith)
    | no e ↦ inr (
      e,
      ground arith,
      ground arith,
      ground arith,
      λ k hk. disabled_bits (dr7_read t tid) wp.idx k small hk,
    )
  ]
