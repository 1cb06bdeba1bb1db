-- ===== src/WatchPoint/Tests.antt =====
-- Watchpoints over a process that answers, and over one that does not.
use spytester.Base.{ℕ, ◌<◌, ◌≡◌, ◌≢◌, ◌⊎◌, refl, true, false, ◌∷◌, arith}
use spytester.Base.Bits.{bit}
use spytester.Tracer.{peek_dr, poke_dr, failed}
use spytester.Sample.{exec, failing, tracer}
use spytester.WatchPoint.{WatchPoint, write, bytes4, set, programmed}
use spytester.WatchPoint.Dr7.{wanted}
use spytester.WatchPoint.Requests.{set_lem}

abbrev point : WatchPoint
point = record { idx = 1; addr = 0; is_set = false }

-- Slot 1, on writes of four bytes: enable bits 2 and 3, control field 0b1101 at bit 20.
programmed_slot1 : programmed 0 1 write bytes4 ≡ 0xd0000c
unfolding programmed
programmed_slot1 = refl

set_lem_example :
    let (t', wp', done) = set exec tracer 102 point 0x5000 write bytes4 in
    ((0 ≡ failed)
      × (done ≡ false)
      × (wp' ≡ record point { addr = 0x5000 })
      × (t'.sent ≡ poke_dr 102 1 0x5000 ∷ peek_dr 102 7 ∷ tracer.sent))
    ⊎ ((0 ≢ failed)
        × (done ≡ true)
        × (wp' ≡ record point { addr = 0x5000; is_set = true })
        × (word : ℕ) × (t'.sent
            ≡ poke_dr 102 7 word ∷ poke_dr 102 1 0x5000 ∷ peek_dr 102 7 ∷ tracer.sent)
        × ((k : ℕ) → k < 32 → bit word k ≡ wanted 1 write bytes4 k (bit 0 k)))
set_lem_example = set_lem exec tracer 102 point 0x5000 write bytes4 (omega arith)

-- A process that does not answer.
set-failing : (set failing tracer 102 point 0x5000 write bytes4).2 ≡ false
unfolding set
set-failing = refl
