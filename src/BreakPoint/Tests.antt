-- ===== src/BreakPoint/Tests.antt =====
-- source/Breakpoint.cpp: breakpoints in a text of NOPs.
use spytester.Base.{◌≡◌, inl, refl, true, false, [], ◌∷◌, arith}
use spytester.Tracer.{Tracer, get_regs, set_regs, peek_dr, poke_data, cont, single_step}
use spytester.Sample.{exec, dladdr, regs, world, stop_event}
use spytester.SpiedThread.{stopped}
use spytester.BreakPoint.{new_word, new, set, unset, resume_and_set}
use spytester.BreakPoint.Text.{Memory, IsBytes, Text, final}
use spytester.BreakPoint.Patch.{catching_up, set-unset_restores}
use spytester.BreakPoint.Apart.{unset_apart}
use spytester.BreakPoint.Resume.{resume_and_set_lem}
use spytester.BreakPoint.Text
use spytester.Sample

abbrev nops : Memory
nops a = 0x90

nops-IsBytes : IsBytes nops
nops-IsBytes a = omega arith

abbrev tracer : Tracer Text
tracer = record { machine = record { memory = nops; pending = [] }; tracee_pid = 100; sent = [] }

-- The word that the second `set` reads, in the NOPs.
resume_and_set_lem_example :
    let (w', bp', done) =
      resume_and_set exec Sample.word_at dladdr []
        (stop_event 5 ∷ [])
        (record { addr = 0x401000; backup = 0x55; is_set = true })
        (world stopped) in
    (w'.ctx.tracer.sent
      ≡ cont 102 0
        ∷ poke_data 100 0x401000 0xcc
        ∷ single_step 102
        ∷ set_regs 102 (record regs { rip = 0x401000 })
        ∷ poke_data 100 0x401000 0x55
        ∷ get_regs 102
        ∷ peek_dr 102 6
        ∷ [])
    × (bp' ≡ record { addr = 0x401000; backup = 0x90; is_set = true })
    × (done ≡ true)
unfolding new_word
resume_and_set_lem_example =
    resume_and_set_lem exec Sample.word_at dladdr [] (stop_event 5 ∷ [])
      (record { addr = 0x401000; backup = 0x55; is_set = true }) (world stopped) refl refl refl

-- The first write is made before the breakpoint is removed.
set-unset_restores_example :
    let (t1, bp1, _) = set Text.exec Text.word_at (new 0x1000) tracer in
    let (t2, bp2, _) = unset Text.exec Text.word_at bp1 (catching_up 1 t1) in
    (final t2.machine 0x1003 ≡ 0x90) × (bp2.is_set ≡ false)
unfolding new
set-unset_restores_example = set-unset_restores (new 0x1000) tracer 1 0x1003 refl refl nops-IsBytes

-- The first write is made only after the second breakpoint is set.
unset_apart_example :
    let (t1, a1, _) = set Text.exec Text.word_at (new 0x1000) tracer in
    let (t2, b2, _) = set Text.exec Text.word_at (new 0x1008) (catching_up 0 t1) in
    let (t3, a3, _) = unset Text.exec Text.word_at a1 (catching_up 1 t2) in
    final t3.machine 0x1008 ≡ 0xcc
unfolding new
unset_apart_example =
    unset_apart (new 0x1000) (new 0x1008) tracer 0 1 0x1008 refl refl (inl (omega arith)) refl
      nops-IsBytes
