-- ===== src/SpiedProgram/Tests.antt =====
-- A program with one or two threads.
use spytester.Base.{ℕ, ◌/◌, ◌%◌, ◌≡◌, refl, true, List, [], ◌∷◌, ◌==◌, find_if, arith}
use spytester.Tracer.{get_regs, peek_dr}
use spytester.Context.{break_hit}
use spytester.Sample.{exec, dladdr, ctx, world, stop_event}
use spytester.SpiedThread.{stopped, continued}
use spytester.SpiedThread.Event.{deliver}
use spytester.SpiedProgram.{Program, WaitMacros, listen}
use spytester.SpiedProgram.Hit.{deliver_break}
use spytester.SpiedProgram.Threads.{tids, notes, note, member, listen-tids}

-- The thread stops one past the breakpoint at 0x401000.
deliver_break_example :
    let w' = deliver exec dladdr (0x402000 ∷ 0x401000 ∷ []) (stop_event 5) (world continued) in
    (w'.ctx.callbacks ≡ break_hit 0x401000 102 ∷ [])
    × (w'.thread.state ≡ stopped)
    × (w'.ctx.tracer.sent ≡ get_regs 102 ∷ peek_dr 102 6 ∷ [])
unfolding find_if
deliver_break_example =
    deliver_break exec dladdr (0x402000 ∷ 0x401000 ∷ []) (stop_event 5) (world continued) refl refl
      (omega arith) refl refl refl refl refl refl (omega arith)

-- Wait statuses as on Linux x86_64.
abbrev macros : WaitMacros
macros = record {
  is_stopped = λ ws. ws % 256 == 0x7f;
  is_continued = λ ws. ws == 0xffff;
  is_exited = λ ws. ws % 128 == 0;
  is_signaled = λ ws. true;
  stop_sig = λ ws. ws / 256 % 256;
  term_sig = λ ws. ws % 128;
  exit_status = λ ws. ws / 256 % 256;
}

abbrev program : Program ℕ
program = record {
  pid = 100;
  ctx = ctx;
  threads = [];
  break_points = 0x401000 ∷ [];
  on_creation = true;
}

-- The starter, two threads that stop by SIGSTOP, the first again by SIGTRAP.
abbrev statuses : List (ℕ × ℕ)
statuses = (100, 0x137f) ∷ (102, 0x137f) ∷ (103, 0x137f) ∷ (102, 0x57f) ∷ []

listen-tids_example : tids (listen exec dladdr macros statuses program).threads ≡ 102 ∷ 103 ∷ []
unfolding notes note member
listen-tids_example = listen-tids exec dladdr macros statuses program
