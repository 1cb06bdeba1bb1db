-- ===== src/SpiedThread/Tests.antt =====
-- A thread of the sample process.
use spytester.Base.{◌≡◌, ◌⊎◌, refl, true, false, List, [], ◌∷◌, some, find_if}
use spytester.Sample.{exec, dladdr, ctx, world, stop_event}
use spytester.SpiedThread.{
  stopped, continued, terminated, read_registers, get_rip, resume, set_state,
}
use spytester.SpiedThread.Event.{
  Event, handle_event, report_hit, slots, terminate, sigterm, sigstop, deliver, wait_for, kill,
  terminate_from,
}
use spytester.SpiedThread.Handling.{handle_event-state}
use spytester.SpiedThread.Hits.{slot_hit}
use spytester.SpiedThread.Slots.{
  create, delete, calls, create_watch_point, fresh, create_watch_point-calls,
}
use spytester.SpiedThread.Waiting.{Ended, terminate_lem}

handle_event-state_example :
    (handle_event exec dladdr (stop_event sigterm) (world continued)).0.thread.state ≡ continued
handle_event-state_example = handle_event-state exec dladdr (stop_event sigterm) (world continued)

-- Slots 1 and 2 are hit at once: slot 1 is reported.
report_hit_two :
    report_hit exec dladdr slots 6 (world stopped)
    ≡ (slot_hit exec dladdr 1 6 (world stopped), true)
unfolding report_hit
report_hit_two = refl

create_watch_point-calls_example :
    (create_watch_point (calls exec (create ∷ create ∷ delete 0 ∷ []) (fresh exec ctx 102))).1
    ≡ some 0
create_watch_point-calls_example =
    create_watch_point-calls exec (create ∷ create ∷ delete 0 ∷ []) ctx 102

-- A stop by SIGSTOP, and then the end, come while a running thread is terminated.
abbrev ending : List Event
ending =
    stop_event sigstop
    ∷ record { state = terminated; signal = sigterm; status = 0; ptrace_event = 0 }
    ∷ []

-- The wait for the stop and the wait for the end both succeed.
terminate_twice : (terminate exec dladdr [] ending (world continued)).2 ≡ true
unfolding terminate terminate_from wait_for deliver handle_event kill resume read_registers
    set_state find_if get_rip
terminate_twice = refl

terminate_lem_example :
    ((false ≡ true)
      × (terminate exec dladdr [] ending (world continued) ≡ (world continued, ending, true)))
    ⊎ ((false ≡ false)
        × Ended exec dladdr []
            (world continued)
            (terminate exec dladdr [] ending (world continued)))
terminate_lem_example = terminate_lem exec dladdr [] ending (world continued)
