-- ===== src/Tracer/Loop/Tests.antt =====
-- Runs of the tracing thread's queue.
use spytester.Base.{ℕ, ◌≡◌, ◌≢◌, refl, true, arith, List, [], ◌∷◌, ◌++◌}
use spytester.Tracer.Loop.{
  Action, Loop, starting, entering, waiting, finished, not_started, push, post, create, enter, test,
  wait, look, exec, stop, init, step, run,
}
use spytester.Tracer.Loop.Order.{run-fifo, run-none_forgotten}
use spytester.Tracer.Loop.Shutdown.{run-lost_stop}
use spytester.Tracer.Loop.Progress.{
  Call, posts, tests, waits, looks, executes, has, AllRounds, run_rounds,
}
use spytester.Tracer.Loop.Stopping.{run_rounds-stop}

abbrev two_commands : List (Action ℕ)
two_commands =
    create
    ∷ enter
    ∷ push 1
    ∷ post
    ∷ push 2
    ∷ test
    ∷ wait
    ∷ look
    ∷ exec
    ∷ look
    ∷ exec
    ∷ look
    ∷ post
    ∷ test
    ∷ wait
    ∷ look
    ∷ test
    ∷ []

run_two : (run two_commands init).completed ≡ 1 ∷ 2 ∷ []
unfolding run step init
run_two = refl

run-fifo_example :
    (run two_commands init).completed ++ (run two_commands init).commands
    ≡ (run two_commands init).pushed
run-fifo_example = run-fifo two_commands

run-none_forgotten_example : (run two_commands init).completed ≡ (run two_commands init).pushed
unfolding run step init
run-none_forgotten_example = run-none_forgotten two_commands refl refl

abbrev queued : Loop ℕ
queued = record {
  state = starting;
  phase = waiting;
  sem = 1;
  posting = 0;
  commands = 5 ∷ 6 ∷ [];
  pushed = 5 ∷ 6 ∷ [];
  completed = [];
}

-- Rounds in two orders, one of them with a push and a second stop.
abbrev plain : List (Action ℕ)
plain = post ∷ test ∷ wait ∷ look ∷ exec ∷ []

abbrev mixed : List (Action ℕ)
mixed = exec ∷ stop ∷ look ∷ wait ∷ push 7 ∷ test ∷ post ∷ []

abbrev rounds : List (List (Action ℕ))
rounds = mixed ∷ plain ∷ plain ∷ plain ∷ plain ∷ plain ∷ plain ∷ plain ∷ plain ∷ plain ∷ []

plain-has : (c : Call) → has c plain ≡ true
plain-has posts = refl
plain-has tests = refl
plain-has waits = refl
plain-has looks = refl
plain-has executes = refl

mixed-has : (c : Call) → has c mixed ≡ true
mixed-has posts = refl
mixed-has tests = refl
mixed-has waits = refl
mixed-has looks = refl
mixed-has executes = refl

rounds-AllRounds : AllRounds rounds
rounds-AllRounds = let p = plain-has in (mixed-has, (p, (p, (p, (p, (p, (p, (p, (p, (p, tt))))))))))

run_rounds-stop_example :
    let s' = run_rounds rounds (step stop queued) in
    (s'.phase ≡ finished) × (more : List ℕ) × (s'.completed ≡ 5 ∷ 6 ∷ more)
run_rounds-stop_example = run_rounds-stop queued rounds tt rounds-AllRounds (omega arith)

abbrev young : Loop ℕ
young = record queued { state = not_started; phase = entering; sem = 0; commands = []; pushed = [] }

run-lost_stop_example :
    (run (stop ∷ enter ∷ post ∷ test ∷ wait ∷ look ∷ test ∷ []) young).phase ≢ finished
run-lost_stop_example = run-lost_stop young (post ∷ test ∷ wait ∷ look ∷ test ∷ []) refl tt
