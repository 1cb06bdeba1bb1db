-- ===== src/Tracer/Handshake/Order.antt =====
-- source/Tracer.cpp: what holds when the promise is kept.
use spytester.Base.{◌≡◌, ◌⊎◌, refl, Bool, true, false, List, [], ◌∷◌, arith}
use spytester.Tracer.Handshake.{
  TracerAt, StarterAt, MainThread, Start, StartCall, init, clone_starter, wait_first, set_options,
  continued, wait_second, tracer_step, create_main, starter_step, make_call, make_calls, cloning,
  first_wait, setting, continuing, second_wait, continuing_again, told, no_tracee, absent, tracing,
  raising, at_first_stop, creating, at_clone, pausing, at_pause, past, aborting, dead, reaped,
  no_thread, traced,
}

-- Where the two can be at the same time.
abbrev pub together : TracerAt → StarterAt → Bool
together cloning absent = true
together no_tracee absent = true
together first_wait tracing = true
together first_wait raising = true
together first_wait at_first_stop = true
together first_wait aborting = true
together first_wait dead = true
together setting at_first_stop = true
together setting aborting = true
together continuing at_first_stop = true
together continuing aborting = true
together second_wait creating = true
together second_wait at_clone = true
together second_wait pausing = true
together second_wait at_pause = true
together second_wait aborting = true
together second_wait reaped = true
together continuing_again at_clone = true
together continuing_again at_pause = true
together continuing_again aborting = true
together continuing_again reaped = true
together told pausing = true
together told at_pause = true
together told past = true
together told aborting = true
together told reaped = true
together _ _ = false

-- Without a failure: the option is set before the main thread is cloned, so that the thread is traced
-- from its start, and it has been cloned before the second `waitpid` ends.
abbrev pub Sound : TracerAt → StarterAt → MainThread → Bool → Type 0
Sound second_wait creating m o = (o ≡ true) × (m ≡ no_thread)
Sound second_wait at_clone m o = (o ≡ true) × (m ≡ traced)
Sound second_wait _ m o = ⊥
Sound continuing_again at_clone m o = (o ≡ true) × (m ≡ traced)
Sound continuing_again _ m o = ⊥
Sound told pausing m o = (o ≡ true) × (m ≡ traced)
Sound told at_pause m o = (o ≡ true) × (m ≡ traced)
Sound told _ m o = ⊥
Sound continuing at_first_stop m o = (o ≡ true) × (m ≡ no_thread)
Sound continuing _ m o = ⊥
Sound setting at_first_stop m o = m ≡ no_thread
Sound setting _ m o = ⊥
Sound no_tracee _ m o = ⊥
Sound first_wait aborting m o = ⊥
Sound first_wait dead m o = ⊥
Sound _ _ m o = m ≡ no_thread

pub record Inv (s : Start) : Type 0 where
  pub meet : together s.tracer s.starter ≡ true
  pub sound : s.failed ≡ false → Sound s.tracer s.starter s.main s.option

pub make_call-Inv : (a : StartCall) (s : Start) → Inv s → Inv (make_call a s)
unfolding make_call tracer_step starter_step clone_starter wait_first set_options continued
    wait_second create_main
make_call-Inv a s v = ground arith

pub make_calls-Inv : (acts : List StartCall) (s : Start) → Inv s → Inv (make_calls acts s)
unfolding make_calls
make_calls-Inv [] s v = v
make_calls-Inv (a ∷ acts) s v = make_calls-Inv acts (make_call a s) (make_call-Inv a s v)

pub from_init : (acts : List StartCall) → Inv (make_calls acts init)
unfolding init
from_init acts = make_calls-Inv acts init (record { meet = refl; sound = λ h. refl })

told-traced :
    (s : Start)
    → Inv s
    → s.failed ≡ false
    → s.tracer ≡ told
    → (s.option ≡ true) × (s.main ≡ traced) × ((s.starter ≡ pausing) ⊎ (s.starter ≡ at_pause))
told-traced s v f t = ground (arith, v.sound f, v.meet)

-- Under every schedule in which no call fails: when the promise of the pid is kept, the option to trace
-- clones is set, the main thread of the program has been made and is traced, and the starter process
-- is stopped at its second `raise` or about to make it.
pub make_calls-traced :
    (acts : List StartCall)
    → (make_calls acts init).failed ≡ false
    → (make_calls acts init).tracer ≡ told
    → ((make_calls acts init).option ≡ true)
      × ((make_calls acts init).main ≡ traced)
      × (((make_calls acts init).starter ≡ pausing) ⊎ ((make_calls acts init).starter ≡ at_pause))
make_calls-traced acts = told-traced (make_calls acts init) (from_init acts)
