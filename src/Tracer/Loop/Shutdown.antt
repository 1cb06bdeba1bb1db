-- ===== src/Tracer/Loop/Shutdown.antt =====
-- source/Tracer.cpp: a stop that the tracing thread overwrites.
use spytester.Base.{◌≡◌, ◌≢◌, List, [], ◌∷◌, arith}
use spytester.Tracer.Loop.{
  Action, Loop, starting, creating, entering, finished, push, post, create, enter, test, wait, look,
  exec, stop, step, run,
}

module _ {ℓ} {C : Type ℓ} where
  abbrev pub NoStop : List (Action C) → Type 0
  NoStop [] = Unit {0}
  NoStop (stop ∷ rest) = ⊥
  NoStop (a ∷ rest) = NoStop rest

  IsLeft : Loop C → Type 0
  IsLeft s =
      (s.state ≡ starting) × (s.phase ≢ finished) × (s.phase ≢ creating) × (s.phase ≢ entering)

  step-IsLeft : (a : Action C) (s : Loop C) → NoStop (a ∷ []) → IsLeft s → IsLeft (step a s)
  unfolding step IsLeft
  step-IsLeft (push c) s n v = ground arith
  step-IsLeft post s n v = ground arith
  step-IsLeft stop s n v = absurd n
  step-IsLeft create s n v = ground arith
  step-IsLeft enter s n v = ground arith
  step-IsLeft test s n v = ground arith
  step-IsLeft wait s n v = ground arith
  step-IsLeft look s n v = ground arith
  step-IsLeft exec s n v = ground arith

  run-IsLeft : (acts : List (Action C)) (s : Loop C) → NoStop acts → IsLeft s → IsLeft (run acts s)
  unfolding run
  run-IsLeft [] s n v = v
  run-IsLeft (push c ∷ rest) s n v = run-IsLeft rest _ n (step-IsLeft (push c) s tt v)
  run-IsLeft (post ∷ rest) s n v = run-IsLeft rest _ n (step-IsLeft post s tt v)
  run-IsLeft (stop ∷ rest) s n v = absurd n
  run-IsLeft (create ∷ rest) s n v = run-IsLeft rest _ n (step-IsLeft create s tt v)
  run-IsLeft (enter ∷ rest) s n v = run-IsLeft rest _ n (step-IsLeft enter s tt v)
  run-IsLeft (test ∷ rest) s n v = run-IsLeft rest _ n (step-IsLeft test s tt v)
  run-IsLeft (wait ∷ rest) s n v = run-IsLeft rest _ n (step-IsLeft wait s tt v)
  run-IsLeft (look ∷ rest) s n v = run-IsLeft rest _ n (step-IsLeft look s tt v)
  run-IsLeft (exec ∷ rest) s n v = run-IsLeft rest _ n (step-IsLeft exec s tt v)

  -- A stop that the destructor makes before the thread's `setState(STARTING)` is lost: whatever
  -- happens afterwards, without a second stop the thread never leaves its loop, so that the
  -- destructor's `join` does not return.
  pub run-lost_stop :
      (s : Loop C) (acts : List (Action C))
      → s.phase ≡ entering
      → NoStop acts
      → (run (stop ∷ enter ∷ acts) s).phase ≢ finished
  unfolding run step IsLeft
  run-lost_stop s acts p n = ground (arith, run-IsLeft acts (step enter (step stop s)) n)
