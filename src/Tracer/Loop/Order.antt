-- ===== src/Tracer/Loop/Order.antt =====
-- source/Tracer.cpp: the order in which commands run.
use spytester.Base.{◌+◌, ◌<◌, ◌≡◌, ◌≢◌, refl, ◌⊎◌, inl, List, [], ◌∷◌, ◌++◌, arith}
use mathlib.Core.List.{append_assoc, append-nil}
use spytester.Tracer.Loop.{
  Phase, Action, Loop, waiting, looking, finished, executing, push, post, create, enter, test, wait,
  look, exec, stop, init, step, run,
}

module _ {ℓ} {C : Type ℓ} where
  -- What the phase promises: a command in progress is still in the queue, and a thread on its way
  -- to `sem_wait` leaves a command behind only with a post still to come.
  abbrev pub Promise : Phase → Loop C → Type ℓ
  Promise executing s = s.commands ≢ []
  Promise looking s = Unit {ℓ}
  Promise finished s = Unit {ℓ}
  Promise _ s = (s.commands ≡ []) ⊎ (0 < s.sem + s.posting)

  pub record Inv (s : Loop C) : Type ℓ where
    pub order : s.completed ++ s.commands ≡ s.pushed
    pub promise : Promise s.phase s

  push_command-Inv : (c : C) (s : Loop C) → Inv s → Inv (step (push c) s)
  unfolding step
  push_command-Inv c s v = ground (arith, append_assoc s.completed s.commands (c ∷ []))

  finish_front-Inv :
      (cs : List C) (s : Loop C) → s.commands ≡ cs → s.phase ≡ executing → Inv s → Inv (step exec s)
  unfolding step
  finish_front-Inv [] s e p v = ground arith
  finish_front-Inv (c ∷ cs) s e p v = ground (arith, append_assoc s.completed (c ∷ []) cs)

  -- Every action keeps the invariant.
  pub step-Inv : (a : Action C) (s : Loop C) → Inv s → Inv (step a s)
  unfolding step
  step-Inv (push c) s v = push_command-Inv c s v
  step-Inv post s v = ground arith
  step-Inv stop s v = ground arith
  step-Inv create s v = ground arith
  step-Inv enter s v = ground arith
  step-Inv test s v = ground arith
  step-Inv wait s v = ground arith
  step-Inv look s v = ground arith
  step-Inv exec s v = ground (arith, finish_front-Inv s.commands s refl)

  pub init-Inv : Inv init
  unfolding init
  init-Inv = record { order = refl; promise = inl refl }

  pub run-Inv : (acts : List (Action C)) (s : Loop C) → Inv s → Inv (run acts s)
  unfolding run
  run-Inv [] s v = v
  run-Inv (a ∷ rest) s v = run-Inv rest (step a s) (step-Inv a s v)

  -- Under every schedule, the completed commands followed by those in the queue are the commands
  -- pushed, in the order in which they were pushed.
  pub run-fifo :
      (acts : List (Action C))
      → (run acts init).completed ++ (run acts init).commands ≡ (run acts init).pushed
  run-fifo acts = (run-Inv acts init init-Inv).order

  -- Under every schedule, when the tracing thread is at `sem_wait` with no post made or on its way,
  -- every command that was pushed is completed.
  pub run-none_forgotten :
      (acts : List (Action C))
      → (run acts init).phase ≡ waiting
      → (run acts init).sem + (run acts init).posting ≡ 0
      → (run acts init).completed ≡ (run acts init).pushed
  run-none_forgotten acts p e =
      ground (arith, run-Inv acts init init-Inv, append-nil (run acts init).completed)
