-- ===== src/Tracer/Loop.antt =====
-- source/Tracer.cpp: the queue of commands, its semaphore, and the tracing thread, as a transition
-- function over a schedule. Every action is one critical section or one call of the source; an
-- action that would block leaves the state unchanged.
mod Order
mod Shutdown
mod Progress
mod Stopping
mod Tests
use spytester.Base.{ℕ, zero, suc, List, [], ◌∷◌, ◌++◌}

-- `E_State`. No code stores TRACING.
pub data State : Type 0 where
  not_started starting tracing stopped : State

-- Where the tracing thread is: in `createTracee`, before `setState(STARTING)`, at the loop's test,
-- at `sem_wait`, at the inner loop's test with the mutex held, in a command, or past the loop.
pub data Phase : Type 0 where
  creating entering testing waiting looking finished : Phase
  executing : Phase

pub data Action {ℓ} (C : Type ℓ) : Type ℓ where
  push : C → Action C
  post create enter test wait look exec stop : Action C

-- The mutable fields, the number of clients between their unlock and their `sem_post`, and as
-- ghost state the commands pushed and those completed, oldest first.
pub record Loop {ℓ} (C : Type ℓ) : Type ℓ where
  pub state : State
  pub phase : Phase
  pub sem : ℕ
  pub posting : ℕ
  pub commands : List C
  pub pushed : List C
  pub completed : List C

module _ {ℓ} {C : Type ℓ} where
  -- `Tracer::Tracer` and `startTracing`, up to the start of the thread.
  unfoldable pub init : Loop C
  init = record {
    state = not_started;
    phase = creating;
    sem = 0;
    posting = 0;
    commands = [];
    pushed = [];
    completed = [];
  }

  -- `commandPTrace` and `tkill` up to the unlock: only the inner loop's test and pop hold the mutex.
  push_command : Phase → C → Loop C → Loop C
  push_command looking c s = s
  push_command _ c s = record s {
    commands = s.commands ++ c ∷ [];
    pushed = s.pushed ++ c ∷ [];
    posting = suc s.posting;
  }

  post_command : ℕ → Loop C → Loop C
  post_command zero s = s
  post_command (suc n) s = record s { posting = n; sem = suc s.sem }

  test_state : State → Loop C → Loop C
  test_state stopped s = record s { phase = finished }
  test_state _ s = record s { phase = waiting }

  take_sem : ℕ → Loop C → Loop C
  take_sem zero s = s
  take_sem (suc n) s = record s { phase = looking; sem = n }

  look_front : List C → Loop C → Loop C
  look_front [] s = record s { phase = testing }
  look_front (c ∷ cs) s = record s { phase = executing }

  -- `command()` and the pop after it, which takes the mutex again.
  finish_front : List C → Loop C → Loop C
  finish_front [] s = record s { phase = looking }
  finish_front (c ∷ cs) s = record s {
    phase = looking;
    commands = cs;
    completed = s.completed ++ c ∷ [];
  }

  -- The thread's own step, by its phase.
  advance : Phase → Action C → Loop C → Loop C
  unfolding test_state take_sem look_front finish_front
  advance creating create s = record s { phase = entering }
  advance entering enter s = record s { phase = testing; state = starting }
  advance testing test s = test_state s.state s
  advance waiting wait s = take_sem s.sem s
  advance looking look s = look_front s.commands s
  advance executing exec s = finish_front s.commands s
  advance _ _ s = s

  -- `stop` is the destructor's `setState(STOPPED)`, with the `sem_post` that follows it.
  unfoldable pub step : Action C → Loop C → Loop C
  unfolding push_command post_command advance
  step (push c) s = push_command s.phase c s
  step post s = post_command s.posting s
  step stop s = record s { state = stopped; posting = suc s.posting }
  step a s = advance s.phase a s

  unfoldable pub run : List (Action C) → Loop C → Loop C
  run [] s = s
  run (a ∷ rest) s = run rest (step a s)
