-- ===== src/Tracer/Loop/Progress.antt =====
-- source/Tracer.cpp: how the tracing thread comes nearer its end once it is stopped, in rounds in
-- which each of its calls, and a client's post, is made once at least.
use spytester.Base.{
  ℕ, zero, suc, ◌+◌, ◌*◌, ◌≤◌, ◌<◌, ◌≡◌, ◌≢◌, ◌⊎◌, inl, inr, ap, ◌∙◌, Bool, true, false, List, [],
  ◌∷◌, if◌then◌else◌, length, length-append, arith,
}
use spytester.Tracer.Loop.{
  Phase, Action, Loop, stopped, creating, entering, testing, waiting, looking, executing, finished,
  push, post, create, enter, test, wait, look, exec, stop, step, run,
}

-- The actions that a round has to hold: every call of the thread's loop, and a client's post.
pub data Call : Type 0 where
  posts tests waits looks executes : Call

-- How far the thread is from its end, and the call that takes it nearer.
abbrev pub executing_rank : ℕ → ℕ
executing_rank zero = 3
executing_rank (suc n) = 3 + 2 * n

abbrev pub waiting_rank : ℕ → ℕ → ℕ
waiting_rank n zero = 4 + 2 * n
waiting_rank n (suc sem) = 3 + 2 * n

abbrev pub rank_of : Phase → ℕ → ℕ → ℕ
rank_of finished n sem = 0
rank_of testing n sem = 1
rank_of looking n sem = 2 + 2 * n
rank_of executing n sem = executing_rank n
rank_of waiting n sem = waiting_rank n sem
rank_of creating n sem = 0
rank_of entering n sem = 0

abbrev waiting_due : ℕ → Call
waiting_due zero = posts
waiting_due (suc sem) = waits

abbrev due_of : Phase → ℕ → Call
due_of waiting sem = waiting_due sem
due_of looking sem = looks
due_of executing sem = executes
due_of _ sem = tests

-- Once stopped, a thread at `sem_wait` has a post that is made or on its way.
abbrev pub Wakes : Phase → ℕ → Type 0
Wakes waiting n = 0 < n
Wakes creating n = ⊥
Wakes entering n = ⊥
Wakes _ n = Unit {0}

finished_cases : (p : Phase) → (p ≡ finished) ⊎ (p ≢ finished)
finished_cases p = ground arith

module _ {ℓ} {C : Type ℓ} where
  abbrev pub does : Call → Action C → Bool
  does posts post = true
  does tests test = true
  does waits wait = true
  does looks look = true
  does executes exec = true
  does c a = false

  abbrev pub has : Call → List (Action C) → Bool
  has c [] = false
  has c (a ∷ rest) = let later = has c rest in if does c a then true else later

  -- Rounds of actions in any order and number, which hold each call once at least.
  abbrev pub AllRounds : List (List (Action C)) → Type 0
  AllRounds [] = Unit {0}
  AllRounds (acts ∷ rest) = ((c : Call) → has c acts ≡ true) × AllRounds rest

  -- The rounds, one after another.
  unfoldable pub run_rounds : List (List (Action C)) → Loop C → Loop C
  unfolding run
  run_rounds [] s = s
  run_rounds (acts ∷ rest) s = run_rounds rest (run acts s)

  -- The pushes among actions and in rounds.
  abbrev pub a_push : Action C → ℕ
  a_push (push c) = 1
  a_push a = 0

  abbrev pub pushes : List (Action C) → ℕ
  pushes [] = 0
  pushes (a ∷ rest) = a_push a + pushes rest

  abbrev pub all_pushes : List (List (Action C)) → ℕ
  all_pushes [] = 0
  all_pushes (acts ∷ rest) = pushes acts + all_pushes rest

  abbrev pub rank : Loop C → ℕ
  rank s = rank_of s.phase (length s.commands) s.sem

  abbrev due : Loop C → Call
  due s = due_of s.phase s.sem

  abbrev pub IsEnding : Loop C → Type 0
  IsEnding s = (s.state ≡ stopped) × Wakes s.phase (s.sem + s.posting)

  pub step-IsEnding : (a : Action C) (s : Loop C) → IsEnding s → IsEnding (step a s)
  unfolding step
  step-IsEnding (push c) s v = ground arith
  step-IsEnding post s v = ground arith
  step-IsEnding stop s v = ground arith
  step-IsEnding create s v = ground arith
  step-IsEnding enter s v = ground arith
  step-IsEnding test s v = ground arith
  step-IsEnding wait s v = ground arith
  step-IsEnding look s v = ground arith
  step-IsEnding exec s v = ground arith

  -- An action takes the thread nearer its end; or it is not the call that is due, which stays so, and
  -- the thread is no farther away, but for a command that is pushed.
  abbrev Progress : Action C → Loop C → Type 0
  Progress a s =
      (suc (rank (step a s)) ≤ rank s)
      ⊎ ((rank (step a s) ≤ rank s + 2 * a_push a)
          × (due (step a s) ≡ due s)
          × (does (due s) a ≡ false))

  step-Progress : (a : Action C) (s : Loop C) → IsEnding s → s.phase ≢ finished → Progress a s
  unfolding step
  step-Progress (push c) s v n = ground (arith, length-append s.commands (c ∷ []))
  step-Progress post s v n = ground arith
  step-Progress stop s v n = ground arith
  step-Progress create s v n = ground arith
  step-Progress enter s v n = ground arith
  step-Progress test s v n = ground arith
  step-Progress wait s v n = ground arith
  step-Progress look s v n = ground arith
  step-Progress exec s v n = ground arith

  step-finished : (a : Action C) (s : Loop C) → s.phase ≡ finished → (step a s).phase ≡ finished
  unfolding step
  step-finished (push c) s e = ground arith
  step-finished post s e = ground arith
  step-finished stop s e = e
  step-finished create s e = ground arith
  step-finished enter s e = ground arith
  step-finished test s e = ground arith
  step-finished wait s e = ground arith
  step-finished look s e = ground arith
  step-finished exec s e = ground arith

  step-rank : (a : Action C) (s : Loop C) → IsEnding s → rank (step a s) ≤ rank s + 2 * a_push a
  step-rank a s v = elim (finished_cases s.phase) [
    | inl e ↦ ground (arith, step-finished a s e)
    | inr n ↦ elim (step-Progress a s v n) [ inl h ↦ omega arith | inr (h, same, other) ↦ h ]
  ]

  run-finished :
      (acts : List (Action C)) (s : Loop C) → s.phase ≡ finished → (run acts s).phase ≡ finished
  unfolding run
  run-finished [] s e = e
  run-finished (a ∷ rest) s e = run-finished rest (step a s) (step-finished a s e)

  pub run-IsEnding : (acts : List (Action C)) (s : Loop C) → IsEnding s → IsEnding (run acts s)
  unfolding run
  run-IsEnding [] s v = v
  run-IsEnding (a ∷ rest) s v = run-IsEnding rest (step a s) (step-IsEnding a s v)

  run-rank :
      (acts : List (Action C)) (s : Loop C)
      → IsEnding s
      → rank (run acts s) ≤ rank s + 2 * pushes acts
  unfolding run
  run-rank [] s v = omega arith
  run-rank (a ∷ rest) s v =
      omega (arith, run-rank rest (step a s) (step-IsEnding a s v), step-rank a s v)

  -- Actions that hold the call that is due end the thread or take it nearer its end.
  run-Progress :
      (acts : List (Action C)) (s : Loop C)
      → IsEnding s
      → has (due s) acts ≡ true
      → ((run acts s).phase ≡ finished) ⊎ (suc (rank (run acts s)) ≤ rank s + 2 * pushes acts)
  unfolding run
  run-Progress [] s v h = cc
  run-Progress (a ∷ rest) s v h = elim (finished_cases s.phase) [
    | inl e ↦ inl (run-finished rest (step a s) (step-finished a s e))
    | inr n ↦ elim (step-Progress a s v n) [
      | inl near ↦ inr (omega (arith, near, run-rank rest (step a s) (step-IsEnding a s v)))
      | inr (far, same, other) ↦
          elim (run-Progress rest (step a s) (step-IsEnding a s v)
            (ap (λ c. has c rest) same ∙ (rw other at h))) [
              | inl e ↦ inl e
              | inr near ↦ inr (omega (arith, far, near))
            ]
    ]
  ]

  rounds-finished :
      (rounds : List (List (Action C))) (s : Loop C)
      → s.phase ≡ finished
      → (run_rounds rounds s).phase ≡ finished
  unfolding run_rounds
  rounds-finished [] s e = e
  rounds-finished (acts ∷ rest) s e = rounds-finished rest (run acts s) (run-finished acts s e)

  pub rounds-Progress :
      (rounds : List (List (Action C))) (s : Loop C)
      → IsEnding s
      → AllRounds rounds
      → ((run_rounds rounds s).phase ≡ finished)
        ⊎ (rank (run_rounds rounds s) + length rounds ≤ rank s + 2 * all_pushes rounds)
  unfolding run_rounds
  rounds-Progress [] s v h = inr (omega arith)
  rounds-Progress (acts ∷ rest) s v (h, hs) = elim (run-Progress acts s v (h (due s))) [
    | inl e ↦ inl (rounds-finished rest (run acts s) e)
    | inr near ↦ elim (rounds-Progress rest (run acts s) (run-IsEnding acts s v) hs) [
      | inl e ↦ inl e
      | inr more ↦ inr (omega (arith, near, more))
    ]
  ]
