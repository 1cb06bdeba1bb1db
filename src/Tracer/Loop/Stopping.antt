-- ===== src/Tracer/Loop/Stopping.antt =====
-- source/Tracer.cpp: the tracing thread after the destructor's stop, under any schedule in which
-- each thread goes on.
use mathlib.Core.List.{append_assoc, append-nil}
use spytester.Base.{
  ◌+◌, ◌*◌, ◌≤◌, ◌≡◌, ◌⊎◌, inl, inr, refl, sym, ap, ◌∙◌, List, [], ◌∷◌, ◌++◌, length, arith,
}
use spytester.Tracer.Loop.{
  Phase, Action, Loop, testing, waiting, looking, executing, finished, push, post, create, enter,
  test, wait, look, exec, stop, step, run,
}
use spytester.Tracer.Loop.Progress.{
  AllRounds, all_pushes, run_rounds, rank, IsEnding, step-IsEnding, run-IsEnding, rounds-Progress,
}

-- A phase between the loop's test and the end of the inner loop.
abbrev pub IsServing : Phase → Type 0
IsServing waiting = Unit {0}
IsServing looking = Unit {0}
IsServing executing = Unit {0}
IsServing _ = ⊥

module _ {ℓ} {C : Type ℓ} where
  rounds-IsEnding :
      (rounds : List (List (Action C))) (s : Loop C) → IsEnding s → IsEnding (run_rounds rounds s)
  unfolding run_rounds
  rounds-IsEnding [] s v = v
  rounds-IsEnding (acts ∷ rest) s v = rounds-IsEnding rest (run acts s) (run-IsEnding acts s v)

  -- What the thread has completed, with the commands it has still to look at.
  abbrev served : Phase → List C → List C → List C
  served testing completed commands = completed
  served finished completed commands = completed
  served _ completed commands = completed ++ commands

  abbrev all_served : Loop C → List C
  all_served s = served s.phase s.completed s.commands

  abbrev added : Action C → List C
  added (push c) = c ∷ []
  added a = []

  Serves : Action C → Loop C → Type ℓ
  Serves a s =
      (all_served (step a s) ≡ all_served s) ⊎ (all_served (step a s) ≡ all_served s ++ added a)

  step-Serves : (a : Action C) (s : Loop C) → IsEnding s → Serves a s
  unfolding step Serves
  step-Serves (push c) s v = ground (arith, append_assoc s.completed s.commands (c ∷ []))
  step-Serves post s v = ground arith
  step-Serves stop s v = inl refl
  step-Serves create s v = ground arith
  step-Serves enter s v = ground arith
  step-Serves test s v = ground arith
  step-Serves wait s v = ground arith
  step-Serves look s v = ground (arith, append-nil s.completed)
  step-Serves exec s v = grind (arith, append_assoc)

  run-Serves :
      (acts : List (Action C)) (s : Loop C)
      → IsEnding s
      → (more : List C) × (all_served (run acts s) ≡ all_served s ++ more)
  unfolding run Serves
  run-Serves [] s v = ([], sym (append-nil (all_served s)))
  run-Serves (a ∷ rest) s v =
      let (more, e) = run-Serves rest (step a s) (step-IsEnding a s v) in
      elim (step-Serves a s v) [
        | inl same ↦ (more, e ∙ ap (λ l. l ++ more) same)
        | inr one ↦ (
          added a ++ more,
          e ∙ ap (λ l. l ++ more) one ∙ append_assoc (all_served s) (added a) more,
        )
      ]

  rounds-Serves :
      (rounds : List (List (Action C))) (s : Loop C)
      → IsEnding s
      → (more : List C) × (all_served (run_rounds rounds s) ≡ all_served s ++ more)
  unfolding run_rounds
  rounds-Serves [] s v = ([], sym (append-nil (all_served s)))
  rounds-Serves (acts ∷ rest) s v =
      let (more, e) = rounds-Serves rest (run acts s) (run-IsEnding acts s v) in
      let (first, f) = run-Serves acts s v in
      (first ++ more, e ∙ ap (λ l. l ++ more) f ∙ append_assoc (all_served s) first more)

  stop-IsEnding : (s : Loop C) → IsServing s.phase → IsEnding (step stop s)
  unfolding step
  stop-IsEnding s h = ground arith

  stop-rank : (s : Loop C) → IsServing s.phase → rank (step stop s) ≤ 4 + 2 * length s.commands
  unfolding step
  stop-rank s h = ground arith

  stop-served :
      (s : Loop C) → IsServing s.phase → all_served (step stop s) ≡ s.completed ++ s.commands
  unfolding step
  stop-served s h = ground arith

  rank_ends : (s : Loop C) → IsEnding s → rank s ≡ 0 → s.phase ≡ finished
  rank_ends s v e = ground arith

  finished-served : (s : Loop C) → s.phase ≡ finished → all_served s ≡ s.completed
  finished-served s e = ground arith

  -- Rounds enough for the rank, and for the pushes in them, end the thread.
  rounds_over :
      (rounds : List (List (Action C))) (s : Loop C)
      → IsEnding s
      → AllRounds rounds
      → rank s + 2 * all_pushes rounds ≤ length rounds
      → (run_rounds rounds s).phase ≡ finished
  rounds_over rounds s v each enough = elim (rounds-Progress rounds s v each) [
    | inl e ↦ e
    | inr near ↦
        rank_ends (run_rounds rounds s) (rounds-IsEnding rounds s v) (omega (arith, near, enough))
  ]

  -- A stop that comes while the thread is at `sem_wait`, in the inner loop or in a command ends the
  -- thread, whatever the order of the threads' actions from then on, other clients' pushes among
  -- them: the actions come in rounds in which a client's post and each call of the thread's loop is
  -- tried once at least, and four rounds, two for each command that is queued and two for each
  -- command that is still pushed are enough. The thread has then completed the commands that were
  -- queued when the stop came, in order, after those completed before.
  pub run_rounds-stop :
      (s : Loop C) (rounds : List (List (Action C)))
      → IsServing s.phase
      → AllRounds rounds
      → 4 + 2 * length s.commands + 2 * all_pushes rounds ≤ length rounds
      → let s' = run_rounds rounds (step stop s) in
        (s'.phase ≡ finished)
        × (more : List C) × (s'.completed ≡ (s.completed ++ s.commands) ++ more)
  run_rounds-stop s rounds h each enough =
      let s1 = step stop s in
      let v = stop-IsEnding s h in
      let over = rounds_over rounds s1 v each (omega (arith, stop-rank s h, enough)) in
      let (more, e) = rounds-Serves rounds s1 v in
      (
        over,
        more,
        sym (finished-served (run_rounds rounds s1) over)
            ∙ e
            ∙ ap (λ l. l ++ more) (stop-served s h),
      )
