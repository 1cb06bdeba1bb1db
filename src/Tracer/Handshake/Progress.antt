-- ===== src/Tracer/Handshake/Progress.antt =====
-- source/Tracer.cpp: the promise is kept, whatever fails.
use mathlib.Core.Path.{subst}
use spytester.Base.{
  ℕ, ◌+◌, ◌<◌, ◌≤◌, ◌≡◌, ◌⊎◌, inl, inr, Bool, true, false, List, [], ◌∷◌, ap, sym, length, arith,
}
use spytester.Tracer.Handshake.{
  TracerAt, StarterAt, Start, StartCall, by_tracer, by_starter, init, clone_starter, wait_first,
  set_options, continued, wait_second, tracer_step, create_main, starter_step, make_call,
  make_calls, cloning, first_wait, setting, continuing, second_wait, continuing_again, told,
  no_tracee, absent, tracing, raising, at_first_stop, creating, at_clone, pausing, at_pause, dead,
}
use spytester.Tracer.Handshake.Order.{Inv, make_call-Inv, make_calls-Inv, from_init}

-- The calls that each has still to make at most.
abbrev calls_left : TracerAt → ℕ
calls_left cloning = 6
calls_left first_wait = 5
calls_left setting = 4
calls_left continuing = 3
calls_left second_wait = 2
calls_left continuing_again = 1
calls_left told = 0
calls_left no_tracee = 0

abbrev stages_left : StarterAt → ℕ
stages_left absent = 8
stages_left tracing = 7
stages_left raising = 6
stages_left at_first_stop = 5
stages_left creating = 4
stages_left at_clone = 3
stages_left pausing = 2
stages_left at_pause = 1
stages_left dead = 1
stages_left _ = 0

abbrev rank : Start → ℕ
rank s = calls_left s.tracer + stages_left s.starter

abbrev pub IsSettled : Start → Type 0
IsSettled s = (s.tracer ≡ told) ⊎ (s.tracer ≡ no_tracee)

-- A call changes nothing, or leaves less to do.
make_call-rank :
    (a : StartCall) (s : Start) → Inv s → (make_call a s ≡ s) ⊎ (rank (make_call a s) < rank s)
unfolding make_call tracer_step starter_step clone_starter wait_first set_options continued
    wait_second create_main
make_call-rank a s v = ground (arith, v.meet)

-- The tracing thread or the starter can go on.
moves :
    (b c : Bool) (s : Start)
    → Inv s
    → IsSettled s
      ⊎ ((rank (make_call (by_tracer b) s) < rank s) ⊎ (rank (make_call (by_starter c) s) < rank s))
unfolding make_call tracer_step starter_step clone_starter wait_first set_options continued
    wait_second create_main
moves b c s v = ground (arith, v.meet)

make_calls-rank : (acts : List StartCall) (s : Start) → Inv s → rank (make_calls acts s) ≤ rank s
unfolding make_calls
make_calls-rank [] s v = omega arith
make_calls-rank (a ∷ acts) s v = elim (make_call-rank a s v) [
  | inl e ↦ subst (λ t. rank (make_calls acts t) ≤ rank s) (sym e) (make_calls-rank acts s v)
  | inr l ↦ omega (arith, l, make_calls-rank acts (make_call a s) (make_call-Inv a s v))
]

-- Whether each of the two has a call among these.
abbrev pub has_tracer : List StartCall → Bool
has_tracer [] = false
has_tracer (by_tracer ok ∷ acts) = true
has_tracer (by_starter ok ∷ acts) = has_tracer acts

abbrev pub has_starter : List StartCall → Bool
has_starter [] = false
has_starter (by_tracer ok ∷ acts) = has_starter acts
has_starter (by_starter ok ∷ acts) = true

-- The calls that were made have changed nothing.
abbrev IsIdle : List StartCall → Start → Type 0
IsIdle acts s =
    (has_tracer acts ≡ true → (b : Bool) × (make_call (by_tracer b) s ≡ s))
    × (has_starter acts ≡ true → (c : Bool) × (make_call (by_starter c) s ≡ s))

make_calls-IsIdle :
    (acts : List StartCall) (s : Start)
    → Inv s
    → (rank (make_calls acts s) < rank s) ⊎ IsIdle acts s
unfolding make_calls
make_calls-IsIdle [] s v =
    inr ((λ h. absurd (ground (arith, h))), (λ h. absurd (ground (arith, h))))
make_calls-IsIdle (by_tracer b ∷ acts) s v = elim (make_call-rank (by_tracer b) s v) [
  | inl e ↦
      subst (λ t. (rank (make_calls acts t) < rank s) ⊎ IsIdle (by_tracer b ∷ acts) s) (sym e)
        (elim (make_calls-IsIdle acts s v) [ inl l ↦ inl l | inr i ↦ inr ((λ h. (b, e)), i.1) ])
  | inr l ↦ inl (omega (arith, l, make_calls-rank acts _ (make_call-Inv (by_tracer b) s v)))
]
make_calls-IsIdle (by_starter c ∷ acts) s v = elim (make_call-rank (by_starter c) s v) [
  | inl e ↦
      subst (λ t. (rank (make_calls acts t) < rank s) ⊎ IsIdle (by_starter c ∷ acts) s) (sym e)
        (elim (make_calls-IsIdle acts s v) [ inl l ↦ inl l | inr i ↦ inr (i.0, λ h. (c, e)) ])
  | inr l ↦ inl (omega (arith, l, make_calls-rank acts _ (make_call-Inv (by_starter c) s v)))
]

round-rank :
    (acts : List StartCall) (s : Start)
    → Inv s
    → has_tracer acts ≡ true
    → has_starter acts ≡ true
    → IsSettled s ⊎ (rank (make_calls acts s) < rank s)
round-rank acts s v ht hs = elim (make_calls-IsIdle acts s v) [
  | inl l ↦ inr l
  | inr i ↦ stuck (i.0 ht) (i.1 hs)
]
  where
    stuck :
        ((b : Bool) × (make_call (by_tracer b) s ≡ s))
        → ((c : Bool) × (make_call (by_starter c) s ≡ s))
        → IsSettled s ⊎ (rank (make_calls acts s) < rank s)
    stuck (b, e) (c, d) = elim (moves b c s v) [
      | inl h ↦ inl h
      | inr (inl l) ↦ absurd (omega (arith, l, ap rank e))
      | inr (inr l) ↦ absurd (omega (arith, l, ap rank d))
    ]

make_call-IsSettled : (a : StartCall) (s : Start) → IsSettled s → IsSettled (make_call a s)
unfolding make_call tracer_step starter_step create_main
make_call-IsSettled a s h = ground (arith, h)

make_calls-IsSettled :
    (acts : List StartCall) (s : Start) → IsSettled s → IsSettled (make_calls acts s)
unfolding make_calls
make_calls-IsSettled [] s h = h
make_calls-IsSettled (a ∷ acts) s h =
    make_calls-IsSettled acts (make_call a s) (make_call-IsSettled a s h)

abbrev pub make_rounds : List (List StartCall) → Start → Start
make_rounds [] s = s
make_rounds (acts ∷ rest) s = make_rounds rest (make_calls acts s)

abbrev pub AllRounds : List (List StartCall) → Type 0
AllRounds [] = Unit {0}
AllRounds (acts ∷ rest) = (has_tracer acts ≡ true) × (has_starter acts ≡ true) × AllRounds rest

rounds-IsSettled :
    (rounds : List (List StartCall)) (s : Start) → IsSettled s → IsSettled (make_rounds rounds s)
rounds-IsSettled [] s h = h
rounds-IsSettled (acts ∷ rest) s h =
    rounds-IsSettled rest (make_calls acts s) (make_calls-IsSettled acts s h)

settle :
    (rounds : List (List StartCall)) (s : Start)
    → Inv s
    → AllRounds rounds
    → rank s ≤ length rounds
    → IsSettled (make_rounds rounds s)
settle [] s v h le = ground arith
settle (acts ∷ rest) s v (ht, hs, more) le = elim (round-rank acts s v ht hs) [
  | inl h ↦ rounds-IsSettled rest (make_calls acts s) (make_calls-IsSettled acts s h)
  | inr l ↦ settle rest (make_calls acts s) (make_calls-Inv acts s v) more (omega (arith, l))
]

-- From every state that any schedule has led to, whatever calls have failed and will fail: after 14
-- rounds more, each with a call of the tracing thread and one of the starter at least, the promise
-- that `startTracing` waits for is kept, with the starter's pid or with -1.
pub make_calls-settles :
    (acts : List StartCall) (rounds : List (List StartCall))
    → AllRounds rounds
    → 14 ≤ length rounds
    → IsSettled (make_rounds rounds (make_calls acts init))
unfolding init make_calls
make_calls-settles acts rounds h le =
    settle rounds (make_calls acts init) (from_init acts) h
      (omega (arith, make_calls-rank acts init (from_init []), le))
