-- ===== src/SpiedProgram/Launch/Return.antt =====
-- include/SpiedProgram.h: how the constructor ends.
use mathlib.Core.Path.{subst}
use spytester.Base.{
  ℕ, ◌-◌, ◌^◌, ◌%◌, ◌≤◌, ◌≡◌, ◌⊎◌, refl, sym, ap, ◌∙◌, Bool, true, false, inl, inr, List, [], ◌∷◌,
  ◌++◌, Option, none, some, length,
}
use spytester.Context.{Context}
use spytester.SpyLoader.{NamespaceIds, reserve_namespace_id}
use spytester.DynamicNamespace.Object.{Namespace, destroy}
use spytester.DynamicNamespace.Object.Lifetime.{SameIds, IsLoader, IsLost, Created, new-Created}
use spytester.Tracer.Handshake.{TracerAt, Start, StartCall, told, no_tracee, init, make_calls}
use spytester.Tracer.Handshake.Progress.{AllRounds, IsSettled, make_rounds, make_calls-settles}
use spytester.SpiedProgram.Launch.{
  ArgString, pointers, at_or_zero, promised, LaunchEnd, gave_up, waits, launched, with_pid,
  with_namespace, launch,
}

-- The calls of a schedule, and then those of the rounds.
abbrev pub followed_by : List StartCall → List (List StartCall) → List StartCall
followed_by acts [] = acts
followed_by acts (round ∷ rest) = followed_by (acts ++ round) rest

make_calls-append :
    (acts more : List StartCall) (s : Start)
    → make_calls (acts ++ more) s ≡ make_calls more (make_calls acts s)
unfolding make_calls
make_calls-append [] more s = refl
make_calls-append (a ∷ acts) more s = make_calls-append acts more _

make_calls-followed_by :
    (acts : List StartCall) (rounds : List (List StartCall)) (s : Start)
    → make_calls (followed_by acts rounds) s ≡ make_rounds rounds (make_calls acts s)
make_calls-followed_by acts [] s = refl
make_calls-followed_by acts (round ∷ rest) s =
    make_calls-followed_by (acts ++ round) rest s
    ∙ ap (make_rounds rest) (make_calls-append acts round s)

module _ {M N D : Type 0} where
  -- The constructor has returned, with the pid that clone gave or -1, a program of which no thread or
  -- breakpoint is known, and a namespace whose destructor gives its id back; or it has thrown, and
  -- the ids are as before, or the one that the namespace had reserved is lost.
  abbrev pub Ends : NamespaceIds N → ℕ → ℕ → NamespaceIds N × LaunchEnd M D → Type 0
  Ends s id pid (t, gave_up) = SameIds s t ⊎ IsLost id s t
  Ends s id pid (t, waits) = ⊥
  Ends s id pid (t, launched p ns) =
      ((p.pid ≡ pid) ⊎ (p.pid ≡ 2 ^ 32 - 1))
      × (p.threads ≡ [])
      × (p.break_points ≡ [])
      × SameIds s (destroy ns t)

  with_pid-Ends :
      (ctx : Context M) (s t : NamespaceIds N) (id pid : ℕ) (ns : Namespace D) (at : TracerAt)
      → (at ≡ told) ⊎ (at ≡ no_tracee)
      → SameIds s (destroy ns t)
      → Ends s id pid (t, with_pid ctx ns (promised pid at))
  with_pid-Ends ctx s t id pid ns at (inl e) h = rw e (inl refl, refl, refl, h)
  with_pid-Ends ctx s t id pid ns at (inr e) h = rw e (inr refl, refl, refl, h)

  module _ (ctx : Context M) (link_map : ℕ → Option ℕ) (open_loader : ℕ → Option D)
      (main_of : D → ℕ) where
    with_namespace-Ends :
        (made : Bool) (id pid argc : ℕ) (argv : ℕ → ℕ) (envp : List ℕ) (acts : List StartCall)
        (s : NamespaceIds N) (r : NamespaceIds N × Option (Namespace D))
        → IsSettled (make_calls acts init)
        → Created link_map open_loader main_of argc argv envp s id r
        → Ends s id pid (with_namespace ctx made pid acts r)
    unfolding with_namespace
    with_namespace-Ends made id pid argc argv envp acts s (t, none) e (inl (f, inl (a, k))) =
        inl (subst (λ x. SameIds s x) (sym k) (λ i. (refl, refl)))
    with_namespace-Ends made id pid argc argv envp acts s (t, none) e (inl (f, inr l)) = inr l
    with_namespace-Ends made id pid argc argv envp acts s (t, none) e (inr (ns, f, z, k)) = inl k
    with_namespace-Ends false id pid argc argv envp acts s (t, some ns) e (i, z, k) = inl k
    with_namespace-Ends true id pid argc argv envp acts s (t, some ns) e (i, z, k) =
        with_pid-Ends ctx s t id pid ns _ e k

    -- On a loader of which no id is available or in use twice, and that has neither -2 nor the base
    -- namespace's id: if the schedule ends with at least 14 rounds, each with a call of the tracing
    -- thread and one of the process that it clones, then the constructor of SpiedProgram does not wait
    -- any more, whatever calls have failed. Either it has returned, with the pid that clone gave or
    -- with -1, no thread or breakpoint is known, and the destructor of its namespace leaves the same
    -- ids available and in use as before; or it has thrown, and the ids are as before, or the one that
    -- was reserved is lost.
    pub launch-Ends :
        (n : N) (strings : List ArgString) (envp : List ℕ) (made : Bool) (pid : ℕ)
        (acts : List StartCall) (rounds : List (List StartCall)) (s : NamespaceIds N)
        → IsLoader s
        → AllRounds rounds
        → 14 ≤ length rounds
        → Ends s (reserve_namespace_id n s).1 pid (
            launch ctx link_map open_loader main_of n strings envp made pid
              (followed_by acts rounds)
              s)
    unfolding launch
    launch-Ends n strings envp made pid acts rounds s l h le =
        with_namespace-Ends made _ pid _ _ envp (followed_by acts rounds) s _
          (subst IsSettled (sym (make_calls-followed_by acts rounds init))
            (make_calls-settles acts rounds h le))
          (new-Created link_map open_loader main_of (length strings % 2 ^ 32)
            (at_or_zero (pointers strings [])) envp n s l)
