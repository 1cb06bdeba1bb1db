-- ===== src/SpiedProgram/Launch/Arguments.antt =====
-- include/SpiedProgram.h and source/DynamicNamespace.cpp: the arguments, from the constructor's strings
-- to the stack on which the program starts.
use mathlib.Core.Path.{subst}
use mathlib.Core.List.{append-nil, append_assoc}
use spytester.Base.{
  ℕ, suc, ◌+◌, ◌*◌, ◌^◌, ◌%◌, ◌<◌, ◌≤◌, ◌≡◌, refl, sym, ap, ◌∙◌, Bool, true, false, List, [], ◌∷◌,
  ◌++◌, Option, none, some, map, length, ◌==◌, Bool-cases, inl, inr, arith,
}
use spytester.Base.Chains.{◌>>=◌}
use spytester.Context.{Context}
use spytester.SpyLoader.{NamespaceIds, reserve_namespace_id}
use spytester.DynamicNamespace.{Stack, words_to_push, start}
use spytester.DynamicNamespace.Layout.{Holds, first_args, layout, start_lem}
use spytester.DynamicNamespace.Object.{
  Namespace, initialised, checked, new, Loaded, terminated, jumped, load_executable,
  with_executable,
}
use spytester.Tracer.Handshake.{StartCall, init, make_calls}
use spytester.SpiedProgram.{Program}
use spytester.SpiedProgram.Launch.{
  ArgString, pointers, at_or_zero, promised, LaunchEnd, gave_up, waits, launched, with_pid,
  with_namespace, launch,
}

abbrev pub addresses : List ArgString → List ℕ
addresses strings = map (λ a. a.c_str) strings

pointers_lem : (strings : List ArgString) (v : List ℕ) → pointers strings v ≡ v ++ addresses strings
unfolding pointers
pointers_lem [] v = sym (append-nil v)
pointers_lem (a ∷ rest) v =
    pointers_lem rest (v ++ a.c_str ∷ []) ∙ append_assoc v (a.c_str ∷ []) (addresses rest)

first_args-at_or_zero : (ps : List ℕ) → first_args (length ps) (at_or_zero ps) ≡ ps
first_args-at_or_zero [] = refl
first_args-at_or_zero (p ∷ ps) = ap (λ l. p ∷ l) (first_args-at_or_zero ps)

length-addresses : (strings : List ArgString) → length (addresses strings) ≡ length strings
length-addresses [] = refl
length-addresses (a ∷ rest) = ap suc (length-addresses rest)

module _ {D : Type 0} (argc : ℕ) (argv : ℕ → ℕ) (envp : List ℕ) where
  -- The namespace has been given these arguments.
  abbrev HasArgs : Namespace D → Type 0
  HasArgs ns = (ns.argc ≡ argc) × (ns.argv ≡ argv) × (ns.envp ≡ envp)

  abbrev MayHaveArgs : Option (Namespace D) → Type 0
  MayHaveArgs none = Unit {0}
  MayHaveArgs (some ns) = HasArgs ns

  module _ (link_map : ℕ → Option ℕ) (open_loader : ℕ → Option D) (main_of : D → ℕ) where
    initialised-MayHaveArgs :
        (id : ℕ) → MayHaveArgs (initialised link_map open_loader main_of argc argv envp id)
    unfolding initialised
    initialised-MayHaveArgs id = from (link_map id) (open_loader id)
      where
        from :
            (o : Option ℕ) (p : Option D)
            → MayHaveArgs (do
              lm ← o
              loader ← p
              some (record {
                id = id;
                lm = lm;
                argc = argc;
                argv = argv;
                envp = envp;
                libraries = record { executable = none; dynamic_lib = [] };
                loader = loader;
                create_main_thread = main_of loader;
              }))
        from none p = tt
        from (some lm) none = tt
        from (some lm) (some d) = (refl, refl, refl)

    checked-MayHaveArgs :
        {N : Type 0} (s : NamespaceIds N) (o : Option (Namespace D))
        → MayHaveArgs o
        → MayHaveArgs (checked s o).1
    unfolding checked
    checked-MayHaveArgs s none h = tt
    checked-MayHaveArgs s (some ns) h = elim (Bool-cases (ns.create_main_thread == 0)) [
      | inl e ↦ rw e tt
      | inr e ↦ rw e h
    ]

    new-MayHaveArgs :
        {N : Type 0} (n : N) (s : NamespaceIds N)
        → MayHaveArgs (new link_map open_loader main_of n argc argv envp s).1
    unfolding new
    new-MayHaveArgs n s =
        checked-MayHaveArgs _ _ (initialised-MayHaveArgs (reserve_namespace_id n s).1)

  abbrev EndHasArgs : {M : Type 0} → LaunchEnd M D → Type 0
  EndHasArgs gave_up = Unit {0}
  EndHasArgs waits = Unit {0}
  EndHasArgs (launched p ns) = HasArgs ns

  with_namespace-EndHasArgs :
      {M N : Type 0} (ctx : Context M) (made : Bool) (pid : ℕ) (acts : List StartCall)
      (r : NamespaceIds N × Option (Namespace D))
      → MayHaveArgs r.1
      → EndHasArgs (with_namespace ctx made pid acts r).1
  unfolding with_namespace
  with_namespace-EndHasArgs ctx made pid acts (s, none) h = tt
  with_namespace-EndHasArgs ctx false pid acts (s, some ns) h = tt
  with_namespace-EndHasArgs {M} ctx true pid acts (s, some ns) h =
      from (promised pid (make_calls acts init).tracer)
    where
      from : (o : Option ℕ) → EndHasArgs (with_pid {M = M} ctx ns o)
      from none = tt
      from (some p) = h

-- What a program expects on its stack: argc, the arguments, the environment, no auxiliary vector.
abbrev pub words_of : List ArgString → List ℕ → List ℕ
words_of strings envp = length strings ∷ (addresses strings ++ 0 ∷ ((envp ++ 0 ∷ []) ++ 0 ∷ []))

first_args-pointers :
    (strings : List ArgString)
    → first_args (length strings) (at_or_zero (pointers strings [])) ≡ addresses strings
first_args-pointers strings =
    ap (λ ps. first_args (length strings) (at_or_zero ps)) (pointers_lem strings [])
    ∙ ap (λ k. first_args k (at_or_zero (addresses strings))) (sym (length-addresses strings))
    ∙ first_args-at_or_zero (addresses strings)

layout-words_of :
    (strings : List ArgString) (envp : List ℕ) (argc : ℕ) (argv : ℕ → ℕ) (envp' : List ℕ)
    → argc ≡ length strings
    → argv ≡ at_or_zero (pointers strings [])
    → envp' ≡ envp
    → layout argc argv envp' ≡ words_of strings envp
layout-words_of strings envp argc argv envp' h k e =
    ap (λ a. layout a argv envp') h
    ∙ ap (λ v. layout (length strings) v envp') k
    ∙ ap (λ v. layout (length strings) (at_or_zero (pointers strings [])) v) e
    ∙ ap (λ l. length strings ∷ (l ++ 0 ∷ ((envp ++ 0 ∷ []) ++ 0 ∷ [])))
        (first_args-pointers strings)

-- `loadExecutable` jumps to the entry point on an aligned stack with these words.
abbrev pub StartsWith : {D : Type 0} → List ArgString → List ℕ → ℕ → Loaded D → Type 0
StartsWith strings envp entry terminated = ⊥
StartsWith strings envp entry (jumped a t ns) =
    (a ≡ entry) × (t.sp % 16 ≡ 0) × Holds (words_of strings envp) t.sp t.words

module _ {M N D : Type 0} (ctx : Context M) (link_map : ℕ → Option ℕ) (open_loader : ℕ → Option D)
    (main_of : D → ℕ) (open_executable : ℕ → ℕ → Option D) (entry_point : D → ℕ) where
  -- If the constructor returns, for fewer than 2 ^ 31 strings: on a stack with room for the words and
  -- a pointer that is a multiple of 8, `loadExecutable` of its namespace, where it can open the
  -- executable, jumps to the entry point; and the program finds the number of the strings on its
  -- stack, the addresses of their characters in their order and a null pointer, the environment and a
  -- null pointer, and an empty auxiliary vector, the stack pointer being a multiple of 16.
  pub launch-StartsWith :
      (n : N) (strings : List ArgString) (envp : List ℕ) (made : Bool) (pid : ℕ)
      (acts : List StartCall) (s : NamespaceIds N) (p : Program M) (ns : Namespace D)
      (stack : Stack) (exe : D)
      → length strings < 2 ^ 31
      → (launch ctx link_map open_loader main_of n strings envp made pid acts s).1 ≡ launched p ns
      → stack.sp % 8 ≡ 0
      → 8 * (words_to_push (length strings) envp + 1) ≤ stack.sp
      → open_executable (ns.argv 0) ns.id ≡ some exe
      → StartsWith strings envp
          (entry_point exe)
          (load_executable open_executable entry_point ns stack)
  unfolding launch load_executable words_to_push
  launch-StartsWith n strings envp made pid acts s p ns stack exe few h whole room e =
      subst
        (λ o.
          StartsWith strings envp (entry_point exe)
            (with_executable open_executable entry_point ns stack o))
        (sym e)
        (
          refl,
          laid.0,
          subst
              (λ l.
                Holds l (start ns.argc ns.argv ns.envp stack).sp
                  (start ns.argc ns.argv ns.envp stack).words)
              (layout-words_of strings envp ns.argc ns.argv ns.envp argc_lem args.1 args.2) laid.1,
        )
    where
      args : HasArgs (length strings % 2 ^ 32) (at_or_zero (pointers strings [])) envp ns
      args =
          subst (EndHasArgs (length strings % 2 ^ 32) (at_or_zero (pointers strings [])) envp) h (
            with_namespace-EndHasArgs _ _ _ ctx made pid acts _
              (new-MayHaveArgs _ _ _ link_map open_loader main_of n s))

      argc_lem : ns.argc ≡ length strings
      argc_lem = omega (arith, args.0, few)

      laid :
          let t = start ns.argc ns.argv ns.envp stack in
          (t.sp % 16 ≡ 0)
          × Holds (layout ns.argc ns.argv ns.envp) t.sp t.words
          × ((x : ℕ) → stack.sp ≤ x → t.words x ≡ stack.words x)
      laid =
          start_lem ns.argc ns.argv ns.envp stack whole
            (omega (arith, argc_lem, room, ap length args.2))
