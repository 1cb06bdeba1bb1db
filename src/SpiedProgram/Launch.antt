-- ===== src/SpiedProgram/Launch.antt =====
-- include/SpiedProgram.h: the constructor, which makes the namespace and has the tracing thread start
-- the program in it. The strings of `_argvStr` are given with the addresses of their characters; the
-- calls of the tracing thread and of the process that it clones come by a schedule.
mod Arguments
mod Return
mod Tests
use spytester.Base.{
  ℕ, zero, suc, ◌-◌, ◌^◌, ◌%◌, Bool, true, false, List, [], ◌∷◌, ◌++◌, Option, none, some, length,
  if◌then◌else◌,
}
use spytester.Base.Texts.{Text}
use spytester.Context.{Context}
use spytester.SpiedProgram.{Program}
use spytester.SpyLoader.{NamespaceIds}
use spytester.DynamicNamespace.Object.{Namespace, new, destroy}
use spytester.Tracer.Handshake.{TracerAt, StartCall, told, no_tracee, init, make_calls}

pub record ArgString : Type 0 where
  pub text : Text
  pub c_str : ℕ

-- `std::accumulate` with `push_back`, from the vector made so far.
unfoldable pub pointers : List ArgString → List ℕ → List ℕ
pointers [] v = v
pointers (a ∷ rest) v = pointers rest (v ++ a.c_str ∷ [])

-- `_argv[i]`; a read past the vector is not looked at.
abbrev pub at_or_zero : List ℕ → ℕ → ℕ
at_or_zero [] i = 0
at_or_zero (p ∷ ps) zero = p
at_or_zero (p ∷ ps) (suc i) = at_or_zero ps i

-- What `startTracing` returns, once the promise is kept: the pid, or -1 as a pid_t.
abbrev pub promised : ℕ → TracerAt → Option ℕ
promised pid told = some pid
promised pid no_tracee = some (2 ^ 32 - 1)
promised pid _ = none

-- The constructor throws, waits for the promise, or returns with the program and its namespace.
pub data LaunchEnd (M D : Type 0) : Type 0 where
  gave_up waits : LaunchEnd M D
  launched : Program M → Namespace D → LaunchEnd M D

module _ {M D : Type 0} (ctx : Context M) where
  abbrev pub with_pid : Namespace D → Option ℕ → LaunchEnd M D
  with_pid ns none = waits
  with_pid ns (some pid) =
      launched
        (record { pid = pid; ctx = ctx; threads = []; break_points = []; on_creation = false }) ns

  module _ {N : Type 0} where
    -- The tracer, whose constructor throws where it gets no semaphore or no stack: then the namespace
    -- is destroyed again.
    unfoldable pub with_namespace :
        Bool
        → ℕ
        → List StartCall
        → NamespaceIds N × Option (Namespace D)
        → NamespaceIds N × LaunchEnd M D
    unfolding init make_calls
    with_namespace made pid acts (s, none) = (s, gave_up)
    with_namespace true pid acts (s, some ns) =
        (s, with_pid ns (promised pid (make_calls acts init).tracer))
    with_namespace false pid acts (s, some ns) = (destroy ns s, gave_up)

    module _ (link_map : ℕ → Option ℕ) (open_loader : ℕ → Option D) (main_of : D → ℕ) where
      -- `strings` is `_argvStr`, the program's name first, and `envp` is `environ`; the sizes are `int`.
      unfoldable pub launch :
          N
          → List ArgString
          → List ℕ
          → Bool
          → ℕ
          → List StartCall
          → NamespaceIds N
          → NamespaceIds N × LaunchEnd M D
      unfolding pointers with_namespace
      launch n strings envp made pid acts s = with_namespace made pid acts (
          new link_map open_loader main_of n (length strings % 2 ^ 32)
            (at_or_zero (pointers strings [])) envp s)
