-- ===== src/Loader.antt =====
-- source/Loader.cpp: the older way to start the program under test, with a second copy of `start`.
-- dlopen, dlinfo and the ELF header in memory are parameters; `preload` only starts a thread on
-- `load` and stops itself.
mod Agreement
mod Tests
use spytester.Base.{ℕ, zero, ◌+◌, ◌^◌, ◌%◌, List, [], ◌∷◌, ◌++◌, Option, none, some}
use spytester.DynamicNamespace.{Stack, push_word, words_to_push, align, push_env, push_args}

-- The file's own `start`, up to the jump.
unfoldable pub start : ℕ → (ℕ → ℕ) → List ℕ → Stack → Stack
unfolding words_to_push align push_env push_args push_word
start argc argv envp s =
    let aligned = align (words_to_push argc envp) s in
    let auxv = push_word 0 aligned in
    let env = push_env (envp ++ 0 ∷ []) auxv in
    let args = push_args argc argv (push_word 0 env) in push_word argc args

-- How `load` ends: with a promise that is never kept, or with the handle in it and a jump to the entry
-- point on the stack that `start` has laid out.
pub data LoadEnd (H : Type 0) : Type 0 where
  abandoned : LoadEnd H
  entered : H → ℕ → Stack → LoadEnd H

module _ {H : Type 0} (dlopen : ℕ → Option H) (link_map : H → Option ℕ) (entry_at : ℕ → ℕ) where
  -- The address of the entry point, in 64 bits, from `l_addr` of the link map.
  abbrev pub from_map : H → Stack → Option ℕ → LoadEnd H
  from_map h t none = abandoned
  from_map h t (some l_addr) = entered h ((l_addr + entry_at l_addr) % 2 ^ 64) t

  abbrev pub from_handle : Stack → Option H → LoadEnd H
  from_handle t none = abandoned
  from_handle t (some h) = from_map h t (link_map h)

  unfoldable pub load : ℕ → (ℕ → ℕ) → List ℕ → Stack → LoadEnd H
  load argc argv envp s = from_handle (start argc argv envp s) (dlopen (argv 0))
