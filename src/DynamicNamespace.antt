-- ===== src/DynamicNamespace.antt =====
-- source/DynamicNamespace.cpp: `start`, which lays out the stack of the program under test and jumps
-- to its entry point; source/Loader.cpp has a second copy of it. Stack pointers are byte addresses
-- and a word has eight bytes.
pub mod Layout
pub mod Libraries
pub mod Object
mod Tests
use spytester.Base.{
  ℕ, zero, suc, ◌+◌, ◌-◌, ◌*◌, ◌%◌, List, [], ◌∷◌, ◌++◌, ◌==◌, length, if◌then◌else◌,
}

-- The stack pointer, and the word at each address.
pub record Stack : Type 0 where
  pub sp : ℕ
  pub words : ℕ → ℕ

abbrev pub stored : (ℕ → ℕ) → ℕ → ℕ → ℕ → ℕ
stored m a v x = if x == a then v else m x

-- `sp--; *sp = v`.
unfoldable pub push_word : ℕ → Stack → Stack
push_word v s = record { sp = s.sp - 8; words = stored s.words (s.sp - 8) v }

unfoldable pub words_to_push : ℕ → List ℕ → ℕ
words_to_push argc envp = argc + 4 + length envp

-- The test `(sp + wordsToPush) & 0xF`, on an address.
unfoldable pub align : ℕ → Stack → Stack
align count s = if (s.sp + 8 * count) % 16 == 0 then s else push_word 0 s

-- From the last environment pointer down to the first.
unfoldable pub push_env : List ℕ → Stack → Stack
push_env [] s = s
push_env (e ∷ es) s = push_word e (push_env es s)

-- `for(int i = argc - 1; i>=0; i--)`, from the number of arguments still to push.
unfoldable pub push_args : ℕ → (ℕ → ℕ) → Stack → Stack
push_args zero argv s = s
push_args (suc i) argv s = push_args i argv (push_word (argv i) s)

-- The stack at the jump. `envp` lists the environment pointers before the null pointer, which the
-- loop pushes too.
unfoldable pub start : ℕ → (ℕ → ℕ) → List ℕ → Stack → Stack
start argc argv envp s =
    let s1 = push_word 0 (align (words_to_push argc envp) s) in
    let s2 = push_env (envp ++ 0 ∷ []) s1 in push_word argc (push_args argc argv (push_word 0 s2))
