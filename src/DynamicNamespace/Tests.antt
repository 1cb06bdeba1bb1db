-- ===== src/DynamicNamespace/Tests.antt =====
-- source/DynamicNamespace.cpp: the stack of a program with one argument and one environment string,
-- and a namespace with an executable and one library.
use spytester.Base.{
  ℕ, ◌+◌, ◌%◌, ◌≡◌, refl, Bool, true, false, List, [], ◌∷◌, Option, none, some, ◌==◌, if◌then◌else◌,
}
use spytester.Base.Texts.{Text, same_text}
use spytester.DynamicNamespace.{Stack, start, words_to_push, align, push_env, push_args, push_word}
use spytester.DynamicNamespace.Libraries.{Libraries, emplace, sync_modules, iterate_over_module}

abbrev stack : Stack
stack = record { sp = 0x7008; words = λ x. 0 }

-- Six words, and one for the alignment.
start_sp : (start 1 (λ i. 0x500) (0x600 ∷ []) stack).sp ≡ 0x6fd0
unfolding start words_to_push align push_env push_args push_word
start_sp = refl

abbrev no_libs : Libraries ℕ
no_libs = record { executable = none; dynamic_lib = [] }

-- The executable opens as 1, `/l/z` as 2 under the name `z`; nothing else can be opened.
abbrev opener : Text → Option ℕ
opener [] = some 1
opener (c ∷ cs) = if same_text (c ∷ cs) (b'z' ∷ []) then some 2 else none

abbrev link_maps : List Text
link_maps = [] ∷ (b'/' ∷ b'l' ∷ b'/' ∷ b'z' ∷ []) ∷ []

abbrev synced : Libraries ℕ
synced = record { executable = some 1; dynamic_lib = (b'z' ∷ [], 2) ∷ [] }

sync_modules_run : sync_modules opener link_maps no_libs ≡ (synced, true)
unfolding sync_modules emplace
sync_modules_run = refl

-- Adds up the modules, up to the first even one.
abbrev sum_odd : ℕ → ℕ → ℕ × Bool
sum_odd s d = (s + d, d % 2 == 1)

iterate_run : (iterate_over_module opener sum_odd 10 link_maps no_libs).1 ≡ some (12, false)
unfolding sync_modules emplace iterate_over_module
iterate_run = refl

-- No library, so that the executable is passed over.
iterate_none :
    (iterate_over_module opener sum_odd 10 [] (record { executable = some 1; dynamic_lib = [] })).1
    ≡ some (10, false)
unfolding iterate_over_module
iterate_none = refl
