-- ===== src/SpiedProgram/Launch/Tests.antt =====
-- include/SpiedProgram.h: the launch of the program `p` with one argument.
use spytester.Base.{ℕ, zero, suc, ◌+◌, refl, true, false, List, [], ◌∷◌, Option, none, some, arith}
use spytester.Base.Texts.{replicate}
use spytester.Sample
use spytester.SpyLoader.{NamespaceIds, emplace, reserve_namespace_id}
use spytester.DynamicNamespace.{Stack, words_to_push}
use spytester.DynamicNamespace.Object.{Namespace, initialised, checked, new, load_executable}
use spytester.DynamicNamespace.Object.Lifetime.{IsLoader}
use spytester.Tracer.Handshake.{StartCall, by_tracer, by_starter, init, make_call, make_calls}
use spytester.Tracer.Handshake.Progress.{AllRounds}
use spytester.SpiedProgram.{Program}
use spytester.SpiedProgram.Launch.{ArgString, pointers, at_or_zero, with_namespace, launch}
use spytester.SpiedProgram.Launch.Arguments.{StartsWith, launch-StartsWith}
use spytester.SpiedProgram.Launch.Return.{Ends, followed_by, launch-Ends}

abbrev ids : NamespaceIds ℕ
ids = record { avl = 2 ∷ 3 ∷ []; used = [] }

ids-IsLoader : IsLoader ids
ids-IsLoader = record { held_once = λ k. ground arith; no_no_id = refl; no_base = refl }

abbrev strings : List ArgString
strings =
    record { text = b'p' ∷ []; c_str = 0x500 } ∷ record { text = b'a' ∷ []; c_str = 0x540 } ∷ []

abbrev link_map : ℕ → Option ℕ
link_map id = some (id + 0x900)

abbrev open_loader : ℕ → Option ℕ
open_loader id = some id

abbrev main_of : ℕ → ℕ
main_of d = 0x8000

abbrev open_executable : ℕ → ℕ → Option ℕ
open_executable path id = some path

abbrev entry_point : ℕ → ℕ
entry_point d = d + 0x10000

abbrev good_start : List StartCall
good_start =
    by_tracer true
    ∷ by_starter true
    ∷ by_starter true
    ∷ by_tracer true
    ∷ by_tracer true
    ∷ by_tracer true
    ∷ by_starter true
    ∷ by_tracer true
    ∷ by_tracer true
    ∷ []

abbrev ns : Namespace ℕ
ns = record {
  id = 2;
  lm = 0x902;
  argc = 2;
  argv = at_or_zero (0x500 ∷ 0x540 ∷ []);
  envp = 0x600 ∷ [];
  libraries = record { executable = none; dynamic_lib = [] };
  loader = 2;
  create_main_thread = 0x8000;
}

abbrev program : Program ℕ
program = record {
  pid = 100;
  ctx = Sample.ctx;
  threads = [];
  break_points = [];
  on_creation = false;
}

abbrev stack : Stack
stack = record { sp = 0x7008; words = λ x. 0 }

launch-StartsWith_example :
    StartsWith strings (0x600 ∷ []) 0x10500 (load_executable open_executable entry_point ns stack)
unfolding launch pointers with_namespace new initialised checked reserve_namespace_id emplace
    make_calls make_call init words_to_push
launch-StartsWith_example =
    launch-StartsWith Sample.ctx link_map open_loader main_of open_executable entry_point 70 strings
      (0x600 ∷ []) true 100 good_start ids program ns stack 0x500 (omega arith) refl refl
      (omega arith) refl

abbrev one_each : List StartCall
one_each = by_starter true ∷ by_tracer true ∷ []

replicate-AllRounds : (n : ℕ) → AllRounds (replicate n one_each)
replicate-AllRounds zero = tt
replicate-AllRounds (suc n) = (refl, refl, replicate-AllRounds n)

-- No semaphore can be had.
launch-Ends_example : Ends ids 2 100 (
    launch Sample.ctx link_map open_loader main_of 70 strings [] false 100
      (followed_by [] (replicate 14 one_each))
      ids)
unfolding reserve_namespace_id
launch-Ends_example =
    launch-Ends Sample.ctx link_map open_loader main_of 70 strings [] false 100 []
      (replicate 14 one_each) ids ids-IsLoader (replicate-AllRounds 14) (omega arith)
