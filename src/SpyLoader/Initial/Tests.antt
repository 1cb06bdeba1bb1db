-- ===== src/SpyLoader/Initial/Tests.antt =====
-- source/SpyLoader.cpp: a loader for which the environment asks for two namespaces.
use spytester.Base.{
  ℕ, ◌+◌, ◌*◌, ◌^◌, ◌-◌, ◌≡◌, ◌≢◌, ◌==◌, if◌then◌else◌, refl, [], ◌∷◌, Option, none, some, arith,
}
use spytester.SpyLoader.{base_id}
use spytester.SpyLoader.Wiring.{
  Symbol, init_static_tls, key_delete, key_create, stack_user, ctype_init, index_of,
}
use spytester.SpyLoader.Wiring.Wired.{Provides}
use spytester.DynamicNamespace.Object.{Namespace, initialised, new_base}
use spytester.SpyLoader.Initial.{
  Linker, LoaderRef, namespace_nb, make_master, spy_loader_initializer, no_args,
}
use spytester.SpyLoader.Initial.Rounds.{IsOpen}
use spytester.SpyLoader.Initial.Ready.{IsReady, spy_loader_initializer-IsReady}

abbrev address : ℕ → Symbol → ℕ
address ns init_static_tls = 10 * ns + 1
address ns key_delete = 10 * ns + 2
address ns key_create = 10 * ns + 3
address ns stack_user = 10 * ns + 4
address ns ctype_init = 10 * ns + 5

-- Every library of a namespace is known by the namespace's number.
abbrev linker : Linker ℕ ℕ
linker = record {
  link_map = λ id. some (id + 0x900);
  open_loader = λ id. some id;
  main_of = λ d. 0x8000;
  open_lib = λ ns lib. some ns;
  symbol_at = address;
  own = 77;
}

provided : (ns : ℕ) → Provides linker.open_lib linker.symbol_at 77 address ns
provided ns = record {
  pthread = ns;
  c = ns;
  has_pthread = refl;
  has_c = refl;
  has_tls = refl;
  has_delete = refl;
  has_create = refl;
  has_stack = refl;
  has_ctype = refl;
  not_null = λ x. elim x as (λ y. address ns y ≢ 0) [
    | init_static_tls ↦ omega arith
    | key_delete ↦ omega arith
    | key_create ↦ omega arith
    | stack_user ↦ omega arith
    | ctype_init ↦ omega arith
  ];
}

abbrev made : ℕ → ℕ → Namespace ℕ
made id main = record {
  id = id;
  lm = id + 0x900;
  argc = 0;
  argv = no_args;
  envp = [];
  libraries = record { executable = none; dynamic_lib = [] };
  loader = id;
  create_main_thread = main;
}

abbrev reference : ℕ
reference = 70

id-IsOpen : (id : ℕ) → IsOpen reference linker id
unfolding initialised
id-IsOpen id = record { ns = made id 0x8000; starts = refl; has_main = omega arith }

-- The second link map cannot be made.
abbrev maps : ℕ → Option ℕ
maps i = if i == 1 then none else some (i + 3)

namespace_nb_large : namespace_nb (some 11) ≡ 3
unfolding namespace_nb
namespace_nb_large = refl

-- A negative number.
namespace_nb_minus : namespace_nb (some (2 ^ 32 - 1)) ≡ 3
unfolding namespace_nb
namespace_nb_minus = refl

spy_loader_initializer-IsReady_example :
    (s : LoaderRef ℕ) × (spy_loader_initializer base_id none
        (make_master reference linker (some 2) maps (λ a. 900) (λ a. 900) (5 ∷ 1 ∷ 6 ∷ []))
      ≡ some s)
    × IsReady reference linker address (3 ∷ []) s
unfolding namespace_nb index_of new_base
spy_loader_initializer-IsReady_example =
    spy_loader_initializer-IsReady reference linker address (some 2) none maps (λ a. 900) (λ a. 900)
      (5 ∷ 1 ∷ 6 ∷ []) 1 (made 0 0) (λ k. ground arith) refl refl (id-IsOpen 3, tt) (provided 0)
      (provided 3, tt) refl
