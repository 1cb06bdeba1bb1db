-- ===== src/SpyLoader/Tests.antt =====
-- source/SpyLoader.cpp: a loader with two namespace ids.
use spytester.Base.{
  ◌==◌, if◌then◌else◌, ◌+◌, ◌*◌, ℕ, suc, ◌-◌, ◌≤◌, ◌≡◌, ◌≢◌, ◌⊎◌, refl, List, [], ◌∷◌, Option, some,
  none, arith,
}
use spytester.SpyLoader.{
  NamespaceIds, no_id, create_spied_namespaces, open_namespaces, open_namespace, close_namespaces,
  all_closed, insert, emplace, extract, has_key, reserve_namespace_id, release_namespace_id,
}
use spytester.SpyLoader.Ids.{IdCall, held, reserve, release, id_calls}
use mathlib.Core.Path.{ap}
use spytester.Base.Bags.{bag_of}
use spytester.SpyLoader.Pool.{Serves, id_answers, id_calls-Serves}
use spytester.SpyLoader.Keys.{
  create_in, pthread_key_create, pthread_key_delete, Creates, StopsAt, pthread_key_create_lem,
  create-delete,
}
use spytester.SpyLoader.Wiring.{
  Lib, Symbol, init_static_tls, key_delete, key_create, stack_user, ctype_init,
}
use spytester.SpyLoader.Wiring.Wired.{Provides}

abbrev ids : NamespaceIds ℕ
ids = record { avl = 2 ∷ 3 ∷ []; used = [] }

ids-held : (j : ℕ) → held j ids ≤ 1
ids-held j = ground arith

abbrev history : List (IdCall ℕ)
history = reserve 70 ∷ reserve 80 ∷ reserve 90 ∷ release 2 ∷ []

id_calls-Serves_example :
    Serves history
      (2 ∷ 3 ∷ no_id ∷ [])
      (record { free = bag_of (2 ∷ 3 ∷ []); taken = bag_of [] })
      (record { free = bag_of (2 ∷ []); taken = bag_of (3 ∷ []) })
unfolding id_calls id_answers reserve_namespace_id release_namespace_id insert emplace extract
    has_key
id_calls-Serves_example = id_calls-Serves history ids ids-held

-- The second link map cannot be made.
abbrev link_maps : List (Option ℕ)
link_maps = some 3 ∷ none ∷ some 2 ∷ []

create_two :
    create_spied_namespaces {N = ℕ} 0 link_maps (record { avl = []; used = [] })
    ≡ record { avl = 2 ∷ 3 ∷ []; used = [] }
unfolding create_spied_namespaces open_namespaces open_namespace close_namespaces all_closed insert
    emplace extract has_key reserve_namespace_id release_namespace_id
create_two = refl

-- A namespace is the number of its keys, and the next key is that number.
abbrev next_key : ℕ → ℕ × ℕ × ℕ
next_key k = (suc k, 0, k)

abbrev drop_key : ℕ → ℕ → ℕ × ℕ
drop_key key k = (k - 1, 0)

-- The third namespace has a key too many.
pthread_key_create_lem_example :
    let (b', ks', r, key) = pthread_key_create next_key 4 (4 ∷ 5 ∷ 4 ∷ []) in
    (b' ≡ 5)
    × (key ≡ 4)
    × (((next_key 4).1 ≢ 0) × (ks' ≡ 4 ∷ 5 ∷ 4 ∷ []) × (r ≡ 0)
        ⊎ (((next_key 4).1 ≡ 0)
            × ((Creates next_key key (4 ∷ 5 ∷ 4 ∷ []) × (ks' ≡ 5 ∷ 6 ∷ 5 ∷ []) × (r ≡ 0))
                ⊎ (StopsAt next_key key (4 ∷ 5 ∷ 4 ∷ []) ks' × (r ≢ 0)))))
pthread_key_create_lem_example = pthread_key_create_lem next_key 4 (4 ∷ 5 ∷ 4 ∷ [])

create-delete_example :
    let (b', ks', r, key) = pthread_key_create next_key 4 (4 ∷ 4 ∷ []) in
    pthread_key_delete drop_key key (b' ∷ ks') ≡ (4 ∷ 4 ∷ 4 ∷ [], 0)
unfolding pthread_key_create create_in
create-delete_example =
    create-delete next_key drop_key 4 (4 ∷ 4 ∷ []) (λ k z. ap (λ x. (x, 0)) (omega arith)) refl

-- Every library of a namespace is known by the namespace's number.
abbrev load_any : ℕ → Lib → Option ℕ
load_any ns l = some ns

abbrev address : ℕ → Symbol → ℕ
address ns init_static_tls = 10 * ns + 1
address ns key_delete = 10 * ns + 2
address ns key_create = 10 * ns + 3
address ns stack_user = 10 * ns + 4
address ns ctype_init = 10 * ns + 5

address-ne-zero : (ns : ℕ) (x : Symbol) → address ns x ≢ 0
address-ne-zero ns init_static_tls = omega arith
address-ne-zero ns key_delete = omega arith
address-ne-zero ns key_create = omega arith
address-ne-zero ns stack_user = omega arith
address-ne-zero ns ctype_init = omega arith

provided : (ns : ℕ) → Provides load_any address 77 address ns
provided ns = record {
  pthread = ns;
  c = ns;
  has_pthread = refl;
  has_c = refl;
  has_tls = refl;
  has_delete = refl;
  has_create = refl;
  has_stack = refl;
  has_ctype = refl;
  not_null = address-ne-zero ns;
}

-- The base namespace is 1. Its list of threads holds the default thread's head 900, and that of
-- namespace 3 has taken it.
abbrev links : ℕ → ℕ
links a = if a == 14 then 900 else if a == 900 then 34 else if a == 34 then 900 else 0
