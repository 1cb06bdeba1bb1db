-- ===== src/SpyLoader/Initial/Ready.antt =====
-- source/SpyLoader.cpp: the loader after `SpyLoaderInitializer` in the base namespace.
use spytester.Base.Chains.{◌>>=◌}
use spytester.Base.{ℕ, zero, suc, ◌≤◌, ◌≡◌, ap, List, [], ◌∷◌, Option, none, some, length, arith}
use spytester.Base.Counts.{count}
use spytester.SpyLoader.{base_id, create_spied_namespaces}
use spytester.SpyLoader.Creation.{opened, create_spied_namespaces_lem}
use spytester.SpyLoader.Wiring.{Symbol, Loader, init_static_tls, make, update_each, index_of}
use spytester.SpyLoader.Wiring.Wired.{Provides, AllProvide, IsWired, make-IsWired}
use spytester.DynamicNamespace.Object.{Namespace, new_base}
use spytester.SpyLoader.Initial.{
  Linker, namespace_nb, create_and_wire, first_maps, make_master, LoaderRef, master, shared,
  mastered, spy_loader_initializer,
}
use spytester.SpyLoader.Initial.Rounds.{AllOpen, no_loader_ids, create_and_wire_lem}

namespace_nb_bounds : (env : Option ℕ) → (1 ≤ namespace_nb env) × (namespace_nb env ≤ 10)
unfolding namespace_nb
namespace_nb_bounds none = (omega arith, omega arith)
namespace_nb_bounds (some k) = ground arith

length-opened : (nb : ℕ) (maps : ℕ → Option ℕ) → length (opened (first_maps nb maps)) ≤ nb
length-opened zero maps = omega arith
length-opened (suc nb) maps =
    elim (maps 0) as (λ o. length (opened (o ∷ first_maps nb (λ i. maps (suc i)))) ≤ suc nb) [
      | none ↦ omega (arith, length-opened nb (λ i. maps (suc i)))
      | some id ↦ omega (arith, length-opened nb (λ i. maps (suc i)))
    ]

-- The ids of the link maps that the rounds open.
abbrev pub ids_of : Option ℕ → (ℕ → Option ℕ) → List ℕ
ids_of env maps = opened (first_maps (namespace_nb env) maps)

module _ {N D E : Type 0} (n : N) (l : Linker D E) where
  module _ (addr : ℕ → Symbol → ℕ) where
    -- The loader in the base namespace, for the ids of the link maps that could be made: all are
    -- available and none is in use, and the loader is wired to the base namespace and to each of them.
    abbrev pub IsReady : List ℕ → LoaderRef N → Type 0
    IsReady ids (master (s, t)) =
        (length ids ≤ 10)
        × ((k : ℕ) → count k s.avl ≡ count k ids)
        × (s.used ≡ [])
        × IsWired l.open_lib l.symbol_at l.own addr (base_id ∷ ids) t
    IsReady ids (shared a) = ⊥

    -- In the base namespace, if each link map that the rounds open has an id of its own that is not
    -- the base namespace's, if the base namespace and each of these can be made and has libpthread and
    -- libc with the symbols, and if the base namespace's `__pthread_init_static_tls` stands in
    -- `_rtld_global`: then the initializer ends without an abort, whatever the environment asks for.
    -- There are at most 10 spied namespaces, every one's id is available once, none is in use, and the
    -- loader's vectors, lists of threads and hook are those of the base namespace and of each of them.
    pub spy_loader_initializer-IsReady :
        (env of_master : Option ℕ) (maps : ℕ → Option ℕ) (next prev : ℕ → ℕ) (rtld : List ℕ)
        (place : ℕ) (base : Namespace D)
        → ((k : ℕ) → count k (ids_of env maps) ≤ 1)
        → count base_id (ids_of env maps) ≡ 0
        → new_base l.link_map l.open_loader l.main_of ≡ some base
        → AllOpen n l (ids_of env maps)
        → Provides l.open_lib l.symbol_at l.own addr base_id
        → AllProvide l.open_lib l.symbol_at l.own addr (ids_of env maps)
        → index_of (addr base_id init_static_tls) rtld ≡ some place
        → (s : LoaderRef N) × (spy_loader_initializer base_id of_master
              (make_master n l env maps next prev rtld)
            ≡ some s)
          × IsReady (ids_of env maps) s
    unfolding make_master spy_loader_initializer
    spy_loader_initializer-IsReady env of_master maps next prev rtld place base once nb hb a p ps
          h =
        rw hb (from (make l.open_lib l.symbol_at l.own base_id next prev rtld) wired.1)
      where
        os : List (Option ℕ)
        os = first_maps (namespace_nb env) maps

        wired :
            (t : Loader) × ((make l.open_lib l.symbol_at l.own base_id next prev rtld
                >>= update_each l.open_lib l.symbol_at l.own (opened os))
              ≡ some t)
            × IsWired l.open_lib l.symbol_at l.own addr (base_id ∷ opened os) t
        wired =
            make-IsWired l.open_lib l.symbol_at l.own addr base_id (opened os) next prev rtld place
              p ps h

        few : length (opened os) ≤ 10
        few = omega (arith, length-opened (namespace_nb env) maps, (namespace_nb_bounds env).1)

        ids_after :
            ((k : ℕ)
              → count k (create_spied_namespaces n os no_loader_ids).avl ≡ count k (opened os))
            × ((create_spied_namespaces n os no_loader_ids).used ≡ [])
        ids_after = create_spied_namespaces_lem n os once nb

        from :
            (o : Option Loader)
            → (o >>= update_each l.open_lib l.symbol_at l.own (opened os)) ≡ some wired.0
            → (s : LoaderRef N) × (mastered (o >>= λ t. create_and_wire n l os no_loader_ids t)
                ≡ some s)
              × IsReady (opened os) s
        from none e = absurd (ground (arith, e))
        from (some t) e = (
          master (create_spied_namespaces n os no_loader_ids, wired.0),
          ap mastered (create_and_wire_lem n l os t wired.0 a e),
          (few, ids_after.0, ids_after.1, wired.2),
        )
