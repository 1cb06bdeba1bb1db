-- ===== src/SpyLoader/Initial.antt =====
-- source/SpyLoader.cpp: how the loader comes to be, `SpyLoaderInitializer`, with the loop of
-- `createSpiedNamespaces` as it stands there: each round opens a link map, makes a namespace on it and
-- takes its functions. The dynamic linker, the environment and atoi are parameters; namespaces are
-- told apart by their ids. An exception or a `fatal_log` ends the process: `none`.
mod Rounds
mod Ready
mod Tests
use spytester.Base.Chains.{◌>>=◌}
use spytester.Base.{
  ℕ, zero, suc, ◌^◌, Bool, true, false, ◌&&◌, List, [], ◌∷◌, ◌++◌, Option, none, some, ltb, ◌==◌,
  if◌then◌else◌,
}
use spytester.SpyLoader.{NamespaceIds, base_id, insert, no_ids}
use spytester.SpyLoader.Wiring.{Lib, Symbol, Loader, update_wrapped_functions, make}
use spytester.DynamicNamespace.Object.{Namespace, new_base, new, destroy}

-- SPIED_NAMESPACES_NB.
abbrev pub spied_namespaces_nb : ℕ
spied_namespaces_nb = 3

-- `n > 0 && n < 11` for an `int`, by its 32 bits.
abbrev pub in_range : ℕ → Bool
in_range n = ltb 0 n && ltb n (2 ^ 31) && ltb n 11

-- What atoi makes of the environment's variable, if that is set.
unfoldable pub namespace_nb : Option ℕ → ℕ
namespace_nb none = spied_namespaces_nb
namespace_nb (some n) = if in_range n then n else spied_namespaces_nb

-- The link maps of the rounds, the first nb of those that the linker would make.
abbrev pub first_maps : ℕ → (ℕ → Option ℕ) → List (Option ℕ)
first_maps zero maps = []
first_maps (suc nb) maps = maps 0 ∷ first_maps nb (λ i. maps (suc i))

-- The null pointer for the arguments.
abbrev pub no_args : ℕ → ℕ
no_args i = 0

-- The ids, the list of namespaces, and the rest of the loader.
pub record Setup (N D : Type 0) : Type 0 where
  pub ids : NamespaceIds N
  pub namespaces : List (Namespace D)
  pub loader : Loader

-- The parameters: the link map and libSpyLoader.so of a namespace with its `createMainThread`; the
-- libraries that the loader opens in a namespace, their symbols, and its own `dl_init_static_tls`.
pub record Linker (D E : Type 0) : Type 0 where
  pub link_map : ℕ → Option ℕ
  pub open_loader : ℕ → Option D
  pub main_of : D → ℕ
  pub open_lib : ℕ → Lib → Option E
  pub symbol_at : E → Symbol → ℕ
  pub own : ℕ

module _ {N D E : Type 0} (n : N) (l : Linker D E) where
  -- `namespaces.emplace_back(0, nullptr, nullptr)` on the ids.
  abbrev pub emplace_back : NamespaceIds N → NamespaceIds N × Option (Namespace D)
  emplace_back s = new l.link_map l.open_loader l.main_of n 0 no_args [] s

  -- `updateWrappedFunctions` on the namespace just made.
  unfoldable pub wire : NamespaceIds N × Option (Namespace D) → Setup N D → Option (Setup N D)
  wire (ids, none) s = none
  wire (ids, some ns) s = do
    loader ← update_wrapped_functions l.open_lib l.symbol_at l.own ns.id s.loader
    some (record { ids = ids; namespaces = s.namespaces ++ ns ∷ []; loader = loader })

  -- One round, with the id of the new link map, if there is one.
  unfoldable pub round : Option ℕ → Setup N D → Option (Setup N D)
  unfolding wire
  round none s = some s
  round (some id) s = wire (emplace_back (record s.ids { avl = insert id s.ids.avl })) s

  unfoldable pub rounds : List (Option ℕ) → Setup N D → Option (Setup N D)
  unfolding round
  rounds [] s = some s
  rounds (o ∷ os) s = round o s >>= λ s'. rounds os s'

  -- The list's destructor.
  unfoldable pub destroy_all : List (Namespace D) → NamespaceIds N → NamespaceIds N
  destroy_all [] ids = ids
  destroy_all (ns ∷ nss) ids = destroy_all nss (destroy ns ids)

  unfoldable pub create_and_wire :
      List (Option ℕ) → NamespaceIds N → Loader → Option (NamespaceIds N × Loader)
  unfolding no_ids rounds destroy_all
  create_and_wire os ids loader =
      if no_ids ids.avl ids.used
      then (do
        s ← rounds os (record { ids = ids; namespaces = []; loader = loader })
        some (destroy_all s.namespaces s.ids, s.loader))
      else some (ids, loader)

  -- `new SpyLoader()` and `createSpiedNamespaces`.
  unfoldable pub make_master :
      Option ℕ → (ℕ → Option ℕ) → (ℕ → ℕ) → (ℕ → ℕ) → List ℕ → Option (NamespaceIds N × Loader)
  unfolding create_and_wire namespace_nb
  make_master env maps next prev rtld = do
    base ← new_base l.link_map l.open_loader l.main_of
    loader ← make l.open_lib l.symbol_at l.own base_id next prev rtld
    create_and_wire (first_maps (namespace_nb env) maps) (record { avl = []; used = [] }) loader

-- The loader of this copy of the library, or that of the base namespace's copy, by its address.
pub data LoaderRef (N : Type 0) : Type 0 where
  master : NamespaceIds N × Loader → LoaderRef N
  shared : ℕ → LoaderRef N

abbrev pub mastered : {N : Type 0} → Option (NamespaceIds N × Loader) → Option (LoaderRef N)
mastered none = none
mastered (some s) = some (master s)

abbrev pub sharing : {N : Type 0} → Option ℕ → Option (LoaderRef N)
sharing none = none
sharing (some a) = some (shared a)

-- `SpyLoaderInitializer`, in the namespace `lmid`; `of_master` is what the base namespace's copy of
-- `getSpyLoader` gives.
unfoldable pub spy_loader_initializer :
    {N : Type 0} → ℕ → Option ℕ → Option (NamespaceIds N × Loader) → Option (LoaderRef N)
spy_loader_initializer lmid of_master made =
    if lmid == base_id then mastered made else sharing of_master
