-- ===== src/SpyLoader.antt =====
-- include/SpyLoader.h and source/SpyLoader.cpp: the namespace ids, of which each spied namespace
-- holds one. `_avlNamespaceId` is a std::set and `_usedNamespace` a std::map, both kept in the order
-- of the ids. An id is a natural number, and the -2 that stands for none is its 64-bit pattern.
pub mod Ids
mod Creation
mod Keys
mod Wiring
mod Current
mod Initial
mod Pool
mod Tests
use spytester.Base.{
  ℕ, ◌-◌, ◌^◌, Bool, true, false, List, [], ◌∷◌, ◌++◌, Option, none, some, ltb, ◌==◌, if◌then◌else◌,
}

abbrev pub no_id : ℕ
no_id = 2 ^ 64 - 2

-- The id of the base namespace, LM_ID_BASE.
abbrev pub base_id : ℕ
base_id = 0

-- `std::set::insert`.
unfoldable pub insert : ℕ → List ℕ → List ℕ
insert i [] = i ∷ []
insert i (j ∷ js) =
    let rest = insert i js in if ltb i j then i ∷ j ∷ js else if i == j then j ∷ js else j ∷ rest

module _ {N : Type 0} where
  -- `std::map::emplace`, which keeps an entry that is there, and `extract` with its test for an
  -- empty node.
  unfoldable pub emplace : ℕ → N → List (ℕ × N) → List (ℕ × N)
  emplace i n [] = (i, n) ∷ []
  emplace i n ((j, o) ∷ rest) =
      let later = emplace i n rest in
      if ltb i j then (i, n) ∷ (j, o) ∷ rest else if i == j then (j, o) ∷ rest else (j, o) ∷ later

  unfoldable pub has_key : ℕ → List (ℕ × N) → Bool
  has_key i [] = false
  has_key i ((j, o) ∷ rest) = let later = has_key i rest in if i == j then true else later

  unfoldable pub extract : ℕ → List (ℕ × N) → List (ℕ × N)
  extract i [] = []
  extract i ((j, o) ∷ rest) = let later = extract i rest in if i == j then rest else (j, o) ∷ later

-- The two containers; N is the type of the references to namespaces.
pub record NamespaceIds (N : Type 0) : Type 0 where
  pub avl : List ℕ
  pub used : List (ℕ × N)

module _ {N : Type 0} where
  reserve_from : List ℕ → N → NamespaceIds N → NamespaceIds N × ℕ
  unfolding emplace
  reserve_from [] n s = (s, no_id)
  reserve_from (i ∷ is) n s = (record { avl = is; used = emplace i n s.used }, i)

  -- `extract(begin())` takes the lowest id.
  unfoldable pub reserve_namespace_id : N → NamespaceIds N → NamespaceIds N × ℕ
  unfolding reserve_from
  reserve_namespace_id n s = reserve_from s.avl n s

  unfoldable pub release_namespace_id : ℕ → NamespaceIds N → NamespaceIds N
  release_namespace_id id s =
      if has_key id s.used then record { avl = insert id s.avl; used = extract id s.used } else s

  -- One round of the loop in `createSpiedNamespaces`, with the id of the new link map, or `none`
  -- where dlmopen or dlinfo failed. `ids` are those of the namespaces made so far.
  unfoldable pub open_namespace : N → Option ℕ → NamespaceIds N × List ℕ → NamespaceIds N × List ℕ
  open_namespace n none p = p
  open_namespace n (some id) (s, ids) =
      let (s', got) = reserve_namespace_id n (record s { avl = insert id s.avl }) in
      (s', ids ++ got ∷ [])

  unfoldable pub open_namespaces :
      N → List (Option ℕ) → NamespaceIds N × List ℕ → NamespaceIds N × List ℕ
  open_namespaces n [] p = p
  open_namespaces n (o ∷ os) p = open_namespaces n os (open_namespace n o p)

  -- The destructors of the local list's namespaces.
  unfoldable pub close_namespaces : List ℕ → NamespaceIds N → NamespaceIds N
  close_namespaces [] s = s
  close_namespaces (id ∷ ids) s =
      close_namespaces ids (if id == base_id then s else release_namespace_id id s)

  unfoldable pub all_closed : NamespaceIds N × List ℕ → NamespaceIds N
  unfolding close_namespaces
  all_closed (s, ids) = close_namespaces ids s

  unfoldable pub no_ids : List ℕ → List (ℕ × N) → Bool
  no_ids [] [] = true
  no_ids _ _ = false

  -- `createSpiedNamespaces`, which does nothing on a second call. The namespaces' constructors are
  -- taken to succeed.
  unfoldable pub create_spied_namespaces : N → List (Option ℕ) → NamespaceIds N → NamespaceIds N
  unfolding no_ids
  create_spied_namespaces n os s =
      let made = all_closed (open_namespaces n os (s, [])) in
      if no_ids s.avl s.used then made else s
