-- ===== src/DynamicNamespace/Libraries.antt =====
-- include/DynamicNamespace.h and source/DynamicNamespace.cpp: the libraries that a namespace knows of,
-- by their names, and its executable. The constructor of DynamicModule is a parameter, `none` where
-- it throws; `std::map::emplace` calls it before it looks for the key, as libstdc++ does. The link
-- maps of the namespace are given by their names, in the order of `l_next`.
pub mod Added
pub mod Sync
pub mod Iteration
use spytester.Base.{
  ℕ, suc, Bool, true, false, ◌&&◌, not, List, [], ◌∷◌, Option, none, some, ◌==◌, if◌then◌else◌,
}
use spytester.Base.Texts.{Text, same_text, less_text, drop, find_last_of}

pub record Libraries (D : Type 0) : Type 0 where
  pub executable : Option D
  pub dynamic_lib : List (Text × D)

module _ {D : Type 0} where
  unfoldable pub lookup : Text → List (Text × D) → Option D
  lookup k [] = none
  lookup k ((j, o) ∷ rest) = let later = lookup k rest in if same_text k j then some o else later

  abbrev pub is_some : Option D → Bool
  is_some none = false
  is_some (some d) = true

  -- A new entry, at its place in the order of the keys.
  unfoldable pub insert : Text → D → List (Text × D) → List (Text × D)
  unfolding less_text
  insert k d [] = (k, d) ∷ []
  insert k d ((j, o) ∷ rest) =
      let later = insert k d rest in
      if less_text k j then (k, d) ∷ (j, o) ∷ rest else (j, o) ∷ later

  -- `emplace` keeps an entry that is there.
  unfoldable pub emplace : Text → D → List (Text × D) → List (Text × D)
  unfolding insert lookup
  emplace k d l = if is_some (lookup k l) then l else insert k d l

  unfoldable pub erase : Text → List (Text × D) → List (Text × D)
  erase k [] = []
  erase k ((j, o) ∷ rest) =
      let later = erase k rest in if same_text k j then rest else (j, o) ∷ later

  unfoldable pub unload : Text → Libraries D → Libraries D
  unload name s = record s { dynamic_lib = erase name s.dynamic_lib }

  abbrev pub with_lib : Text → D → Libraries D → Libraries D
  with_lib name d s = record s { dynamic_lib = emplace name d s.dynamic_lib }

  -- What `emplace` gives for a new module, if its constructor did not throw.
  unfoldable pub emplaced : Text → Option D → Libraries D → Libraries D × Bool
  emplaced name none s = (s, false)
  emplaced name (some d) s = (with_lib name d s, true)

  abbrev set_executable : Option D → Libraries D → Libraries D × Bool
  set_executable none s = (s, false)
  set_executable (some d) s = (record s { executable = some d }, true)

-- `path.substr(path.find_last_of('/') + 1)`, the whole path if there is no slash.
abbrev tail_from : Text → Option ℕ → Text
tail_from path none = path
tail_from path (some i) = drop (suc i) path

unfoldable pub base_name : Text → Text
unfolding find_last_of
base_name path = tail_from path (find_last_of b'/' path)

module _ {D : Type 0} (open_module : Text → Option D) where
  unfoldable pub load : Text → Libraries D → Libraries D × Option D
  unfolding emplaced
  load name s =
      let (s', made) = emplaced name (open_module name) s in
      (s', if made then lookup name s'.dynamic_lib else none)

  -- One link map that is not a key of the map. An empty name is that of the executable.
  unfoldable pub sync_new : Text → Libraries D → Libraries D × Bool
  unfolding emplaced base_name
  sync_new [] s = if is_some s.executable then (s, true) else set_executable (open_module []) s
  sync_new (c ∷ cs) s =
      if c == b'/'
      then emplaced (base_name (c ∷ cs)) (open_module (base_name (c ∷ cs))) s
      else (s, true)

  unfoldable pub sync_one : Text → Libraries D → Libraries D × Bool
  unfolding sync_new lookup
  sync_one name s = if is_some (lookup name s.dynamic_lib) then (s, true) else sync_new name s

  -- `syncModules`; an exception ends it.
  unfoldable pub sync_modules : List Text → Libraries D → Libraries D × Bool
  unfolding sync_one
  sync_modules [] s = (s, true)
  sync_modules (name ∷ names) s =
      let (s', ok) = sync_one name s in
      let rest = sync_modules names s' in if ok then rest else (s', false)

-- The loop of `iterateOverModule`, from the result that the last call gave.
unfoldable pub iterate_libs :
    {D : Type 0} {S : Type 0} → (S → D → S × Bool) → List (Text × D) → S × Bool → S × Bool
iterate_libs f [] r = r
iterate_libs f ((name, d) ∷ rest) (s, res) =
    let (s', next) = f s d in
    let later = iterate_libs f rest (s', true) in if next then later else (s', false)

abbrev on_executable :
    {D : Type 0} {S : Type 0} → (S → D → S × Bool) → Option D → S × Bool → S × Bool
on_executable f none r = r
on_executable f (some d) (s, res) = if res then f s d else (s, false)

-- `iterateOverModule`: an exception of `syncModules` ends it.
unfoldable pub iterate_over_module :
    {D : Type 0} {S : Type 0}
    → (Text → Option D)
    → (S → D → S × Bool)
    → S
    → List Text
    → Libraries D
    → Libraries D × Option (S × Bool)
unfolding sync_modules iterate_libs
iterate_over_module open_module f s names l =
    let (l', ok) = sync_modules open_module names l in
    let (s', res) = iterate_libs f l'.dynamic_lib (s, false) in
    (l', if ok then some (on_executable f l'.executable (s', res)) else none)

-- A link map is that of a namespace if it is on the chain.
unfoldable pub is_containing : List ℕ → ℕ → Bool
is_containing [] lm = false
is_containing (l ∷ ls) lm = let rest = is_containing ls lm in if l == lm then true else rest
