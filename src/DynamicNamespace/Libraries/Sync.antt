-- ===== src/DynamicNamespace/Libraries/Sync.antt =====
-- source/DynamicNamespace.cpp: the libraries after `syncModules`.
use spytester.Base.{◌≡◌, ◌≢◌, ◌⊎◌, Bool, true, false, List, [], ◌∷◌, Option, none, some}
use spytester.Base.Texts.{Text}
use spytester.DynamicNamespace.Libraries.{Libraries, lookup, is_some, base_name}

module _ {D : Type 0} where
  -- Nothing that is known is lost or replaced.
  abbrev pub Keeps : Libraries D → Libraries D → Type 0
  Keeps s t =
      ((j : Text) (m : D) → lookup j s.dynamic_lib ≡ some m → lookup j t.dynamic_lib ≡ some m)
      × ((m : D) → s.executable ≡ some m → t.executable ≡ some m)

  -- A link map's module is known: by its name, as the executable if the name is empty, or by the last
  -- part of its path. A name that is not empty and begins with another character asks for nothing.
  abbrev pub IsCovered : Libraries D → Text → Type 0
  IsCovered s [] = (is_some (lookup [] s.dynamic_lib) ≡ true) ⊎ (is_some s.executable ≡ true)
  IsCovered s (c ∷ cs) =
      (is_some (lookup (c ∷ cs) s.dynamic_lib) ≡ true)
      ⊎ ((c ≢ b'/') ⊎ (is_some (lookup (base_name (c ∷ cs)) s.dynamic_lib) ≡ true))

  abbrev pub AllCovered : Libraries D → List Text → Type 0
  AllCovered s [] = Unit {0}
  AllCovered s (name ∷ names) = IsCovered s name × AllCovered s names

module _ {D : Type 0} (open_module : Text → Option D) where
  -- How a step, or the whole loop, ends.
  abbrev pub Synced : (Libraries D → Type 0) → Libraries D → Libraries D × Bool → Type 0
  Synced Covers s (t, ok) =
      Keeps s t × (((ok ≡ true) × Covers t) ⊎ ((ok ≡ false) × (k : Text) × (open_module k ≡ none)))
