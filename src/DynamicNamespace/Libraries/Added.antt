-- ===== src/DynamicNamespace/Libraries/Added.antt =====
-- source/DynamicNamespace.cpp: what `syncModules` adds to the libraries.
use mathlib.Core.Path.{subst}
use spytester.Base.{
  ◌≡◌, ◌⊎◌, inl, inr, refl, sym, ap, ◌∙◌, true, List, [], ◌∷◌, Option, none, some, ◌==◌, ==→eq,
  Bool-cases, if◌then◌else◌, arith,
}
use spytester.Base.Texts.{Text, same_text, same_text→eq, same_text_refl}
use spytester.DynamicNamespace.Libraries.{
  Libraries, lookup, insert, emplace, is_some, emplaced, set_executable, base_name, sync_new,
  sync_one, sync_modules,
}

-- The last part of a link map's name, where that begins with a slash.
abbrev pub IsPathOf : Text → Text → Type 0
IsPathOf j [] = ⊥
IsPathOf j (c ∷ cs) = (c ≡ b'/') × (j ≡ base_name (c ∷ cs))

abbrev pub IsPathIn : Text → List Text → Type 0
IsPathIn j [] = ⊥
IsPathIn j (name ∷ names) = IsPathOf j name ⊎ IsPathIn j names

module _ {D : Type 0} where
  pub lookup-insert :
      (j k : Text) (d : D) (l : List (Text × D))
      → lookup k l ≡ none
      → lookup j (insert k d l) ≡ (if same_text j k then some d else lookup j l)
  unfolding lookup insert
  lookup-insert j k d [] h = refl
  lookup-insert j k d ((i, o) ∷ l) h = ground (
    arith,
    lookup-insert j k d l,
    same_text→eq j k,
    same_text→eq j i,
    same_text_refl j,
    same_text_refl k,
  )

  pub lookup_cases :
      (k : Text) (l : List (Text × D)) → (is_some (lookup k l) ≡ true) ⊎ (lookup k l ≡ none)
  lookup_cases k l = elim (lookup k l) as (λ o. (is_some o ≡ true) ⊎ (o ≡ none)) [
    | none ↦ inr refl
    | some d ↦ inl refl
  ]

module _ {D : Type 0} (open_module : Text → Option D) where
  -- Every module is an old one or has just been opened: a library under a name of P, or the
  -- executable.
  abbrev pub Adds : (Text → Type 0) → Libraries D → Libraries D → Type 0
  Adds P s t =
      ((j : Text) (m : D)
        → lookup j t.dynamic_lib ≡ some m
        → (lookup j s.dynamic_lib ≡ some m) ⊎ (P j × (open_module j ≡ some m)))
      × ((m : D) → t.executable ≡ some m → (s.executable ≡ some m) ⊎ (open_module [] ≡ some m))

  same-Adds : (P : Text → Type 0) (s : Libraries D) → Adds P s s
  same-Adds P s = (λ j m h. inl h, λ m h. inl h)

  emplace_adds :
      (j k : Text) (d m : D) (l : List (Text × D))
      → lookup j (emplace k d l) ≡ some m
      → (lookup j l ≡ some m) ⊎ ((j ≡ k) × (d ≡ m))
  unfolding emplace
  emplace_adds j k d m l h = elim (lookup_cases k l) [
    | inl e ↦ inl (rw e at h)
    | inr e ↦ ground (arith, h, e, lookup-insert j k d l e, same_text→eq j k)
  ]

  emplaced-Adds :
      (name : Text) (k : Text) (o : Option D) (s : Libraries D)
      → open_module k ≡ o
      → IsPathOf k name
      → Adds (λ j. IsPathOf j name) s (emplaced k o s).0
  unfolding emplaced
  emplaced-Adds name k none s e p = same-Adds _ s
  emplaced-Adds name k (some d) s e p = (
    λ j m h. elim (emplace_adds j k d m s.dynamic_lib h) [
      | inl old ↦ inl old
      | inr (same, opened) ↦
          inr (subst (λ i. IsPathOf i name) (sym same) p, ap open_module same ∙ e ∙ ap some opened)
    ],
    λ m h. inl h,
  )

  set_executable-Adds :
      (P : Text → Type 0) (o : Option D) (s : Libraries D)
      → open_module [] ≡ o
      → Adds P s (set_executable o s).0
  set_executable-Adds P none s e = same-Adds P s
  set_executable-Adds P (some d) s e = (λ j m h. inl h, λ m h. inr (e ∙ h))

  sync_new-Adds :
      (name : Text) (s : Libraries D)
      → Adds (λ j. IsPathOf j name) s (sync_new open_module name s).0
  unfolding sync_new
  sync_new-Adds [] s = elim (Bool-cases (is_some s.executable)) [
    | inl e ↦ rw e (same-Adds _ s)
    | inr e ↦ rw e (set_executable-Adds _ (open_module []) s refl)
  ]
  sync_new-Adds (c ∷ cs) s = elim (Bool-cases (c == b'/')) [
    | inl e ↦ rw e (
        emplaced-Adds (c ∷ cs) (base_name (c ∷ cs)) (open_module (base_name (c ∷ cs))) s refl
          (==→eq c b'/' e, refl))
    | inr e ↦ rw e (same-Adds _ s)
  ]

  sync_one-Adds :
      (name : Text) (s : Libraries D)
      → Adds (λ j. IsPathOf j name) s (sync_one open_module name s).0
  unfolding sync_one
  sync_one-Adds name s = elim (Bool-cases (is_some (lookup name s.dynamic_lib))) [
    | inl e ↦ rw e (same-Adds _ s)
    | inr e ↦ rw e (sync_new-Adds name s)
  ]

  then-Adds :
      (name : Text) (names : List Text) (s t u : Libraries D)
      → Adds (λ j. IsPathOf j name) s t
      → Adds (λ j. IsPathIn j names) t u
      → Adds (λ j. IsPathIn j (name ∷ names)) s u
  then-Adds name names s t u one rest = (
    λ j m h. elim (rest.0 j m h) [
      | inr (p, e) ↦ inr (inr p, e)
      | inl old ↦ elim (one.0 j m old) [ inr (p, e) ↦ inr (inl p, e) | inl older ↦ inl older ]
    ],
    λ m h. elim (rest.1 m h) [ inr e ↦ inr e | inl old ↦ one.1 m old ],
  )

  -- Every library after `syncModules` was known before, or is what opening the last part of a link
  -- map's path gave, for a name that begins with a slash; and so the executable, with no name.
  pub sync_modules-Adds :
      (names : List Text) (s : Libraries D)
      → Adds (λ j. IsPathIn j names) s (sync_modules open_module names s).0
  unfolding sync_modules
  sync_modules-Adds [] s = same-Adds _ s
  sync_modules-Adds (name ∷ names) s = elim (Bool-cases (sync_one open_module name s).1) [
    | inl e ↦ rw e (
        then-Adds name names s (sync_one open_module name s).0
          (sync_modules open_module names (sync_one open_module name s).0).0 (sync_one-Adds name s)
          (sync_modules-Adds names (sync_one open_module name s).0))
    | inr e ↦ rw e (
        then-Adds name names s (sync_one open_module name s).0 (sync_one open_module name s).0
          (sync_one-Adds name s) (same-Adds _ (sync_one open_module name s).0))
  ]
