-- ===== src/SpyLoader/Current.antt =====
-- source/SpyLoader.cpp: the namespace that a call comes from. The link map of the calling code is what
-- dladdr1 gives, `none` where it fails; `chain` is the chain of a namespace's link maps.
use spytester.Base.{
  ℕ, ◌<◌, ◌≡◌, refl, inl, inr, List, [], ◌∷◌, Option, none, some, ltb, ◌==◌, Bool-cases, find_if,
  if◌then◌else◌, arith,
}
use spytester.Base.Counts.{count}
use spytester.DynamicNamespace.Libraries.{is_containing}

is_containing-count : (ls : List ℕ) (lm : ℕ) → is_containing ls lm ≡ ltb 0 (count lm ls)
unfolding is_containing
is_containing-count [] lm = refl
is_containing-count (l ∷ ls) lm = elim (Bool-cases (l == lm)) [
  | inl e ↦ ground (arith, e)
  | inr e ↦ ground (arith, e, is_containing-count ls lm)
]

module _ {N : Type 0} (chain : N → List ℕ) where
  abbrev pub namespace_of : Option (ℕ × N) → Option N
  namespace_of none = none
  namespace_of (some (id, n)) = some n

  unfoldable pub get_current_namespace : Option ℕ → N → List (ℕ × N) → Option N
  unfolding find_if is_containing
  get_current_namespace none base used = none
  get_current_namespace (some lm) base used =
      if is_containing (chain base) lm
      then some base
      else namespace_of (find_if (λ p. is_containing (chain p.1) lm) used)

  -- The link map is on none of the chains.
  abbrev IsNowhere : ℕ → List (ℕ × N) → Type 0
  IsNowhere lm [] = Unit {0}
  IsNowhere lm ((id, n) ∷ used) = (count lm (chain n) ≡ 0) × IsNowhere lm used

  abbrev IsFound : ℕ → N → List (ℕ × N) → Option N → Type 0
  IsFound lm base used none = (count lm (chain base) ≡ 0) × IsNowhere lm used
  IsFound lm base used (some n) = 0 < count lm (chain n)

  find_used :
      (lm : ℕ) (base : N) (used : List (ℕ × N))
      → count lm (chain base) ≡ 0
      → IsFound lm base used (namespace_of (find_if (λ p. is_containing (chain p.1) lm) used))
  unfolding find_if
  find_used lm base [] h = (h, tt)
  find_used lm base ((id, n) ∷ used) h = elim (Bool-cases (is_containing (chain n) lm)) [
    | inl e ↦ rw e (ground (arith, e, is_containing-count (chain n) lm))
    | inr e ↦
        rw e
          (more _ (ground (arith, e, is_containing-count (chain n) lm)) (find_used lm base used h))
  ]
    where
      more :
          (r : Option N)
          → count lm (chain n) ≡ 0
          → IsFound lm base used r
          → IsFound lm base ((id, n) ∷ used) r
      more none z (b, u) = (b, (z, u))
      more (some m) z f = f

  -- With the link map of the calling code, `getCurrentNamespace` gives a namespace whose chain has it,
  -- and the null pointer only if neither the base namespace's chain nor any of the namespaces' in use
  -- does.
  get_current_namespace-IsFound :
      (lm : ℕ) (base : N) (used : List (ℕ × N))
      → IsFound lm base used (get_current_namespace (some lm) base used)
  unfolding get_current_namespace
  get_current_namespace-IsFound lm base used = elim (Bool-cases (is_containing (chain base) lm)) [
    | inl e ↦ rw e (ground (arith, e, is_containing-count (chain base) lm))
    | inr e ↦ rw e (find_used lm base used (ground (arith, e, is_containing-count (chain base) lm)))
  ]
