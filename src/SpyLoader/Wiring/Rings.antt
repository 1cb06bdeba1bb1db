-- ===== src/SpyLoader/Wiring/Rings.antt =====
-- source/SpyLoader.cpp: the list heads and the words of `_rtld_global` under one repair.
use spytester.Base.{
  ℕ, zero, suc, ◌≡◌, ◌⊎◌, refl, ap, ◌∙◌, Bool, true, false, List, [], ◌∷◌, Option, none, some, ◌==◌,
  ==→eq, ==_refl, get_elem?, if◌then◌else◌, arith,
}
use spytester.SpyLoader.Wiring.{set_word, one_on, index_of, repaired}

pub set_word_there :
    (i v w : ℕ) (ws : List ℕ) → get_elem? ws i ≡ some w → get_elem? (set_word i v ws) i ≡ some v
set_word_there i v w [] h = absurd (ground (arith, h))
set_word_there zero v w (x ∷ ws) h = refl
set_word_there (suc i) v w (x ∷ ws) h = set_word_there i v w ws h

pub index_of_there : (v i : ℕ) (ws : List ℕ) → index_of v ws ≡ some i → get_elem? ws i ≡ some v
unfolding index_of
index_of_there v i [] h = absurd (ground (arith, h))
index_of_there v i (w ∷ ws) h =
    from (w == v) (index_of v ws) (λ j. index_of_there v j ws) i refl refl h
  where
    from :
        (b : Bool) (o : Option ℕ)
        → ((j : ℕ) → index_of v ws ≡ some j → get_elem? ws j ≡ some v)
        → (j : ℕ) → (w == v) ≡ b
        → index_of v ws ≡ o
        → (if b then some 0 else one_on o) ≡ some j
        → get_elem? (w ∷ ws) j ≡ some v
    from true o f zero e p q = ap some (==→eq w v e)
    from true o f (suc j) e p q = absurd (ground (arith, q))
    from false none f j e p q = absurd (ground (arith, q))
    from false (some i') f zero e p q = absurd (ground (arith, q))
    from false (some i') f (suc j) e p q = f j (p ∙ ground (arith, q))

-- A ring of two heads.
abbrev pub IsRing : (ℕ → ℕ) → ℕ → ℕ → Type 0
IsRing link a b = (link a ≡ b) × (link b ≡ a)

pub repaired-IsRing : (stack a b : ℕ) (link : ℕ → ℕ) → IsRing (repaired stack a b link) a b
repaired-IsRing stack a b link = ground (arith, ==_refl a, ==_refl b)

-- A head that is linked to itself, unless it is one of the base namespace's.
abbrev pub IsEmptied : (ℕ → ℕ) → ℕ → ℕ → ℕ → Type 0
IsEmptied link a b k = (k ≡ a) ⊎ ((k ≡ b) ⊎ (link k ≡ k))

pub repaired-IsEmptied :
    (stack a b k : ℕ) (link : ℕ → ℕ)
    → IsEmptied link a b k
    → IsEmptied (repaired stack a b link) a b k
repaired-IsEmptied stack a b k link h = ground (arith, h)

pub repaired-own : (stack a b : ℕ) (link : ℕ → ℕ) → IsEmptied (repaired stack a b link) a b stack
repaired-own stack a b link = ground (arith, ==_refl stack)
