-- ===== src/Relinkage/Swap.antt =====
-- source/Relinkage.cpp: the exchange of the values of relocations with the words they stand for.
use spytester.Base.{
  ℕ, ◌≡◌, ◌≢◌, refl, sym, ap, ◌∙◌, List, [], ◌∷◌, ◌==◌, ==→eq, ==_refl, Bool-cases, inl, inr,
  if◌then◌else◌, arith,
}
use mathlib.Core.Path.{fun_ext, ap₂}
use spytester.Relinkage.{Reloc, update}

-- The exchange over words that can all be written.
unfoldable pub swap : List Reloc → (ℕ → ℕ) → List Reloc × (ℕ → ℕ)
swap [] m = ([], m)
swap (r ∷ rs) m =
    let (rs', m') = swap rs (update m r.addr r.value) in (record r { value = m r.addr } ∷ rs', m')

abbrev pub Fresh : ℕ → List Reloc → Type 0
Fresh a [] = Unit {0}
Fresh a (r ∷ rs) = (a ≢ r.addr) × Fresh a rs

abbrev pub DistinctAddrs : List Reloc → Type 0
DistinctAddrs [] = Unit {0}
DistinctAddrs (r ∷ rs) = Fresh r.addr rs × DistinctAddrs rs

update_swap :
    (m : ℕ → ℕ) (a v b w : ℕ) → a ≢ b → update (update m a v) b w ≡ update (update m b w) a v
update_swap m a v b w ne = fun_ext λ x. ground arith

update_same : (m : ℕ → ℕ) (a v w : ℕ) → update (update m a v) a w ≡ update m a w
update_same m a v w = fun_ext λ x. ground arith

update_self : (m : ℕ → ℕ) (a : ℕ) → update m a (m a) ≡ m
update_self m a = fun_ext λ x. at x
  where
    at : (x : ℕ) → (if x == a then m a else m x) ≡ m x
    at x = elim (Bool-cases (x == a)) [ inl e ↦ rw e (ap m (sym (==→eq x a e))) | inr e ↦ rw e ]

-- What the exchange of the first relocation adds to that of the others.
abbrev put : Reloc → ℕ → List Reloc × (ℕ → ℕ) → List Reloc × (ℕ → ℕ)
put r old (rs, m) = (record r { value = old } ∷ rs, m)

-- A word that no relocation stands for is left alone, and can be changed before or after.
pub swap-update :
    (rs : List Reloc) (m : ℕ → ℕ) (a v : ℕ)
    → Fresh a rs
    → swap rs (update m a v) ≡ ((swap rs m).0, update (swap rs m).1 a v)
unfolding swap
swap-update [] m a v f = refl
swap-update (r ∷ rs) m a v f = ap₂ (put r) unread (
    ap (swap rs) (update_swap m a v r.addr r.value f.0)
    ∙ swap-update rs (update m r.addr r.value) a v f.1)
  where
    unread : update m a v r.addr ≡ m r.addr
    unread = ground arith

pub swap_outside : (rs : List Reloc) (m : ℕ → ℕ) (a : ℕ) → Fresh a rs → (swap rs m).1 a ≡ m a
unfolding swap
swap_outside [] m a f = refl
swap_outside (r ∷ rs) m a f = ground (arith, swap_outside rs (update m r.addr r.value) a f.1)

pub swap_addrs : (rs : List Reloc) (m : ℕ → ℕ) (a : ℕ) → Fresh a rs → Fresh a (swap rs m).0
unfolding swap
swap_addrs [] m a f = tt
swap_addrs (r ∷ rs) m a f = (f.0, swap_addrs rs (update m r.addr r.value) a f.1)

-- Exchanging twice gives back the relocations and the words, if no address stands twice.
pub swap_twice :
    (rs : List Reloc) (m : ℕ → ℕ) → DistinctAddrs rs → swap (swap rs m).0 (swap rs m).1 ≡ (rs, m)
unfolding swap
swap_twice [] m d = refl
swap_twice (r ∷ rs) m d =
    ap₂ (put r) held
      (again ∙ ap restored (swap_twice rs (update m r.addr r.value) d.1) ∙ ap (λ l. (rs, l)) back)
  where
    m1 : ℕ → ℕ
    m1 = update m r.addr r.value

    restored : List Reloc × (ℕ → ℕ) → List Reloc × (ℕ → ℕ)
    restored (l, w) = (l, update w r.addr (m r.addr))

    held : (swap rs m1).1 r.addr ≡ r.value
    held = swap_outside rs m1 r.addr d.0 ∙ rw (==_refl r.addr)

    again :
        swap (swap rs m1).0 (update (swap rs m1).1 r.addr (m r.addr))
        ≡ restored (swap (swap rs m1).0 (swap rs m1).1)
    again =
        swap-update (swap rs m1).0 (swap rs m1).1 r.addr (m r.addr) (swap_addrs rs m1 r.addr d.0)

    back : update m1 r.addr (m r.addr) ≡ m
    back = update_same m r.addr r.value (m r.addr) ∙ update_self m r.addr
