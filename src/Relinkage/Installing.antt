-- ===== src/Relinkage/Installing.antt =====
-- source/Relinkage.cpp: the exchange of words on relocations in growing order.
use spytester.Base.{ℕ, ◌≤◌, ◌≡◌, refl, ap, ◌∙◌, Bool, true, List, [], ◌∷◌, some, ==_refl, arith}
use spytester.Relinkage.{Reloc, Space, update, after_swap, swap_all}
use spytester.Relinkage.Range.{Ascends, last_addr}
use spytester.Relinkage.Swap.{swap, swap_outside, Fresh, DistinctAddrs}

abbrev pub AllWritable : (ℕ → Bool) → List Reloc → Type 0
AllWritable writable [] = Unit {0}
AllWritable writable (r ∷ rs) = (writable r.addr ≡ true) × AllWritable writable rs

-- What is stored at each relocation.
abbrev pub Installed : List Reloc → (ℕ → ℕ) → Type 0
Installed [] m = Unit {0}
Installed (r ∷ rs) m = (m r.addr ≡ r.value) × Installed rs m

pub swap_all_lem :
    (rs : List Reloc) (s : Space)
    → AllWritable s.writable rs
    → swap_all rs s ≡ some ((swap rs s.words).0, record s { words = (swap rs s.words).1 })
unfolding swap_all swap
swap_all_lem [] s w = refl
swap_all_lem (r ∷ rs) s w = rw w.0 (
    ap (after_swap (record r { value = s.words r.addr }))
      (swap_all_lem rs (record s { words = update s.words r.addr r.value }) w.1))

pub last_addr-ge : (rs : List Reloc) (b : ℕ) → Ascends b rs → b ≤ last_addr b rs
last_addr-ge [] b a = omega arith
last_addr-ge (r ∷ rs) b a = omega (arith, last_addr-ge rs r.addr a.1)

pub writable_between :
    (writable : ℕ → Bool) (rs : List Reloc) (b hi : ℕ)
    → Ascends b rs
    → last_addr b rs ≤ hi
    → ((x : ℕ) → b ≤ x → x ≤ hi → writable x ≡ true)
    → AllWritable writable rs
writable_between writable [] b hi a l w = tt
writable_between writable (r ∷ rs) b hi a l w = (
  w r.addr (omega arith) (omega (arith, last_addr-ge rs r.addr a.1)),
  writable_between writable rs r.addr hi a.1 l (λ x lo up. w x (omega arith) up),
)

pub Ascends-Fresh : (rs : List Reloc) (x b : ℕ) → x ≤ b → Ascends b rs → Fresh x rs
Ascends-Fresh [] x b h a = tt
Ascends-Fresh (r ∷ rs) x b h a = (omega arith, Ascends-Fresh rs x r.addr (omega arith) a.1)

pub Ascends-Distinct : (rs : List Reloc) (b : ℕ) → Ascends b rs → DistinctAddrs rs
Ascends-Distinct [] b a = tt
Ascends-Distinct (r ∷ rs) b a =
    (Ascends-Fresh rs r.addr r.addr (omega arith) a.1, Ascends-Distinct rs r.addr a.1)

pub swap-Ascends : (rs : List Reloc) (m : ℕ → ℕ) (b : ℕ) → Ascends b rs → Ascends b (swap rs m).0
unfolding swap
swap-Ascends [] m b a = tt
swap-Ascends (r ∷ rs) m b a = (a.0, swap-Ascends rs (update m r.addr r.value) r.addr a.1)

pub swap-last_addr :
    (rs : List Reloc) (m : ℕ → ℕ) (b : ℕ) → last_addr b (swap rs m).0 ≡ last_addr b rs
unfolding swap
swap-last_addr [] m b = refl
swap-last_addr (r ∷ rs) m b = swap-last_addr rs (update m r.addr r.value) r.addr

pub swap-Installed : (rs : List Reloc) (m : ℕ → ℕ) → DistinctAddrs rs → Installed rs (swap rs m).1
unfolding swap
swap-Installed [] m d = tt
swap-Installed (r ∷ rs) m d = (
  swap_outside rs (update m r.addr r.value) r.addr d.0 ∙ rw (==_refl r.addr),
  swap-Installed rs (update m r.addr r.value) d.1,
)
