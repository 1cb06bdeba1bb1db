-- ===== src/Relinkage/Redirect.antt =====
-- source/Relinkage.cpp: a relinkage and its invalidation.
use mathlib.Core.Path.{subst}
use native.Mathlib.Nat.{le-div_iff_mul-le, div-mul-le_self, le_trans}
use spytester.Base.{
  ℕ, ◌+◌, ◌-◌, ◌/◌, ◌%◌, ◌^◌, ◌≤◌, ◌<◌, ◌≡◌, refl, sym, ap, ◌∙◌, true, false, List, [], ◌∷◌, Option,
  none, some, ltb, lt→ltb, ge→ltb, arith,
}
use spytester.Relinkage.{
  Reloc, Space, Mprotect, IsMprotect, Relinkage, Rela, read_write, read_only, scan, update,
  swap_all, protect_again, exchange, write_relocations, collect, relink, invalidate,
}
use spytester.Relinkage.Range.{Ascends, last_addr, scan-ascending}
use spytester.Relinkage.Swap.{swap, swap_twice, swap_outside, Fresh, DistinctAddrs}
use spytester.Relinkage.Installing.{
  AllWritable, Ascends-Fresh, Installed, swap_all_lem, writable_between, Ascends-Distinct,
  swap-Ascends, swap-last_addr, swap-Installed, last_addr-ge,
}

div_mono : (x y page : ℕ) → 0 < page → x ≤ y → x / page ≤ y / page
div_mono x y page pos h = (le-div_iff_mul-le pos).1 (le_trans (div-mul-le_self x page) h)

-- At least two relocations, in growing order of their addresses, of which the last is not the first
-- word of its page.
abbrev pub IsSpread : ℕ → List Reloc → Type 0
IsSpread page [] = ⊥
IsSpread page (r ∷ []) = ⊥
IsSpread page (r ∷ q ∷ rs) =
    (r.addr < 2 ^ 64 - 1)
    × Ascends r.addr (q ∷ rs)
    × (last_addr q.addr rs / page ≡ (last_addr q.addr rs - 1) / page)

scan_first :
    (r : Reloc) (rs : List Reloc)
    → r.addr < 2 ^ 64 - 1
    → scan (r ∷ rs) (2 ^ 64 - 1) 0 ≡ scan rs r.addr 0
unfolding scan
scan_first r rs h = rw (lt→ltb r.addr (2 ^ 64 - 1) h) (rw (ge→ltb r.addr r.addr (omega arith)))

module _ (page : ℕ) (mprotect : Mprotect) (pos : 0 < page) (law : IsMprotect page mprotect)
    (grants : (s : Space) (a n : ℕ) → (s' : Space) × (mprotect s a n read_write ≡ some s')) where
  protect_again-words :
      (base len : ℕ) (rs : List Reloc) (s : Space)
      → (s' : Space) × (protect_again page mprotect base len (some (rs, s)) ≡ some (rs, s'))
        × (s'.words ≡ s.words)
  unfolding protect_again
  protect_again-words base len rs s = go (mprotect s base len read_only) refl
    where
      go :
          (o : Option Space)
          → mprotect s base len read_only ≡ o
          → (s' : Space) × (protect_again page mprotect base len (some (rs, s)) ≡ some (rs, s'))
            × (s'.words ≡ s.words)
      go none e = (s, rw e, refl)
      go (some t) e = (t, rw e, law.keeps s t base len read_only e)

  scan_spread :
      (r q : Reloc) (rs : List Reloc)
      → IsSpread page (r ∷ q ∷ rs)
      → scan (r ∷ q ∷ rs) (2 ^ 64 - 1) 0 ≡ (r.addr, last_addr q.addr rs)
  scan_spread r q rs h =
      scan_first r (q ∷ rs) h.0 ∙ scan-ascending (q ∷ rs) r.addr r.addr 0 (omega arith) h.1

  -- With the range made writable, every relocation is.
  spread_writable :
      (r q : Reloc) (rs : List Reloc) (s s1 : Space) (base : ℕ)
      → IsSpread page (r ∷ q ∷ rs)
      → base ≤ r.addr
      → mprotect s base (last_addr q.addr rs - base) read_write ≡ some s1
      → AllWritable s1.writable (r ∷ q ∷ rs)
  spread_writable r q rs s s1 base h lo e = (
    at r.addr lo (omega (arith, h.1.0, last_addr-ge rs q.addr h.1.1)),
    writable_between s1.writable (q ∷ rs) r.addr hi h.1 (omega arith)
        (λ x l u. at x (omega arith) u),
  )
    where
      hi : ℕ
      hi = last_addr q.addr rs

      whole : base + (hi - base) - 1 ≡ hi - 1
      whole = omega (arith, h.1.0, last_addr-ge rs q.addr h.1.1)

      at : (x : ℕ) → base ≤ x → x ≤ hi → s1.writable x ≡ true
      at x l u =
          law.grants s s1 base (hi - base) x e l
            (rw whole (omega (arith, div_mono x hi page pos u, h.2)))

  -- The whole of `writeRelocations` on such relocations is the exchange.
  write_relocations-swap :
      (rs : List Reloc) (s : Space)
      → IsSpread page rs
      → (s' : Space) × (write_relocations page mprotect rs s ≡ some ((swap rs s.words).0, s'))
        × (s'.words ≡ (swap rs s.words).1)
  unfolding write_relocations exchange
  write_relocations-swap [] s h = absurd h
  write_relocations-swap (r ∷ []) s h = absurd h
  write_relocations-swap (r ∷ q ∷ rs) s h = (
    p.0,
    begin ∙ p.1 ∙ ap (λ (m : ℕ → ℕ). some ((swap all m).0, p.0)) kept,
    p.2 ∙ ap (λ (m : ℕ → ℕ). (swap all m).1) kept,
  )
    where
      all : List Reloc
      all = r ∷ q ∷ rs

      hi : ℕ
      hi = last_addr q.addr rs

      base : ℕ
      base = r.addr - r.addr % page

      below : ltb r.addr hi ≡ true
      below = lt→ltb r.addr hi (omega (arith, h.1.0, last_addr-ge rs q.addr h.1.1))

      g : (s1 : Space) × (mprotect s base (hi - base) read_write ≡ some s1)
      g = grants s base (hi - base)

      kept : g.0.words ≡ s.words
      kept = law.keeps s g.0 base (hi - base) read_write g.1

      swapped :
          swap_all all g.0
          ≡ some ((swap all g.0.words).0, record g.0 { words = (swap all g.0.words).1 })
      swapped = swap_all_lem all g.0 (spread_writable r q rs s g.0 base h (omega arith) g.1)

      done : Space
      done = record g.0 { words = (swap all g.0.words).1 }

      p :
          (s' : Space) × (protect_again page mprotect base
              (hi - base)
              (some ((swap all g.0.words).0, done))
            ≡ some ((swap all g.0.words).0, s'))
          × (s'.words ≡ done.words)
      p = protect_again-words base (hi - base) (swap all g.0.words).0 done

      begin :
          write_relocations page mprotect all s
          ≡ protect_again page mprotect base (hi - base) (some ((swap all g.0.words).0, done))
      begin =
          rw (scan_spread r q rs h)
            (rw below (rw g.1 (ap (protect_again page mprotect base (hi - base)) swapped)))

  swap-IsSpread : (rs : List Reloc) (m : ℕ → ℕ) → IsSpread page rs → IsSpread page (swap rs m).0
  unfolding swap
  swap-IsSpread [] m h = absurd h
  swap-IsSpread (r ∷ []) m h = absurd h
  swap-IsSpread (r ∷ q ∷ rs) m h = (
    h.0,
    (h.1.0, swap-Ascends rs _ q.addr h.1.1),
    rw (swap-last_addr rs (update (update m r.addr r.value) q.addr q.value) q.addr) h.2,
  )

  IsSpread-Distinct : (rs : List Reloc) → IsSpread page rs → DistinctAddrs rs
  IsSpread-Distinct [] h = absurd h
  IsSpread-Distinct (r ∷ []) h = absurd h
  IsSpread-Distinct (r ∷ q ∷ rs) h =
      (Ascends-Fresh (q ∷ rs) r.addr r.addr (omega arith) h.1, Ascends-Distinct (q ∷ rs) r.addr h.1)

  -- For a page size above 0, at least two relocations in growing order of their addresses, of which
  -- the last is not the first word of its page, and an `mprotect` that grants every request to write,
  -- makes the pages of the range writable and changes no word: the constructor of a relinkage ends,
  -- stores the address that the destination gives for each symbol at the symbol's relocation, and
  -- changes no other word; and when the relinkage is invalidated, every word is again what it was
  -- before.
  pub relink-invalidate :
      (dynamic_symbol : List ℕ → ℕ) (relas : List Rela) (s : Space)
      → IsSpread page (collect dynamic_symbol relas)
      → (r1 : Relinkage) × (s1 : Space) × (relink page mprotect dynamic_symbol relas s
          ≡ some (r1, s1))
        × Installed (collect dynamic_symbol relas) s1.words
        × ((x : ℕ) → Fresh x (collect dynamic_symbol relas) → s1.words x ≡ s.words x)
        × (r2 : Relinkage) × (s2 : Space) × (invalidate page mprotect r1 s1 ≡ some (r2, s2))
        × (s2.words ≡ s.words)
        × (r2.validity ≡ false)
  unfolding relink invalidate
  relink-invalidate dynamic_symbol relas s h = (
    record { validity = true; relocations = (swap rs s.words).0 },
    a.0,
    rw a.1,
    subst (Installed rs) (sym a.2) (swap-Installed rs s.words (IsSpread-Distinct rs h)),
    (λ x f. ap (λ (m : ℕ → ℕ). m x) a.2 ∙ swap_outside rs s.words x f),
    record { validity = false; relocations = (swap (swap rs s.words).0 a.0.words).0 },
    b.0,
    rw b.1,
    b.2
        ∙ ap (λ (m : ℕ → ℕ). (swap (swap rs s.words).0 m).1) a.2
        ∙ ap (λ p. p.1) (swap_twice rs s.words (IsSpread-Distinct rs h)),
    refl,
  )
    where
      rs : List Reloc
      rs = collect dynamic_symbol relas

      a :
          (s' : Space) × (write_relocations page mprotect rs s ≡ some ((swap rs s.words).0, s'))
          × (s'.words ≡ (swap rs s.words).1)
      a = write_relocations-swap rs s h

      b :
          (s' : Space) × (write_relocations page mprotect (swap rs s.words).0 a.0
            ≡ some ((swap (swap rs s.words).0 a.0.words).0, s'))
          × (s'.words ≡ (swap (swap rs s.words).0 a.0.words).1)
      b = write_relocations-swap (swap rs s.words).0 a.0 (swap-IsSpread rs s.words h)
