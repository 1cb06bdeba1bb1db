-- ===== src/Relinkage/Range.antt =====
-- source/Relinkage.cpp: the range of addresses that the first loop of `writeRelocations` finds.
use spytester.Base.{
  ℕ, ◌-◌, ◌^◌, ◌≤◌, ◌<◌, ◌≡◌, refl, List, [], ◌∷◌, some, ltb, lt→ltb, ge→ltb, if◌then◌else◌, arith,
}
use spytester.Relinkage.{Reloc, Space, Mprotect, scan, write_relocations}

-- Addresses that grow along the list, from above a bound, or fall, from below one.
abbrev pub Ascends : ℕ → List Reloc → Type 0
Ascends a [] = Unit {0}
Ascends a (r ∷ rs) = (a < r.addr) × Ascends r.addr rs

abbrev pub Descends : ℕ → List Reloc → Type 0
Descends a [] = Unit {0}
Descends a (r ∷ rs) = (r.addr < a) × Descends r.addr rs

abbrev pub last_addr : ℕ → List Reloc → ℕ
last_addr a [] = a
last_addr a (r ∷ rs) = last_addr r.addr rs

-- The lowest address of the relocations, below a bound.
abbrev pub lowest : ℕ → List Reloc → ℕ
lowest lo [] = lo
lowest lo (r ∷ rs) = lowest (if ltb r.addr lo then r.addr else lo) rs

pub scan-lowest : (rs : List Reloc) (lo hi : ℕ) → (scan rs lo hi).0 ≡ lowest lo rs
unfolding scan
scan-lowest [] lo hi = refl
scan-lowest (r ∷ rs) lo hi = scan-lowest rs _ _

pub scan-ascending :
    (rs : List Reloc) (lo b hi : ℕ) → lo ≤ b → Ascends b rs → scan rs lo hi ≡ (lo, last_addr hi rs)
unfolding scan
scan-ascending [] lo b hi h a = refl
scan-ascending (r ∷ rs) lo b hi h a =
    rw (ge→ltb r.addr lo (omega arith), lt→ltb lo r.addr (omega arith))
      (scan-ascending rs lo r.addr r.addr (omega arith) a.1)

pub scan-descending :
    (rs : List Reloc) (lo hi : ℕ) → Descends lo rs → scan rs lo hi ≡ (last_addr lo rs, hi)
unfolding scan
scan-descending [] lo hi d = refl
scan-descending (r ∷ rs) lo hi d =
    rw (lt→ltb r.addr lo d.0, ge→ltb r.addr r.addr (omega arith)) (scan-descending rs r.addr hi d.1)

-- Relocations in falling order of their addresses, a single one among them, are not written: no
-- word, no protection and no saved value changes.
pub write_relocations-descending :
    (page : ℕ) (mprotect : Mprotect) (rs : List Reloc) (s : Space)
    → Descends (2 ^ 64 - 1) rs
    → write_relocations page mprotect rs s ≡ some (rs, s)
unfolding write_relocations
write_relocations-descending page mprotect rs s d =
    rw (scan-descending rs (2 ^ 64 - 1) 0 d)
      (rw (ge→ltb (last_addr (2 ^ 64 - 1) rs) 0 (omega arith)))
