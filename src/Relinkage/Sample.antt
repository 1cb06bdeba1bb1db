-- ===== src/Relinkage/Sample.antt =====
-- Test data: an `mprotect`, and the relocations of a module, two of which are redirected.
use spytester.Base.{
  ℕ, ◌+◌, ◌-◌, ◌/◌, ◌≤◌, ◌≡◌, refl, true, false, List, [], ◌∷◌, Option, some, none,
}
use mathlib.Core.Path.{ap, sym}
use spytester.Relinkage.{
  Reloc, Space, Prot, Mprotect, IsMprotect, Rela, read_write, read_only, collect, glob_dat,
  jump_slot,
}

-- An `mprotect` that opens or closes the whole process.
abbrev pub whole : Mprotect
whole s a n read_write = some (record s { writable = λ x. true })
whole s a n read_only = some (record s { writable = λ x. false })

from_some : Space → Option Space → Space
from_some s none = s
from_some s (some t) = t

some_inj : (s t : Space) → some s ≡ some t → s ≡ t
unfolding from_some
some_inj s t e = ap (from_some s) e

pub whole-IsMprotect : IsMprotect 4096 whole
whole-IsMprotect = record { keeps = keeps; grants = grants }
  where
    keeps : (s s' : Space) (a n : ℕ) (p : Prot) → whole s a n p ≡ some s' → s'.words ≡ s.words
    keeps s s' a n read_write e = sym (ap (λ (t : Space). t.words) (some_inj _ s' e))
    keeps s s' a n read_only e = sym (ap (λ (t : Space). t.words) (some_inj _ s' e))

    grants :
        (s s' : Space) (a n x : ℕ)
        → whole s a n read_write ≡ some s'
        → a ≤ x
        → x / 4096 ≤ (a + n - 1) / 4096
        → s'.writable x ≡ true
    grants s s' a n x e lo hi = sym (ap (λ (t : Space). t.writable x) (some_inj _ s' e))

abbrev pub space : Space
space = record { words = λ x. x; writable = λ x. false }

-- Names are lists of characters; every name but the empty one has a definition.
abbrev pub dynamic_symbol : List ℕ → ℕ
dynamic_symbol [] = 0
dynamic_symbol (c ∷ cs) = 0x7000 + c

abbrev pub relas : List Rela
relas =
    record { type = jump_slot; name = 1 ∷ []; addr = 0x3018 }
    ∷ record { type = 1; name = 2 ∷ []; addr = 0x3020 }
    ∷ record { type = glob_dat; name = []; addr = 0x3028 }
    ∷ record { type = glob_dat; name = 4 ∷ []; addr = 0x3030 }
    ∷ []

abbrev pub collected : List Reloc
collected = record { addr = 0x3018; value = 0x7001 } ∷ record { addr = 0x3030; value = 0x7004 } ∷ []

pub collect_two : collect dynamic_symbol relas ≡ collected
unfolding collect
collect_two = refl
