-- ===== src/Relinkage.antt =====
-- include/Relinkage.h and source/Relinkage.cpp: the relocations of one module that are redirected to
-- another, and put back when the relinkage is invalidated. A relocation is one aligned word. The
-- system's `mprotect` is a parameter.
mod Range
mod Swap
pub mod Installing
pub mod Redirect
pub mod Sample
mod Tests
use spytester.Base.{
  ℕ, ◌-◌, ◌%◌, ◌/◌, ◌^◌, ◌+◌, ◌≤◌, ◌≡◌, Bool, true, false, ◌||◌, ◌&&◌, not, List, [], ◌∷◌, ◌++◌,
  Option, none, some, ltb, ◌==◌, if◌then◌else◌,
}

-- A pair of `_relocations`: where, and what to store there next.
pub record Reloc : Type 0 where
  pub addr : ℕ
  pub value : ℕ

-- The words of the process, and the addresses that may be written.
pub record Space : Type 0 where
  pub words : ℕ → ℕ
  pub writable : ℕ → Bool

pub data Prot : Type 0 where
  read_write read_only : Prot

-- `mprotect` on an address, a length and a protection; `none` is a failure.
abbrev pub Mprotect : Type 0
Mprotect = Space → ℕ → ℕ → Prot → Option Space

-- What is relied on: on success no word changes, and every page that meets the range can be written
-- if that was asked for.
pub record IsMprotect (page : ℕ) (mprotect : Mprotect) : Type 0 where
  pub keeps : (s s' : Space) (a n : ℕ) (p : Prot) → mprotect s a n p ≡ some s' → s'.words ≡ s.words
  pub grants :
      (s s' : Space) (a n x : ℕ)
      → mprotect s a n read_write ≡ some s'
      → a ≤ x
      → x / page ≤ (a + n - 1) / page
      → s'.writable x ≡ true

-- The first loop of `writeRelocations`. The second test of the source compares with the lowest
-- address, not with the highest.
unfoldable pub scan : List Reloc → ℕ → ℕ → ℕ × ℕ
scan [] lo hi = (lo, hi)
scan (r ∷ rs) lo hi =
    let lo' = if ltb r.addr lo then r.addr else lo in
    scan rs lo' (if ltb lo' r.addr then r.addr else hi)

abbrev pub update : (ℕ → ℕ) → ℕ → ℕ → ℕ → ℕ
update m a v x = if x == a then v else m x

-- The second loop: each relocation exchanges its value with the word. A store to an address that
-- may not be written kills the process: `none`.
unfoldable pub after_swap : Reloc → Option (List Reloc × Space) → Option (List Reloc × Space)
after_swap r none = none
after_swap r (some (rs, s)) = some (r ∷ rs, s)

unfoldable pub swap_all : List Reloc → Space → Option (List Reloc × Space)
unfolding after_swap
swap_all [] s = some ([], s)
swap_all (r ∷ rs) s =
    let rest = swap_all rs (record s { words = update s.words r.addr r.value }) in
    if s.writable r.addr then after_swap (record r { value = s.words r.addr }) rest else none

abbrev pub or_same : Space → Option Space → Space
or_same s none = s
or_same s (some s') = s'

module _ (page : ℕ) (mprotect : Mprotect) where
  -- A failure of the second `mprotect` is only logged.
  unfoldable pub protect_again : ℕ → ℕ → Option (List Reloc × Space) → Option (List Reloc × Space)
  protect_again base len none = none
  protect_again base len (some (rs, s)) = some (rs, or_same s (mprotect s base len read_only))

  -- After the first `mprotect`, whose failure ends the call.
  unfoldable pub exchange : ℕ → ℕ → List Reloc → Space → Option Space → Option (List Reloc × Space)
  exchange base len rs s none = some (rs, s)
  exchange base len rs s (some s1) = protect_again base len (swap_all rs s1)

  unfoldable pub write_relocations : List Reloc → Space → Option (List Reloc × Space)
  write_relocations rs s =
      let (lo, hi) = scan rs (2 ^ 64 - 1) 0 in
      let base = lo - lo % page in
      if ltb lo hi
      then exchange base (hi - base) rs s (mprotect s base (hi - base) read_write)
      else some (rs, s)

-- A relinkage, without the references to its two modules.
pub record Relinkage : Type 0 where
  pub validity : Bool
  pub relocations : List Reloc

-- An entry of the source module's relocation table: its type, its symbol's name, its address.
pub record Rela : Type 0 where
  pub type : ℕ
  pub name : List ℕ
  pub addr : ℕ

abbrev pub glob_dat : ℕ
glob_dat = 6

abbrev pub jump_slot : ℕ
jump_slot = 7

-- The constructor's `findRela` over the relocations of the source, for the symbols that the
-- destination defines; 0 is the null pointer.
unfoldable pub collect : (List ℕ → ℕ) → List Rela → List Reloc
collect dynamic_symbol [] = []
collect dynamic_symbol (r ∷ rs) =
    let later = collect dynamic_symbol rs in
    let symb = dynamic_symbol r.name in
    if (r.type == glob_dat || r.type == jump_slot) && not (symb == 0)
    then record { addr = r.addr; value = symb } ∷ later
    else later

-- `findRela` itself: what one call adds to `_relocations`, and that the iteration goes on.
unfoldable pub find_rela : (List ℕ → ℕ) → List Reloc → ℕ → List ℕ → ℕ → List Reloc × Bool
find_rela dynamic_symbol rs type name addr =
    let symb = dynamic_symbol name in
    (
      if (type == glob_dat || type == jump_slot) && not (symb == 0)
          then rs ++ (record { addr = addr; value = symb } ∷ [])
          else rs,
      true,
    )

module _ (page : ℕ) (mprotect : Mprotect) where
  abbrev relinked : Bool → Option (List Reloc × Space) → Option (Relinkage × Space)
  relinked v none = none
  relinked v (some (rs, s)) = some (record { validity = v; relocations = rs }, s)

  -- The constructor, but for the registration with the destination.
  unfoldable pub relink : (List ℕ → ℕ) → List Rela → Space → Option (Relinkage × Space)
  relink dynamic_symbol relas s =
      relinked true (write_relocations page mprotect (collect dynamic_symbol relas) s)

  unfoldable pub invalidate : Relinkage → Space → Option (Relinkage × Space)
  invalidate r s =
      if r.validity
      then relinked false (write_relocations page mprotect r.relocations s)
      else some (r, s)
