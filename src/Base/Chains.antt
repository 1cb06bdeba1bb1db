-- ===== src/Base/Chains.antt =====
-- Chains of steps of which each may fail, for `do` blocks.
use spytester.Base.{Option, none, some}

infixl 5 ◌>>=◌
abbrev pub ◌>>=◌ : {A B : Type 0} → Option A → (A → Option B) → Option B
some a >>= f = f a
none >>= f = none
