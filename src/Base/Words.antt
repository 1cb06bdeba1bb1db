-- ===== src/Base/Words.antt =====
-- Machine words as patterns: 32-bit ints that widen to 64 bits, and 64-bit addresses.
use Prim.Native.Nat.{ℕ, ◌+◌, ◌-◌, ◌*◌, ◌^◌, ◌%◌}
use spytester.Base.Lists.{ltb, if◌then◌else◌}

-- `x << k` in a 32-bit int, `~x` of one, and the conversion of one to uint64_t.
abbrev pub shl32 : ℕ → ℕ → ℕ
shl32 x k = (x * 2 ^ k) % 2 ^ 32

abbrev pub not32 : ℕ → ℕ
not32 x = 2 ^ 32 - 1 - x

abbrev pub widen : ℕ → ℕ
widen x = if ltb x (2 ^ 31) then x else x + (2 ^ 64 - 2 ^ 32)

-- `x - 1` in uint64_t.
abbrev pub pred64 : ℕ → ℕ
pred64 x = (x + (2 ^ 64 - 1)) % 2 ^ 64
