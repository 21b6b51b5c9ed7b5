-- ===== src/Base/Words.antt =====
-- `uint32_t` and `int32_t` arithmetic on numbers below `2 ^ 32`.
use Prim.Native.Nat.{ℕ, ◌+◌, ◌-◌, ◌%◌, ◌^◌}
use mathlib.Core.Bool.{Bool}
use nembus_os.Base.Tests.{ltb, leb}

abbrev pub w32 : ℕ
w32 = 2 ^ 32

abbrev pub add32 : ℕ → ℕ → ℕ
add32 a b = (a + b) % w32

-- `-` on ℕ stops at 0, so the modulus is added first.
abbrev pub sub32 : ℕ → ℕ → ℕ
sub32 a b = (a + w32 - b) % w32

-- `int32_t` comparisons: the sign bit is flipped, which orders the patterns as signed numbers.
abbrev flip_sign : ℕ → ℕ
flip_sign a = (a + 2 ^ 31) % w32

abbrev pub slt32 : ℕ → ℕ → Bool
slt32 a b = ltb (flip_sign a) (flip_sign b)

abbrev pub sle32 : ℕ → ℕ → Bool
sle32 a b = leb (flip_sign a) (flip_sign b)
