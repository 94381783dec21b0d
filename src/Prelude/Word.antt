-- ===== src/Prelude/Word.antt =====
-- 32-bit words. An `int` that a function returns is its bit pattern, a number below 2 ^ 32: the
-- error code -E is `neg E`. The error numbers are those of kernel/inc/errno.h.
use Prim.Native.Nat.{ℕ, ◌+◌, ◌-◌, ◌%◌, ◌^◌}
use mathlib.Core.Bool.{Bool}
use lambda_os.Prelude.Tests.{ltb}

abbrev pub u32_mod : ℕ
u32_mod = 2 ^ 32

-- `uint32_t` addition and subtraction.
abbrev pub add32 : ℕ → ℕ → ℕ
add32 a b = (a + b) % 2 ^ 32

abbrev pub sub32 : ℕ → ℕ → ℕ
sub32 a b = (a + 2 ^ 32 - b) % 2 ^ 32

abbrev pub neg : ℕ → ℕ
neg e = 2 ^ 32 - e

abbrev pub eunspec : ℕ
eunspec = 512

-- `x >= 0` of an `int`.
abbrev pub is_nonneg : ℕ → Bool
is_nonneg w = ltb w (2 ^ 31)
