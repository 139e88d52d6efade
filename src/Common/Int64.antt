-- ===== src/Common/Int64.antt =====
-- Go's `int`, `int64` and `time.Duration`: 64-bit words in two's complement, so that -1 is 2 ^ 64 - 1.
use Prim.Native.Nat.{ℕ, ◌+◌, ◌*◌, ◌%◌}
use mathlib.Core.Bool.{Bool, ◌&&◌}
use authpilot.Common.Tests.{ltb}

-- `x > 0`
abbrev pub is_positive : ℕ → Bool
is_positive x = ltb 0 x && ltb x 0x8000000000000000

-- `x < y`
abbrev pub is_less : ℕ → ℕ → Bool
is_less x y =
    ltb ((x + 0x8000000000000000) % 0x10000000000000000)
      ((y + 0x8000000000000000) % 0x10000000000000000)

-- `x * y`, which wraps around
abbrev pub times : ℕ → ℕ → ℕ
times x y = (x * y) % 0x10000000000000000
