-- ===== src/Prelude/Int8.antt =====
-- `int8_t` as its bit pattern, a number below 256: from 128 on the value is negative.
use Prim.Native.Nat.{ℕ, ◌+◌, ◌%◌}
use mathlib.Core.Bool.{Bool}
use linux_programming.Prelude.Tests.{leb}

-- `n < 0`
abbrev pub negative : ℕ → Bool
negative n = leb 128 n

-- `n++` and `n--`
abbrev pub incr : ℕ → ℕ
incr n = (n + 1) % 256

abbrev pub decr : ℕ → ℕ
decr n = (n + 255) % 256

-- The pattern of `-1`.
abbrev pub minus_one : ℕ
minus_one = 255
