-- ===== src/Base/Int.antt =====
-- Go's signed integers, `int64` wrap-around, instants and durations.
--
-- An instant is the number of nanoseconds since Go's zero time, so `IsZero` is the test for 0. A
-- duration is a signed number of nanoseconds. An instant before the zero time is not represented:
-- `add_duration` stops there, which an instant of at least 2 ^ 63 never reaches.
use Prim.Native.Nat.{ℕ, suc, ◌+◌, ◌-◌, ◌%◌, ◌^◌, ◌<◌}
use mathlib.Core.Path.{◌≡◌}
use native.Mathlib.Omega.{arith}
use mathlib.Core.Bool.{Bool, true, false}
use fmxevolution_go.Base.Tests.{ltb, ◌==◌, if◌then◌else◌}

-- `negsuc n` is -(n + 1).
pub data ℤ : Type 0 where
  pos : ℕ → ℤ
  negsuc : ℕ → ℤ

abbrev pub is_neg : ℤ → Bool
is_neg (pos n) = false
is_neg (negsuc n) = true

-- The value of an integer, 0 where it is negative.
abbrev pub nonneg_part : ℤ → ℕ
nonneg_part (pos n) = n
nonneg_part (negsuc n) = 0

-- `i > 0`
abbrev pub is_pos : ℤ → Bool
is_pos i = ltb 0 (nonneg_part i)

-- A product that the processor keeps modulo 2 ^ 64, read as an `int64`.
unfoldable pub to_int64 : ℕ → ℤ
to_int64 n = let m = n % 2 ^ 64 in if ltb m (2 ^ 63) then pos m else negsuc (2 ^ 64 - 1 - m)

-- A product that an `int64` can hold.
pub to_int64-small : (n : ℕ) → n < 2 ^ 63 → to_int64 n ≡ pos n
unfolding to_int64
to_int64-small n h = ground arith

abbrev pub Time : Type 0
Time = ℕ

abbrev pub is_zero_time : Time → Bool
is_zero_time t = t == 0

-- `a.After(b)`
abbrev pub after : Time → Time → Bool
after a b = ltb b a

unfoldable pub add_duration : Time → ℤ → Time
add_duration t (pos d) = t + d
add_duration t (negsuc d) = t - suc d

abbrev pub millisecond : ℕ
millisecond = 1_000_000

abbrev pub second : ℕ
second = 1_000_000_000

abbrev pub minute : ℕ
minute = 60_000_000_000

abbrev pub hour : ℕ
hour = 3_600_000_000_000
