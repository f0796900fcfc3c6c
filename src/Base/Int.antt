-- ===== src/Base/Int.antt =====
-- 64-bit signed integers, such as a `time.Duration` in nanoseconds.
use Prim.Native.Nat.{ℕ, zero, suc, ◌-◌, ◌*◌, ◌%◌, ◌^◌, ◌<◌}
use mathlib.Core.Path.{◌≡◌}
use mathlib.Core.Bool.{Bool, true, false}
use native.Mathlib.Omega.{arith}
use weaveplatform_sdk.Base.Tests.{ltb, leb, if◌then◌else◌}

-- `negsuc n` is -(n + 1).
pub data ℤ : Type 0 where
  pos : ℕ → ℤ
  negsuc : ℕ → ℤ

-- The bit pattern of `n` in 64 bits, read as a signed integer.
abbrev pub to_int64 : ℕ → ℤ
to_int64 n = let r = n % 2 ^ 64 in if ltb r (2 ^ 63) then ℤ.pos r else ℤ.negsuc (2 ^ 64 - 1 - r)

-- `int32(x)`: the lowest 32 bits, read as a signed integer.
abbrev pub int32_pattern : ℕ → ℤ
int32_pattern r = if ltb r (2 ^ 31) then ℤ.pos r else ℤ.negsuc (2 ^ 32 - 1 - r)

abbrev pub to_int32 : ℤ → ℤ
to_int32 (ℤ.pos n) = int32_pattern (n % 2 ^ 32)
to_int32 (ℤ.negsuc n) = int32_pattern (2 ^ 32 - 1 - n % 2 ^ 32)

-- `0 < d`.
abbrev pub is_positive : ℤ → Bool
is_positive (ℤ.pos zero) = false
is_positive (ℤ.pos (suc n)) = true
is_positive (ℤ.negsuc n) = false

abbrev pub leb_int : ℤ → ℤ → Bool
leb_int (ℤ.pos a) (ℤ.pos b) = leb a b
leb_int (ℤ.pos a) (ℤ.negsuc b) = false
leb_int (ℤ.negsuc a) (ℤ.pos b) = true
leb_int (ℤ.negsuc a) (ℤ.negsuc b) = leb b a

-- `time.Duration(secs) * time.Second`.
unfoldable pub seconds : ℕ → ℤ
seconds secs = to_int64 (secs * 1000000000)

-- Seconds that fit 32 bits do not overflow.
pub seconds_exact : (secs : ℕ) → secs < 2 ^ 32 → seconds secs ≡ ℤ.pos (secs * 1000000000)
unfolding seconds
seconds_exact secs h = ground arith
