-- ===== src/Platform/Printing.antt =====
-- platform/platform_windows.go: `itoa` against the decimal printing of the standard library.
use native.Mathlib.Nat.{pow-suc}
use weaveplatform_sdk.Base.{
  ℕ, zero, suc, ◌+◌, ◌/◌, ◌%◌, ◌^◌, ◌≤◌, ◌<◌, ◌≡◌, ◌∷◌, [], some, arith, Bytes,
}
use weaveplatform_sdk.Base.Decimal.{digits, format_uint}
use weaveplatform_sdk.Platform.{itoa, itoa_loop}

smaller : (i v : ℕ) → v < 10 ^ suc i → v / 10 < 10 ^ i
smaller i v h = let e = pow-suc 10 i in omega (arith, e, h)

itoa_loop-digits :
    (i fuel v : ℕ) (out : Bytes)
    → v < 10 ^ i
    → v ≤ fuel
    → itoa_loop i v out ≡ some (digits fuel v out)
unfolding itoa_loop digits
itoa_loop-digits zero zero v out small fits = ground arith
itoa_loop-digits zero (suc fuel) v out small fits = ground arith
itoa_loop-digits (suc i) zero v out small fits = ground arith
itoa_loop-digits (suc i) (suc fuel) v out small fits =
    let next = smaller i v small in
    ground (arith, itoa_loop-digits i fuel (v / 10) ((b'0' + v % 10) ∷ out) next)

-- For every 64-bit value, `itoa` stays within its buffer of 20 bytes and prints what `%d` prints.
pub itoa-format_uint : (v : ℕ) → v < 2 ^ 64 → itoa v ≡ some (format_uint v)
unfolding itoa format_uint
itoa-format_uint v fits = ground (arith, itoa_loop-digits 20 v v [] (omega arith))
