-- ===== src/Base/Decimal.antt =====
-- Decimal numbers of the Go standard library: `%d` of an unsigned integer, and
-- `strconv.ParseUint(s, 10, 32)`. `ParseUint` refuses a value above 2^32 - 1 while it reads, so its
-- 64-bit accumulator never wraps.
use Prim.Native.Nat.{ℕ, zero, suc, ◌+◌, ◌-◌, ◌*◌, ◌/◌, ◌%◌, ◌≤◌, ◌<◌}
use mathlib.Core.Path.{◌≡◌, refl}
use mathlib.Core.Logic.{◌≢◌, ◌↔◌}
use mathlib.Core.Bool.{true, false, ◌||◌}
use mathlib.Core.List.{[], ◌∷◌}
use mathlib.Core.Option.{Option, none, some}
use native.Mathlib.Omega.{arith}
use weaveplatform_sdk.Base.Lists.{All, Lacks}
use weaveplatform_sdk.Base.Tests.{ltb, ◌==◌, if◌then◌else◌}
use weaveplatform_sdk.Base.Text.{Bytes}

abbrev pub max_uint32 : ℕ
max_uint32 = 4294967295

-- The digits of `n` in front of `out`; fuel `n` is enough, as a tenth is smaller.
unfoldable pub digits : ℕ → ℕ → Bytes → Bytes
digits zero n out = out
digits (suc fuel) n out = elim (n == 0) [
  | true ↦ out
  | false ↦ digits fuel (n / 10) ((b'0' + n % 10) ∷ out)
]

unfoldable pub format_uint : ℕ → Bytes
unfolding digits
format_uint n = if n == 0 then b'0' ∷ [] else digits n n []

unfoldable pub scan : ℕ → Bytes → ℕ → Option ℕ
scan max [] n = some n
scan max (c ∷ s) n =
    if ltb c b'0' || ltb b'9' c
    then none
    else if ltb max (n * 10 + (c - b'0'))
    then none
    else scan max s (n * 10 + (c - b'0'))

unfoldable pub parse_uint : ℕ → Bytes → Option ℕ
unfolding scan
parse_uint max [] = none
parse_uint max (c ∷ s) = scan max (c ∷ s) 0

unfoldable pub parse_uint32 : Bytes → Option ℕ
unfolding parse_uint
parse_uint32 s = parse_uint max_uint32 s

abbrev pub IsDigit : ℕ → Type 0
IsDigit c = (b'0' ≤ c) × (c ≤ b'9')

-- The number that digits spell behind `n`, with no bound.
abbrev pub value : ℕ → Bytes → ℕ
value n [] = n
value n (c ∷ s) = value (n * 10 + (c - b'0')) s

scan_digit :
    (max n : ℕ) (out : Bytes) → n ≤ max → scan max ((b'0' + n % 10) ∷ out) (n / 10) ≡ scan max out n
unfolding scan
scan_digit max n out h = ground arith

scan-digits :
    (max fuel n : ℕ) (out : Bytes)
    → n ≤ fuel
    → n ≤ max
    → scan max (digits fuel n out) 0 ≡ scan max out n
unfolding digits
scan-digits max zero n out h fits = ground arith
scan-digits max (suc fuel) n out h fits =
    ground (arith, scan_digit max n out fits, scan-digits max fuel (n / 10) ((b'0' + n % 10) ∷ out))

digits-ne-nil : (fuel n : ℕ) (out : Bytes) → out ≢ [] → digits fuel n out ≢ []
unfolding digits
digits-ne-nil zero n out h = h
digits-ne-nil (suc fuel) n out h =
    ground (arith, digits-ne-nil fuel (n / 10) ((b'0' + n % 10) ∷ out))

pub format_uint-ne-nil : (n : ℕ) → format_uint n ≢ []
unfolding format_uint
format_uint-ne-nil zero = ground arith
format_uint-ne-nil (suc n) = ground (arith, digits-ne-nil n (suc n / 10) ((b'0' + suc n % 10) ∷ []))

parse_uint-scan : (max : ℕ) (s : Bytes) → s ≢ [] → parse_uint max s ≡ scan max s 0
unfolding parse_uint
parse_uint-scan max [] h = absurd (h refl)
parse_uint-scan max (c ∷ s) h = refl

pub parse_uint-format_uint : (max n : ℕ) → n ≤ max → parse_uint max (format_uint n) ≡ some n
unfolding format_uint scan
parse_uint-format_uint max n fits =
    ground
      (arith, parse_uint-scan max (format_uint n) (format_uint-ne-nil n), scan-digits max n n [])

pub parse_uint32-format_uint : (n : ℕ) → n ≤ max_uint32 → parse_uint32 (format_uint n) ≡ some n
unfolding parse_uint32
parse_uint32-format_uint n fits = parse_uint-format_uint max_uint32 n fits

digits-All-IsDigit : (fuel n : ℕ) (out : Bytes) → All IsDigit out → All IsDigit (digits fuel n out)
unfolding digits
digits-All-IsDigit zero n out h = h
digits-All-IsDigit (suc fuel) n out h =
    ground (arith, digits-All-IsDigit fuel (n / 10) ((b'0' + n % 10) ∷ out))

pub format_uint-All-IsDigit : (n : ℕ) → All IsDigit (format_uint n)
unfolding format_uint
format_uint-All-IsDigit n = ground (arith, digits-All-IsDigit n n [] tt)

scan_sound :
    (max : ℕ) (s : Bytes) (n r : ℕ)
    → n ≤ max
    → scan max s n ≡ some r
    → All IsDigit s × (r ≡ value n s) × (r ≤ max)
unfolding scan
scan_sound max [] n r fits h = ground arith
scan_sound max (c ∷ s) n r fits h = ground (arith, scan_sound max s (n * 10 + (c - b'0')) r)

le-value : (start : ℕ) (text : Bytes) → start ≤ value start text
le-value start [] = omega arith
le-value start (digit ∷ text) = omega (arith, le-value (start * 10 + (digit - b'0')) text)

scan_complete :
    (max : ℕ) (s : Bytes) (n : ℕ)
    → All IsDigit s
    → value n s ≤ max
    → scan max s n ≡ some (value n s)
unfolding scan
scan_complete max [] n are_digits fits = refl
scan_complete max (c ∷ s) n (is_digit, are_digits) fits =
    let next = n * 10 + (c - b'0') in
    ground (arith, le-value next s, scan_complete max s next are_digits fits)

-- What is accepted, and with what value.
pub parse_uint_sound :
    (max : ℕ) (s : Bytes) {r : ℕ}
    → parse_uint max s ≡ some r
    → (s ≢ []) × All IsDigit s × (r ≡ value 0 s) × (r ≤ max)
unfolding parse_uint
parse_uint_sound max [] h = cc
parse_uint_sound max (c ∷ s) {r} h =
    let (digits_only, exact, fits) = scan_sound max (c ∷ s) 0 r (omega arith) h in
    ((ground arith), digits_only, exact, fits)

pub parse_uint_complete :
    (max : ℕ) (s : Bytes)
    → s ≢ []
    → All IsDigit s
    → value 0 s ≤ max
    → parse_uint max s ≡ some (value 0 s)
unfolding parse_uint
parse_uint_complete max [] h = absurd (h refl)
parse_uint_complete max (c ∷ s) _ = scan_complete max (c ∷ s) 0

-- `s` is a decimal numeral of `n`, leading zeros allowed, and `n` fits 32 bits.
abbrev pub Reads : Bytes → ℕ → Type 0
Reads s n = (s ≢ []) × All IsDigit s × (n ≡ value 0 s) × (n ≤ max_uint32)

pub parse_uint32_iff : (s : Bytes) (n : ℕ) → (parse_uint32 s ≡ some n) ↔ Reads s n
unfolding parse_uint32
parse_uint32_iff s n =
    (parse_uint_sound max_uint32 s, λ r. ground (arith, parse_uint_complete max_uint32 s r.0 r.1))

pub All-IsDigit-Lacks : (sep : ℕ) (s : Bytes) → b'9' < sep → All IsDigit s → Lacks sep s
All-IsDigit-Lacks sep [] h d = tt
All-IsDigit-Lacks sep (c ∷ s) h d = (omega arith, All-IsDigit-Lacks sep s h d.1)
