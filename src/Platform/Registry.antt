-- ===== src/Platform/Registry.antt =====
-- platform/platform_windows.go: `fill`, which puts the version together from the registry. What the
-- registry answers is an argument; an error of it is `none`.
use weaveplatform_sdk.Base.{ℕ, ◌<◌, ◌^◌, ◌≡◌, refl, ◌∷◌, ◌++◌, Option, none, some, arith, Bytes}
use weaveplatform_sdk.Base.Decimal.{format_uint}
use weaveplatform_sdk.Platform.{Info, itoa}
use weaveplatform_sdk.Platform.Printing.{itoa-format_uint}

-- The key that `OpenKey` opens.
pub record Registry : Type 0 where
  pub major : Option ℕ
  pub minor : Option ℕ
  pub build : Option Bytes

abbrev pub dotted : Bytes → Bytes → Bytes → Bytes
dotted a b c = a ++ (b'.' ∷ (b ++ (b'.' ∷ c)))

-- `none` is a panic of `itoa`.
unfoldable pub set_version : ℕ → ℕ → Bytes → Info → Option Info
set_version major minor build info = elim (itoa major) [
  | none ↦ none
  | some a ↦ elim (itoa minor) [
    | none ↦ none
    | some b ↦ some (record info { version = dotted a b build; build = build })
  ]
]

unfoldable pub fill_windows : Option Registry → Info → Option Info
unfolding set_version
fill_windows none info = some info
fill_windows (some k) info = elim k.major [
  | none ↦ some info
  | some major ↦ elim k.minor [
    | none ↦ some info
    | some minor ↦ elim k.build [
      | none ↦ some info
      | some build ↦ set_version major minor build info
    ]
  ]
]

-- The integers are QWORDs.
abbrev pub Fits : Option ℕ → Type 0
Fits none = Unit {0}
Fits (some v) = v < 2 ^ 64

abbrev pub FitsIn : Option Registry → Type 0
FitsIn none = Unit {0}
FitsIn (some k) = Fits k.major × Fits k.minor

-- The two facts, from the three values: both, or neither.
abbrev pub versioned : Option ℕ → Option ℕ → Option Bytes → Info → Info
versioned (some a) (some b) (some c) info = record info {
  version = dotted (format_uint a) (format_uint b) c;
  build = c;
}
versioned _ _ _ info = info

set_version_lem :
    (a b : ℕ) (c : Bytes) (info : Info)
    → a < 2 ^ 64
    → b < 2 ^ 64
    → set_version a b c info ≡ some (versioned (some a) (some b) (some c) info)
unfolding set_version
set_version_lem a b c info small small' =
    ground (arith, itoa-format_uint a small, itoa-format_uint b small')

values_lem :
    (a b : Option ℕ) (c : Option Bytes) (info : Info)
    → Fits a
    → Fits b
    → fill_windows (some (record { major = a; minor = b; build = c })) info
      ≡ some (versioned a b c info)
unfolding fill_windows
values_lem none b c info fits fits' = refl
values_lem (some a) none c info fits fits' = refl
values_lem (some a) (some b) none info fits fits' = refl
values_lem (some a) (some b) (some c) info fits fits' = set_version_lem a b c info fits fits'

abbrev pub from_registry : Option Registry → Info → Info
from_registry none info = info
from_registry (some k) info = versioned k.major k.minor k.build info

-- Whatever the registry answers, with integers of 64 bits, `fill` does not panic. If the key is there
-- and has all three values, the version is the two numbers, as `%d` prints them, and the build, with
-- dots between, and the build is the build; if anything is missing, both stay as they were.
pub fill_windows_lem :
    (k : Option Registry) (info : Info)
    → FitsIn k
    → fill_windows k info ≡ some (from_registry k info)
fill_windows_lem none info fits = unfold fill_windows in refl
fill_windows_lem (some k) info fits = values_lem k.major k.minor k.build info fits.0 fits.1
