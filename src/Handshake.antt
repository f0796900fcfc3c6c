-- ===== src/Handshake.antt =====
-- handshake/handshake.go: the one line that a module prints, and the protocol window that core
-- puts into the environment. The network names are those of ipc/ipc.go.
pub mod RoundTrip
pub mod Accepts
use weaveplatform_sdk.Base.{
  ℕ, ◌+◌, ◌≤◌, ◌<◌, ◌≡◌, Bool, true, false, not, ◌&&◌, ◌||◌, List, [], ◌∷◌, ◌++◌, Option, none,
  some, Bytes, codes, same, split, ltb, leb, ◌==◌, if◌then◌else◌,
}
use weaveplatform_sdk.Base.Decimal.{format_uint, parse_uint32}
use weaveplatform_sdk.Base.Space.{trim_space}

abbrev pub network_unix : Bytes
network_unix = codes "unix"

abbrev pub network_pipe : Bytes
network_pipe = codes "npipe"

abbrev pub legacy_network_pipe : Bytes
legacy_network_pipe = codes "winpipe"

abbrev pub line_version : ℕ
line_version = 1

abbrev pub exit_protocol_unsupported : ℕ
exit_protocol_unsupported = 78

abbrev pub bar : ℕ
bar = b'|'

pub record Line : Type 0 where
  pub protocol : ℕ
  pub network : Bytes
  pub addr : Bytes

-- The errors carry what their messages quote.
pub data HandshakeError : Type 0 where
  malformed_line unsupported_line_version bad_protocol unknown_network : Bytes → HandshakeError
  empty_address : HandshakeError
  bad_protocol_min bad_protocol_max : Bytes → HandshakeError
  invalid_window : ℕ → ℕ → HandshakeError

pub data Result {ℓ} (A : Type ℓ) : Type ℓ where
  ok : A → Result A
  err : HandshakeError → Result A

-- `if err != nil { return ... }`, in three forms: go on with the value, give up unless a test holds,
-- give up where a value is missing.
infixl 5 ◌>>=◌ ◌>>◌
abbrev pub ◌>>=◌ {ℓ κ} : {A : Type ℓ} {B : Type κ} → Result A → (A → Result B) → Result B
err why >>= next = err why
ok x >>= next = next x

abbrev pub guard : Bool → HandshakeError → Result (Unit {0})
guard false why = err why
guard true why = ok tt

abbrev pub or_fail {ℓ} : {A : Type ℓ} → Option A → HandshakeError → Result A
or_fail none why = err why
or_fail (some x) why = ok x

abbrev pub ◌>>◌ {ℓ} : {B : Type ℓ} → Result (Unit {0}) → Result B → Result B
checked >> next = checked >>= λ _. next

-- `Line.Format`: Sprintf("WEAVE|%d|%d|%s|%s", LineVersion, ...).
unfoldable pub format : Line → Bytes
format l =
    codes "WEAVE"
    ++ (bar
        ∷ (format_uint line_version
            ++ (bar ∷ (format_uint l.protocol ++ (bar ∷ (l.network ++ (bar ∷ l.addr)))))))

unfoldable pub normalise : Bytes → Bytes
normalise network = if same network legacy_network_pipe then network_pipe else network

-- The checks of `Parse` behind the count of its fields.
unfoldable pub parse_fields : Bytes → Bytes → Bytes → Bytes → Bytes → Bytes → Result Line
unfolding normalise
parse_fields s word version protocol network addr = do
  guard (same word (codes "WEAVE")) (malformed_line s)
  v ← or_fail (parse_uint32 version) (unsupported_line_version version)
  guard (v == line_version) (unsupported_line_version version)
  p ← or_fail (parse_uint32 protocol) (bad_protocol protocol)
  guard (not (p == 0)) (bad_protocol protocol)
  guard (same (normalise network) network_unix || same (normalise network) network_pipe)
      (unknown_network network)
  guard (not (same addr [])) empty_address
  ok (record { protocol = p; network = normalise network; addr = addr })

unfoldable pub parse_parts : Bytes → List Bytes → Result Line
unfolding parse_fields
parse_parts s (word ∷ version ∷ protocol ∷ network ∷ addr ∷ []) =
    parse_fields s word version protocol network addr
parse_parts s parts = err (malformed_line s)

unfoldable pub parse : Bytes → Result Line
unfolding parse_parts
parse s = parse_parts s (split bar (trim_space s))

pub record Window : Type 0 where
  pub min : ℕ
  pub max : ℕ

unfoldable pub contains : Window → ℕ → Bool
contains w p = leb w.min p && leb p w.max

unfoldable pub parse_window : Bytes → Bytes → Result Window
parse_window min max = do
  lo ← or_fail (parse_uint32 min) (bad_protocol_min min)
  hi ← or_fail (parse_uint32 max) (bad_protocol_max max)
  guard (not (lo == 0 || ltb hi lo)) (invalid_window lo hi)
  ok (record { min = lo; max = hi })
