-- ===== src/Errors.antt =====
-- werror/werror.go, and modulesdk/errmap.go: the sentinels that callers branch on, and the
-- translation of a gRPC status into one of them. A nil error is `none`.
pub mod Branching
use weaveplatform_sdk.Base.{
  ℕ, ◌≡◌, Bool, true, false, List, [], ◌∷◌, ◌++◌, Option, none, some, Bytes, codes,
}

pub data Sentinel : Type 0 where
  not_found unavailable protocol denied : Sentinel

abbrev pub sentinel_text : Sentinel → Bytes
sentinel_text Sentinel.not_found = codes "not found"
sentinel_text Sentinel.unavailable = codes "unavailable"
sentinel_text Sentinel.protocol = codes "protocol violation"
sentinel_text Sentinel.denied = codes "denied"

-- The codes of google.golang.org/grpc that the source names; `other` stands for the rest.
pub data Code : Type 0 where
  not_found unavailable permission_denied failed_precondition invalid_argument internal : Code
  unauthenticated : Code
  other : ℕ → Code

pub record Status : Type 0 where
  pub code : Code
  pub message : Bytes

-- An error: a sentinel, one of another package, a gRPC status, or one that wraps another as
-- fmt.Errorf("%s: %w", label, err) does.
pub data GoError : Type 0 where
  sentinel : Sentinel → GoError
  plain : Bytes → GoError
  status : Status → GoError
  wrap : Bytes → GoError → GoError

abbrev pub same_sentinel : Sentinel → Sentinel → Bool
same_sentinel Sentinel.not_found Sentinel.not_found = true
same_sentinel Sentinel.unavailable Sentinel.unavailable = true
same_sentinel Sentinel.protocol Sentinel.protocol = true
same_sentinel Sentinel.denied Sentinel.denied = true
same_sentinel _ _ = false

-- `errors.Is(err, target)` for a sentinel: the chain of wrapped errors is searched.
unfoldable pub is : GoError → Sentinel → Bool
is (GoError.sentinel s) t = same_sentinel s t
is (GoError.plain m) t = false
is (GoError.status st) t = false
is (GoError.wrap label e) t = is e t

-- The status in the chain of wrapped errors, as `errors.As` finds it.
unfoldable pub as_status : GoError → Option Status
as_status (GoError.sentinel s) = none
as_status (GoError.plain m) = none
as_status (GoError.status st) = some st
as_status (GoError.wrap label e) = as_status e

-- `err.Error()`; how gRPC prints a status is its own.
unfoldable pub error_text : (Status → Bytes) → GoError → Bytes
error_text status_text (GoError.sentinel s) = sentinel_text s
error_text status_text (GoError.plain m) = m
error_text status_text (GoError.status st) = status_text st
error_text status_text (GoError.wrap label e) = label ++ (codes ": " ++ error_text status_text e)

-- `werror.Op`.
unfoldable pub op : Bytes → Option GoError → Option GoError
op label none = none
op label (some e) = some (GoError.wrap label e)

-- The switch of `sentinelErr`.
unfoldable pub code_sentinel : Code → Option Sentinel
code_sentinel Code.not_found = some Sentinel.not_found
code_sentinel Code.unavailable = some Sentinel.unavailable
code_sentinel Code.permission_denied = some Sentinel.denied
code_sentinel Code.failed_precondition = some Sentinel.protocol
code_sentinel _ = none

-- `sentinelErr`; `from_error` is gRPC's `status.FromError`, `none` where it is not ok.
unfoldable pub sentinel_err : (GoError → Option Status) → Option GoError → Option GoError
unfolding code_sentinel
sentinel_err from_error none = none
sentinel_err from_error (some e) = elim (from_error e) [
  | none ↦ some e
  | some st ↦ elim (code_sentinel st.code) [
    | none ↦ some e
    | some s ↦ some (GoError.wrap st.message (GoError.sentinel s))
  ]
]
