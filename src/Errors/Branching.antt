-- ===== src/Errors/Branching.antt =====
-- werror/werror.go and modulesdk/errmap.go: what a module that calls `errors.Is` sees of a failed
-- host call.
use weaveplatform_sdk.Base.{
  ◌≡◌, ◌↔◌, refl, Bool, true, false, List, [], ◌∷◌, ◌++◌, Option, none, some, arith, Bytes, codes,
}
use weaveplatform_sdk.Errors.{
  Sentinel, Code, Status, GoError, same_sentinel, sentinel_text, is, as_status, error_text, op,
  code_sentinel, sentinel_err,
}

-- The code that the host services answer with for each sentinel.
abbrev pub sentinel_code : Sentinel → Code
sentinel_code Sentinel.not_found = Code.not_found
sentinel_code Sentinel.unavailable = Code.unavailable
sentinel_code Sentinel.protocol = Code.failed_precondition
sentinel_code Sentinel.denied = Code.permission_denied

-- Any number of `Op` labels, the innermost last.
pub ops : List Bytes → Option GoError → Option GoError
ops [] e = e
ops (label ∷ labels) e = op label (ops labels e)

-- `errors.Is` on an error that may be nil.
abbrev pub is? : Option GoError → Sentinel → Bool
is? none t = false
is? (some e) t = is e t

is?-op : (label : Bytes) (e : Option GoError) (t : Sentinel) → is? (op label e) t ≡ is? e t
unfolding op is
is?-op label none t = refl
is?-op label (some e) t = refl

is?-ops : (labels : List Bytes) (e : Option GoError) (t : Sentinel) → is? (ops labels e) t ≡ is? e t
unfolding ops
is?-ops [] e t = refl
is?-ops (label ∷ labels) e t = ground (arith, is?-op label (ops labels e) t, is?-ops labels e t)

code_sentinel_iff : (c : Code) (t : Sentinel) → (code_sentinel c ≡ some t) ↔ (c ≡ sentinel_code t)
unfolding code_sentinel
code_sentinel_iff c t = (λ h. ground arith, λ h. ground arith)

same_sentinel_iff : (s t : Sentinel) → (same_sentinel s t ≡ true) ↔ (s ≡ t)
same_sentinel_iff s t = (λ h. ground arith, λ h. ground arith)

translated :
    (from_error : GoError → Option Status) (e : GoError) (st : Status) (t : Sentinel)
    → from_error e ≡ some st
    → is e t ≡ false
    → (is? (sentinel_err from_error (some e)) t ≡ true) ↔ (st.code ≡ sentinel_code t)
unfolding sentinel_err is
translated from_error e st t h clean = (
  λ p. ground (arith, code_sentinel_iff st.code t, p),
  λ p. ground (arith, code_sentinel_iff st.code t),
)

-- Let a host call fail with an error in which gRPC finds a status and `errors.Is` does not find
-- the sentinel. Then, under any number of `Op` labels, `errors.Is` finds the sentinel in what
-- `sentinelErr` makes of it exactly when the status has the sentinel's code.
pub branch_iff :
    (from_error : GoError → Option Status) (labels : List Bytes) (e : GoError) (st : Status)
    (t : Sentinel)
    → from_error e ≡ some st
    → is e t ≡ false
    → (is? (ops labels (sentinel_err from_error (some e))) t ≡ true) ↔ (st.code ≡ sentinel_code t)
branch_iff from_error labels e st t h clean =
    rw (is?-ops labels (sentinel_err from_error (some e)) t) (translated from_error e st t h clean)

-- A translated error has the server's message in front of the sentinel's text, and no status is
-- found in its chain any more: the status itself is not kept.
pub status_dropped :
    (from_error : GoError → Option Status) (status_text : Status → Bytes) (e : GoError)
    (st : Status) (t : Sentinel)
    → from_error e ≡ some st
    → st.code ≡ sentinel_code t
    → (r : GoError) × (sentinel_err from_error (some e) ≡ some r)
      × (as_status r ≡ none)
      × (error_text status_text r ≡ st.message ++ (codes ": " ++ sentinel_text t))
unfolding sentinel_err as_status error_text
status_dropped from_error status_text e st t h c = (
  GoError.wrap st.message (GoError.sentinel t),
  ground (arith, code_sentinel_iff st.code t),
  refl,
  refl,
)
