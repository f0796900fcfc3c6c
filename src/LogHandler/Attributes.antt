-- ===== src/LogHandler/Attributes.antt =====
-- modulesdk/loghandler.go: which attributes a wire record has, under which keys.

use weaveplatform_sdk.Base.{
  ℕ, ◌≡◌, ◌≢◌, refl, ap, List, [], ◌∷◌, ◌++◌, Option, none, some, arith, Bytes, same, same_iff,
  same_refl, ap, length, length-append, if◌then◌else◌,
}
use weaveplatform_sdk.Base.Dict.{assign, lookup, lookup-assign}
use weaveplatform_sdk.LogHandler.{
  Attr, Record, StreamHandler, qualify, put_attrs, wire, with_attrs, with_group,
}

abbrev pub or_else : Option Bytes → Option Bytes → Option Bytes
or_else (some v) o = some v
or_else none o = o

pub or_else-none : (o : Option Bytes) → or_else o none ≡ o
or_else-none none = refl
or_else-none (some v) = refl

-- The value of the last attribute that has the key `k` under the group.
unfoldable pub last_value : Bytes → Bytes → List Attr → Option Bytes
last_value group k [] = none
last_value group k (a ∷ as') =
    or_else (last_value group k as') (if same (qualify group a.key) k then some a.value else none)

lookup-put_attrs :
    (group k : Bytes) (as' : List Attr) (m : List (Bytes × Bytes))
    → lookup k (put_attrs group as' m) ≡ or_else (last_value group k as') (lookup k m)
unfolding put_attrs last_value
lookup-put_attrs group k [] m = refl
lookup-put_attrs group k (a ∷ as') m = ground (
  arith,
  lookup-put_attrs group k as' (assign (qualify group a.key) a.value m),
  lookup-assign (qualify group a.key) k a.value m,
)

-- A wire record has, under each key, the last attribute of the log call with that key, qualified
-- by the handler's group, or else the last of the handler's own with that key, which no group
-- qualifies.
pub lookup-wire :
    (h : StreamHandler) (r : Record) (k : Bytes)
    → lookup k (wire h r).attrs ≡ or_else (last_value h.group k r.attrs) (last_value [] k h.attrs)
unfolding wire lookup
lookup-wire h r k = ground (
  arith,
  lookup-put_attrs h.group k r.attrs (put_attrs [] h.attrs []),
  lookup-put_attrs [] k h.attrs [],
)

longer-ne : (g key : Bytes) → g ++ (b'.' ∷ key) ≢ key
longer-ne g key e = omega (arith, length-append g (b'.' ∷ key), ap length e)

qualify-append : (g : ℕ) (gs key : Bytes) → qualify (g ∷ gs) key ≡ (g ∷ gs) ++ (b'.' ∷ key)
unfolding qualify
qualify-append g gs key = refl

-- An attribute that is added to a handler inside a group arrives under its bare key, and not under
-- the key with the group, under which the same attribute arrives when the log call has it.
pub group_forgotten :
    (h : StreamHandler) (r : Record) (a : Attr) (g : ℕ) (gs : Bytes)
    → h.attrs ≡ []
    → h.group ≡ []
    → r.attrs ≡ []
    → let grouped = with_group (g ∷ gs) h in
      let qualified = (g ∷ gs) ++ (b'.' ∷ a.key) in
      (lookup a.key (wire (with_attrs (a ∷ []) grouped) r).attrs ≡ some a.value)
      × (lookup qualified (wire (with_attrs (a ∷ []) grouped) r).attrs ≡ none)
      × (lookup qualified (wire grouped (record r { attrs = a ∷ [] })).attrs ≡ some a.value)
unfolding with_attrs with_group last_value qualify
group_forgotten h r a g gs ha hg ra =
    let grouped = with_group (g ∷ gs) h in
    let qualified = (g ∷ gs) ++ (b'.' ∷ a.key) in
    (
      ground (arith, lookup-wire (with_attrs (a ∷ []) grouped) r a.key, same_refl a.key),
      ground (
        arith,
        lookup-wire (with_attrs (a ∷ []) grouped) r qualified,
        same_iff a.key qualified,
        longer-ne (g ∷ gs) a.key,
      ),
      ground
          (arith, lookup-wire grouped (record r { attrs = a ∷ [] }) qualified, same_refl qualified),
    )
