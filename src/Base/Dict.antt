-- ===== src/Base/Dict.antt =====
-- Go maps with string keys, as association lists, and membership in a list.

use mathlib.Core.Path.{◌≡◌, refl}
use mathlib.Core.Logic.{◌≢◌, ◌↔◌, ◌⊎◌}
use mathlib.Core.Bool.{Bool, true, false}
use mathlib.Core.List.{List, [], ◌∷◌}
use mathlib.Core.Option.{Option, none, some}
use native.Mathlib.Omega.{arith}
use weaveplatform_sdk.Base.Tests.{if◌then◌else◌}
use weaveplatform_sdk.Base.Text.{Bytes, same, same_iff, cut_prefix}

-- `a` is an item of the list.
abbrev pub In : {A : Type 0} → A → List A → Type 0
In a [] = ⊥
In a (x ∷ xs) = (a ≡ x) ⊎ In a xs

-- `strings.HasPrefix(s, p)`, and `len(s) >= len(p) && s[:len(p)] == p`.
unfoldable pub has_prefix : Bytes → Bytes → Bool
has_prefix p s = elim (cut_prefix p s) [ none ↦ false | some r ↦ true ]

-- `strings.TrimPrefix(s, p)`.
unfoldable pub trim_prefix : Bytes → Bytes → Bytes
trim_prefix p s = elim (cut_prefix p s) [ none ↦ s | some r ↦ r ]

module _ {ℓ} {V : Type ℓ} where
  -- `m[k]`, with the second result of `v, ok := m[k]`.
  unfoldable pub lookup : Bytes → List (Bytes × V) → Option V
  lookup k [] = none
  lookup k ((j, v) ∷ m) = if same j k then some v else lookup k m

  -- `m[k] = v`
  unfoldable pub assign : Bytes → V → List (Bytes × V) → List (Bytes × V)
  assign k v [] = (k, v) ∷ []
  assign k v ((j, w) ∷ m) = if same j k then (k, v) ∷ m else (j, w) ∷ assign k v m

  -- `delete(m, k)`
  unfoldable pub remove : Bytes → List (Bytes × V) → List (Bytes × V)
  remove k [] = []
  remove k ((j, w) ∷ m) = let rest = remove k m in if same j k then rest else (j, w) ∷ rest

  -- The keys with a prefix. Go's order of iteration is not fixed, so only membership is stated.
  unfoldable pub keys_with : Bytes → List (Bytes × V) → List Bytes
  keys_with p [] = []
  keys_with p ((j, w) ∷ m) = let rest = keys_with p m in if has_prefix p j then j ∷ rest else rest

  pub lookup-assign :
      (k j : Bytes) (v : V) (m : List (Bytes × V))
      → lookup j (assign k v m) ≡ (if same k j then some v else lookup j m)
  unfolding lookup assign
  lookup-assign k j v [] = refl
  lookup-assign k j v ((i, w) ∷ m) =
      ground (arith, same_iff k j, same_iff i k, same_iff i j, lookup-assign k j v m)

  pub lookup-remove :
      (k j : Bytes) (m : List (Bytes × V))
      → lookup j (remove k m) ≡ (if same k j then none else lookup j m)
  unfolding lookup remove
  lookup-remove k j [] = ground arith
  lookup-remove k j ((i, w) ∷ m) =
      ground (arith, same_iff k j, same_iff i k, same_iff i j, lookup-remove k j m)

  pub In-keys_with :
      (p k : Bytes) (m : List (Bytes × V))
      → In k (keys_with p m) ↔ ((has_prefix p k ≡ true) × (lookup k m ≢ none))
  unfolding keys_with lookup
  In-keys_with p k [] = ((λ h. absurd h), λ h. absurd (h.1 refl))
  In-keys_with p k ((j, w) ∷ m) = (
    λ h. ground (arith, In-keys_with p k m, same_iff j k),
    λ h. ground (arith, In-keys_with p k m, same_iff j k),
  )
