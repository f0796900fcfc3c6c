-- ===== src/Base/Sums.antt =====
-- Sums of numbers of the items of a list.
use Prim.Native.Nat.{ℕ, zero, suc, ◌+◌, ◌≤◌, ◌<◌}
use mathlib.Core.Path.{◌≡◌, refl}
use mathlib.Core.Logic.{◌⊎◌, inl, inr}
use mathlib.Core.Option.{some}
use mathlib.Core.List.{List, [], ◌∷◌}
use native.Mathlib.Omega.{arith}
use weaveplatform_sdk.Base.Lists.{get_elem?, set}

module _ {ℓ} {A : Type ℓ} (f : A → ℕ) where
  abbrev pub sum_by : List A → ℕ
  sum_by [] = 0
  sum_by (x ∷ xs) = f x + sum_by xs

  pub sum_by-set :
      (xs : List A) (k : ℕ) (x y : A)
      → get_elem? xs k ≡ some x
      → sum_by (set xs k y) + f x ≡ sum_by xs + f y
  sum_by-set [] k x y at = cc
  sum_by-set (z ∷ xs) zero x y at = let same : z ≡ x = cc in rw same (omega arith)
  sum_by-set (z ∷ xs) (suc k) x y at = omega (arith, sum_by-set xs k x y at)

  -- A sum that is not 0 has an item that is not.
  pub sum_by_cases :
      (xs : List A) → (sum_by xs ≡ 0) ⊎ ((k : ℕ) × (x : A) × (get_elem? xs k ≡ some x) × (0 < f x))
  sum_by_cases [] = inl refl
  sum_by_cases (x ∷ xs) = elim (zero_or_more (f x)) [
    | inr more ↦ inr (0, x, refl, more)
    | inl none_here ↦ elim (sum_by_cases xs) [
      | inl none_there ↦ inl (omega arith)
      | inr (k, y, at, more) ↦ inr (suc k, y, at, more)
    ]
  ]
    where
      zero_or_more : (n : ℕ) → (n ≡ 0) ⊎ (0 < n)
      zero_or_more zero = inl refl
      zero_or_more (suc n) = inr (omega arith)

  pub sum_by-get_elem? : (xs : List A) (k : ℕ) (x : A) → get_elem? xs k ≡ some x → f x ≤ sum_by xs
  sum_by-get_elem? [] k x at = cc
  sum_by-get_elem? (y ∷ xs) zero x at = let same : y ≡ x = cc in rw same (omega arith)
  sum_by-get_elem? (y ∷ xs) (suc k) x at = omega (arith, sum_by-get_elem? xs k x at)
