-- ===== src/Retry.antt =====
-- retry/retry.go: the backoff curve. Go's float64 is a parameter: a type with the operations that
-- the code uses; a `time.Duration` is its nanoseconds. The random factor is an argument.
use weaveplatform_sdk.Base.{
  ℕ, zero, suc, ◌*◌, ◌^◌, ◌≤◌, ◌<◌, ◌≡◌, ◌⊎◌, inl, inr, refl, ap, ◌∙◌, Bool, true, false, min,
  arith, leb, if◌then◌else◌, Bool-cases,
}
use native.Mathlib.Nat.{pow-suc, mul_assoc, mul_comm}

pub record Float : Type 1 where
  pub F : Type 0
  pub of : ℕ → F
  pub mul : F → F → F
  -- a >= b
  pub ge : F → F → Bool
  -- the conversion to an integer
  pub to_int : F → ℕ

pow_step : (r : ℕ) → 2 ^ suc r ≡ 2 ^ r * 2
pow_step r = pow-suc 2 r

doubled_pow : (d r : ℕ) → (d * 2) * 2 ^ r ≡ d * 2 ^ suc r
doubled_pow d r = rw (pow_step r) (mul_assoc d 2 (2 ^ r) ∙ ap (λ n. d * n) (mul_comm 2 (2 ^ r)))

pow_pos : (r : ℕ) → 1 ≤ 2 ^ r
pow_pos zero = omega arith
pow_pos (suc r) = let e = pow_step r in let h = pow_pos r in omega (arith, e, h)

times_pos : (a n : ℕ) → 1 ≤ n → a ≤ a * n
times_pos a zero h = omega arith
times_pos a (suc n) h = grind arith

doubled_big : (d r : ℕ) → 120000000000 ≤ d * 2 → 120000000000 ≡ min 120000000000 (d * 2 ^ suc r)
doubled_big d r h =
    let e = doubled_pow d r in let k = times_pos (d * 2) (2 ^ r) (pow_pos r) in omega (arith, e, k)

module _ (float : Float) where
  open float use {F, of, mul, ge, to_int}

  pub record Backoff : Type 0 where
    pub initial : ℕ
    pub max : ℕ
    pub factor : F

  -- `New`: one second, two minutes, doubling.
  unfoldable pub new_backoff : Backoff
  new_backoff = record { initial = 1000000000; max = 120000000000; factor = of 2 }

  -- The loop of `Delay`, for the rounds that are left; `break` leaves it.
  unfoldable pub grow : Backoff → ℕ → F → F
  grow b zero d = d
  grow b (suc rounds) d =
      let next = grow b rounds (mul d b.factor) in
      if ge (mul d b.factor) (of b.max) then of b.max else next

  unfoldable pub computed : Backoff → ℕ → F
  unfolding grow
  computed b attempt = grow b attempt (of b.initial)

  -- `rand.Float64()` gives the draw.
  unfoldable pub delay : Backoff → F → ℕ → ℕ
  unfolding computed
  delay b draw attempt = to_int (mul draw (computed b attempt))

  -- Where the numbers stay exact: what is assumed of float64 for whole numbers below 2^53.
  pub record IsExact : Type 0 where
    pub mul-of : (a b : ℕ) → a * b < 2 ^ 53 → mul (of a) (of b) ≡ of (a * b)
    pub ge-of : (a b : ℕ) → a < 2 ^ 53 → b < 2 ^ 53 → ge (of a) (of b) ≡ leb b a

  module _ (b : Backoff) (rounds : ℕ) (d : F) where
    grow_big : ge (mul d b.factor) (of b.max) ≡ true → grow b (suc rounds) d ≡ of b.max
    unfolding grow
    grow_big e = rw e refl

    grow_small :
        ge (mul d b.factor) (of b.max) ≡ false
        → grow b (suc rounds) d ≡ grow b rounds (mul d b.factor)
    unfolding grow
    grow_small e = rw e refl

  grow_capped :
      (b : Backoff) (rounds : ℕ) (d : F)
      → ge d (of b.max) ≡ false
      → (grow b rounds d ≡ of b.max) ⊎ (ge (grow b rounds d) (of b.max) ≡ false)
  grow_capped b zero d e = inr (unfold grow in e)
  grow_capped b (suc rounds) d e = elim (Bool-cases (ge (mul d b.factor) (of b.max))) [
    | inl big ↦ inl (grow_big b rounds d big)
    | inr small ↦ rw (grow_small b rounds d small) (grow_capped b rounds (mul d b.factor) small)
  ]

  computed_capped :
      (b : Backoff) (rounds : ℕ) (d : F)
      → (grow b (suc rounds) d ≡ of b.max) ⊎ (ge (grow b (suc rounds) d) (of b.max) ≡ false)
  computed_capped b rounds d = elim (Bool-cases (ge (mul d b.factor) (of b.max))) [
    | inl big ↦ inl (grow_big b rounds d big)
    | inr small ↦ rw (grow_small b rounds d small) (grow_capped b rounds (mul d b.factor) small)
  ]

  grow_doubles :
      (exact : IsExact) (rounds d : ℕ)
      → d < 120000000000
      → grow new_backoff rounds (of d) ≡ of (min 120000000000 (d * 2 ^ rounds))
  unfolding new_backoff
  grow_doubles exact zero d h = unfold grow in ap of (omega arith)
  grow_doubles exact (suc rounds) d h =
      let doubled = exact.mul-of d 2 (omega arith) in
      let test : ge (mul (of d) (of 2)) (of 120000000000) ≡ leb 120000000000 (d * 2) =
        rw doubled (exact.ge-of (d * 2) 120000000000 (omega arith) (omega arith)) in
      elim (Bool-cases (leb 120000000000 (d * 2))) [
        | inl big ↦
            grow_big new_backoff rounds (of d) (test ∙ big)
            ∙ ap of (doubled_big d rounds (ground arith))
        | inr small ↦
            grow_small new_backoff rounds (of d) (test ∙ small)
            ∙ ap (grow new_backoff rounds) doubled
            ∙ grow_doubles exact rounds (d * 2) (ground arith)
            ∙ ap (λ n. of (min 120000000000 n)) (doubled_pow d rounds)
      ]

  -- Let float64 be exact for whole numbers below 2^53. From the second attempt on, the computed delay
  -- is the cap or tests below it, whatever the curve; and on the conventional curve it is, for every
  -- attempt, a second doubled for each attempt before, or two minutes where that is less.
  pub computed_curve :
      (exact : IsExact) (b : Backoff) (attempt : ℕ)
      → ((computed b (suc attempt) ≡ of b.max) ⊎ (ge (computed b (suc attempt)) (of b.max) ≡ false))
        × (computed new_backoff attempt ≡ of (min 120000000000 (1000000000 * 2 ^ attempt)))
  unfolding computed new_backoff
  computed_curve exact b attempt = (
    computed_capped b attempt (of b.initial),
    grow_doubles exact attempt 1000000000 (omega arith),
  )
