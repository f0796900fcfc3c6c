-- ===== src/Round.antt =====
-- modulesdk/testkit/hostdata.go: what `SetPolicy` and `Publish` share. Each takes a list of channels
-- under the mutex, and sends to them behind it, one after the other, while other calls come between.

pub mod Fanned
pub mod Sends
pub mod Finishing
use weaveplatform_sdk.Base.{
  ℕ, ◌+◌, ◌≤◌, ◌<◌, ◌≡◌, ◌≢◌, refl, ◌&&◌, List, [], ◌∷◌, ◌++◌, arith, All, All-append, leb, ltb,
  if◌then◌else◌,
}

-- A call behind the mutex: what it sends, the place that it sends to next, and how many there were.
pub record Round {ℓ} (A : Type ℓ) : Type ℓ where
  pub item : A
  pub next : ℕ
  pub upto : ℕ

module _ {ℓ} {A : Type ℓ} where
  abbrev pub begun : A → ℕ → Round A
  begun item upto = record { item = item; next = 0; upto = upto }

  abbrev pub moved : Round A → Round A
  moved x = record x { next = x.next + 1 }

  -- What is still to be sent to the place `i`.
  unfoldable pub owed : ℕ → List (Round A) → List A
  owed i [] = []
  owed i (x ∷ xs) =
      let rest = owed i xs in if leb x.next i && ltb i x.upto then x.item ∷ rest else rest

  pub owed-append : (i : ℕ) (xs ys : List (Round A)) → owed i (xs ++ ys) ≡ owed i xs ++ owed i ys
  unfolding owed
  owed-append i [] ys = refl
  owed-append i (x ∷ xs) ys = ground (arith, owed-append i xs ys)

  module _ (before behind : List (Round A)) (x : Round A) where
    -- Before it has been sent to its next place, and after.
    pub owed_self :
        x.next < x.upto
        → (owed x.next (before ++ x ∷ behind) ≡ owed x.next before ++ x.item ∷ owed x.next behind)
          × (owed x.next (before ++ moved x ∷ behind) ≡ owed x.next before ++ owed x.next behind)
    unfolding owed
    owed_self more = (
      ground (arith, owed-append x.next before (x ∷ behind)),
      ground (arith, owed-append x.next before (moved x ∷ behind)),
    )

    pub owed_other :
        (i : ℕ) → x.next ≢ i → owed i (before ++ moved x ∷ behind) ≡ owed i (before ++ x ∷ behind)
    unfolding owed
    owed_other i other =
        ground
          (arith, owed-append i before (x ∷ behind), owed-append i before (moved x ∷ behind), other)

  -- No call is to send to a place that is not there yet.
  unfoldable pub IsWithin : ℕ → List (Round A) → Type 0
  IsWithin m = All (λ x. x.upto ≤ m)

  pub owed_none : (i : ℕ) (xs : List (Round A)) → IsWithin i xs → owed i xs ≡ []
  unfolding owed IsWithin
  owed_none i [] within = refl
  owed_none i (x ∷ xs) within = ground (arith, owed_none i xs within.1)

  pub owed_finished : (i : ℕ) (x : Round A) → x.upto ≤ x.next → owed i (x ∷ []) ≡ []
  unfolding owed
  owed_finished i x over = ground (arith, over)

  pub owed-begun :
      (i m : ℕ) (item : A) (xs : List (Round A))
      → i < m
      → owed i (xs ++ begun item m ∷ []) ≡ owed i xs ++ item ∷ []
  unfolding owed
  owed-begun i m item xs there = ground (arith, owed-append i xs (begun item m ∷ []))

  pub IsWithin-mono : (m n : ℕ) (xs : List (Round A)) → m ≤ n → IsWithin m xs → IsWithin n xs
  unfolding IsWithin
  IsWithin-mono m n [] le h = tt
  IsWithin-mono m n (x ∷ xs) le h = (omega (arith, h.0), IsWithin-mono m n xs le h.1)

  pub IsWithin-at :
      (m : ℕ) (before behind : List (Round A)) (x : Round A)
      → IsWithin m (before ++ x ∷ behind)
      → x.upto ≤ m
  unfolding IsWithin
  IsWithin-at m [] behind x h = h.0
  IsWithin-at m (y ∷ before) behind x h = IsWithin-at m before behind x h.1

  pub IsWithin-moved :
      (m : ℕ) (before behind : List (Round A)) (x : Round A)
      → IsWithin m (before ++ x ∷ behind)
      → IsWithin m (before ++ moved x ∷ behind)
  unfolding IsWithin
  IsWithin-moved m [] behind x h = h
  IsWithin-moved m (y ∷ before) behind x h = (h.0, IsWithin-moved m before behind x h.1)

  pub IsWithin-begun :
      (m : ℕ) (item : A) (xs : List (Round A))
      → IsWithin m xs
      → IsWithin m (xs ++ begun item m ∷ [])
  unfolding IsWithin
  IsWithin-begun m item xs h =
      All-append (λ x. x.upto ≤ m) xs (begun item m ∷ []) h (omega arith, tt)
