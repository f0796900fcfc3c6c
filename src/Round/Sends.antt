-- ===== src/Round/Sends.antt =====
-- modulesdk/testkit/hostdata.go: sends of the calls behind the mutex, and what they make of a receiver.

use native.Mathlib.Decide.{ℕ_discrete}
use weaveplatform_sdk.Base.{
  ℕ, zero, suc, ◌+◌, ◌<◌, ◌≡◌, refl, sym, ap, ◌∙◌, subst, List, [], ◌∷◌, ◌++◌, some, arith, set,
  get_elem?, get_elem?-set_self, get_elem?-set_other,
}
use weaveplatform_sdk.Round.{Round, moved, owed, owed_self, owed_other}

-- `get item f` is the receiver `f` after a send of `item` to it.
module _ {A F : Type 0} (get : A → F → F) where
  -- A number of sends, of whichever calls.
  pub data Sends : ℕ → List (Round A) → List F → List (Round A) → List F → Type 0 where
    none_left : {rounds : List (Round A)} {items : List F} → Sends zero rounds items rounds items
    send :
        {k : ℕ} {rounds rounds' : List (Round A)} {items items' : List F}
        (before behind : List (Round A)) (x : Round A) (f : F)
        → rounds ≡ before ++ x ∷ behind
        → x.next < x.upto
        → get_elem? items x.next ≡ some f
        → Sends k (before ++ moved x ∷ behind) (set items x.next (get x.item f)) rounds' items'
        → Sends (suc k) rounds items rounds' items'

  counted :
      {j k : ℕ} {r s : List (Round A)} {xs ys : List F}
      → j ≡ k
      → Sends j r xs s ys
      → Sends k r xs s ys
  counted {r = r} {s} {xs} {ys} e u = subst (λ n. Sends n r xs s ys) e u

  pub Sends-append :
      {j k : ℕ} {r s t : List (Round A)} {xs ys zs : List F}
      → Sends j r xs s ys
      → Sends k s ys t zs
      → Sends (j + k) r xs t zs
  Sends-append Sends.none_left v = counted (omega arith) v
  Sends-append (Sends.send before behind x f split more at u) v =
      counted (omega arith) (Sends.send before behind x f split more at (Sends-append u v))

  -- A receiver after all that it is owed.
  abbrev pub after_all : List A → F → F
  after_all [] f = f
  after_all (a ∷ rest) f = after_all rest (get a f)

  module _ (i : ℕ) where
    -- So many sends have made `g` of the receiver `f` at `i`.
    pub record IsServed (count : ℕ) (r : List (Round A)) (xs : List F) (f : F) (s : List (Round A))
        (ys : List F) (g : F) : Type 0 where
      pub sends : Sends count r xs s ys
      pub at : get_elem? ys i ≡ some g
      pub balance : after_all (owed i s) g ≡ after_all (owed i r) f

    pub nothing_sent :
        (r : List (Round A)) (xs : List F) (f : F)
        → get_elem? xs i ≡ some f
        → IsServed 0 r xs f r xs f
    nothing_sent r xs f at = record { sends = Sends.none_left; at = at; balance = refl }

    pub both_sent :
        {j k : ℕ} {r s t : List (Round A)} {xs ys zs : List F} {f g h : F}
        → IsServed j r xs f s ys g
        → IsServed k s ys g t zs h
        → IsServed (j + k) r xs f t zs h
    both_sent v w = record {
      sends = Sends-append v.sends w.sends;
      at = w.at;
      balance = w.balance ∙ v.balance;
    }

    module _ (before rest : List (Round A)) (x : Round A) (xs : List F) (f : F)
        (at : get_elem? xs i ≡ some f) (none_before : owed i before ≡ [])
        (more : x.next < x.upto) where
      abbrev one_sent : F → List F
      one_sent y = set xs x.next (get x.item y)

      send_here :
          x.next ≡ i
          → (y : F) → get_elem? xs x.next ≡ some y
          → IsServed 1
              (before ++ x ∷ rest)
              xs
              f
              (before ++ moved x ∷ rest)
              (one_sent y)
              (get x.item f)
      send_here here y there =
          let (with_it, without) = owed_self before rest x more in
          let same : y ≡ f = cc (at, there, ap (get_elem? xs) here) in
          let owed_now : owed i (before ++ x ∷ rest) ≡ x.item ∷ owed i rest =
            subst (λ j. owed j (before ++ x ∷ rest) ≡ owed j before ++ x.item ∷ owed j rest) here
              with_it
            ∙ ap (λ l. l ++ x.item ∷ owed i rest) none_before in
          let owed_then : owed i (before ++ moved x ∷ rest) ≡ owed i rest =
            subst (λ j. owed j (before ++ moved x ∷ rest) ≡ owed j before ++ owed j rest) here
              without
            ∙ ap (λ l. l ++ owed i rest) none_before in
          record {
            sends = Sends.send before rest x y refl more there Sends.none_left;
            at =
                ap (get_elem? (one_sent y)) (sym here)
                ∙ get_elem?-set_self xs x.next (get x.item y) y there
                ∙ ap (λ z. some (get x.item z)) same;
            balance =
                ap (λ l. after_all l (get x.item f)) owed_then
                ∙ ap (λ l. after_all l f) (sym owed_now);
          }

      -- One send, to the receiver or to another.
      pub send_one :
          (y : F)
          → get_elem? xs x.next ≡ some y
          → (g : F) × IsServed 1 (before ++ x ∷ rest) xs f (before ++ moved x ∷ rest) (one_sent y) g
      send_one y there = elim (ℕ_discrete x.next i) [
        | yes here ↦ (get x.item f, send_here here y there)
        | no other ↦ (
          f,
          record {
            sends = Sends.send before rest x y refl more there Sends.none_left;
            at = get_elem?-set_other xs x.next i (get x.item y) other ∙ at;
            balance = ap (λ l. after_all l f) (owed_other before rest x i other);
          },
        )
      ]
