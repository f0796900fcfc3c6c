-- ===== src/Round/Finishing.antt =====
-- modulesdk/testkit/hostdata.go: the calls that send behind the mutex can finish, and what a receiver has
-- then got.
use mathlib.Core.List.{append_assoc, append-nil}
use native.Mathlib.Decide.{dec_lt}
use weaveplatform_sdk.Base.{
  ℕ, zero, suc, ◌+◌, ◌≤◌, ◌≡◌, refl, sym, ap, ◌∙◌, subst, List, [], ◌∷◌, ◌++◌, some, arith, set,
  get_elem?, get_elem?-some, length, length-set, sum_by,
}
use weaveplatform_sdk.Round.{
  Round, moved, owed, owed-append, owed_finished, IsWithin, IsWithin-at, IsWithin-moved,
  IsWithin-mono,
}
use weaveplatform_sdk.Round.Sends.{
  Sends, Sends-append, after_all, IsServed, nothing_sent, both_sent, send_one,
}

-- Of the receiver at `i`.
module _ {A F : Type 0} (get : A → F → F) (i : ℕ) where
  -- A call that has sent to all that it is to send to, in `limit` sends at most.
  record Finished (limit : ℕ) (before rest : List (Round A)) (x : Round A) (xs : List F) (f : F)
      : Type 0 where
    items : List F
    item : F
    round : Round A
    count : ℕ
    served : IsServed get i count (before ++ x ∷ rest) xs f (before ++ round ∷ rest) items item
    over : round.upto ≤ round.next
    few : count ≤ limit
    within : IsWithin (length items) (before ++ round ∷ rest)

  module _ (before rest : List (Round A)) (none_before : owed i before ≡ []) where
    is_over :
        (d : ℕ) (x : Round A) (xs : List F) (f : F)
        → get_elem? xs i ≡ some f
        → IsWithin (length xs) (before ++ x ∷ rest)
        → x.upto ≤ x.next
        → Finished d before rest x xs f
    is_over d x xs f at within over = record {
      items = xs;
      item = f;
      round = x;
      count = 0;
      served = nothing_sent get i (before ++ x ∷ rest) xs f at;
      over = over;
      few = omega arith;
      within = within;
    }

    finish_one :
        (d : ℕ) (x : Round A) (xs : List F) (f : F)
        → get_elem? xs i ≡ some f
        → IsWithin (length xs) (before ++ x ∷ rest)
        → x.upto ≤ x.next + d
        → Finished d before rest x xs f
    finish_one zero x xs f at within enough = is_over zero x xs f at within (omega (arith, enough))
    finish_one (suc d) x xs f at within enough = elim (dec_lt x.next x.upto) [
      | no over ↦ is_over (suc d) x xs f at within (omega (arith, over))
      | yes more ↦
          let top = IsWithin-at (length xs) before rest x within in
          let (y, there) = get_elem?-some xs x.next (omega (arith, top, more)) in
          let (g, one) = send_one get i before rest x xs f at none_before more y there in
          let ys = set xs x.next (get x.item y) in
          let others =
            finish_one d (moved x) ys g one.at
              (IsWithin-mono (length xs) (length ys) (before ++ moved x ∷ rest)
                (omega (arith, length-set xs x.next (get x.item y)))
                (IsWithin-moved (length xs) before rest x within))
              (omega (arith, enough)) in
          record {
            items = others.items;
            item = others.item;
            round = others.round;
            count = 1 + others.count;
            served = both_sent get i one others.served;
            over = others.over;
            few = omega (arith, others.few);
            within = others.within;
          }
    ]

  -- All of them have.
  pub record Settled (limit : ℕ) (r : List (Round A)) (xs : List F) (f : F) : Type 0 where
    pub rounds : List (Round A)
    pub items : List F
    pub count : ℕ
    pub sends : Sends get count r xs rounds items
    pub few : count ≤ limit
    pub none_owed : owed i rounds ≡ []
    pub got_all : get_elem? items i ≡ some (after_all get (owed i r) f)

  finish_all :
      (rest before : List (Round A)) (xs : List F) (f : F)
      → get_elem? xs i ≡ some f
      → IsWithin (length xs) (before ++ rest)
      → owed i before ≡ []
      → Settled (sum_by (λ x. x.upto) rest) (before ++ rest) xs f
  finish_all [] before xs f at within none_before = record {
    rounds = before ++ [];
    items = xs;
    count = 0;
    sends = Sends.none_left;
    few = omega arith;
    none_owed = settled;
    got_all = at ∙ ap (λ l. some (after_all get l f)) (sym settled);
  }
    where
      settled : owed i (before ++ []) ≡ []
      settled = ap (owed i) (append-nil before) ∙ none_before
  finish_all (x ∷ rest) before xs f at within none_before =
      let one = finish_one before rest none_before x.upto x xs f at within (omega arith) in
      let s = one.served in
      let shift = append_assoc before (one.round ∷ []) rest in
      let over : owed i (before ++ one.round ∷ []) ≡ [] =
        owed-append i before (one.round ∷ [])
        ∙ cc (
          ap (λ l. l ++ owed i (one.round ∷ [])) none_before,
          owed_finished i one.round one.over,
        ) in
      let others =
        finish_all rest (before ++ one.round ∷ []) one.items one.item s.at
          (subst (IsWithin (length one.items)) (sym shift) one.within) over in
      record {
        rounds = others.rounds;
        items = others.items;
        count = one.count + others.count;
        sends = Sends-append get s.sends (
            subst (λ r. Sends get others.count r one.items others.rounds others.items) shift
              others.sends);
        few = omega (arith, one.few, others.few);
        none_owed = others.none_owed;
        got_all =
            others.got_all
            ∙ ap (λ r. some (after_all get (owed i r) one.item)) shift
            ∙ ap some s.balance;
      }

  -- Every call can finish: what the receiver at `i` is owed then, it has got.
  pub settle :
      (r : List (Round A)) (xs : List F) (f : F)
      → get_elem? xs i ≡ some f
      → IsWithin (length xs) r
      → Settled (sum_by (λ x. x.upto) r) r xs f
  unfolding owed
  settle r xs f at within = finish_all r [] xs f at within refl
