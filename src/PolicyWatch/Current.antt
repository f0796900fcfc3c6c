-- ===== src/PolicyWatch/Current.antt =====
-- modulesdk/testkit/hostserver.go: a policy stream sends rising revisions, and no wake-up is lost.
use mathlib.Core.Bool.{false≢true}
use native.Mathlib.Decide.{dec_lt}
use weaveplatform_sdk.Base.{
  ℕ, ◌+◌, ◌%◌, ◌^◌, ◌≤◌, ◌<◌, ◌≡◌, refl, sym, subst, ◌⊎◌, Bool, true, false, List, [], ◌∷◌, ◌++◌,
  arith, Bytes, All, All-append, length, ltb, Bool-cases, inl, inr,
}
use weaveplatform_sdk.PolicyWatch.{Stage, Watch, Action, opened, look_at, act, run}

pub run-snoc : (xs : List Action) (a : Action) (w : Watch) → run (xs ++ a ∷ []) w ≡ act a (run xs w)
unfolding run
run-snoc [] a w = refl
run-snoc (x ∷ xs) a w = run-snoc xs a (act x w)

-- The revisions of the list rise, and all are below the bound.
abbrev pub RisesBelow : ℕ → List (ℕ × Bytes) → Type 0
RisesBelow n [] = Unit {0}
RisesBelow n (x ∷ rest) = (x.0 < n) × All (λ y. x.0 < y.0) rest × RisesBelow n rest

-- The list's last item.
abbrev pub EndsIn : ℕ × Bytes → List (ℕ × Bytes) → Type 0
EndsIn x xs = (front : List (ℕ × Bytes)) × (xs ≡ front ++ x ∷ [])

-- What holds at each moment, as long as the revision has not passed the bound: a stream that waits
-- has sent the current revision, or has a token, or a writer is about to give it one.
record Inv (bound : ℕ) (w : Watch) : Type 0 where
  in_range : w.revision ≤ bound
  sent_before : w.sent ≤ w.revision + 1
  rising : RisesBelow w.sent w.received
  current : w.sent ≡ w.revision + 1 → EndsIn (w.revision, w.document) w.received
  not_forgotten : w.stage ≡ Stage.waiting → w.token ≡ false → w.wakes ≡ 0 → w.sent ≡ w.revision + 1

RisesBelow-snoc :
    (n r : ℕ) (d : Bytes) (xs : List (ℕ × Bytes))
    → RisesBelow n xs
    → n ≤ r
    → RisesBelow (r + 1) (xs ++ (r, d) ∷ [])
RisesBelow-snoc n r d [] h le = (omega arith, tt, tt)
RisesBelow-snoc n r d (x ∷ xs) h le = (
  omega arith,
  All-append (λ y. x.0 < y.0) xs ((r, d) ∷ []) h.1 (omega arith, tt),
  RisesBelow-snoc n r d xs h.2 le,
)

Inv-mono : (bound : ℕ) (w : Watch) → Inv bound w → Inv (bound + 1) w
Inv-mono bound w v = record {
  in_range = omega (arith, v.in_range);
  sent_before = v.sent_before;
  rising = v.rising;
  current = v.current;
  not_forgotten = v.not_forgotten;
}

module _ (bound : ℕ) (w : Watch) (small : bound + 1 < 2 ^ 64) (v : Inv bound w) where
  look_at_new :
      w.sent ≤ w.revision
      → look_at true w ≡ record w {
        stage = Stage.waiting;
        sent = w.revision + 1;
        received = w.received ++ (w.revision, w.document) ∷ [];
      }
  unfolding look_at
  look_at_new le = ground (arith, v.in_range)

  look_at_failed : w.sent ≤ w.revision → look_at false w ≡ record w { stage = Stage.closed }
  unfolding look_at
  look_at_failed le = ground arith

  look_at_old :
      (delivered : Bool)
      → w.revision < w.sent
      → look_at delivered w ≡ record w { stage = Stage.waiting }
  unfolding look_at
  look_at_old true lt = ground arith
  look_at_old false lt = ground arith

  sent-Inv :
      w.sent ≤ w.revision
      → Inv bound (record w {
        stage = Stage.waiting;
        sent = w.revision + 1;
        received = w.received ++ (w.revision, w.document) ∷ [];
      })
  sent-Inv le = record {
    in_range = v.in_range;
    sent_before = omega arith;
    rising = RisesBelow-snoc w.sent w.revision w.document w.received v.rising le;
    current = λ e. (w.received, refl);
    not_forgotten = λ s t k. refl;
  }

  staged-Inv :
      (stage : Stage)
      → (stage ≡ Stage.waiting → w.token ≡ false → w.wakes ≡ 0 → w.sent ≡ w.revision + 1)
      → Inv bound (record w { stage = stage })
  staged-Inv stage h = record {
    in_range = v.in_range;
    sent_before = v.sent_before;
    rising = v.rising;
    current = v.current;
    not_forgotten = h;
  }

  look_at-Inv : (delivered : Bool) → Inv bound (look_at delivered w)
  look_at-Inv delivered = elim (dec_lt w.revision w.sent) [
    | yes old ↦
        rw (look_at_old delivered old)
          (staged-Inv Stage.waiting (λ s t k. omega (arith, v.sent_before)))
    | no new ↦ first delivered (omega arith)
  ]
    where
      first : (delivered : Bool) → w.sent ≤ w.revision → Inv bound (look_at delivered w)
      first true le = rw (look_at_new le) (sent-Inv le)
      first false le = rw (look_at_failed le) (staged-Inv Stage.closed (λ s t k. cc))

  change-Inv : (d : Bytes) → Inv (bound + 1) (act (Action.change d) w)
  unfolding act
  change-Inv d =
      let e : (w.revision + 1) % 2 ^ 64 ≡ w.revision + 1 = omega (arith, v.in_range) in
      record {
        in_range = omega (arith, v.in_range);
        sent_before = omega (arith, v.sent_before, e);
        rising = v.rising;
        current = λ c. absurd (omega (arith, c, v.sent_before, e));
        not_forgotten = λ s t k. absurd (omega (arith, k));
      }

  wake-Inv : Inv bound (act Action.wake w)
  unfolding act
  wake-Inv = elim (Bool-cases (ltb 0 w.wakes)) [
    | inl some_left ↦ rw some_left (record {
      in_range = v.in_range;
      sent_before = v.sent_before;
      rising = v.rising;
      current = v.current;
      not_forgotten = λ s t k. absurd (false≢true (sym t));
    })
    | inr none_left ↦ rw none_left v
  ]

  take_token_cases :
      (act Action.take_token w ≡ w)
      ⊎ (act Action.take_token w ≡ record w { token = false; stage = Stage.reading })
  unfolding act
  take_token_cases = ground arith

  take_token-Inv : Inv bound (act Action.take_token w)
  take_token-Inv = elim take_token_cases [
    | inl e ↦ rw e v
    | inr e ↦ rw e (record {
      in_range = v.in_range;
      sent_before = v.sent_before;
      rising = v.rising;
      current = v.current;
      not_forgotten = λ s t k. cc;
    })
  ]

  hang_up_cases :
      (act Action.hang_up w ≡ w) ⊎ (act Action.hang_up w ≡ record w { stage = Stage.closed })
  unfolding act
  hang_up_cases = ground arith

  hang_up-Inv : Inv bound (act Action.hang_up w)
  hang_up-Inv = elim hang_up_cases [
    | inl e ↦ rw e v
    | inr e ↦ rw e (staged-Inv Stage.closed (λ s t k. cc))
  ]

  look_cases : (b : Bool) → (act (Action.look b) w ≡ w) ⊎ (act (Action.look b) w ≡ look_at b w)
  unfolding act
  look_cases b = ground arith

  look-Inv : (b : Bool) → Inv bound (act (Action.look b) w)
  look-Inv b = elim (look_cases b) [ inl e ↦ rw e v | inr e ↦ rw e (look_at-Inv b) ]

act-Inv :
    (bound : ℕ) (a : Action) (w : Watch)
    → bound + 1 < 2 ^ 64
    → Inv bound w
    → Inv (bound + 1) (act a w)
act-Inv bound (Action.change d) w small v = change-Inv bound w small v d
act-Inv bound Action.wake w small v = Inv-mono bound _ (wake-Inv bound w small v)
act-Inv bound (Action.look b) w small v = Inv-mono bound _ (look-Inv bound w small v b)
act-Inv bound Action.take_token w small v = Inv-mono bound _ (take_token-Inv bound w small v)
act-Inv bound Action.hang_up w small v = Inv-mono bound _ (hang_up-Inv bound w small v)

run-Inv :
    (as' : List Action) (bound : ℕ) (w : Watch)
    → bound + length as' < 2 ^ 64
    → Inv bound w
    → Inv (bound + length as') (run as' w)
unfolding run
run-Inv [] bound w small v = subst (λ n. Inv n w) (omega arith) v
run-Inv (a ∷ as') bound w small v =
    subst (λ n. Inv n (run as' (act a w))) (omega arith)
      (run-Inv as' (bound + 1) (act a w) (omega arith) (act-Inv bound a w (omega arith) v))

opened-Inv : (revision : ℕ) (d : Bytes) → Inv revision (opened revision d)
opened-Inv revision d = record {
  in_range = omega arith;
  sent_before = omega arith;
  rising = tt;
  current = λ e. absurd (omega (arith, e));
  not_forgotten = λ s t k. cc;
}

-- However writers and the watcher interleave, as long as the revision stays within 64 bits: the
-- revisions that the stream delivers rise, so none comes twice.
pub watch_rises :
    (as' : List Action) (revision : ℕ) (d : Bytes)
    → revision + length as' < 2 ^ 64
    → let w = run as' (opened revision d) in RisesBelow w.sent w.received
watch_rises as' revision d small =
    (run-Inv as' revision (opened revision d) small (opened-Inv revision d)).rising

-- However writers and the watcher interleave, as long as the revision stays within 64 bits: when the
-- watcher waits with no token and no writer is about to give one, the last delivery is the current
-- document. So no wake-up is lost.
pub watch_current :
    (as' : List Action) (revision : ℕ) (d : Bytes)
    → revision + length as' < 2 ^ 64
    → (run as' (opened revision d)).stage ≡ Stage.waiting
    → (run as' (opened revision d)).token ≡ false
    → (run as' (opened revision d)).wakes ≡ 0
    → let w = run as' (opened revision d) in EndsIn (w.revision, w.document) w.received
watch_current as' revision d small waits no_token no_wake =
    let v = run-Inv as' revision (opened revision d) small (opened-Inv revision d) in
    v.current (v.not_forgotten waits no_token no_wake)
