-- ===== src/PolicyWatch/Watchers/Views.antt =====
-- modulesdk/testkit/hostdata.go and hostserver.go: each of many watchers sees a run of one watcher.

use weaveplatform_sdk.Base.{
  ℕ, suc, ◌+◌, ◌^◌, ◌≤◌, ◌<◌, ◌≡◌, refl, sym, ap, ◌∙◌, subst, true, false, List, [], ◌∷◌, ◌++◌,
  some, arith, Bytes, length, length-append, get_elem?, set,
}
use weaveplatform_sdk.Round.{moved, owed}
use weaveplatform_sdk.Round.Fanned.{
  IsFanned, IsFanned-begun, IsFanned-added, IsFanned-set, IsFanned-moved, none-IsFanned,
}
use weaveplatform_sdk.PolicyWatch.{Stage, Watch, Action, act, opened, run}
use weaveplatform_sdk.PolicyWatch.Current.{RisesBelow, EndsIn, run-snoc, watch_rises, watch_current}
use weaveplatform_sdk.PolicyWatch.Watchers.{
  Slot, Writer, Policy, new_policy, set_policy, new_slot, add_policy_watcher, watch_of, slot_of,
  IsOwn, PolicyStep, PolicyReach,
}

-- A watcher's own action does not read what it is owed.
pub act_own :
    (a : Action) (wakes : ℕ) (p : Policy) (w : Slot)
    → IsOwn a
    → watch_of p wakes (slot_of (act a (watch_of p 0 w))) ≡ act a (watch_of p wakes w)
unfolding act
act_own (Action.change d) wakes p w own = absurd own
act_own Action.wake wakes p w own = absurd own
act_own (Action.look delivered) wakes p w own = ground arith
act_own Action.take_token wakes p w own = ground arith
act_own Action.hang_up wakes p w own = ground arith

pub act_wake :
    (wakes : ℕ) (p : Policy) (w : Slot)
    → act Action.wake (watch_of p (wakes + 1) w) ≡ watch_of p wakes (record w { token = true })
unfolding act
act_wake wakes p w = ground arith

-- What the watcher sees is a run of `PolicyWatch`, from the policy when it was added.
pub record IsView (n : ℕ) (w : Watch) : Type 0 where
  pub revision : ℕ
  pub document : Bytes
  pub actions : List Action
  pub same : w ≡ run actions (opened revision document)
  pub within : revision + length actions ≤ n

-- One more action, or none.
IsView-act : (n : ℕ) (a : Action) (w v : Watch) → IsView n w → v ≡ act a w → IsView (suc n) v
IsView-act n a w v h e = record {
  revision = h.revision;
  document = h.document;
  actions = h.actions ++ a ∷ [];
  same = e ∙ ap (act a) h.same ∙ sym (run-snoc h.actions a (opened h.revision h.document));
  within = omega (arith, h.within, length-append h.actions (a ∷ []));
}

IsView-stay : (n : ℕ) (w v : Watch) → IsView n w → v ≡ w → IsView (suc n) v
IsView-stay n w v h e = record {
  revision = h.revision;
  document = h.document;
  actions = h.actions;
  same = e ∙ h.same;
  within = omega (arith, h.within);
}

-- A watcher with the wake-ups that it is owed.
Seen : ℕ → Policy → List (Unit {0}) → Slot → Type 0
Seen n p rest w = IsView n (watch_of p (length rest) w)

record IsTracked (n : ℕ) (p : Policy) : Type 0 where
  small : p.revision ≤ n
  fanned : IsFanned (Seen n p) p.writers p.watchers

pub one_less :
    (front back : List (Unit {0})) (u : Unit {0})
    → length (front ++ u ∷ back) ≡ length (front ++ back) + 1
one_less front back u = omega (arith, length-append front (u ∷ back), length-append front back)

module _ (n : ℕ) (p : Policy) (t : IsTracked n p) where
  later : (rest : List (Unit {0})) (w : Slot) → Seen n p rest w → Seen (suc n) p rest w
  unfolding Seen
  later rest w v = IsView-stay n (watch_of p (length rest) w) _ v refl

  change-IsTracked : (document : Bytes) → IsTracked (suc n) (set_policy document p)
  unfolding set_policy act Seen
  change-IsTracked document = record {
    small = omega (arith, t.small);
    fanned = IsFanned-begun p.writers p.watchers t.fanned tt (λ rest w v.
        IsView-act n (Action.change document) (watch_of p (length rest) w) _ v
          (ap (λ k. watch_of (set_policy document p) k w) (length-append rest (tt ∷ []))));
  }

  wake-IsTracked :
      (before behind : List Writer) (x : Writer) (w : Slot)
      → p.writers ≡ before ++ x ∷ behind
      → x.next < x.upto
      → get_elem? p.watchers x.next ≡ some w
      → IsTracked (suc n) (record p {
        writers = before ++ moved x ∷ behind;
        watchers = set p.watchers x.next (record w { token = true });
      })
  unfolding Seen
  wake-IsTracked before behind x w split more at = record {
    small = omega (arith, t.small);
    fanned =
        IsFanned-moved p.writers p.watchers t.fanned before behind x w (record w { token = true })
          split more at later
          (λ front back v.
            IsView-act n Action.wake (watch_of p (length (front ++ x.item ∷ back)) w) _ v (
              sym (act_wake (length (front ++ back)) p w)
              ∙ ap (λ k. act Action.wake (watch_of p k w)) (sym (one_less front back x.item))));
  }

  register-IsTracked : IsTracked (suc n) (add_policy_watcher p)
  unfolding add_policy_watcher run Seen
  register-IsTracked = record {
    small = omega (arith, t.small);
    fanned = IsFanned-added p.writers p.watchers t.fanned new_slot later (record {
      revision = p.revision;
      document = p.document;
      actions = [];
      same = refl;
      within = omega (arith, t.small);
    });
  }

  watching-IsTracked :
      (k : ℕ) (a : Action) (w : Slot)
      → IsOwn a
      → get_elem? p.watchers k ≡ some w
      → IsTracked
          (suc n)
          (record p { watchers = set p.watchers k (slot_of (act a (watch_of p 0 w))) })
  unfolding Seen
  watching-IsTracked k a w own at = record {
    small = omega (arith, t.small);
    fanned =
        IsFanned-set p.writers p.watchers t.fanned k w (slot_of (act a (watch_of p 0 w))) at later
          (λ rest v.
            IsView-act n a (watch_of p (length rest) w) _ v (act_own a (length rest) p w own));
  }

PolicyStep-IsTracked : {n : ℕ} {p q : Policy} → PolicyStep p q → IsTracked n p → IsTracked (suc n) q
PolicyStep-IsTracked {n} {p} (PolicyStep.change document) t = change-IsTracked n p t document
PolicyStep-IsTracked {n} {p} (PolicyStep.wake before behind x w split more at) t =
    wake-IsTracked n p t before behind x w split more at
PolicyStep-IsTracked {n} {p} PolicyStep.register t = register-IsTracked n p t
PolicyStep-IsTracked {n} {p} (PolicyStep.watching k a w own at) t =
    watching-IsTracked n p t k a w own at

PolicyReach-IsTracked : {n : ℕ} {p : Policy} → PolicyReach n p → IsTracked n p
PolicyReach-IsTracked PolicyReach.start = record {
  small = omega arith;
  fanned = none-IsFanned (Seen 0 new_policy);
}
PolicyReach-IsTracked (PolicyReach.next r st) = PolicyStep-IsTracked st (PolicyReach-IsTracked r)

module _ {n : ℕ} {p : Policy} (r : PolicyReach n p) (i : ℕ) (w : Slot)
    (at : get_elem? p.watchers i ≡ some w) where
  -- Whatever writers and watchers there are and however they take turns, each watcher goes through a
  -- run of `PolicyWatch` that begins with the policy when it was added, with as many wake-ups to come
  -- as there are writers that have yet to wake it; and the run has at most one action for each step.
  pub watcher_refines : IsView n (watch_of p (length (owed i p.writers)) w)
  unfolding Seen
  watcher_refines = (PolicyReach-IsTracked r).fanned.each i w at

  -- The revisions that a stream delivers rise, in fewer than 2^64 steps.
  watcher_rises : n < 2 ^ 64 → RisesBelow w.sent w.received
  watcher_rises small =
      let v = watcher_refines in
      subst (λ x. RisesBelow x.sent x.received) (sym v.same)
        (watch_rises v.actions v.revision v.document (omega (arith, v.within, small)))

  -- Whatever writers and watchers there are and however they took turns, in fewer than 2^64 steps: once
  -- a watcher waits with no token, and no writer has yet to wake it, the last document that it has
  -- delivered is the current one.
  pub watcher_current :
      n < 2 ^ 64
      → w.stage ≡ Stage.waiting
      → w.token ≡ false
      → owed i p.writers ≡ []
      → EndsIn (p.revision, p.document) w.received
  watcher_current small waits spent settled =
      let v = watcher_refines in
      subst (λ x. EndsIn (x.revision, x.document) x.received) (sym v.same)
        (watch_current v.actions v.revision v.document (omega (arith, v.within, small))
          (sym (ap (λ x. x.stage) v.same) ∙ waits) (sym (ap (λ x. x.token) v.same) ∙ spent)
          (sym (ap (λ x. x.wakes) v.same) ∙ ap length settled))
