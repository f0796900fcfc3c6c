-- ===== src/Tests/Watchers.antt =====
-- Two watchers of the policy and two writers at a concrete run.
use weaveplatform_sdk.Base.{◌≡◌, refl, none, some, true, false, [], ◌∷◌, arith, codes}
use weaveplatform_sdk.PolicyWatch.{Stage, Action, act, look_at}
use weaveplatform_sdk.PolicyWatch.Current.{EndsIn}
use weaveplatform_sdk.PolicyWatch.Watchers.{
  Slot, Policy, set_policy, new_slot, add_policy_watcher, PolicyStep, PolicyReach,
}
use weaveplatform_sdk.Round.{owed}
use weaveplatform_sdk.Errors.{as_status}
use weaveplatform_sdk.HostData.{new_host_data}
use weaveplatform_sdk.HostCalls.{PolicyDocument, wrong_token}
use weaveplatform_sdk.HostCalls.Gate.{admits, admits_iff, unauthenticated}
use weaveplatform_sdk.HostCalls.Policy.{get_policy, get_policy-watcher}

-- Two watchers, of which the second one has sent the second writer's document before a wake-up.
abbrev waiting_slot : Slot
waiting_slot = record {
  token = false;
  stage = Stage.waiting;
  sent = 3;
  received = (2, codes "b") ∷ [];
}

-- The first writer has woken both watchers, and the second one has woken the second watcher last.
abbrev settled : Policy
settled = record {
  revision = 2;
  document = codes "b";
  watchers =
      record { token = true; stage = Stage.reading; sent = 0; received = [] } ∷ waiting_slot ∷ [];
  writers =
      record { item = tt; next = 2; upto = 2 } ∷ record { item = tt; next = 2; upto = 2 } ∷ [];
}

settled-PolicyReach : PolicyReach 11 settled
unfolding set_policy add_policy_watcher act look_at
settled-PolicyReach =
    let added =
      PolicyReach.next (PolicyReach.next PolicyReach.start PolicyStep.register)
        PolicyStep.register in
    let changed =
      PolicyReach.next (PolicyReach.next added (PolicyStep.change (codes "a")))
        (PolicyStep.change (codes "b")) in
    let one = PolicyReach.next changed (
      PolicyStep.wake [] (record { item = tt; next = 0; upto = 2 } ∷ [])
        (record { item = tt; next = 0; upto = 2 }) new_slot refl (omega arith) refl) in
    let token_slot : Slot = record new_slot { token = true } in
    let two = PolicyReach.next one (
      PolicyStep.wake (record { item = tt; next = 1; upto = 2 } ∷ []) []
        (record { item = tt; next = 0; upto = 2 }) token_slot refl (omega arith) refl) in
    let three = PolicyReach.next two (
      PolicyStep.wake [] (record { item = tt; next = 1; upto = 2 } ∷ [])
        (record { item = tt; next = 1; upto = 2 }) new_slot refl (omega arith) refl) in
    let four =
      PolicyReach.next three (PolicyStep.watching 1 (Action.look true) token_slot tt refl) in
    let five = PolicyReach.next four (
      PolicyStep.wake (record { item = tt; next = 2; upto = 2 } ∷ []) []
        (record { item = tt; next = 1; upto = 2 }) (record waiting_slot { token = true }) refl
        (omega arith) refl) in
    let six =
      PolicyReach.next five
        (PolicyStep.watching 1 Action.take_token (record waiting_slot { token = true }) tt refl) in
    PolicyReach.next six (
      PolicyStep.watching 1 (Action.look true) (record waiting_slot { stage = Stage.reading }) tt
        refl)

one_token : admits (codes "t") (codes "t") [] ≡ true
one_token = (admits_iff (codes "t") (codes "t") []).1 (refl, refl)

found : as_status unauthenticated ≡ some wrong_token
unfolding as_status
found = refl

all_woken : owed 1 settled.writers ≡ []
unfolding owed
all_woken = refl

get_policy-watcher_example :
    (doc : PolicyDocument) × (get_policy as_status (codes "t") (codes "t") [] settled new_host_data
      ≡ (new_host_data, doc, none))
    × EndsIn (doc.revision, doc.payload) waiting_slot.received
get_policy-watcher_example =
    get_policy-watcher as_status (codes "t") (codes "t") [] settled-PolicyReach 1 waiting_slot
      new_host_data refl (omega arith) refl refl all_woken found one_token
