-- ===== src/PolicyStream/Looking.antt =====
-- modulesdk/testkit/hostserver.go with modulesdk/hostclient.go: a look of the stub's watcher at the
-- policy.

use weaveplatform_sdk.Base.{
  ◌+◌, ◌%◌, ◌^◌, ◌≡◌, refl, ap, ◌⊎◌, true, false, [], ◌∷◌, ◌++◌, leb, Bool-cases, inl, inr,
}
use weaveplatform_sdk.PolicyWatch.{Stage, Watch, Action, act, look_at}
use weaveplatform_sdk.PolicyStream.{Channel, ChannelStep}

pub act_take :
    (w : Watch)
    → w.stage ≡ Stage.waiting
    → w.token ≡ true
    → act Action.take_token w ≡ record w { token = false; stage = Stage.reading }
unfolding act
act_take w waits token = rw (waits, token) refl

-- The look sends the current document, or it has been sent.
look_cases :
    (w : Watch)
    → w.stage ≡ Stage.reading
    → (act (Action.look true) w ≡ record w { stage = Stage.waiting })
      ⊎ (act (Action.look true) w ≡ record w {
        stage = Stage.waiting;
        sent = (w.revision + 1) % 2 ^ 64;
        received = w.received ++ (w.revision, w.document) ∷ [];
      })
unfolding act look_at
look_cases w reads = elim (Bool-cases (leb w.sent w.revision)) [
  | inl new ↦ inr (rw (reads, new) refl)
  | inr old ↦ inl (rw (reads, old) refl)
]

-- What a look leaves as it is.
pub record IsLooked (c d : Channel) : Type 0 where
  pub same_revision : d.watch.revision ≡ c.watch.revision
  pub same_document : d.watch.document ≡ c.watch.document
  pub waits : d.watch.stage ≡ Stage.waiting
  pub same_token : d.watch.token ≡ c.watch.token
  pub same_wakes : d.watch.wakes ≡ c.watch.wakes
  pub same_place : d.relay.place ≡ c.relay.place
  pub same_broken : d.relay.broken ≡ c.relay.broken

pub look_step :
    (c : Channel)
    → c.watch.stage ≡ Stage.reading
    → c.relay.broken ≡ false
    → (d : Channel) × ChannelStep c (Action.look true ∷ []) d × IsLooked c d
look_step c reads whole = elim (look_cases c.watch reads) [
  | inl e ↦ (
    _,
    ChannelStep.acting (Action.look true) (ap (λ w. w.received) e),
    record {
      same_revision = ap (λ w. w.revision) e;
      same_document = ap (λ w. w.document) e;
      waits = ap (λ w. w.stage) e;
      same_token = ap (λ w. w.token) e;
      same_wakes = ap (λ w. w.wakes) e;
      same_place = refl;
      same_broken = refl;
    },
  )
  | inr e ↦ (
    _,
    ChannelStep.sending (Action.look true) (c.watch.revision, c.watch.document)
        (ap (λ w. w.received) e) whole,
    record {
      same_revision = ap (λ w. w.revision) e;
      same_document = ap (λ w. w.document) e;
      waits = ap (λ w. w.stage) e;
      same_token = ap (λ w. w.token) e;
      same_wakes = ap (λ w. w.wakes) e;
      same_place = refl;
      same_broken = refl;
    },
  )
]
