-- ===== src/PolicyStream/Opening.antt =====
-- modulesdk/testkit/hostserver.go with modulesdk/hostclient.go: a stream that has not ended can bring the
-- current policy, also where its watcher has yet to read.
use mathlib.Core.List.{append-nil, append_assoc}
use weaveplatform_sdk.Base.{
  ℕ, ◌+◌, ◌^◌, ◌<◌, ◌≡◌, ◌≢◌, refl, sym, ap, ◌∙◌, true, false, List, [], ◌∷◌, ◌++◌, arith, Bytes,
  length, length-append,
}
use weaveplatform_sdk.PolicyWatch.{Stage, Action}
use weaveplatform_sdk.Relay.{Place}
use weaveplatform_sdk.PolicyStream.{Channel, ChannelReach}
use weaveplatform_sdk.PolicyStream.Arrival.{arrived}
use weaveplatform_sdk.PolicyStream.Looking.{look_step}
use weaveplatform_sdk.PolicyStream.Progress.{Works, same_steps, Current, policy_arrives}

Works-append :
    {c d e : Channel} {as' bs : List Action} → Works c as' d → Works d bs e → Works c (as' ++ bs) e
Works-append {as' = as'} w Works.stay = same_steps (sym (append-nil as')) w
Works-append {as' = as'} w (Works.work {as' = bs} {bs = cs} v st) =
    same_steps (append_assoc as' bs cs) (Works.work (Works-append w v) st)

module _ {revision : ℕ} {document : Bytes} {as' : List Action} {c : Channel}
    (r : ChannelReach revision document as' c) (small : revision + length as' + 3 < 2 ^ 64)
    (no_wake : c.watch.wakes ≡ 0) (whole : c.relay.broken ≡ false)
    (receives : c.relay.place ≡ Place.receiving) where
  after_look : c.watch.stage ≡ Stage.reading → Current c
  after_look reads =
      let (d, st, w) = look_step c reads whole in
      let more : length (as' ++ Action.look true ∷ []) ≡ length as' + 1 =
        omega (arith, length-append as' (Action.look true ∷ [])) in
      let next =
        policy_arrives (ChannelReach.next r st) (omega (arith, small, more)) w.waits
          (w.same_wakes ∙ no_wake) (w.same_broken ∙ whole) (w.same_place ∙ receives) in
      record {
        actions = Action.look true ∷ next.actions;
        own = (tt, next.own);
        state = next.state;
        works = Works-append (Works.work Works.stay st) next.works;
        same_revision = next.same_revision ∙ w.same_revision;
        same_document = next.same_document ∙ w.same_document;
        front = next.front;
        last_received =
            next.last_received
            ∙ ap (λ n. next.front ++ arrived (n, d.watch.document) ∷ []) w.same_revision
            ∙ ap (λ x. next.front ++ arrived (c.watch.revision, x) ∷ []) w.same_document;
      }

  by_stage : (s : Stage) → c.watch.stage ≡ s → s ≢ Stage.closed → Current c
  by_stage Stage.reading at opens = after_look at
  by_stage Stage.waiting at opens =
      policy_arrives r (omega (arith, small)) at no_wake whole receives
  by_stage Stage.closed at opens = absurd (opens refl)

  pub open_arrives : c.watch.stage ≢ Stage.closed → Current c
  open_arrives opens = by_stage c.watch.stage refl opens
