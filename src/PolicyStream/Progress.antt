-- ===== src/PolicyStream/Progress.antt =====
-- modulesdk/testkit/hostserver.go with modulesdk/hostclient.go: the stub's watcher and the client's
-- goroutine can bring the current policy to the module.
use mathlib.Core.List.{append-nil, append_assoc}
use weaveplatform_sdk.Base.{
  ℕ, ◌+◌, ◌^◌, ◌<◌, ◌≡◌, refl, sym, ap, ◌∙◌, true, false, List, [], ◌∷◌, ◌++◌, arith, Bytes, All,
  length, length-append, subst, Bool-cases, inl, inr,
}
use weaveplatform_sdk.HostCalls.{PolicyDocument, policy_doc}
use weaveplatform_sdk.PolicyWatch.{Stage, Action}
use weaveplatform_sdk.PolicyWatch.Watchers.{IsOwn}
use weaveplatform_sdk.Relay.{Place, Relay, Run}
use weaveplatform_sdk.Relay.Ending.{Runs}
use weaveplatform_sdk.Relay.Draining.{drain}
use weaveplatform_sdk.PolicyStream.{Channel, ChannelStep, ChannelReach}
use weaveplatform_sdk.PolicyStream.Arrival.{arrived, policy_current}
use weaveplatform_sdk.PolicyStream.Looking.{act_take, look_step}

pub data Works (c : Channel) : List Action → Channel → Type 0 where
  stay : Works c [] c
  work :
      {as' bs : List Action} {d e : Channel}
      → Works c as' d
      → ChannelStep d bs e
      → Works c (as' ++ bs) e

pub same_steps : {c d : Channel} {as' bs : List Action} → as' ≡ bs → Works c as' d → Works c bs d
same_steps {c} {d} e w = subst (λ l. Works c l d) e w

same_reach :
    {revision : ℕ} {document : Bytes} {c : Channel} {as' bs : List Action}
    → as' ≡ bs
    → ChannelReach revision document as' c
    → ChannelReach revision document bs c
same_reach {revision} {document} {c} e r = subst (λ l. ChannelReach revision document l c) e r

ChannelReach-append :
    {revision : ℕ} {document : Bytes} {as' : List Action} {c : Channel} {bs : List Action}
    {d : Channel}
    → ChannelReach revision document as' c
    → Works c bs d
    → ChannelReach revision document (as' ++ bs) d
ChannelReach-append {as' = as'} r Works.stay = same_reach (sym (append-nil as')) r
ChannelReach-append {as' = as'} r (Works.work {as' = bs} {bs = cs} w st) =
    same_reach (append_assoc as' bs cs) (ChannelReach.next (ChannelReach-append r w) st)

-- The watcher waits without a token, and no writer is about to give one.
pub record IsSettled (c d : Channel) : Type 0 where
  pub same_revision : d.watch.revision ≡ c.watch.revision
  pub same_document : d.watch.document ≡ c.watch.document
  pub waits : d.watch.stage ≡ Stage.waiting
  pub no_token : d.watch.token ≡ false
  pub no_wake : d.watch.wakes ≡ 0
  pub receives : d.relay.place ≡ Place.receiving

-- Steps of the goroutine and the module are steps of the channel, and no actions.
Works-Runs :
    {n : ℕ} {c d : Channel} {as' : List Action} {r s : Relay PolicyDocument PolicyDocument}
    → Works c as' d
    → Runs policy_doc n r s
    → d.relay ≡ r
    → Works c as' (record d { relay = s })
Works-Runs {c = c} {d} {as'} w Runs.stay e = subst (λ r. Works c as' (record d { relay = r })) e w
Works-Runs {c = c} {d} {as'} w (Runs.step {r} {s} st rest) e =
    Works-Runs
      (same_steps (append-nil as')
        (Works.work w (ChannelStep.running (subst (λ x. Run policy_doc x s) (sym e) st))))
      rest refl

-- A watcher that waits with a token takes it and looks.
module _ (c : Channel) (settling : c.watch.stage ≡ Stage.waiting) (given : c.watch.token ≡ true)
    (no_wake : c.watch.wakes ≡ 0) (whole : c.relay.broken ≡ false)
    (receives : c.relay.place ≡ Place.receiving) where
  abbrev taken : Channel
  taken = record c { watch = record c.watch { token = false; stage = Stage.reading } }

  takes_token : Works c (Action.take_token ∷ []) taken
  takes_token =
      subst (λ w. Works c (Action.take_token ∷ []) (record c { watch = w }))
        (act_take c.watch settling given)
        (Works.work Works.stay (
          ChannelStep.acting Action.take_token
            (ap (λ w. w.received) (act_take c.watch settling given))))

  look_settles :
      (d : Channel) × Works c (Action.take_token ∷ Action.look true ∷ []) d × IsSettled c d
  look_settles =
      let (d, st, w) = look_step taken refl whole in
      (
        d,
        Works.work takes_token st,
        record {
          same_revision = w.same_revision;
          same_document = w.same_document;
          waits = w.waits;
          no_token = w.same_token;
          no_wake = w.same_wakes ∙ no_wake;
          receives = w.same_place ∙ receives;
        },
      )

-- The policy is the same, and the module has received it last; and the actions to there.
pub record Current (c : Channel) : Type 0 where
  pub actions : List Action
  pub own : All IsOwn actions
  pub state : Channel
  pub works : Works c actions state
  pub same_revision : state.watch.revision ≡ c.watch.revision
  pub same_document : state.watch.document ≡ c.watch.document
  pub front : List PolicyDocument
  pub last_received :
      state.relay.received ≡ front ++ arrived (c.watch.revision, c.watch.document) ∷ []

module _ {revision : ℕ} {document : Bytes} {as' : List Action} {c : Channel}
    (r : ChannelReach revision document as' c) where
  from_settled :
      {bs : List Action} {d : Channel}
      → Works c bs d
      → IsSettled c d
      → All IsOwn bs
      → revision + length (as' ++ bs) < 2 ^ 64
      → Current c
  from_settled {bs} {d} w s own small =
      let got = drain policy_doc d.relay.wire d.relay refl s.receives in
      let e : Channel = record d { relay = got.state } in
      let v = Works-Runs w got.runs refl in
      let (front, ends) =
        policy_current (ChannelReach-append r v) small s.waits s.no_token s.no_wake got.receives
          got.none_comes in
      record {
        actions = bs;
        own = own;
        state = e;
        works = v;
        same_revision = s.same_revision;
        same_document = s.same_document;
        front = front;
        last_received =
            ends
            ∙ ap (λ n. front ++ arrived (n, e.watch.document) ∷ []) s.same_revision
            ∙ ap (λ x. front ++ arrived (c.watch.revision, x) ∷ []) s.same_document;
      }

  -- However they took turns before, as long as the revision stays within 64 bits: if the watcher waits,
  -- no writer is about to wake it, and the goroutine receives on a stream that is whole, then steps of
  -- the watcher, the goroutine and the module lead to where the policy is the same and is the last
  -- document that the module has received.
  pub policy_arrives :
      revision + length as' + 2 < 2 ^ 64
      → c.watch.stage ≡ Stage.waiting
      → c.watch.wakes ≡ 0
      → c.relay.broken ≡ false
      → c.relay.place ≡ Place.receiving
      → Current c
  policy_arrives small waits no_wake whole receives = elim (Bool-cases c.watch.token) [
    | inl given ↦
        let (d, w, s) = look_settles c waits given no_wake whole receives in
        from_settled w s (tt, (tt, tt))
          (omega (arith, small, length-append as' (Action.take_token ∷ Action.look true ∷ [])))
    | inr no_token ↦
        from_settled Works.stay
          (record {
            same_revision = refl;
            same_document = refl;
            waits = waits;
            no_token = no_token;
            no_wake = no_wake;
            receives = receives;
          })
          tt (omega (arith, small, length-append as' []))
  ]
