-- ===== src/PolicyStream/Network/Arrives.antt =====
-- modulesdk/testkit/hostdata.go, hostserver.go and modulesdk/hostclient.go: a module whose stream lives
-- can come to have the current policy.
use weaveplatform_sdk.Base.{
  ℕ, suc, ◌+◌, ◌^◌, ◌<◌, ◌≡◌, ◌≢◌, refl, sym, ap, ◌∙◌, subst, false, List, [], ◌∷◌, ◌++◌, some,
  arith, All, All-split, length, get_elem?, get_elem?-set_self, set, sum_by,
}
use weaveplatform_sdk.Round.{owed}
use weaveplatform_sdk.Round.Sends.{Sends, after_all}
use weaveplatform_sdk.Round.Finishing.{settle}
use weaveplatform_sdk.HostCalls.{PolicyDocument}
use weaveplatform_sdk.PolicyWatch.{Stage, Action}
use weaveplatform_sdk.PolicyWatch.Watchers.{Writer, IsOwn}
use weaveplatform_sdk.PolicyWatch.Watchers.Views.{act_own}
use weaveplatform_sdk.Relay.{Place}
use weaveplatform_sdk.PolicyStream.{Channel, ChannelStep}
use weaveplatform_sdk.PolicyStream.Arrival.{arrived}
use weaveplatform_sdk.PolicyStream.Progress.{Works}
use weaveplatform_sdk.PolicyStream.Opening.{open_arrives}
use weaveplatform_sdk.PolicyStream.Network.{
  Stream, Net, NetStep, NetReach, StreamStep, woken, channel_of, sent_by, slot_after, policy_of,
}
use weaveplatform_sdk.PolicyStream.Network.Received.{
  IsStreamed, NetReach-IsStreamed, NetReach-IsWithin,
}

-- Steps without another `SetPolicy`.
pub data NetWorks : Net → Net → Type 0 where
  stay : {n : Net} → NetWorks n n
  work :
      {l m n : Net}
      → NetStep l m
      → m.revision ≡ l.revision
      → m.document ≡ l.document
      → NetWorks m n
      → NetWorks l n

NetWorks-append : {l m n : Net} → NetWorks l m → NetWorks m n → NetWorks l n
NetWorks-append NetWorks.stay v = v
NetWorks-append (NetWorks.work st same same' w) v =
    NetWorks.work st same same' (NetWorks-append w v)

abbrev wake_item : Unit {0} → Stream → Stream
wake_item u s = woken s

-- The net with other writers and streams.
abbrev with_sends : Net → List Writer → List Stream → Net
with_sends n writers streams = record n { writers = writers; streams = streams }

-- Wake-ups are steps of the whole.
module _ (n : Net) where
  sends_works :
      {j : ℕ} {r s : List Writer} {xs ys : List Stream}
      → Sends wake_item j r xs s ys
      → NetWorks (with_sends n r xs) (with_sends n s ys)
  sends_works Sends.none_left = NetWorks.stay
  sends_works (Sends.send before behind x f split more at rest) =
      NetWorks.work (NetStep.wake before behind x f split more at) refl refl (sends_works rest)

  sends_reach :
      {j : ℕ} {r s : List Writer} {xs ys : List Stream}
      → Sends wake_item j r xs s ys
      → (k : ℕ) → NetReach k (with_sends n r xs)
      → NetReach (j + k) (with_sends n s ys)
  sends_reach {r = r} {xs = xs} Sends.none_left k w =
      subst (λ i. NetReach i (with_sends n r xs)) (omega arith) w
  sends_reach {s = s} {ys = ys} (Sends.send before behind x f split more at rest) k w =
      subst (λ i. NetReach i (with_sends n s ys)) (omega arith)
        (sends_reach rest (suc k) (NetReach.next w (NetStep.wake before behind x f split more at)))

after_all-relay :
    (rest : List (Unit {0})) (s : Stream) → (after_all wake_item rest s).relay ≡ s.relay
after_all-relay [] s = refl
after_all-relay (u ∷ rest) s = after_all-relay rest (woken s)

after_all-stage :
    (rest : List (Unit {0})) (s : Stream) → (after_all wake_item rest s).slot.stage ≡ s.slot.stage
after_all-stage [] s = refl
after_all-stage (u ∷ rest) s = after_all-stage rest (woken s)

-- What a channel does by itself, its stream does.
record Lifted (i : ℕ) (n : Net) (d : Channel) : Type 0 where
  state : Net
  stream : Stream
  works : NetWorks n state
  at : get_elem? state.streams i ≡ some stream
  same : channel_of state 0 stream ≡ d

lift_step :
    (n : Net) (s : Stream) {bs : List Action} {e : Channel}
    → ChannelStep (channel_of n 0 s) bs e
    → All IsOwn bs
    → (t : Stream) × StreamStep n s t × (channel_of n 0 t ≡ e)
lift_step n s (ChannelStep.acting a same) (own, none_more) = (
  record s { slot = slot_after n a s },
  StreamStep.acting a own same,
  ap (λ v. record { watch = v; relay = s.relay }) (act_own a 0 (policy_of n) s.slot own),
)
lift_step n s (ChannelStep.sending a x more whole) (own, none_more) = (
  _,
  StreamStep.sending a x own more whole,
  ap (λ v. record { watch = v; relay = (sent_by n a x s).relay })
      (act_own a 0 (policy_of n) s.slot own),
)
lift_step n s (ChannelStep.running {r} st) own =
    (record s { relay = r }, StreamStep.running st, refl)
lift_step n s ChannelStep.breaking own = (_, StreamStep.breaking, refl)
lift_step n s ChannelStep.cancelling own = (_, StreamStep.cancelling, refl)

lifted :
    (i : ℕ) (n : Net) (s : Stream) {as' : List Action} {d : Channel}
    → Works (channel_of n 0 s) as' d
    → All IsOwn as'
    → get_elem? n.streams i ≡ some s
    → Lifted i n d
lifted i n s Works.stay own at = record {
  state = n;
  stream = s;
  works = NetWorks.stay;
  at = at;
  same = refl;
}
lifted i n s (Works.work {as' = as'} {bs = bs} {d = d} {e = e} w st) own at =
    let (own_front, own_back) = All-split IsOwn as' bs own in
    let v = lifted i n s w own_front at in
    let m = v.state in
    let (t, step, same) =
      lift_step m v.stream (subst (λ c. ChannelStep c bs e) (sym v.same) st) own_back in
    record {
      state = record m { streams = set m.streams i t };
      stream = t;
      works =
          NetWorks-append v.works
            (NetWorks.work (NetStep.moving i v.stream t v.at step) refl refl NetWorks.stay);
      at = get_elem?-set_self m.streams i t v.stream v.at;
      same = same;
    }

-- The policy is the same, and a module has received it last.
pub record NetCurrent (n : Net) (i : ℕ) : Type 0 where
  pub state : Net
  pub stream : Stream
  pub works : NetWorks n state
  pub at : get_elem? state.streams i ≡ some stream
  pub same_revision : state.revision ≡ n.revision
  pub same_document : state.document ≡ n.document
  pub front : List PolicyDocument
  pub last_received : stream.relay.received ≡ front ++ arrived (n.revision, n.document) ∷ []

-- Whatever modules watch the policy, and however all took turns: a module whose stream has not ended or
-- broken and whose goroutine receives can come to have the current policy. As long as the steps that were taken, the wake-ups of the
-- writers and three more are fewer than 2^64, there are steps, without another `SetPolicy`, to where the
-- policy is the same and is the last document that the module has received.
pub every_module_catches_up :
    {k : ℕ} {n : Net} (r : NetReach k n) (i : ℕ) (s : Stream)
    → get_elem? n.streams i ≡ some s
    → k + sum_by (λ x. x.upto) n.writers + 3 < 2 ^ 64
    → s.slot.stage ≢ Stage.closed
    → s.relay.broken ≡ false
    → s.relay.place ≡ Place.receiving
    → NetCurrent n i
every_module_catches_up {k} {n} r i s at small opens whole receives =
    let all = settle wake_item i n.writers n.streams s at (NetReach-IsWithin r) in
    let m = with_sends n all.rounds all.items in
    let t = after_all wake_item (owed i n.writers) s in
    let reached : NetReach (all.count + k) m = sends_reach n all.sends k r in
    let w : IsStreamed (all.count + k) (channel_of m 0 t) =
      subst (λ l. IsStreamed (all.count + k) (channel_of m (length l) t)) all.none_owed
        (NetReach-IsStreamed reached i t all.got_all) in
    let relay_same = after_all-relay (owed i n.writers) s in
    let now =
      open_arrives w.reached (omega (arith, w.within, small, all.few)) refl
        (ap (λ q. q.broken) relay_same ∙ whole) (ap (λ q. q.place) relay_same ∙ receives)
        (λ e. opens (sym (after_all-stage (owed i n.writers) s) ∙ e)) in
    let v = lifted i m t now.works now.own all.got_all in
    record {
      state = v.state;
      stream = v.stream;
      works = NetWorks-append (sends_works n all.sends) v.works;
      at = v.at;
      same_revision = ap (λ c. c.watch.revision) v.same ∙ now.same_revision;
      same_document = ap (λ c. c.watch.document) v.same ∙ now.same_document;
      front = now.front;
      last_received = ap (λ c. c.relay.received) v.same ∙ now.last_received;
    }
