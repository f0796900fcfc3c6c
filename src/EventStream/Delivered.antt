-- ===== src/EventStream/Delivered.antt =====
-- modulesdk/testkit and modulesdk/hostclient.go: what a subscriber receives of what is published.
use mathlib.Core.List.{Sublist, map-append, map-map, sublist-append_left}
use mathlib.Core.List.Sublist
use weaveplatform_sdk.Base.{
  ◌≤◌, ◌≡◌, refl, sym, ap, ◌∙◌, true, List, [], ◌∷◌, ◌++◌, map, Option, none, some, Bytes, length,
  subst,
}
use weaveplatform_sdk.HostData.{PublishedEvent, channel_size}
use weaveplatform_sdk.HostData.Fanout.{matching}
use weaveplatform_sdk.Relay.{Place, Env, Reach}
use weaveplatform_sdk.Relay.Delivery.{Delivers, Run-sent, received-Prefix}
use weaveplatform_sdk.EventStream.{
  Event, wire_event, to_event, Feed, FeedStep, Bus, BusStep, BusReach,
}
use weaveplatform_sdk.EventStream.Feeding.{IsFed, subscribed-IsFed, FeedStep-IsFed}

-- What a publish is for the subscriber in the end.
abbrev pub delivered : PublishedEvent → Event
delivered ev = to_event (wire_event ev)

-- The two sides, and that they agree on what was sent.
record IsJoined (topics : List Bytes) (b : Bus) : Type 0 where
  fed : IsFed topics b.feed
  relayed : Reach to_event b.relay
  joint : b.relay.sent ≡ map wire_event b.feed.forwarded

silent_same :
    {f g : Feed} {o : Option PublishedEvent} → FeedStep f o g → o ≡ none → g.forwarded ≡ f.forwarded
silent_same (FeedStep.publish ev) e = refl
silent_same (FeedStep.forward serving at) e = cc
silent_same (FeedStep.send_fails serving at) e = refl
silent_same (FeedStep.hang_up serving) e = refl

sent_more :
    {f g : Feed} {o : Option PublishedEvent} {ev : PublishedEvent}
    → FeedStep f o g
    → o ≡ some ev
    → g.forwarded ≡ f.forwarded ++ ev ∷ []
sent_more (FeedStep.publish ev) e = cc
sent_more {f} (FeedStep.forward serving at) e = cc
sent_more (FeedStep.send_fails serving at) e = cc
sent_more (FeedStep.hang_up serving) e = cc

BusStep-IsJoined :
    {topics : List Bytes} {a b : Bus} → BusStep a b → IsJoined topics a → IsJoined topics b
BusStep-IsJoined (BusStep.silently st) w = record {
  fed = FeedStep-IsFed st w.fed;
  relayed = w.relayed;
  joint = w.joint ∙ ap (map wire_event) (sym (silent_same st refl));
}
BusStep-IsJoined {a = a} (BusStep.sending {ev} st whole) w = record {
  fed = FeedStep-IsFed st w.fed;
  relayed = Reach.met w.relayed (Env.send (wire_event ev) whole);
  joint =
      ap (λ l. l ++ wire_event ev ∷ []) w.joint
      ∙ sym (map-append wire_event a.feed.forwarded (ev ∷ []))
      ∙ ap (map wire_event) (sym (sent_more st refl));
}
BusStep-IsJoined (BusStep.running st) w = record {
  fed = w.fed;
  relayed = Reach.ran w.relayed st;
  joint = Run-sent to_event st ∙ w.joint;
}
BusStep-IsJoined BusStep.breaking w = record {
  fed = w.fed;
  relayed = Reach.met w.relayed Env.break;
  joint = w.joint;
}
BusStep-IsJoined BusStep.cancelling w = record {
  fed = w.fed;
  relayed = Reach.met w.relayed Env.cancel;
  joint = w.joint;
}

BusReach-IsJoined : {topics : List Bytes} {b : Bus} → BusReach topics b → IsJoined topics b
BusReach-IsJoined {topics} BusReach.start = record {
  fed = subscribed-IsFed topics;
  relayed = Reach.start;
  joint = refl;
}
BusReach-IsJoined (BusReach.next w st) = BusStep-IsJoined st (BusReach-IsJoined w)

prefix_of_map :
    {A B : Type 0} (f : A → B) (l : List A) (xs zs : List B)
    → map f l ≡ xs ++ zs
    → (ys rest : List A) × (l ≡ ys ++ rest) × (xs ≡ map f ys)
prefix_of_map f l [] zs e = ([], l, refl, refl)
prefix_of_map f [] (x ∷ xs) zs e = cc
prefix_of_map f (a ∷ l) (x ∷ xs) zs e =
    let (ys, rest, el, exs) = prefix_of_map f l xs zs (cc) in (a ∷ ys, rest, ap (◌∷◌ a) el, cc)

pub same_topics :
    {topics : List Bytes} {b : Bus} → BusReach topics b → b.feed.subscriber.topics ≡ topics
same_topics r = (BusReach-IsJoined r).fed.same_topics

-- What a subscriber has received, however publishers, the stub's loop, the network, the goroutine and
-- the module take turns, comes of publishes that match its topics, in their order and each at most
-- once.
pub received_in_order :
    {topics : List Bytes} {b : Bus}
    → BusReach topics b
    → (ys : List PublishedEvent) × Sublist ys (matching topics b.feed.published)
      × (b.relay.received ≡ map delivered ys)
received_in_order {b = b} r =
    let w = BusReach-IsJoined r in
    let (zs, begins) = (received-Prefix to_event w.relayed).0 in
    let forwarded_all =
      sym (map-map to_event wire_event b.feed.forwarded)
      ∙ ap (map to_event) (sym w.joint)
      ∙ begins in
    let (ys, rest, splits, same) =
      prefix_of_map delivered b.feed.forwarded b.relay.received zs forwarded_all in
    (
      ys,
      Sublist.trans (subst (Sublist ys) (sym splits) (sublist-append_left ys rest)) (
          Sublist.trans
            (subst (Sublist b.feed.forwarded) (sym w.fed.split)
              (sublist-append_left b.feed.forwarded w.fed.rest))
            w.fed.in_order),
      same,
    )

-- As long as at most 64 publishes have matched and nothing has ended, no matching publish is lost:
-- they are, in order, what the module has received, what is on the wire and what waits in the
-- channel.
pub received_complete :
    {topics : List Bytes} {b : Bus}
    → BusReach topics b
    → length (matching topics b.feed.published) ≤ channel_size
    → b.feed.serving ≡ true
    → b.relay.place ≡ Place.receiving
    → map delivered (matching topics b.feed.published)
      ≡ (b.relay.received ++ map to_event b.relay.wire) ++ map delivered b.feed.subscriber.queue
received_complete {topics} {b} r few serving at =
    let w = BusReach-IsJoined r in
    let on_stream =
      subst (Delivers to_event b.relay.sent b.relay.wire b.relay.received) at
        (received-Prefix to_event w.relayed).1 in
    let all_in =
      sym (w.fed.complete few)
      ∙ w.fed.split
      ∙ ap (λ l. b.feed.forwarded ++ l) (w.fed.waits serving) in
    ap (map delivered) all_in
    ∙ map-append delivered b.feed.forwarded b.feed.subscriber.queue
    ∙ ap (λ l. l ++ map delivered b.feed.subscriber.queue)
        (sym (map-map to_event wire_event b.feed.forwarded)
          ∙ ap (map to_event) (sym w.joint)
          ∙ on_stream)
