-- ===== src/EventStream/Complete.antt =====
-- modulesdk/testkit and modulesdk/hostclient.go: a subscription that has not ended loses nothing.
use mathlib.Core.List.{append-nil}
use weaveplatform_sdk.Base.{
  ◌≤◌, ◌≡◌, refl, sym, ap, ◌∙◌, true, false, List, [], ◌++◌, map, Bytes, length, subst,
}
use weaveplatform_sdk.HostData.{PublishedEvent, channel_size}
use weaveplatform_sdk.HostData.Fanout.{matching}
use weaveplatform_sdk.Relay.{Place}
use weaveplatform_sdk.EventStream.{Event, WireEvent, Bus, BusReach, to_event}
use weaveplatform_sdk.EventStream.Delivered.{delivered, received_complete}
use weaveplatform_sdk.Relay.Draining.{drain}
use weaveplatform_sdk.EventStream.Progress.{
  Works, Works-append, Works-Runs, BusReach-append, forward_all,
}

-- Everything has come to the module, and nothing was published on the way.
pub record Arrived (topics : List Bytes) (b : Bus) : Type 0 where
  pub state : Bus
  pub works : Works b state
  pub same_published : state.feed.published ≡ b.feed.published
  pub all_received : state.relay.received ≡ map delivered (matching topics b.feed.published)

nothing_left :
    (all xs : List Event) (wire : List WireEvent) (queue : List PublishedEvent)
    → all ≡ (xs ++ map to_event wire) ++ map delivered queue
    → wire ≡ []
    → queue ≡ []
    → xs ≡ all
nothing_left all xs wire queue e no_wire no_queue = sym (
    e
    ∙ ap (λ q. (xs ++ map to_event wire) ++ map delivered q) no_queue
    ∙ append-nil (xs ++ map to_event wire)
    ∙ ap (λ w. xs ++ map to_event w) no_wire
    ∙ append-nil xs)

-- As long as at most 64 publishes have matched and nothing has ended or broken, no matching publish is
-- lost: they are, in order, what the module has received, what is on the wire and what waits in the
-- channel. And there are steps, without another publish, to where the module has received them all.
pub all_arrive :
    {topics : List Bytes} {b : Bus}
    → BusReach topics b
    → length (matching topics b.feed.published) ≤ channel_size
    → b.feed.serving ≡ true
    → b.relay.place ≡ Place.receiving
    → b.relay.broken ≡ false
    → (map delivered (matching topics b.feed.published)
        ≡ (b.relay.received ++ map to_event b.relay.wire) ++ map delivered b.feed.subscriber.queue)
      × Arrived topics b
all_arrive {topics} {b} r few serving at whole =
    let sent = forward_all b.feed.subscriber.queue b refl serving whole in
    let got = drain to_event sent.state.relay.wire sent.state.relay refl (sent.same_place ∙ at) in
    let there : Bus = record sent.state { relay = got.state } in
    let works = Works-append sent.works (Works-Runs got.runs refl) in
    let accounted =
      received_complete (BusReach-append r works)
        (subst (λ l. length (matching topics l) ≤ channel_size) (sym sent.same_published) few)
        sent.serves got.receives in
    (
      received_complete r few serving at,
      record {
        state = there;
        works = works;
        same_published = sent.same_published;
        all_received =
            nothing_left _ there.relay.received there.relay.wire there.feed.subscriber.queue
              accounted got.none_comes sent.none_waits
            ∙ ap (λ l. map delivered (matching topics l)) sent.same_published;
      },
    )
