-- ===== src/EventStream/Network/Arrives.antt =====
-- modulesdk/testkit/hostdata.go, hostserver.go and modulesdk/hostclient.go: a module whose stream lives
-- can come to have what was published.
use mathlib.Core.List.{Perm, append-nil}
use mathlib.Core.List.Perm
use weaveplatform_sdk.Base.{
  ℕ, ◌≤◌, ◌≡◌, refl, sym, ap, ◌∙◌, subst, true, false, List, ◌++◌, some, Bytes, length, get_elem?,
  get_elem?-map, get_elem?-set_self, map, set,
}
use weaveplatform_sdk.Round.{owed}
use weaveplatform_sdk.HostData.{PublishedEvent, channel_size}
use weaveplatform_sdk.HostData.Fanout.{matching}
use weaveplatform_sdk.Relay.{Place}
use weaveplatform_sdk.EventStream.{Bus, BusReach}
use weaveplatform_sdk.EventStream.Delivered.{delivered, same_topics}
use weaveplatform_sdk.EventStream.Progress.{Works}
use weaveplatform_sdk.EventStream.Complete.{Arrived, all_arrive}
use weaveplatform_sdk.EventStream.Reordered.{matching-perm}
use weaveplatform_sdk.EventStream.Publishers.Offers.{BoardReach-IsOffered}
use weaveplatform_sdk.EventStream.Network.{Net, NetStep, NetReach}
use weaveplatform_sdk.EventStream.Network.Received.{IsStreamed, NetReach-BoardReach, NetReach-IsNet}
use weaveplatform_sdk.EventStream.Network.Settling.{
  NetWorks, NetWorks-append, NetWorks-events, NetReach-append, IsSettled, net-IsSettled,
}

-- What a stream does by itself, the whole can do.
lifted :
    {b c : Bus} (k : ℕ) (n : Net)
    → Works b c
    → get_elem? n.buses k ≡ some b
    → (m : Net) × NetWorks n m × (get_elem? m.buses k ≡ some c)
lifted k n Works.stay at = (n, NetWorks.stay, at)
lifted {c = c} k n (Works.work {a} {b} st same w) at =
    let (m, works, there) =
      lifted k (record n { buses = set n.buses k b }) w (get_elem?-set_self n.buses k b a at) in
    (m, NetWorks.work (NetStep.moving k a b at st same) refl works, there)

-- A state where a module has everything.
pub record NetArrived (n : Net) (i : ℕ) (topics : List Bytes) : Type 0 where
  pub state : Net
  pub bus : Bus
  pub works : NetWorks n state
  pub at : get_elem? state.buses i ≡ some bus
  pub same_events : state.events ≡ n.events
  pub earlier : List PublishedEvent
  pub later : List PublishedEvent
  pub split : n.events ≡ earlier ++ later
  pub all_received : Perm bus.relay.received (map delivered (matching topics later))

-- When the publishers have finished.
module _ {n : Net} (r : NetReach n) (i : ℕ) (b : Bus) (all : IsSettled i n b) where
  settled-IsStreamed : IsStreamed (owed i all.state.publishers) all.bus
  settled-IsStreamed = (NetReach-IsNet (NetReach-append r all.works)).each i all.bus all.at

  settled_topics : settled-IsStreamed.topics ≡ b.feed.subscriber.topics
  settled_topics = sym (same_topics settled-IsStreamed.reached) ∙ all.same_topics

  settled-Arrived :
      length (matching b.feed.subscriber.topics (b.feed.published ++ owed i n.publishers))
        ≤ channel_size
      → b.feed.serving ≡ true
      → b.relay.place ≡ Place.receiving
      → b.relay.broken ≡ false
      → Arrived b.feed.subscriber.topics all.bus
  settled-Arrived few serving receiving whole =
      (all_arrive (subst (λ t. BusReach t all.bus) settled_topics settled-IsStreamed.reached)
        (subst (λ l. length (matching b.feed.subscriber.topics l) ≤ channel_size)
          (sym all.published_all) few)
        (all.same_serving ∙ serving) (ap (λ q. q.place) all.same_relay ∙ receiving)
        (ap (λ q. q.broken) all.same_relay ∙ whole)).1

  settled_offered :
      (earlier later : List PublishedEvent) × (n.events ≡ earlier ++ later)
      × Perm all.bus.feed.published later
  settled_offered =
      let w =
        BoardReach-IsOffered (NetReach-BoardReach (NetReach-append r all.works)) i all.bus.feed
          (get_elem?-map (λ (c : Bus). c.feed) all.state.buses i all.bus all.at) in
      (
        w.earlier,
        w.later,
        sym (NetWorks-events all.works) ∙ w.split,
        subst (λ l. Perm l w.later)
            (ap (λ l. all.bus.feed.published ++ l) all.none_owed
              ∙ append-nil all.bus.feed.published)
            w.perm,
      )

-- Whatever modules are subscribed, and however all took turns: a module whose stream has not ended or
-- broken and whose goroutine receives, and to which at most 64 matching events have been offered or are
-- owed, can come to have everything. There are steps, without another publish, to where it has received what was published since
-- it came and matches its topics, each once, but perhaps in another order.
pub net_arrives :
    {n : Net} (r : NetReach n) (i : ℕ) (b : Bus)
    → get_elem? n.buses i ≡ some b
    → length (matching b.feed.subscriber.topics (b.feed.published ++ owed i n.publishers))
      ≤ channel_size
    → b.feed.serving ≡ true
    → b.relay.place ≡ Place.receiving
    → b.relay.broken ≡ false
    → NetArrived n i b.feed.subscriber.topics
net_arrives {n} r i b at few serving receiving whole =
    let all = net-IsSettled r i b at in
    let arrived = settled-Arrived r i b all few serving receiving whole in
    let (m, works, there) = lifted i all.state arrived.works all.at in
    let (earlier, later, split, perm) = settled_offered r i b all in
    let works_all = NetWorks-append all.works works in
    record {
      state = m;
      bus = arrived.state;
      works = works_all;
      at = there;
      same_events = NetWorks-events works_all;
      earlier = earlier;
      later = later;
      split = split;
      all_received =
          subst (λ l. Perm l (map delivered (matching b.feed.subscriber.topics later)))
            (sym arrived.all_received)
            (Perm.map delivered (matching-perm b.feed.subscriber.topics perm));
    }
