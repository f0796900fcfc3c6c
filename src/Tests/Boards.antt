-- ===== src/Tests/Boards.antt =====
-- Two publishers and two modules at a concrete run.
use mathlib.Core.List.{Perm, Sublist}
use weaveplatform_sdk.Base.{ℕ, ◌≤◌, ◌≡◌, refl, List, [], ◌∷◌, ◌++◌, arith, codes, same, length, map}
use weaveplatform_sdk.HostData.{PublishedEvent, offer, topic_matches}
use weaveplatform_sdk.HostData.Fanout.{matching}
use weaveplatform_sdk.Relay.{Run}
use weaveplatform_sdk.Round.{Round, owed}
use weaveplatform_sdk.EventStream.{Bus, BusStep, FeedStep, joined, wire_event}
use weaveplatform_sdk.EventStream.Delivered.{delivered}
use weaveplatform_sdk.EventStream.Network.{
  Net, NetReach, NetStep, add_stream, offered_to, publish_event,
}
use weaveplatform_sdk.EventStream.Network.Received.{net_received}
use weaveplatform_sdk.EventStream.Network.Arrives.{NetArrived, net_arrives}

abbrev first : PublishedEvent
first = record { topic = codes "a"; payload = codes "x"; at = 1 }

abbrev second : PublishedEvent
second = record { topic = codes "a"; payload = codes "y"; at = 2 }

abbrev topics_a : List (List ℕ)
topics_a = codes "a" ∷ []

abbrev quiet : Bus
quiet = joined topics_a

abbrev around : PublishedEvent → ℕ → Round PublishedEvent
around ev k = record { item = ev; next = k; upto = 2 }

abbrev waiting : Bus
waiting = record quiet {
  feed = record quiet.feed {
    subscriber = record { topics = topics_a; queue = first ∷ [] };
    published = first ∷ [];
  };
}

abbrev on_wire : Bus
on_wire = record {
  feed = record waiting.feed {
    subscriber = record { topics = topics_a; queue = [] };
    forwarded = first ∷ [];
  };
  relay = record quiet.relay { sent = wire_event first ∷ []; wire = wire_event first ∷ [] };
}

abbrev has_first : Bus
has_first = record on_wire {
  relay = record on_wire.relay { wire = []; received = delivered first ∷ [] };
}

-- The second publisher comes to this module before the first one, which still owes it its event.
abbrev overtaken : Bus
overtaken = record quiet {
  feed = record quiet.feed {
    subscriber = record { topics = topics_a; queue = second ∷ [] };
    published = second ∷ [];
  };
}

abbrev net : Net
net = record {
  events = first ∷ second ∷ [];
  buses = offered_to second has_first ∷ overtaken ∷ [];
  publishers = around first 1 ∷ around second 2 ∷ [];
}

net-NetReach : NetReach net
unfolding add_stream publish_event offer topic_matches same
net-NetReach =
    let added =
      NetReach.next (NetReach.next NetReach.start (NetStep.subscribe topics_a))
        (NetStep.subscribe topics_a) in
    let recorded =
      NetReach.next (NetReach.next added (NetStep.publish first)) (NetStep.publish second) in
    let one =
      NetReach.next recorded (
        NetStep.offering [] (around second 0 ∷ []) (around first 0) quiet refl (omega arith)
          refl) in
    let sent = NetReach.next one (
      NetStep.moving 0 waiting on_wire refl
        (BusStep.sending (FeedStep.forward {ev = first} refl refl) refl) refl) in
    let taken = NetReach.next sent (
      NetStep.moving 0 on_wire _ refl (BusStep.running (Run.recv {a = wire_event first} refl refl))
        refl) in
    let handed = NetReach.next taken (
      NetStep.moving 0 _ has_first refl
        (BusStep.running (Run.hand_over {a = wire_event first} refl)) refl) in
    let two = NetReach.next handed (
      NetStep.offering (around first 1 ∷ []) [] (around second 0) has_first refl (omega arith)
        refl) in
    NetReach.next two
      (NetStep.offering (around first 1 ∷ []) [] (around second 1) quiet refl (omega arith) refl)

net_received_example :
    ((ys : List PublishedEvent) × Sublist ys (matching topics_a (first ∷ second ∷ []))
      × (delivered first ∷ [] ≡ map delivered ys))
    × (earlier later : List PublishedEvent) × (first ∷ second ∷ [] ≡ earlier ++ later)
    × Perm ((first ∷ second ∷ []) ++ owed 0 net.publishers) later
unfolding offer same
net_received_example = net_received net-NetReach 0 (offered_to second has_first) refl

few_matched : length (matching topics_a (overtaken.feed.published ++ owed 1 net.publishers)) ≤ 64
unfolding owed matching topic_matches same
few_matched = omega arith

net_arrives_example : NetArrived net 1 topics_a
net_arrives_example = net_arrives net-NetReach 1 overtaken refl few_matched refl refl refl
