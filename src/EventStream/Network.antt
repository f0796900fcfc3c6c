-- ===== src/EventStream/Network.antt =====
-- modulesdk/testkit/hostdata.go, hostserver.go and modulesdk/hostclient.go (`Subscribe` of both sides):
-- the events of the stub with any number of publishers, and with any number of modules, each at the end
-- of its own stream. `Publish` is the one of `Publishers`, and each stream with its two loops a `Bus`.
pub mod Received
pub mod Settling
pub mod Arrives
use weaveplatform_sdk.Base.{
  ℕ, ◌<◌, ◌≡◌, List, [], ◌∷◌, ◌++◌, some, Bytes, length, map, set, get_elem?,
}
use weaveplatform_sdk.Round.{Round, begun, moved}
use weaveplatform_sdk.HostData.{PublishedEvent}
use weaveplatform_sdk.EventStream.{Bus, BusStep, joined}
use weaveplatform_sdk.EventStream.Publishers.{Board, offered}

pub record Net : Type 0 where
  pub events : List PublishedEvent
  pub buses : List Bus
  -- the `Publish` calls behind the mutex
  pub publishers : List (Round PublishedEvent)

abbrev pub new_net : Net
new_net = record { events = []; buses = []; publishers = [] }

-- `Publish`, up to the unlocking.
unfoldable pub publish_event : PublishedEvent → Net → Net
publish_event ev n = record n {
  events = n.events ++ ev ∷ [];
  publishers = n.publishers ++ begun ev (length n.buses) ∷ [];
}

-- A `Subscribe` of a module that has come to the stub's loop.
unfoldable pub add_stream : List Bytes → Net → Net
add_stream topics n = record n { buses = n.buses ++ joined topics ∷ [] }

-- The event's send to the channel of a stream, by `offer`.
abbrev pub offered_to : PublishedEvent → Bus → Bus
offered_to ev b = record b { feed = offered ev b.feed }

-- One send of a `Publish` behind the mutex.
abbrev pub sent_on :
    Net
    → List (Round PublishedEvent)
    → Round PublishedEvent
    → List (Round PublishedEvent)
    → Bus
    → Net
sent_on n before x behind b = record n {
  publishers = before ++ moved x ∷ behind;
  buses = set n.buses x.next (offered_to x.item b);
}

pub data NetStep (n : Net) : Net → Type 0 where
  publish : (ev : PublishedEvent) → NetStep n (publish_event ev n)
  offering :
      (before behind : List (Round PublishedEvent)) (x : Round PublishedEvent) (b : Bus)
      → n.publishers ≡ before ++ x ∷ behind
      → x.next < x.upto
      → get_elem? n.buses x.next ≡ some b
      → NetStep n (sent_on n before x behind b)
  subscribe : (topics : List Bytes) → NetStep n (add_stream topics n)
  -- A step of a stream's own loops, of its network or of its module.
  moving :
      (k : ℕ) (b c : Bus)
      → get_elem? n.buses k ≡ some b
      → BusStep b c
      → c.feed.published ≡ b.feed.published
      → NetStep n (record n { buses = set n.buses k c })

pub data NetReach : Net → Type 0 where
  start : NetReach new_net
  next : {m n : Net} → NetReach m → NetStep m n → NetReach n

-- The stub's side of it.
abbrev pub board_of : Net → Board
board_of n = record {
  events = n.events;
  feeds = map (λ (b : Bus). b.feed) n.buses;
  publishers = n.publishers;
}
