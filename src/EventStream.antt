-- ===== src/EventStream.antt =====
-- modulesdk/testkit/hostserver.go (`eventsServer.Subscribe`) and modulesdk/hostclient.go
-- (`eventsClient.Subscribe`): one subscription from the publishers to the module. The stub's loop
-- empties the subscriber's channel into a gRPC stream, and the client's goroutine, a `Relay`, offers
-- what comes to the module. A publish is here the event's offer to this subscriber; `Publishers` has the
-- calls that make them. Times are nanoseconds since 1970.
pub mod Feeding
pub mod Progress
pub mod Delivered
pub mod Complete
pub mod Publishers
pub mod Reordered
pub mod Network
use weaveplatform_sdk.Base.{
  ℕ, ◌*◌, ◌/◌, ◌≡◌, Bool, true, false, List, [], ◌∷◌, ◌++◌, Option, none, some, Bytes,
}
use weaveplatform_sdk.HostData.{PublishedEvent, Subscriber, offer}
use weaveplatform_sdk.Relay.{Place, Relay, Run, opened}

-- `agentv1.Event`.
pub record WireEvent : Type 0 where
  pub topic : Bytes
  pub payload : Bytes
  pub published_at_ms : ℕ
  pub sequence : ℕ

pub record Event : Type 0 where
  pub topic : Bytes
  pub payload : Bytes
  pub published_at : ℕ
  pub sequence : ℕ

-- What the stub sends. It sets no sequence.
unfoldable pub wire_event : PublishedEvent → WireEvent
wire_event ev = record {
  topic = ev.topic;
  payload = ev.payload;
  published_at_ms = ev.at / 1000000;
  sequence = 0;
}

unfoldable pub to_event : WireEvent → Event
to_event w = record {
  topic = w.topic;
  payload = w.payload;
  published_at = w.published_at_ms * 1000000;
  sequence = w.sequence;
}

-- The stub's side of a subscription: its subscriber, and whether its loop runs. `published` is all
-- that came since, and `forwarded` what of it went onto the stream.
pub record Feed : Type 0 where
  pub subscriber : Subscriber
  pub serving : Bool
  pub published : List PublishedEvent
  pub forwarded : List PublishedEvent

abbrev pub subscribed : List Bytes → Feed
subscribed topics = record {
  subscriber = record { topics = topics; queue = [] };
  serving = true;
  published = [];
  forwarded = [];
}

-- A step, with what it puts on the stream.
pub data FeedStep (f : Feed) : Option PublishedEvent → Feed → Type 0 where
  publish :
      (ev : PublishedEvent)
      → FeedStep f none
          (record f { subscriber = offer ev f.subscriber; published = f.published ++ ev ∷ [] })
  forward :
      {ev : PublishedEvent} {rest : List PublishedEvent}
      → f.serving ≡ true
      → f.subscriber.queue ≡ ev ∷ rest
      → FeedStep f (some ev) (record f {
        subscriber = record { topics = f.subscriber.topics; queue = rest };
        forwarded = f.forwarded ++ ev ∷ [];
      })
  send_fails :
      {ev : PublishedEvent} {rest : List PublishedEvent}
      → f.serving ≡ true
      → f.subscriber.queue ≡ ev ∷ rest
      → FeedStep f none (record f {
        subscriber = record { topics = f.subscriber.topics; queue = rest };
        serving = false;
      })
  hang_up : f.serving ≡ true → FeedStep f none (record f { serving = false })

pub record Bus : Type 0 where
  pub feed : Feed
  pub relay : Relay WireEvent Event

abbrev pub joined : List Bytes → Bus
joined topics = record { feed = subscribed topics; relay = opened to_event }

pub data BusStep (b : Bus) : Bus → Type 0 where
  silently : {f : Feed} → FeedStep b.feed none f → BusStep b (record b { feed = f })
  -- What the stub sends is then on the wire.
  sending :
      {ev : PublishedEvent} {f : Feed}
      → FeedStep b.feed (some ev) f
      → b.relay.broken ≡ false
      → BusStep b (record {
        feed = f;
        relay = record b.relay {
          sent = b.relay.sent ++ wire_event ev ∷ [];
          wire = b.relay.wire ++ wire_event ev ∷ [];
        };
      })
  running :
      {r : Relay WireEvent Event} → Run to_event b.relay r → BusStep b (record b { relay = r })
  breaking : BusStep b (record b { relay = record b.relay { broken = true } })
  cancelling : BusStep b (record b { relay = record b.relay { context_done = true } })

pub data BusReach (topics : List Bytes) : Bus → Type 0 where
  start : BusReach topics (joined topics)
  next : {a b : Bus} → BusReach topics a → BusStep a b → BusReach topics b
