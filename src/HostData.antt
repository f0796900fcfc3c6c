-- ===== src/HostData.antt =====
-- modulesdk/testkit/hostdata.go and hostserver.go: the in-memory state behind the stub host
-- services, and the handlers that have logic of their own. The mutex makes each method one step;
-- `publish` is a whole call, with no other between. Publishers that take turns are in
-- `EventStream.Publishers`, and the policy with its watchers is in `PolicyWatch`. A subscriber's channel
-- holds 64 events; its queue is the channel's content, oldest first.
pub mod StoreLaws
pub mod Topics
pub mod Fanout
use weaveplatform_sdk.Base.{
  ℕ, ◌<◌, Bool, true, false, not, ◌&&◌, ◌||◌, List, [], ◌∷◌, ◌++◌, Option, none, some, Bytes, codes,
  same, ltb, ◌==◌, length, if◌then◌else◌,
}
use weaveplatform_sdk.Base.Dict.{has_prefix, lookup, assign, remove, keys_with}
use weaveplatform_sdk.Base.Int.{ℤ}

pub record PublishedEvent : Type 0 where
  pub topic : Bytes
  pub payload : Bytes
  pub at : ℕ

pub record SentMessage : Type 0 where
  -- an `int32`
  pub peer : ℤ
  pub kind : Bytes
  pub payload : Bytes
  pub queue_offline : Bool

pub record DeviceInfo : Type 0 where
  pub device_id : Bytes
  pub ephemeral : Bool
  pub tenant : Bytes

pub record Subscriber : Type 0 where
  pub topics : List Bytes
  pub queue : List PublishedEvent

pub record HostData : Type 0 where
  pub store : List (Bytes × Bytes)
  pub events : List PublishedEvent
  pub subscribers : List Subscriber
  pub sends : List SentMessage
  pub device : DeviceInfo

abbrev pub new_host_data : HostData
new_host_data = record {
  store = [];
  events = [];
  subscribers = [];
  sends = [];
  device = record { device_id = codes "test-device"; ephemeral = false; tenant = codes "test" };
}

unfoldable pub store_get : Bytes → HostData → Option Bytes
store_get key d = lookup key d.store

unfoldable pub store_put : Bytes → Bytes → HostData → HostData
store_put key value d = record d { store = assign key value d.store }

unfoldable pub store_delete : Bytes → HostData → HostData
store_delete key d = record d { store = remove key d.store }

unfoldable pub store_keys : Bytes → HostData → List Bytes
store_keys prefix d = keys_with prefix d.store

unfoldable pub record_send : SentMessage → HostData → HostData
record_send m d = record d { sends = d.sends ++ m ∷ [] }

-- All but the last byte, and the last.
unfoldable pub unsnoc : Bytes → Option (Bytes × ℕ)
unsnoc [] = none
unsnoc (c ∷ s) = elim (unsnoc s) [ none ↦ some ([], c) | some (q, d) ↦ some (c ∷ q, d) ]

-- One pattern: an exact topic, or a prefix of at least one byte in front of a star.
unfoldable pub glob_matches : Bytes → Bytes → Bool
unfolding unsnoc
glob_matches p topic = elim (unsnoc p) [
  | none ↦ false
  | some (q, c) ↦ not (same q []) && c == b'*' && has_prefix q topic
]

unfoldable pub topic_matches : List Bytes → Bytes → Bool
unfolding glob_matches
topic_matches [] topic = false
topic_matches (p ∷ ps) topic = same p topic || glob_matches p topic || topic_matches ps topic

abbrev pub channel_size : ℕ
channel_size = 64

-- A send that does not wait: a full channel drops the event.
unfoldable pub offer : PublishedEvent → Subscriber → Subscriber
unfolding topic_matches
offer ev s =
    if topic_matches s.topics ev.topic && ltb (length s.queue) channel_size
    then record s { queue = s.queue ++ ev ∷ [] }
    else s

unfoldable pub offer_all : PublishedEvent → List Subscriber → List Subscriber
unfolding offer
offer_all ev [] = []
offer_all ev (s ∷ ss) = offer ev s ∷ offer_all ev ss

unfoldable pub publish : PublishedEvent → HostData → HostData
unfolding offer_all
publish ev d = record d { events = d.events ++ ev ∷ []; subscribers = offer_all ev d.subscribers }

unfoldable pub subscribe : List Bytes → HostData → HostData
subscribe topics d = record d {
  subscribers = d.subscribers ++ record { topics = topics; queue = [] } ∷ [];
}

-- `eventsServer.Publish` puts the module's id in front of the topic.
unfoldable pub stamp : Bytes → Bytes → Bytes
stamp module_id topic = module_id ++ (b'.' ∷ topic)

unfoldable pub serve_publish : Bytes → Bytes → Bytes → ℕ → HostData → HostData
unfolding stamp publish
serve_publish module_id topic payload at d =
    publish (record { topic = stamp module_id topic; payload = payload; at = at }) d

-- `transportServer.Send` records the message and says that it was delivered.
unfoldable pub serve_send : SentMessage → HostData → HostData × Bool
unfolding record_send
serve_send m d = (record_send m d, true)

-- `tokenInterceptors`: the call goes through if its metadata has the token once, and nothing else
-- under its key.
unfoldable pub check_token : Bytes → List Bytes → Bool
check_token token [] = false
check_token token (v ∷ []) = same v token
check_token token (v ∷ w ∷ vs) = false
