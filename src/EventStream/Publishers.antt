-- ===== src/EventStream/Publishers.antt =====
-- modulesdk/testkit/hostdata.go (`Publish`, `subscribe`) with hostserver.go: the event bus of the stub
-- with any number of publishers and subscribers. `Publish` records the event and takes the list of the
-- subscribers under the mutex, and offers the event behind it, one subscriber after the other, while
-- other publishers, and subscribers that are added, come between. The loop of a subscription is that of
-- `EventStream`.
pub mod Offers
use mathlib.Core.List.{Perm, Sublist, perm_middle, append_assoc, append-nil, sublist-append_left}
use mathlib.Core.List.Perm
use mathlib.Core.List.Sublist
use weaveplatform_sdk.Base.{
  ℕ, ◌<◌, ◌≡◌, sym, ap, ◌∙◌, subst, List, [], ◌∷◌, ◌++◌, Option, some, arith, Bytes, length,
  length-append, length-set, set, get_elem?, get_elem?-lt-length, get_elem?-snoc, each_set, inl,
  inr,
}
use weaveplatform_sdk.Round.{
  Round, begun, moved, owed, owed_self, owed_other, owed_none, owed-begun, IsWithin, IsWithin-mono,
  IsWithin-moved, IsWithin-begun,
}
use weaveplatform_sdk.HostData.{PublishedEvent, offer}
use weaveplatform_sdk.HostData.Fanout.{matching}
use weaveplatform_sdk.EventStream.{Feed, FeedStep, subscribed}
use weaveplatform_sdk.EventStream.Feeding.{IsFed, subscribed-IsFed, FeedStep-IsFed}

pub record Board : Type 0 where
  pub events : List PublishedEvent
  pub feeds : List Feed
  -- the `Publish` calls behind the mutex
  pub publishers : List (Round PublishedEvent)

abbrev pub new_board : Board
new_board = record { events = []; feeds = []; publishers = [] }

-- `Publish`, up to the unlocking.
unfoldable pub record_event : PublishedEvent → Board → Board
record_event ev b = record b {
  events = b.events ++ ev ∷ [];
  publishers = b.publishers ++ begun ev (length b.feeds) ∷ [];
}

-- `subscribe`
unfoldable pub add_subscriber : List Bytes → Board → Board
add_subscriber topics b = record b { feeds = b.feeds ++ subscribed topics ∷ [] }

-- The event's send to a channel, by `offer`.
abbrev pub offered : PublishedEvent → Feed → Feed
offered ev f = record f { subscriber = offer ev f.subscriber; published = f.published ++ ev ∷ [] }

pub data BoardStep (b : Board) : Board → Type 0 where
  publish : (ev : PublishedEvent) → BoardStep b (record_event ev b)
  offering :
      (before behind : List (Round PublishedEvent)) (x : Round PublishedEvent) (f : Feed)
      → b.publishers ≡ before ++ x ∷ behind
      → x.next < x.upto
      → get_elem? b.feeds x.next ≡ some f
      → BoardStep b (record b {
        publishers = before ++ moved x ∷ behind;
        feeds = set b.feeds x.next (offered x.item f);
      })
  subscribe : (topics : List Bytes) → BoardStep b (add_subscriber topics b)
  -- A step of a subscription's own loop.
  serving :
      (k : ℕ) {o : Option PublishedEvent} (f g : Feed)
      → get_elem? b.feeds k ≡ some f
      → FeedStep f o g
      → g.published ≡ f.published
      → BoardStep b (record b { feeds = set b.feeds k g })

pub data BoardReach : Board → Type 0 where
  start : BoardReach new_board
  next : {a b : Board} → BoardReach a → BoardStep a b → BoardReach b
