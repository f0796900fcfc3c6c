-- ===== src/EventStream/Network/Received.antt =====
-- modulesdk/testkit/hostdata.go, hostserver.go and modulesdk/hostclient.go: what each module receives of
-- what is published.
use mathlib.Core.List.{Perm, Sublist, map-append}
use weaveplatform_sdk.Base.{
  ℕ, ◌≡◌, refl, sym, ap, ◌∙◌, subst, List, [], ◌∷◌, ◌++◌, Option, none, some, inl, inr, ◌⊎◌, Bytes,
  length-map, get_elem?-map, map-set, set_same, map, set, get_elem?,
}
use weaveplatform_sdk.Round.{begun, moved, owed}
use weaveplatform_sdk.Round.Fanned.{
  IsFanned, IsFanned-begun, IsFanned-added, IsFanned-set, IsFanned-moved, none-IsFanned,
}
use weaveplatform_sdk.HostData.{PublishedEvent}
use weaveplatform_sdk.HostData.Fanout.{matching}
use weaveplatform_sdk.EventStream.{Feed, FeedStep, Bus, BusStep, BusReach, joined}
use weaveplatform_sdk.EventStream.Delivered.{delivered, received_in_order, same_topics}
use weaveplatform_sdk.EventStream.Publishers.{BoardStep, BoardReach, record_event, add_subscriber}
use weaveplatform_sdk.EventStream.Publishers.Offers.{BoardReach-IsOffered}
use weaveplatform_sdk.EventStream.Network.{
  Net, NetStep, NetReach, publish_event, add_stream, board_of, offered_to,
}

abbrev feed_of : Bus → Feed
feed_of b = b.feed

-- What the stub's side of a moved stream does.
moving-BoardReach :
    (n : Net) (k : ℕ) (b c : Bus)
    → BoardReach (board_of n)
    → get_elem? n.buses k ≡ some b
    → BusStep b c
    → c.feed.published ≡ b.feed.published
    → BoardReach (record (board_of n) { feeds = set (map feed_of n.buses) k c.feed })
moving-BoardReach n k b c r at st same = elim (feed_moves st) [
  | inl (o, own) ↦
      BoardReach.next r
        (BoardStep.serving k b.feed c.feed (get_elem?-map feed_of n.buses k b at) own same)
  | inr kept ↦
      subst (λ fs. BoardReach (record (board_of n) { feeds = fs }))
        (sym (
          ap (set (map feed_of n.buses) k) kept
          ∙ set_same (map feed_of n.buses) k b.feed (get_elem?-map feed_of n.buses k b at)))
        r
]
  where
    feed_moves :
        {b c : Bus}
        → BusStep b c
        → ((o : Option PublishedEvent) × FeedStep b.feed o c.feed) ⊎ (c.feed ≡ b.feed)
    feed_moves (BusStep.silently st) = inl (none, st)
    feed_moves (BusStep.sending {ev} st whole) = inl (some ev, st)
    feed_moves (BusStep.running st) = inr refl
    feed_moves BusStep.breaking = inr refl
    feed_moves BusStep.cancelling = inr refl

NetStep-BoardReach : {m n : Net} → NetStep m n → BoardReach (board_of m) → BoardReach (board_of n)
unfolding publish_event add_stream record_event add_subscriber
NetStep-BoardReach {m} (NetStep.publish ev) r =
    subst
      (λ k. BoardReach (record (board_of m) {
        events = m.events ++ ev ∷ [];
        publishers = m.publishers ++ begun ev k ∷ [];
      }))
      (length-map feed_of m.buses) (BoardReach.next r (BoardStep.publish ev))
NetStep-BoardReach {m} (NetStep.offering before behind x b split more at) r =
    subst
      (λ fs.
        BoardReach (record (board_of m) { publishers = before ++ moved x ∷ behind; feeds = fs }))
      (sym (map-set feed_of m.buses x.next (offered_to x.item b)))
      (BoardReach.next r (
        BoardStep.offering before behind x b.feed split more
          (get_elem?-map feed_of m.buses x.next b at)))
NetStep-BoardReach {m} (NetStep.subscribe topics) r =
    subst (λ fs. BoardReach (record (board_of m) { feeds = fs }))
      (sym (map-append feed_of m.buses (joined topics ∷ [])))
      (BoardReach.next r (BoardStep.subscribe topics))
NetStep-BoardReach {m} (NetStep.moving k b c at st same) r =
    subst (λ fs. BoardReach (record (board_of m) { feeds = fs }))
      (sym (map-set feed_of m.buses k c)) (moving-BoardReach m k b c r at st same)

pub NetReach-BoardReach : {n : Net} → NetReach n → BoardReach (board_of n)
NetReach-BoardReach NetReach.start = BoardReach.start
NetReach-BoardReach (NetReach.next r st) = NetStep-BoardReach st (NetReach-BoardReach r)

-- Each stream goes its own way.
pub record IsStreamed (rest : List PublishedEvent) (b : Bus) : Type 0 where
  pub topics : List Bytes
  pub reached : BusReach topics b

module _ {rest rest' : List PublishedEvent} {b c : Bus} where
  streamed_on : BusStep b c → IsStreamed rest b → IsStreamed rest' c
  streamed_on st w = record { topics = w.topics; reached = BusReach.next w.reached st }

streamed_as : {rest rest' : List PublishedEvent} {b : Bus} → IsStreamed rest b → IsStreamed rest' b
streamed_as w = record { topics = w.topics; reached = w.reached }

IsNet : Net → Type 0
IsNet n = IsFanned IsStreamed n.publishers n.buses

NetStep-IsNet : {m n : Net} → NetStep m n → IsNet m → IsNet n
unfolding IsNet publish_event add_stream
NetStep-IsNet {m} (NetStep.publish ev) w =
    IsFanned-begun m.publishers m.buses w ev (λ rest b v. streamed_as v)
NetStep-IsNet {m} (NetStep.offering before behind x b split more at) w =
    IsFanned-moved m.publishers m.buses w before behind x b (offered_to x.item b) split more at
      (λ rest c v. v) (λ front back v. streamed_on (BusStep.silently (FeedStep.publish x.item)) v)
NetStep-IsNet {m} (NetStep.subscribe topics) w =
    IsFanned-added m.publishers m.buses w (joined topics) (λ rest c v. v)
      (record { topics = topics; reached = BusReach.start })
NetStep-IsNet {m} (NetStep.moving k b c at st same) w =
    IsFanned-set m.publishers m.buses w k b c at (λ rest d v. v) (λ rest v. streamed_on st v)

pub NetReach-IsNet : {n : Net} → NetReach n → IsFanned IsStreamed n.publishers n.buses
unfolding IsNet
NetReach-IsNet NetReach.start = none-IsFanned IsStreamed
NetReach-IsNet (NetReach.next r st) = NetStep-IsNet st (NetReach-IsNet r)

-- Whatever modules are subscribed, and however the publishers, the loops of all streams, the networks
-- and the modules take turns: what a module has received comes, in the order of the offers and each at
-- most once, of what was offered to it and matches its topics; and that, with what publishers have yet to
-- offer it, is what was published since it came, each once, but perhaps in another order.
pub net_received :
    {n : Net} (r : NetReach n) (i : ℕ) (b : Bus)
    → get_elem? n.buses i ≡ some b
    → ((ys : List PublishedEvent) × Sublist ys (matching b.feed.subscriber.topics b.feed.published)
        × (b.relay.received ≡ map delivered ys))
      × (earlier later : List PublishedEvent) × (n.events ≡ earlier ++ later)
      × Perm (b.feed.published ++ owed i n.publishers) later
net_received {n} r i b at =
    let w =
      BoardReach-IsOffered (NetReach-BoardReach r) i b.feed
        (get_elem?-map feed_of n.buses i b at) in
    let own = (NetReach-IsNet r).each i b at in
    let (ys, part, same) = received_in_order own.reached in
    (
      (
        ys,
        subst (λ t. Sublist ys (matching t b.feed.published)) (sym (same_topics own.reached)) part,
        same,
      ),
      w.earlier,
      w.later,
      w.split,
      w.perm,
    )
