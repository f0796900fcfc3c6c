-- ===== src/EventStream/Network/Settling.antt =====
-- modulesdk/testkit/hostdata.go: the publishers can finish, whatever has been published.
use mathlib.Core.List.{append_assoc, append-nil}
use weaveplatform_sdk.Base.{ℕ, ◌≡◌, refl, sym, ◌∙◌, List, [], ◌∷◌, ◌++◌, some, arith, get_elem?}
use weaveplatform_sdk.Round.{Round, owed}
use weaveplatform_sdk.Round.Sends.{Sends, after_all}
use weaveplatform_sdk.Round.Finishing.{settle}
use weaveplatform_sdk.HostData.{PublishedEvent, offer}
use weaveplatform_sdk.EventStream.{Bus}
use weaveplatform_sdk.EventStream.Network.{Net, NetStep, NetReach, offered_to}
use weaveplatform_sdk.EventStream.Network.Received.{NetReach-IsNet}

-- Steps without another publish.
pub data NetWorks : Net → Net → Type 0 where
  stay : {n : Net} → NetWorks n n
  work : {l m n : Net} → NetStep l m → m.events ≡ l.events → NetWorks m n → NetWorks l n

pub NetWorks-append : {l m n : Net} → NetWorks l m → NetWorks m n → NetWorks l n
NetWorks-append NetWorks.stay v = v
NetWorks-append (NetWorks.work st same w) v = NetWorks.work st same (NetWorks-append w v)

pub NetReach-append : {m n : Net} → NetReach m → NetWorks m n → NetReach n
NetReach-append r NetWorks.stay = r
NetReach-append r (NetWorks.work st same w) = NetReach-append (NetReach.next r st) w

pub NetWorks-events : {m n : Net} → NetWorks m n → n.events ≡ m.events
NetWorks-events NetWorks.stay = refl
NetWorks-events (NetWorks.work st same w) = NetWorks-events w ∙ same

-- Sends of publishers are steps of the whole.
sends_works :
    (n : Net) {j : ℕ} {r s : List (Round PublishedEvent)} {xs ys : List Bus}
    → Sends offered_to j r xs s ys
    → NetWorks (record n { publishers = r; buses = xs }) (record n { publishers = s; buses = ys })
sends_works n Sends.none_left = NetWorks.stay
sends_works n (Sends.send before behind x b split more at rest) =
    NetWorks.work (NetStep.offering before behind x b split more at) refl (sends_works n rest)

-- The offers do not touch the stream, but for what was published to it.
module _ (rest : List PublishedEvent) (b : Bus) where
  abbrev pub after : Bus
  after = after_all offered_to rest b

after-relay : (rest : List PublishedEvent) (b : Bus) → (after rest b).relay ≡ b.relay
after-relay [] b = refl
after-relay (ev ∷ rest) b = after-relay rest (offered_to ev b)

after-serving :
    (rest : List PublishedEvent) (b : Bus) → (after rest b).feed.serving ≡ b.feed.serving
after-serving [] b = refl
after-serving (ev ∷ rest) b = after-serving rest (offered_to ev b)

offer-topics :
    (ev : PublishedEvent) (b : Bus)
    → (offered_to ev b).feed.subscriber.topics ≡ b.feed.subscriber.topics
unfolding offer
offer-topics ev b = ground arith

after-topics :
    (rest : List PublishedEvent) (b : Bus)
    → (after rest b).feed.subscriber.topics ≡ b.feed.subscriber.topics
after-topics [] b = refl
after-topics (ev ∷ rest) b = after-topics rest (offered_to ev b) ∙ offer-topics ev b

after-published :
    (rest : List PublishedEvent) (b : Bus)
    → (after rest b).feed.published ≡ b.feed.published ++ rest
after-published [] b = sym (append-nil b.feed.published)
after-published (ev ∷ rest) b =
    after-published rest (offered_to ev b) ∙ append_assoc b.feed.published (ev ∷ []) rest

-- The publishers have offered a stream all that they owed it.
pub record IsSettled (i : ℕ) (n : Net) (b : Bus) : Type 0 where
  pub state : Net
  pub bus : Bus
  pub works : NetWorks n state
  pub at : get_elem? state.buses i ≡ some bus
  pub none_owed : owed i state.publishers ≡ []
  pub same_relay : bus.relay ≡ b.relay
  pub same_serving : bus.feed.serving ≡ b.feed.serving
  pub same_topics : bus.feed.subscriber.topics ≡ b.feed.subscriber.topics
  pub published_all : bus.feed.published ≡ b.feed.published ++ owed i n.publishers

pub net-IsSettled :
    {n : Net} (r : NetReach n) (i : ℕ) (b : Bus) → get_elem? n.buses i ≡ some b → IsSettled i n b
net-IsSettled {n} r i b at =
    let all = settle offered_to i n.publishers n.buses b at (NetReach-IsNet r).bounded in
    let rest = owed i n.publishers in
    record {
      state = record n { publishers = all.rounds; buses = all.items };
      bus = after rest b;
      works = sends_works n all.sends;
      at = all.got_all;
      none_owed = all.none_owed;
      same_relay = after-relay rest b;
      same_serving = after-serving rest b;
      same_topics = after-topics rest b;
      published_all = after-published rest b;
    }
