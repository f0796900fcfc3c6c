-- ===== src/HostData/Fanout.antt =====
-- modulesdk/testkit/hostdata.go: what subscribers have waiting after a series of publishes.
use mathlib.Core.List.{append-nil, append_assoc, map-append}
use native.Mathlib.Decide.{dec_lt}
use weaveplatform_sdk.Base.{
  ℕ, zero, suc, ◌≤◌, ◌<◌, ◌≡◌, refl, sym, ap, ◌∙◌, true, false, List, [], ◌∷◌, ◌++◌, map, arith,
  Bytes, length, length-append, take, if◌then◌else◌, Bool-cases, inl, inr,
}
use weaveplatform_sdk.HostData.{
  PublishedEvent, Subscriber, HostData, channel_size, topic_matches, offer, offer_all, publish,
  subscribe,
}

unfoldable pub publish_all : List PublishedEvent → HostData → HostData
publish_all [] d = d
publish_all (ev ∷ evs) d = publish_all evs (publish ev d)

-- The events whose topic a subscription matches, in order.
unfoldable pub matching : List Bytes → List PublishedEvent → List PublishedEvent
matching topics [] = []
matching topics (ev ∷ evs) =
    let rest = matching topics evs in if topic_matches topics ev.topic then ev ∷ rest else rest

-- A subscriber through a series of publishes.
pub offers : List PublishedEvent → Subscriber → Subscriber
offers [] s = s
offers (ev ∷ evs) s = offers evs (offer ev s)

publish_all-subscribers :
    (evs : List PublishedEvent) (d : HostData)
    → (publish_all evs d).subscribers ≡ map (offers evs) d.subscribers
unfolding publish_all publish offers
publish_all-subscribers [] d = map_same d.subscribers
  where
    map_same : (ss : List Subscriber) → ss ≡ map (offers []) ss
    map_same [] = refl
    map_same (s ∷ ss) = ap (◌∷◌ s) (map_same ss)
publish_all-subscribers (ev ∷ evs) d =
    publish_all-subscribers evs (publish ev d) ∙ map_offers ev evs d.subscribers
  where
    map_offers :
        (ev : PublishedEvent) (evs : List PublishedEvent) (ss : List Subscriber)
        → map (offers evs) (offer_all ev ss) ≡ map (offers (ev ∷ evs)) ss
    map_offers ev evs [] = refl
    map_offers ev evs (s ∷ ss) = ap (◌∷◌ (offers evs (offer ev s))) (map_offers ev evs ss)

publish_all-events :
    (evs : List PublishedEvent) (d : HostData) → (publish_all evs d).events ≡ d.events ++ evs
unfolding publish_all publish
publish_all-events [] d = sym (append-nil d.events)
publish_all-events (ev ∷ evs) d =
    publish_all-events evs (publish ev d) ∙ append_assoc d.events (ev ∷ []) evs

take-full : (n : ℕ) (q r : List PublishedEvent) → length q ≡ n → take n (q ++ r) ≡ q
take-full zero [] r h = refl
take-full zero (x ∷ q) r h = absurd (omega arith)
take-full (suc n) [] r h = absurd (omega arith)
take-full (suc n) (x ∷ q) r h = ap (◌∷◌ x) (take-full n q r (omega arith))

take-short : (n : ℕ) (q : List PublishedEvent) → length q ≤ n → take n q ≡ q
take-short zero [] h = refl
take-short zero (x ∷ q) h = absurd (omega arith)
take-short (suc n) [] h = refl
take-short (suc n) (x ∷ q) h = ap (◌∷◌ x) (take-short n q (omega arith))

-- The same topics, and the first events that fit the channel.
record Waits (s t : Subscriber) (evs : List PublishedEvent) : Type 0 where
  same_topics : t.topics ≡ s.topics
  waiting : t.queue ≡ take channel_size (s.queue ++ matching s.topics evs)

pub offer_room :
    (ev : PublishedEvent) (s : Subscriber)
    → topic_matches s.topics ev.topic ≡ true
    → length s.queue < channel_size
    → offer ev s ≡ record s { queue = s.queue ++ ev ∷ [] }
unfolding offer
offer_room ev s m h = ground arith

pub offer_full :
    (ev : PublishedEvent) (s : Subscriber) → channel_size ≤ length s.queue → offer ev s ≡ s
unfolding offer
offer_full ev s h = ground arith

pub offer_other :
    (ev : PublishedEvent) (s : Subscriber)
    → topic_matches s.topics ev.topic ≡ false
    → offer ev s ≡ s
unfolding offer
offer_other ev s h = ground arith

module _ (topics : List Bytes) (ev : PublishedEvent) (evs : List PublishedEvent) where
  pub matching_yes :
      topic_matches topics ev.topic ≡ true → matching topics (ev ∷ evs) ≡ ev ∷ matching topics evs
  unfolding matching
  matching_yes e = rw e refl

  pub matching_no :
      topic_matches topics ev.topic ≡ false → matching topics (ev ∷ evs) ≡ matching topics evs
  unfolding matching
  matching_no e = rw e refl

-- One publish, by what `offer` does.
module _ (ev : PublishedEvent) (evs : List PublishedEvent) (s : Subscriber) where
  Waits-room :
      topic_matches s.topics ev.topic ≡ true
      → length s.queue < channel_size
      → Waits
          (record s { queue = s.queue ++ ev ∷ [] })
          (offers evs (record s { queue = s.queue ++ ev ∷ [] }))
          evs
      → Waits s (offers (ev ∷ evs) s) (ev ∷ evs)
  unfolding offers
  Waits-room hit h w =
      let e = offer_room ev s hit h in
      record {
        same_topics = ap (λ t. (offers evs t).topics) e ∙ w.same_topics;
        waiting =
            ap (λ t. (offers evs t).queue) e
            ∙ w.waiting
            ∙ ap (take channel_size) (
                append_assoc s.queue (ev ∷ []) (matching s.topics evs)
                ∙ ap (λ m. s.queue ++ m) (sym (matching_yes s.topics ev evs hit)));
      }

  Waits-full :
      topic_matches s.topics ev.topic ≡ true
      → length s.queue ≡ channel_size
      → Waits s (offers evs s) evs
      → Waits s (offers (ev ∷ evs) s) (ev ∷ evs)
  unfolding offers
  Waits-full hit h w =
      let e = offer_full ev s (omega arith) in
      record {
        same_topics = ap (λ t. (offers evs t).topics) e ∙ w.same_topics;
        waiting =
            ap (λ t. (offers evs t).queue) e
            ∙ w.waiting
            ∙ take-full channel_size s.queue (matching s.topics evs) h
            ∙ sym (take-full channel_size s.queue (matching s.topics (ev ∷ evs)) h);
      }

  Waits-other :
      topic_matches s.topics ev.topic ≡ false
      → Waits s (offers evs s) evs
      → Waits s (offers (ev ∷ evs) s) (ev ∷ evs)
  unfolding offers
  Waits-other no_match w =
      let e = offer_other ev s no_match in
      record {
        same_topics = ap (λ t. (offers evs t).topics) e ∙ w.same_topics;
        waiting =
            ap (λ t. (offers evs t).queue) e
            ∙ w.waiting
            ∙ ap (λ m. take channel_size (s.queue ++ m))
                (sym (matching_no s.topics ev evs no_match));
      }

offers-queue :
    (evs : List PublishedEvent) (s : Subscriber)
    → length s.queue ≤ channel_size
    → Waits s (offers evs s) evs
offers-queue [] s h = record {
  same_topics = unfold offers in refl;
  waiting =
      unfold offers matching in
      sym (ap (take channel_size) (append-nil s.queue) ∙ take-short channel_size s.queue h);
}
offers-queue (ev ∷ evs) s h = elim (Bool-cases (topic_matches s.topics ev.topic)) [
  | inr other ↦ Waits-other ev evs s other (offers-queue evs s h)
  | inl hit ↦ elim (dec_lt (length s.queue) channel_size) [
    | yes room ↦ Waits-room ev evs s hit room (
        offers-queue evs (record s { queue = s.queue ++ ev ∷ [] })
          (omega (arith, length-append s.queue (ev ∷ []))))
    | no full ↦ Waits-full ev evs s hit (omega arith) (offers-queue evs s h)
  ]
]

-- After a subscription and any publishes that nobody has received yet, the stub has recorded them
-- all in order, and the new subscriber has waiting exactly the first 64 that match its topics, in
-- order; the subscribers before it get the same publishes.
publish_all_lem :
    (topics : List Bytes) (evs : List PublishedEvent) (d : HostData)
    → let d' = publish_all evs (subscribe topics d) in
      (d'.events ≡ d.events ++ evs)
      × (d'.subscribers
          ≡ map (offers evs) d.subscribers
            ++ record { topics = topics; queue = take channel_size (matching topics evs) } ∷ [])
unfolding subscribe
publish_all_lem topics evs d =
    let fresh : Subscriber = record { topics = topics; queue = [] } in
    let w = offers-queue evs fresh (omega arith) in
    (
      publish_all-events evs (subscribe topics d),
      publish_all-subscribers evs (subscribe topics d)
          ∙ map-append (offers evs) d.subscribers (fresh ∷ [])
          ∙ ap (λ s. map (offers evs) d.subscribers ++ s ∷ [])
              (λ i. record { topics = w.same_topics i; queue = w.waiting i }),
    )
