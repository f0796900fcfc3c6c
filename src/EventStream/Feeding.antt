-- ===== src/EventStream/Feeding.antt =====
-- modulesdk/testkit/hostserver.go: what the stub forwards of what is published.
use mathlib.Core.List.{Sublist, sublist-append_left, append_assoc, append-nil}
use mathlib.Core.List.Sublist
use native.Mathlib.Decide.{dec_lt}
use weaveplatform_sdk.Base.{
  ◌≤◌, ◌≡◌, refl, sym, ap, ◌∙◌, Bool, true, false, List, [], ◌∷◌, ◌++◌, Option, Bytes, arith,
  length, length-append, Bool-cases, inl, inr, if◌then◌else◌,
}
use weaveplatform_sdk.HostData.{PublishedEvent, Subscriber, channel_size, offer, topic_matches}
use weaveplatform_sdk.HostData.Fanout.{matching, offer_room, offer_full, offer_other}
use weaveplatform_sdk.EventStream.{Feed, FeedStep, subscribed}

matching-snoc :
    (topics : List Bytes) (evs : List PublishedEvent) (ev : PublishedEvent)
    → matching topics (evs ++ ev ∷ [])
      ≡ matching topics evs ++ (if topic_matches topics ev.topic then ev ∷ [] else [])
unfolding matching
matching-snoc topics [] ev = refl
matching-snoc topics (e ∷ evs) ev = ground (arith, matching-snoc topics evs ev)

-- `accepted` is what got into the channel; `rest` of it has not been forwarded.
pub record IsFed (topics : List Bytes) (f : Feed) : Type 0 where
  pub accepted : List PublishedEvent
  pub rest : List PublishedEvent
  pub same_topics : f.subscriber.topics ≡ topics
  pub split : accepted ≡ f.forwarded ++ rest
  pub waits : f.serving ≡ true → rest ≡ f.subscriber.queue
  pub within : length f.subscriber.queue ≤ length accepted
  pub in_order : Sublist accepted (matching topics f.published)
  pub complete :
      length (matching topics f.published) ≤ channel_size → accepted ≡ matching topics f.published

pub subscribed-IsFed : (topics : List Bytes) → IsFed topics (subscribed topics)
unfolding matching
subscribed-IsFed topics = record {
  accepted = [];
  rest = [];
  same_topics = refl;
  split = refl;
  waits = λ s. refl;
  within = omega arith;
  in_order = Sublist.refl [];
  complete = λ h. refl;
}

-- A publish, by what the channel does with it.
module _ {topics : List Bytes} (f : Feed) (ev : PublishedEvent) (w : IsFed topics f) where
  abbrev after : Subscriber → Feed
  after s = record f { subscriber = s; published = f.published ++ ev ∷ [] }

  hits :
      topic_matches topics ev.topic ≡ true
      → matching topics (f.published ++ ev ∷ []) ≡ matching topics f.published ++ ev ∷ []
  hits hit = rw (matching-snoc topics f.published ev, hit) refl

  passes :
      topic_matches topics ev.topic ≡ false
      → matching topics (f.published ++ ev ∷ []) ≡ matching topics f.published
  passes other =
      rw (matching-snoc topics f.published ev, other) (append-nil (matching topics f.published))

  room-IsFed :
      topic_matches topics ev.topic ≡ true
      → IsFed topics (after (record f.subscriber { queue = f.subscriber.queue ++ ev ∷ [] }))
  room-IsFed hit = record {
    accepted = w.accepted ++ ev ∷ [];
    rest = w.rest ++ ev ∷ [];
    same_topics = w.same_topics;
    split = ap (λ l. l ++ ev ∷ []) w.split ∙ append_assoc f.forwarded w.rest (ev ∷ []);
    waits = λ s. ap (λ l. l ++ ev ∷ []) (w.waits s);
    within = omega (
      arith,
      w.within,
      length-append f.subscriber.queue (ev ∷ []),
      length-append w.accepted (ev ∷ []),
    );
    in_order = rw (hits hit) (Sublist.append w.in_order (Sublist.refl (ev ∷ [])));
    complete = λ h.
        let more = length-append (matching topics f.published) (ev ∷ []) in
        ap (λ l. l ++ ev ∷ []) (w.complete (omega (arith, h, ap length (hits hit), more)))
        ∙ sym (hits hit);
  }

  full-IsFed :
      topic_matches topics ev.topic ≡ true
      → channel_size ≤ length f.subscriber.queue
      → IsFed topics (after f.subscriber)
  full-IsFed hit full = record {
    accepted = w.accepted;
    rest = w.rest;
    same_topics = w.same_topics;
    split = w.split;
    waits = w.waits;
    within = w.within;
    in_order =
        rw (hits hit)
          (Sublist.trans w.in_order (sublist-append_left (matching topics f.published) (ev ∷ [])));
    complete = λ h.
        let more = length-append (matching topics f.published) (ev ∷ []) in
        let all_in = w.complete (omega (arith, h, ap length (hits hit), more)) in
        absurd (omega (arith, h, ap length (hits hit), more, ap length all_in, w.within));
  }

  other-IsFed : topic_matches topics ev.topic ≡ false → IsFed topics (after f.subscriber)
  other-IsFed other = record {
    accepted = w.accepted;
    rest = w.rest;
    same_topics = w.same_topics;
    split = w.split;
    waits = w.waits;
    within = w.within;
    in_order = rw (passes other) w.in_order;
    complete = λ h. w.complete (omega (arith, h, ap length (passes other))) ∙ sym (passes other);
  }

  in_topics :
      (b : Bool)
      → topic_matches topics ev.topic ≡ b
      → topic_matches f.subscriber.topics ev.topic ≡ b
  in_topics b e = ap (λ t. topic_matches t ev.topic) w.same_topics ∙ e

  publish-IsFed : IsFed topics (after (offer ev f.subscriber))
  publish-IsFed = elim (Bool-cases (topic_matches topics ev.topic)) [
    | inr other ↦ rw (offer_other ev f.subscriber (in_topics false other)) (other-IsFed other)
    | inl hit ↦ elim (dec_lt (length f.subscriber.queue) channel_size) [
      | yes room ↦ rw (offer_room ev f.subscriber (in_topics true hit) room) (room-IsFed hit)
      | no full ↦ rw (offer_full ev f.subscriber (omega arith)) (full-IsFed hit (omega arith))
    ]
  ]

pub FeedStep-IsFed :
    {topics : List Bytes} {f g : Feed} {o : Option PublishedEvent}
    → FeedStep f o g
    → IsFed topics f
    → IsFed topics g
FeedStep-IsFed {f} (FeedStep.publish ev) w = publish-IsFed f ev w
FeedStep-IsFed {f} (FeedStep.forward {ev} {rest} serving at) w = record {
  accepted = w.accepted;
  rest = rest;
  same_topics = w.same_topics;
  split =
      w.split
      ∙ ap (λ l. f.forwarded ++ l) (w.waits serving ∙ at)
      ∙ sym (append_assoc f.forwarded (ev ∷ []) rest);
  waits = λ s. refl;
  within = omega (arith, w.within, ap length at);
  in_order = w.in_order;
  complete = w.complete;
}
FeedStep-IsFed {f} (FeedStep.send_fails {ev} {rest} serving at) w = record {
  accepted = w.accepted;
  rest = w.rest;
  same_topics = w.same_topics;
  split = w.split;
  waits = λ s. cc;
  within = omega (arith, w.within, ap length at);
  in_order = w.in_order;
  complete = w.complete;
}
FeedStep-IsFed {f} (FeedStep.hang_up serving) w = record {
  accepted = w.accepted;
  rest = w.rest;
  same_topics = w.same_topics;
  split = w.split;
  waits = λ s. cc;
  within = w.within;
  in_order = w.in_order;
  complete = w.complete;
}
