-- ===== src/EventStream/Reordered.antt =====
-- modulesdk/testkit/hostdata.go: what concurrent publishes are to a subscriber, up to their order.
use mathlib.Core.List.{Perm, Permᴰ, append-nil}
use mathlib.Core.List.Permᴰ
use mathlib.Core.Logic.{∥∥₁_map}
use weaveplatform_sdk.Base.{
  ℕ, ◌≤◌, ◌≡◌, refl, sym, ap, ◌∙◌, subst, true, false, List, [], ◌∷◌, ◌++◌, some, Bytes, length,
  get_elem?, Bool-cases, inl, inr,
}
use weaveplatform_sdk.Round.{owed}
use weaveplatform_sdk.HostData.{PublishedEvent, topic_matches, channel_size}
use weaveplatform_sdk.HostData.Fanout.{matching, matching_yes, matching_no}
use weaveplatform_sdk.EventStream.{Feed}
use weaveplatform_sdk.EventStream.Feeding.{IsFed}
use weaveplatform_sdk.EventStream.Publishers.{Board, BoardReach}
use weaveplatform_sdk.EventStream.Publishers.Offers.{IsOffered, BoardReach-IsOffered}

module _ (topics : List Bytes) where
  matching-cons :
      (ev : PublishedEvent) (xs ys : List PublishedEvent)
      → Permᴰ (matching topics xs) (matching topics ys)
      → Permᴰ (matching topics (ev ∷ xs)) (matching topics (ev ∷ ys))
  matching-cons ev xs ys d = elim (Bool-cases (topic_matches topics ev.topic)) [
    | inl hit ↦
        rw (matching_yes topics ev xs hit, matching_yes topics ev ys hit) (Permᴰ.cons refl d)
    | inr other ↦ rw (matching_no topics ev xs other, matching_no topics ev ys other) d
  ]

  matching-swap :
      (a b : PublishedEvent) (xs : List PublishedEvent)
      → Permᴰ (matching topics (a ∷ b ∷ xs)) (matching topics (b ∷ a ∷ xs))
  matching-swap a b xs = elim (Bool-cases (topic_matches topics a.topic)) [
    | inl hit ↦ elim (Bool-cases (topic_matches topics b.topic)) [
      | inl hit' ↦
          rw
            (
              matching_yes topics a (b ∷ xs) hit,
              matching_yes topics b xs hit',
              matching_yes topics b (a ∷ xs) hit',
              matching_yes topics a xs hit,
            )
            (Permᴰ.swap refl refl)
      | inr other ↦
          rw
            (
              matching_yes topics a (b ∷ xs) hit,
              matching_no topics b xs other,
              matching_no topics b (a ∷ xs) other,
              matching_yes topics a xs hit,
            )
            (Permᴰ.refl (a ∷ matching topics xs))
    ]
    | inr none_of ↦ matching-passed a b xs none_of
  ]
    where
      matching-passed :
          (a b : PublishedEvent) (xs : List PublishedEvent)
          → topic_matches topics a.topic ≡ false
          → Permᴰ (matching topics (a ∷ b ∷ xs)) (matching topics (b ∷ a ∷ xs))
      matching-passed a b xs other =
          subst (λ l. Permᴰ l (matching topics (b ∷ a ∷ xs)))
            (sym (matching_no topics a (b ∷ xs) other))
            (matching-cons b xs (a ∷ xs) (
              subst (λ l. Permᴰ (matching topics xs) l) (sym (matching_no topics a xs other))
                (Permᴰ.refl (matching topics xs))))

  matching-perm_d :
      {xs ys : List PublishedEvent} → Permᴰ xs ys → Permᴰ (matching topics xs) (matching topics ys)
  matching-perm_d Permᴰ.nil = Permᴰ.refl (matching topics [])
  matching-perm_d (Permᴰ.cons {a} {b} {l₁} {l₂} e d) =
      subst (λ v. Permᴰ (matching topics (a ∷ l₁)) (matching topics (v ∷ l₂))) e
        (matching-cons a l₁ l₂ (matching-perm_d d))
  matching-perm_d (Permᴰ.swap {a} {b} {a'} {b'} {l} e f) =
      subst (λ v. Permᴰ (matching topics (a ∷ b ∷ l)) (matching topics (v ∷ b' ∷ l))) f
        (subst (λ v. Permᴰ (matching topics (a ∷ b ∷ l)) (matching topics (b ∷ v ∷ l))) e
          (matching-swap a b l))
  matching-perm_d (Permᴰ.trans d d') = Permᴰ.trans (matching-perm_d d) (matching-perm_d d')

  pub matching-perm :
      {xs ys : List PublishedEvent} → Perm xs ys → Perm (matching topics xs) (matching topics ys)
  matching-perm {xs} {ys} p =
      ∥∥₁_map {B = Permᴰ (matching topics xs) (matching topics ys)} p matching-perm_d

all_accepted :
    (f : Feed) (topics : List Bytes) (w : IsFed topics f)
    → length (matching f.subscriber.topics f.published) ≤ channel_size
    → w.accepted ≡ matching f.subscriber.topics f.published
all_accepted f topics w few =
    let same = ap (λ t. matching t f.published) w.same_topics in
    w.complete (subst (λ l. length l ≤ channel_size) same few) ∙ sym same

-- What a subscriber that has been offered everything, and lost none of it, has in the end.
pub IsOffered-matches :
    (events rest : List PublishedEvent) (f : Feed) (w : IsOffered events rest f)
    → rest ≡ []
    → Perm (matching f.subscriber.topics f.published) (matching f.subscriber.topics w.later)
IsOffered-matches events rest f w settled = matching-perm f.subscriber.topics (
    subst (λ l. Perm l w.later) (ap (λ l. f.published ++ l) settled ∙ append-nil f.published)
      w.perm)

-- Whatever publishers and subscribers there are, and however they took turns: once no publisher has yet
-- to offer something to a subscriber whose loop still runs, and at most 64 offers have matched, no event
-- is lost: what its loop has forwarded, with what waits in its channel, is what was recorded since it
-- came and matches its topics, each once, but perhaps in another order.
pub matches_arrive :
    {b : Board} (r : BoardReach b) (i : ℕ) (f : Feed)
    → get_elem? b.feeds i ≡ some f
    → owed i b.publishers ≡ []
    → f.serving ≡ true
    → length (matching f.subscriber.topics f.published) ≤ channel_size
    → (earlier later : List PublishedEvent) × (b.events ≡ earlier ++ later)
      × Perm (f.forwarded ++ f.subscriber.queue) (matching f.subscriber.topics later)
matches_arrive {b} r i f at settled serving few =
    let w = BoardReach-IsOffered r i f at in
    let all_in : f.forwarded ++ f.subscriber.queue ≡ matching f.subscriber.topics f.published =
      ap (λ l. f.forwarded ++ l) (sym (w.fed.waits serving))
      ∙ sym w.fed.split
      ∙ all_accepted f w.topics w.fed few in
    (
      w.earlier,
      w.later,
      w.split,
      subst (λ l. Perm l (matching f.subscriber.topics w.later)) (sym all_in)
          (IsOffered-matches b.events (owed i b.publishers) f w settled),
    )
