-- ===== src/EventStream/Publishers/Offers.antt =====
-- modulesdk/testkit/hostdata.go: what the publishers offer to each subscriber, and still owe it.
use mathlib.Core.List.{Perm, Sublist, perm_middle, append_assoc, append-nil, sublist-append_left}
use mathlib.Core.List.Perm
use mathlib.Core.List.Sublist
use weaveplatform_sdk.Base.{
  ℕ, ◌≡◌, refl, sym, ap, ◌∙◌, subst, List, [], ◌∷◌, ◌++◌, Option, some, Bytes, get_elem?,
}
use weaveplatform_sdk.Round.{owed}
use weaveplatform_sdk.Round.Fanned.{
  IsFanned, IsFanned-begun, IsFanned-added, IsFanned-set, IsFanned-moved, none-IsFanned,
}
use weaveplatform_sdk.HostData.{PublishedEvent}
use weaveplatform_sdk.HostData.Fanout.{matching}
use weaveplatform_sdk.EventStream.{Feed, FeedStep, subscribed}
use weaveplatform_sdk.EventStream.Feeding.{IsFed, subscribed-IsFed, FeedStep-IsFed}
use weaveplatform_sdk.EventStream.Publishers.{
  Board, BoardStep, BoardReach, record_event, add_subscriber, offered,
}

-- What a subscriber has been offered, and what it is still owed, is what was recorded since it came, in
-- some order.
pub record IsOffered (events rest : List PublishedEvent) (f : Feed) : Type 0 where
  pub topics : List Bytes
  pub earlier : List PublishedEvent
  pub later : List PublishedEvent
  pub split : events ≡ earlier ++ later
  pub perm : Perm (f.published ++ rest) later
  pub fed : IsFed topics f

module _ (events rest : List PublishedEvent) (f : Feed) (w : IsOffered events rest f) where
  pub IsOffered-publish : (ev : PublishedEvent) → IsOffered (events ++ ev ∷ []) (rest ++ ev ∷ []) f
  IsOffered-publish ev = record {
    topics = w.topics;
    earlier = w.earlier;
    later = w.later ++ ev ∷ [];
    split = ap (λ l. l ++ ev ∷ []) w.split ∙ append_assoc w.earlier w.later (ev ∷ []);
    perm =
        subst (λ l. Perm l (w.later ++ ev ∷ [])) (append_assoc f.published rest (ev ∷ []))
          (Perm.append w.perm (Perm.refl (ev ∷ [])));
    fed = w.fed;
  }

  pub IsOffered-offered :
      (ev : PublishedEvent) (front back : List PublishedEvent)
      → rest ≡ front ++ ev ∷ back
      → IsOffered events (front ++ back) (offered ev f)
  IsOffered-offered ev front back e = record {
    topics = w.topics;
    earlier = w.earlier;
    later = w.later;
    split = w.split;
    perm =
        subst (λ l. Perm l w.later) (sym (append_assoc f.published (ev ∷ []) (front ++ back)))
          (Perm.trans (Perm.append (Perm.refl f.published) (Perm.symm (perm_middle front back)))
            (subst (λ l. Perm (f.published ++ l) w.later) e w.perm));
    fed = FeedStep-IsFed (FeedStep.publish ev) w.fed;
  }

  pub IsOffered-served :
      {o : Option PublishedEvent} (g : Feed)
      → FeedStep f o g
      → g.published ≡ f.published
      → IsOffered events rest g
  IsOffered-served g st same = record {
    topics = w.topics;
    earlier = w.earlier;
    later = w.later;
    split = w.split;
    perm = subst (λ l. Perm (l ++ rest) w.later) (sym same) w.perm;
    fed = FeedStep-IsFed st w.fed;
  }

pub fresh-IsOffered :
    (events : List PublishedEvent) (topics : List Bytes) → IsOffered events [] (subscribed topics)
fresh-IsOffered events topics = record {
  topics = topics;
  earlier = events;
  later = [];
  split = sym (append-nil events);
  perm = Perm.refl [];
  fed = subscribed-IsFed topics;
}

IsBoard : Board → Type 0
IsBoard b = IsFanned (IsOffered b.events) b.publishers b.feeds

BoardStep-IsBoard : {a b : Board} → BoardStep a b → IsBoard a → IsBoard b
unfolding IsBoard record_event add_subscriber
BoardStep-IsBoard {a} (BoardStep.publish ev) w =
    IsFanned-begun a.publishers a.feeds w ev (λ rest f v. IsOffered-publish a.events rest f v ev)
BoardStep-IsBoard {a} (BoardStep.offering before behind x f split more at) w =
    IsFanned-moved a.publishers a.feeds w before behind x f (offered x.item f) split more at
      (λ rest g v. v) (λ front back v. IsOffered-offered a.events _ f v x.item front back refl)
BoardStep-IsBoard {a} (BoardStep.subscribe topics) w =
    IsFanned-added a.publishers a.feeds w (subscribed topics) (λ rest g v. v)
      (fresh-IsOffered a.events topics)
BoardStep-IsBoard {a} (BoardStep.serving k f g at st same) w =
    IsFanned-set a.publishers a.feeds w k f g at (λ rest h v. v)
      (λ rest v. IsOffered-served a.events rest f v g st same)

BoardReach-IsBoard : {b : Board} → BoardReach b → IsBoard b
unfolding IsBoard
BoardReach-IsBoard BoardReach.start = none-IsFanned (IsOffered [])
BoardReach-IsBoard (BoardReach.next r st) = BoardStep-IsBoard st (BoardReach-IsBoard r)

pub BoardReach-IsOffered :
    {b : Board} (r : BoardReach b) (i : ℕ) (f : Feed)
    → get_elem? b.feeds i ≡ some f
    → IsOffered b.events (owed i b.publishers) f
unfolding IsBoard
BoardReach-IsOffered r i f at = (BoardReach-IsBoard r).each i f at

-- Whatever publishers and subscribers there are, and however they take turns: what a subscriber has
-- been offered, and what publishers have yet to offer it, is what was recorded since it came, each once,
-- but perhaps in another order; and what its loop has forwarded is, in the order of the offers, a part
-- of what matched its topics.
offers_lem :
    {b : Board} (r : BoardReach b) (i : ℕ) (f : Feed)
    → get_elem? b.feeds i ≡ some f
    → (earlier later : List PublishedEvent) × (b.events ≡ earlier ++ later)
      × Perm (f.published ++ owed i b.publishers) later
      × Sublist f.forwarded (matching f.subscriber.topics f.published)
offers_lem {b} r i f at =
    let w = BoardReach-IsOffered r i f at in
    (
      w.earlier,
      w.later,
      w.split,
      w.perm,
      Sublist.trans
          (subst (Sublist f.forwarded) (sym w.fed.split)
            (sublist-append_left f.forwarded w.fed.rest))
          (subst (λ t. Sublist w.fed.accepted (matching t f.published)) (sym w.fed.same_topics)
            w.fed.in_order),
    )
