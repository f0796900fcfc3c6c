-- ===== src/EventStream/Progress.antt =====
-- modulesdk/testkit/hostserver.go and modulesdk/hostclient.go: the stub's loop and the client's
-- goroutine can bring what waits to the module.
use weaveplatform_sdk.Base.{ℕ, ◌≡◌, refl, sym, subst, true, false, List, [], ◌∷◌, Bytes}
use weaveplatform_sdk.HostData.{PublishedEvent}
use weaveplatform_sdk.Relay.{Relay, Run}
use weaveplatform_sdk.Relay.Ending.{Runs}
use weaveplatform_sdk.EventStream.{WireEvent, Event, to_event, FeedStep, Bus, BusStep, BusReach}

-- Steps without another publish.
pub data Works : Bus → Bus → Type 0 where
  stay : {b : Bus} → Works b b
  work : {a b c : Bus} → BusStep a b → b.feed.published ≡ a.feed.published → Works b c → Works a c

pub Works-append : {a b c : Bus} → Works a b → Works b c → Works a c
Works-append Works.stay v = v
Works-append (Works.work st same w) v = Works.work st same (Works-append w v)

pub BusReach-append :
    {topics : List Bytes} {a b : Bus} → BusReach topics a → Works a b → BusReach topics b
BusReach-append r Works.stay = r
BusReach-append r (Works.work st same w) = BusReach-append (BusReach.next r st) w

-- The stub's loop has emptied its channel.
pub record Forwarded (b : Bus) : Type 0 where
  pub state : Bus
  pub works : Works b state
  pub none_waits : state.feed.subscriber.queue ≡ []
  pub same_published : state.feed.published ≡ b.feed.published
  pub serves : state.feed.serving ≡ true
  pub same_place : state.relay.place ≡ b.relay.place

pub forward_all :
    (q : List PublishedEvent) (b : Bus)
    → b.feed.subscriber.queue ≡ q
    → b.feed.serving ≡ true
    → b.relay.broken ≡ false
    → Forwarded b
forward_all [] b at serving whole = record {
  state = b;
  works = Works.stay;
  none_waits = at;
  same_published = refl;
  serves = serving;
  same_place = refl;
}
forward_all (ev ∷ rest) b at serving whole =
    let next = forward_all rest _ refl serving whole in
    record {
      state = next.state;
      works =
          Works.work (BusStep.sending (FeedStep.forward {ev = ev} {rest = rest} serving at) whole)
            refl next.works;
      none_waits = next.none_waits;
      same_published = next.same_published;
      serves = next.serves;
      same_place = next.same_place;
    }

-- Steps of the goroutine and the module are steps of the bus.
pub Works-Runs :
    {n : ℕ} {b : Bus} {r s : Relay WireEvent Event}
    → Runs to_event n r s
    → b.relay ≡ r
    → Works b (record b { relay = s })
Works-Runs {b = b} Runs.stay e = subst (λ r. Works b (record b { relay = r })) e Works.stay
Works-Runs {b = b} (Runs.step {r} {s} st w) e =
    Works.work (BusStep.running (subst (λ x. Run to_event x s) (sym e) st)) refl (Works-Runs w refl)
