-- ===== src/Tests/Streams.antt =====
-- The streams and the calls of the host client at concrete inputs.

use weaveplatform_sdk.Base.{
  ◌+◌, ◌*◌, ◌≤◌, ◌≡◌, ◌⊎◌, refl, true, List, [], ◌∷◌, Bytes, codes, length,
}
use weaveplatform_sdk.HostData.{PublishedEvent}
use weaveplatform_sdk.Relay.{Place, Relay, opened, Run, Env, Reach}
use weaveplatform_sdk.Relay.Ending.{IsAlone, Runs, Runs_end}
use weaveplatform_sdk.EventStream.{WireEvent, Event, wire_event, to_event}
use weaveplatform_sdk.EventStream.Delivered.{delivered}

abbrev hello : PublishedEvent
hello = record { topic = codes "toy.started"; payload = codes "hello"; at = 1500000 }

abbrev other : PublishedEvent
other = record { topic = codes "vpn.up"; payload = []; at = 1700000 }

abbrev toys : List Bytes
toys = codes "toy.*" ∷ []

abbrev opened_events : Relay WireEvent Event
opened_events = opened to_event

-- One event has come through, and a second is on the wire.
abbrev one_through : Relay WireEvent Event
one_through = record opened_events {
  sent = wire_event hello ∷ wire_event other ∷ [];
  wire = wire_event other ∷ [];
  received = delivered hello ∷ [];
}

one_through-Reach : Reach to_event one_through
one_through-Reach =
    Reach.met
      (Reach.ran
        (Reach.ran (Reach.met Reach.start (Env.send (wire_event hello) refl)) (Run.recv refl refl))
        (Run.hand_over refl))
      (Env.send (wire_event other) refl)

abbrev cancelled : Relay WireEvent Event
cancelled = record one_through { context_done = true }

abbrev given_up : Relay WireEvent Event
given_up = record cancelled { place = Place.closed; wire = [] }

Runs_end_example :
    (2 ≤ 2 * length cancelled.wire + 2)
    × ((given_up.place ≡ Place.closed)
        ⊎ ((t : Relay WireEvent Event) × (st : Run to_event given_up t) × IsAlone to_event st))
Runs_end_example = Runs_end to_event refl (
    Runs.step (Run.recv {a = wire_event other} refl refl)
      (Runs.step (Run.give_up refl refl) Runs.stay))
