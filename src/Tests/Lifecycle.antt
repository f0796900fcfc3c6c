-- ===== src/Tests/Lifecycle.antt =====
-- The lifecycle server with a small module, at concrete inputs.
use weaveplatform_sdk.Base.{
  ◌↔◌, ℕ, ◌+◌, ◌*◌, ◌≡◌, refl, ap, sym, subst, true, List, [], ◌∷◌, Option, none, some, arith,
  codes, ltb, if◌then◌else◌,
}
use mathlib.Core.List.{flatten}
use weaveplatform_sdk.Base.Int.{ℤ}
use weaveplatform_sdk.Errors.{GoError}
use weaveplatform_sdk.HostClient.{
  HostClient, Surface, Job, declare, declared_surfaces, declared_too_late,
}
use weaveplatform_sdk.Lifecycle.{
  Module, Server, HealthStatus, InitRequest, InitResponse, Refusal, Reply,
}
use weaveplatform_sdk.Lifecycle.Handlers.{new_server, configure, init, start, stop_locked, shutdown}
use weaveplatform_sdk.Lifecycle.Order.{Event, step, run, IsOrdered}
use weaveplatform_sdk.Lifecycle.Order.Steps.{run-new_server-IsOrdered}
use weaveplatform_sdk.Lifecycle.Response.{
  InitSucceeds, init_result, init_iff, init_succeeds, answer, scheduled,
}
use weaveplatform_sdk.Lifecycle.Afterwards.{inits, late_surfaces, started_goroutines}
use weaveplatform_sdk.Serve.{Wake, wake_error, hang_up, exit_code}
use weaveplatform_sdk.Serve.End.{CanWake, Leaves, serve_ends}

abbrev card : Surface
card = record { id = codes "toy-card"; title = codes "Toy"; kind = codes "card"; payload = [] }

abbrev beat : Job
beat = record { name = codes "beat"; every = ℤ.pos 5; every_func = none }

-- The module counts its callbacks, and declares one surface in Init.
abbrev toy : Module ℕ
toy = record {
  id = codes "toy";
  requires = λ n. codes "test.cap" ∷ [];
  set_config = none;
  init = λ n. (n + 1, (card ∷ []) ∷ [], none);
  start = λ n. (n + 1, [], none);
  stop = λ secs n. (n + 1, none);
  health = λ n. record { status = HealthStatus.healthy; reason = []; details = [] };
  jobs = some (λ n. beat ∷ []);
}

abbrev request : InitRequest
request = record {
  module_id = codes "toy";
  protocol = 1;
  config = [];
  watchdog_interval_seconds = 30;
}

abbrev fresh_server : Server ℕ
fresh_server = new_server toy 0

abbrev events : List Event
events =
    Event.start_rpc
    ∷ Event.init_rpc request none
    ∷ Event.init_rpc request none
    ∷ Event.start_rpc
    ∷ Event.shutdown_rpc
    ∷ Event.start_rpc
    ∷ []

run-new_server-IsOrdered_example : IsOrdered (run toy (new_server toy 0) events)
run-new_server-IsOrdered_example = run-new_server-IsOrdered toy 0 events

request-InitSucceeds : InitSucceeds toy request none fresh_server
unfolding configure
request-InitSucceeds = record {
  is_created = refl;
  same_module = refl;
  same_protocol = refl;
  config_taken = refl;
  dialed_host = refl;
  module_inited = refl;
}

abbrev response : InitResponse
response = record {
  requires = codes "test.cap" ∷ [];
  surfaces = card ∷ [];
  health_interval_seconds = 0;
}

init_iff_example :
    (InitSucceeds toy request none fresh_server
      ↔ ((r : InitResponse) × ((init toy request none fresh_server).1 ≡ Reply.ok r)))
    × (InitSucceeds toy request none fresh_server
        ↔ (init toy request none fresh_server ≡ init_result toy request fresh_server))
init_iff_example = init_iff toy request none fresh_server

request_answered : (init toy request none fresh_server).1 ≡ Reply.ok response
unfolding init_result configure answer flatten
request_answered = ap (λ p. p.1) (init_succeeds toy request none fresh_server request-InitSucceeds)

late_surfaces_example :
    (h : HostClient) × ((init toy request none fresh_server).0.host ≡ some h)
    × ((declare (card ∷ []) h).1 ≡ none)
    × (declared_surfaces (declare (card ∷ []) h).0 ≡ card ∷ card ∷ [])
    × ((req' : InitRequest) (dial' : Option GoError)
        → (init toy req' dial' (init toy request none fresh_server).0).1
          ≡ Reply.err Refusal.init_twice)
late_surfaces_example =
    late_surfaces toy request none fresh_server response (card ∷ []) request_answered

request_started : (start toy (init toy request none fresh_server).0).1 ≡ Reply.ok tt
unfolding init_result configure answer flatten start
request_started = rw (init_succeeds toy request none fresh_server request-InitSucceeds) refl

started_goroutines_example :
    ((h : HostClient) × ((start toy (init toy request none fresh_server).0).0.host ≡ some h)
      × (h.launched ≡ scheduled toy (inits toy request fresh_server).0)
      × (h.watchdog ≡ (if ltb 0 30 then some (ℤ.pos (30 * 1000000000)) else none)))
    × ((es : List Event) (xs : List Surface)
        → (h : HostClient) × ((run toy (start toy (init toy request none fresh_server).0).0 es).host
            ≡ some h)
          × (declare xs h ≡ (h, some declared_too_late)))
started_goroutines_example =
    started_goroutines toy request none fresh_server request-InitSucceeds (omega arith)
      request_started

abbrev shutting_down : List Event
shutting_down = Event.init_rpc request none ∷ Event.start_rpc ∷ Event.shutdown_rpc ∷ []

shutdown_arrived : CanWake Wake.shutdown_asked (run toy (new_server toy 0) shutting_down)
unfolding run step init_result configure answer flatten start shutdown stop_locked
shutdown_arrived =
    subst
      (λ (p : Server ℕ × Reply InitResponse).
        (run toy p.0 (Event.start_rpc ∷ Event.shutdown_rpc ∷ [])).shutdown ≡ true)
      (sym (init_succeeds toy request none fresh_server request-InitSucceeds)) refl

-- A second Stop is on its way while the server stops.
serve_ends_example :
    Leaves Wake.shutdown_asked
      (run toy
        (run toy (new_server toy 0) shutting_down)
        (Event.stop_rpc 5 ∷ Event.health_rpc ∷ []))
      (hang_up Wake.shutdown_asked (
        run toy
          (run toy (new_server toy 0) shutting_down)
          (Event.stop_rpc 5 ∷ Event.health_rpc ∷ [])))
      (exit_code (wake_error Wake.shutdown_asked))
serve_ends_example =
    serve_ends toy 0 shutting_down (Event.stop_rpc 5 ∷ Event.health_rpc ∷ []) Wake.shutdown_asked
      shutdown_arrived
