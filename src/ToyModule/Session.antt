-- ===== src/ToyModule/Session.antt =====
-- modulesdk/testkit/testdata/toymodule/main.go with modulesdk/lifecycle.go and the stub's host
-- services: what modulesdk/testkit/stubcore_test.go tests, from Init to Stop.
use mathlib.Core.List.{flatten}
use mathlib.Core.Option
use weaveplatform_sdk.Base.{
  ℕ, ◌≡◌, refl, ap, ◌∙◌, true, [], ◌∷◌, ◌++◌, Option, none, some, arith, Bytes, codes, same_iff,
  Option-cases,
}
use weaveplatform_sdk.Errors.{Status, GoError}
use weaveplatform_sdk.HostClient.{start_jobs, stop_jobs}
use weaveplatform_sdk.Lifecycle.{
  State, Call, Server, InitRequest, InitResponse, Reply, Module, declare_all, protocol_version,
}
use weaveplatform_sdk.Lifecycle.Handlers.{new_server, configure, init, start, stop, stop_locked}
use weaveplatform_sdk.Lifecycle.Response.{init_result, init_succeeds, prepared, answer, connected}
use weaveplatform_sdk.StoreClient.{Rpc}
use weaveplatform_sdk.HostData.{HostData, store_get, store_put, publish, record_send}
use weaveplatform_sdk.HostData.StoreLaws.{store_get-put}
use weaveplatform_sdk.HostCalls.{wrong_token}
use weaveplatform_sdk.HostCalls.Gate.{unauthenticated}
use weaveplatform_sdk.ToyModule.{toy_id, toy_card, toy}
use weaveplatform_sdk.ToyModule.Callbacks.{
  key, value, started_event, sent_heartbeat, after_start, toy_init_lem, toy_start_lem,
}

abbrev pub toy_response : InitResponse
toy_response = record {
  requires = codes "test.cap" ∷ [];
  surfaces = toy_card ∷ [];
  health_interval_seconds = 0;
}

-- A module's Start that succeeds and declares nothing.
start_quietly :
    {S : Type 0} (m : Module S) (s : Server S) (t : S)
    → s.state ≡ State.inited
    → m.start s.module_state ≡ (t, [], none)
    → start m s ≡ (
      record s {
        module_state = t;
        host = Option.map start_jobs s.host;
        state = State.started;
        calls = (s.calls ++ Call.start true ∷ []) ++ Call.jobs_begin ∷ [];
      },
      Reply.ok tt,
    )
unfolding start declare_all
start_quietly m s t inited done = ground (arith, done, inited, Option-cases s.host)

module _ (from_error : GoError → Option Status) (token : Bytes) (at : ℕ)
    (finds : from_error unauthenticated ≡ some wrong_token) where
  abbrev m : Module HostData
  m = toy from_error token token Rpc.answered at

  abbrev data_inited : HostData → HostData
  data_inited d = store_put key value d

  abbrev s_inited : InitRequest → HostData → Server HostData
  s_inited req d = record (new_server m d) {
    module_state = data_inited d;
    host = some (prepared m req (data_inited d) (toy_card ∷ []));
    state = State.inited;
    watching = true;
    calls = Call.connect true ∷ Call.init true ∷ [];
  }

  toy-init :
      (req : InitRequest) (d : HostData)
      → req.module_id ≡ toy_id
      → req.protocol ≡ protocol_version
      → init m req none (new_server m d) ≡ (s_inited req d, Reply.ok toy_response)
  unfolding init_result configure answer connected flatten
  toy-init req d named versioned =
      init_succeeds m req none (new_server m d) (record {
        is_created = refl;
        same_module = named;
        same_protocol = versioned;
        config_taken = unfold configure in refl;
        dialed_host = refl;
        module_inited = unfold configure in ap (λ r. r.2) (toy_init_lem d);
      })
      ∙ rw (toy_init_lem d) refl

  abbrev s_started : InitRequest → HostData → Server HostData
  s_started req d = record (s_inited req d) {
    module_state = after_start at (data_inited d);
    host = some (start_jobs (prepared m req (data_inited d) (toy_card ∷ [])));
    state = State.started;
    calls = Call.connect true ∷ Call.init true ∷ Call.start true ∷ Call.jobs_begin ∷ [];
  }

  toy-start :
      (req : InitRequest) (d : HostData) → start m (s_inited req d) ≡ (s_started req d, Reply.ok tt)
  toy-start req d =
      start_quietly m (s_inited req d) (after_start at (data_inited d)) refl
        (toy_start_lem from_error token at finds (data_inited d))

  abbrev s_stopped : InitRequest → HostData → Server HostData
  s_stopped req d = record (s_started req d) {
    host = some (stop_jobs (start_jobs (prepared m req (data_inited d) (toy_card ∷ []))));
    state = State.stopped;
    calls =
        Call.connect true
        ∷ Call.init true
        ∷ Call.start true
        ∷ Call.jobs_begin
        ∷ Call.jobs_end
        ∷ Call.stop true
        ∷ [];
  }

  toy-stop :
      (req : InitRequest) (d : HostData) (secs : ℕ)
      → stop m secs (s_started req d) ≡ (s_stopped req d, Reply.ok tt)
  unfolding stop stop_locked
  toy-stop req d secs = refl

  stored : (d : HostData) → store_get key (after_start at (data_inited d)) ≡ some value
  unfolding record_send publish store_get
  stored d = unfold store_get in store_get-put key key value d ∙ rw ((same_iff key key).1 refl) refl

  events_left :
      (d : HostData) → (after_start at (data_inited d)).events ≡ d.events ++ started_event at ∷ []
  unfolding record_send publish store_put
  events_left d = refl

  sends_left :
      (d : HostData) → (after_start at (data_inited d)).sends ≡ d.sends ++ sent_heartbeat ∷ []
  unfolding record_send publish store_put
  sends_left d = refl

  -- The server behind Init, Start and Stop.
  abbrev pub server_inited : InitRequest → HostData → Server HostData × Reply InitResponse
  server_inited req d = init m req none (new_server m d)

  abbrev pub server_started : InitRequest → HostData → Server HostData × Reply (Unit {0})
  server_started req d = start m (server_inited req d).0

  abbrev pub server_stopped : InitRequest → ℕ → HostData → Server HostData × Reply (Unit {0})
  server_stopped req secs d = stop m secs (server_started req d).0

  -- Drive the toy module against the stub's host services, where the request names it and protocol 1,
  -- its token is the stub's, gRPC finds the status in the stub's refusal, and the call of the store is
  -- answered. Then Init answers with its capability and its surface, and Start and Stop succeed, Stop
  -- with any deadline. It was asked for one Init, one Start and one Stop, in that order around its
  -- jobs. Behind Stop the stub's store has the module's key, its events end with the module's, under
  -- the module's name, and its messages with the heartbeat.
  pub toy_session :
      (req : InitRequest) (secs : ℕ) (d : HostData)
      → req.module_id ≡ toy_id
      → req.protocol ≡ protocol_version
      → let s = (server_stopped req secs d).0 in
        ((server_inited req d).1 ≡ Reply.ok toy_response)
        × ((server_started req d).1 ≡ Reply.ok tt)
        × ((server_stopped req secs d).1 ≡ Reply.ok tt)
        × (s.calls
            ≡ Call.connect true
              ∷ Call.init true
              ∷ Call.start true
              ∷ Call.jobs_begin
              ∷ Call.jobs_end
              ∷ Call.stop true
              ∷ [])
        × (store_get key s.module_state ≡ some value)
        × (s.module_state.events ≡ d.events ++ started_event at ∷ [])
        × (s.module_state.sends ≡ d.sends ++ sent_heartbeat ∷ [])
  toy_session req secs d named versioned =
      let inited = toy-init req d named versioned in
      let started : server_started req d ≡ (s_started req d, Reply.ok tt) =
        ap (λ p. start m p.0) inited ∙ toy-start req d in
      let stopped : server_stopped req secs d ≡ (s_stopped req d, Reply.ok tt) =
        ap (λ p. stop m secs p.0) started ∙ toy-stop req d secs in
      let left : (server_stopped req secs d).0.module_state ≡ after_start at (data_inited d) =
        ap (λ p. p.0.module_state) stopped in
      (
        ap (λ p. p.1) inited,
        ap (λ p. p.1) started,
        ap (λ p. p.1) stopped,
        ap (λ p. p.0.calls) stopped,
        ap (store_get key) left ∙ stored d,
        ap (λ x. x.events) left ∙ events_left d,
        ap (λ x. x.sends) left ∙ sends_left d,
      )
