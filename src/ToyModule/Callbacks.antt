-- ===== src/ToyModule/Callbacks.antt =====
-- modulesdk/testkit/testdata/toymodule/main.go on the stub's host services: what Init and Start of the
-- toy module do there.
use weaveplatform_sdk.Base.{
  ℕ, ◌≡◌, refl, ◌∙◌, true, false, [], ◌∷◌, Option, none, some, arith, Bytes, codes,
}
use weaveplatform_sdk.Errors.{Status, GoError}
use weaveplatform_sdk.HostClient.{declare}
use weaveplatform_sdk.StoreClient.{Rpc, put, store_prefix}
use weaveplatform_sdk.HostData.{
  HostData, SentMessage, PublishedEvent, store_put, publish, record_send, stamp,
}
use weaveplatform_sdk.HostCalls.{wrong_token, send, publish_event}
use weaveplatform_sdk.HostCalls.Gate.{unauthenticated, host_calls_lem}
use weaveplatform_sdk.ToyModule.{toy_id, toy_card, toy_init, toy_start, heartbeat}

abbrev pub key : Bytes
key = codes "init-key"

abbrev pub value : Bytes
value = codes "init-value"

abbrev pub started_event : ℕ → PublishedEvent
started_event at = record { topic = codes "toy.started"; payload = codes "hello"; at = at }

abbrev pub sent_heartbeat : SentMessage
sent_heartbeat = record {
  peer = heartbeat.peer;
  kind = heartbeat.kind;
  payload = heartbeat.payload;
  queue_offline = false;
}

pub toy_init_lem :
    (d : HostData) → toy_init Rpc.answered d ≡ (store_put key value d, (toy_card ∷ []) ∷ [], none)
unfolding toy_init put store_prefix declare
toy_init_lem d = refl

abbrev pub after_start : ℕ → HostData → HostData
after_start at d = record_send sent_heartbeat (publish (started_event at) d)

module _ (from_error : GoError → Option Status) (token : Bytes) (at : ℕ)
    (finds : from_error unauthenticated ≡ some wrong_token) where
  published :
      (d : HostData)
      → publish_event from_error toy_id token token [] (codes "started") (codes "hello") at d
        ≡ (publish (started_event at) d, tt, none)
  unfolding stamp
  published d =
      let calls =
        host_calls_lem from_error token token [] toy_id d [] heartbeat false (codes "started")
          (codes "hello") at finds in
      calls.4 ∙ rw (calls.0.1 (refl, refl)) refl

  told :
      (d : HostData)
      → send from_error toy_id token token [] heartbeat false d
        ≡ (record_send sent_heartbeat d, true, none)
  told d =
      let calls =
        host_calls_lem from_error token token [] toy_id d [] heartbeat false (codes "started")
          (codes "hello") at finds in
      calls.3 ∙ rw (calls.0.1 (refl, refl)) refl

  pub toy_start_lem :
      (d : HostData)
      → toy_start from_error token token Rpc.answered at d ≡ (after_start at d, [], none)
  unfolding toy_start
  toy_start_lem d = ground (arith, published d, told (publish (started_event at) d))
