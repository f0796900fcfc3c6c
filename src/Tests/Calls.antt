-- ===== src/Tests/Calls.antt =====
-- The calls of the host client, and the toy module that makes them, at concrete inputs.
use weaveplatform_sdk.Base.{
  ◌≡◌, ◌↔◌, ◌⊎◌, refl, true, false, List, [], ◌∷◌, none, some, Bytes, codes, length, if◌then◌else◌,
  All,
}
use weaveplatform_sdk.Errors.{as_status}
use weaveplatform_sdk.HostClient.Disconnect.{
  Connectivity, IsAlive, Loss, await_disconnect, await_disconnect_lem,
}
use weaveplatform_sdk.HostData.{new_host_data, publish, record_send, stamp, store_get}
use weaveplatform_sdk.HostCalls.{
  who_am_i, credential, send, publish_event, no_device, no_credential, wrong_token,
}
use weaveplatform_sdk.HostCalls.Gate.{admits, unauthenticated, host_calls_lem}
use weaveplatform_sdk.HostCalls.Store.{as_reply, get, put, delete, list, store_calls_lem}
use weaveplatform_sdk.HostData.StoreLaws.{stub_store}
use weaveplatform_sdk.StoreClient as StoreClient
use weaveplatform_sdk.StoreClient.{Rpc}
use weaveplatform_sdk.Lifecycle.{Call, InitRequest, Reply}
use weaveplatform_sdk.ToyModule.{toy_id, heartbeat}
use weaveplatform_sdk.ToyModule.Callbacks.{started_event, sent_heartbeat, key, value}
use weaveplatform_sdk.ToyModule.Session.{
  server_inited, server_started, server_stopped, toy_response, toy_session,
}

abbrev token : Bytes
token = codes "t"

found : as_status unauthenticated ≡ some wrong_token
unfolding as_status
found = refl

abbrev nothing_held : List Bytes
nothing_held = []

abbrev scopes : List Bytes
scopes = codes "read" ∷ []

host_calls_lem_example :
    ((admits token token [] ≡ true) ↔ ((nothing_held ≡ []) × (token ≡ token)))
    × (who_am_i as_status toy_id token token [] new_host_data ≡ (
        if admits token token []
        then (new_host_data, new_host_data.device, none)
        else (new_host_data, no_device, some unauthenticated)))
    × (credential as_status toy_id token token [] scopes new_host_data ≡ (
        if admits token token []
        then (
          new_host_data,
          record { token = codes "test-credential-toy"; expires_at = 4102444800; scopes = scopes },
          none,
        )
        else (new_host_data, no_credential, some unauthenticated)))
    × (send as_status toy_id token token [] heartbeat false new_host_data ≡ (
        if admits token token []
        then (record_send sent_heartbeat new_host_data, true, none)
        else (new_host_data, false, some unauthenticated)))
    × (publish_event as_status toy_id token token []
          (codes "started")
          (codes "hello")
          5
          new_host_data
        ≡ (if admits token token []
            then (
              publish
                  (record {
                    topic = stamp toy_id (codes "started");
                    payload = codes "hello";
                    at = 5;
                  })
                  new_host_data,
              tt,
              none,
            )
            else (new_host_data, tt, some unauthenticated)))
host_calls_lem_example =
    host_calls_lem as_status token token [] toy_id new_host_data scopes heartbeat false
      (codes "started") (codes "hello") 5 found

-- The connection is lost for a moment.
abbrev blip : List Connectivity
blip = Connectivity.ready ∷ Connectivity.transient_failure ∷ Connectivity.ready ∷ []

blip_is_loss : await_disconnect blip ≡ record { nudges = 1; lost = true }
unfolding await_disconnect
blip_is_loss = refl

await_disconnect_lem_example :
    (All IsAlive blip × (await_disconnect blip ≡ record { nudges = length blip; lost = false }))
    ⊎ Loss blip (await_disconnect blip)
await_disconnect_lem_example = await_disconnect_lem blip

abbrev request : InitRequest
request = record {
  module_id = codes "toy";
  protocol = 1;
  config = [];
  watchdog_interval_seconds = 30;
}

toy_session_example :
    ((server_inited as_status token 5 found request new_host_data).1 ≡ Reply.ok toy_response)
    × ((server_started as_status token 5 found request new_host_data).1 ≡ Reply.ok tt)
    × ((server_stopped as_status token 5 found request 10 new_host_data).1 ≡ Reply.ok tt)
    × ((server_stopped as_status token 5 found request 10 new_host_data).0.calls
        ≡ Call.connect true
          ∷ Call.init true
          ∷ Call.start true
          ∷ Call.jobs_begin
          ∷ Call.jobs_end
          ∷ Call.stop true
          ∷ [])
    × (store_get key
          (server_stopped as_status token 5 found request 10 new_host_data).0.module_state
        ≡ some value)
    × ((server_stopped as_status token 5 found request 10 new_host_data).0.module_state.events
        ≡ started_event 5 ∷ [])
    × ((server_stopped as_status token 5 found request 10 new_host_data).0.module_state.sends
        ≡ sent_heartbeat ∷ [])
toy_session_example = toy_session as_status token 5 found request 10 new_host_data refl refl

-- A call under the namespace "a", with the token that the stub wants.
abbrev taken : Rpc
taken = if admits token token nothing_held then Rpc.answered else Rpc.failed unauthenticated

store_calls_lem_example :
    (as_reply (get as_status token token nothing_held (codes "a") key new_host_data)
      ≡ StoreClient.get stub_store taken (codes "a") key new_host_data)
    × (as_reply (put as_status token token nothing_held (codes "a") key value new_host_data)
        ≡ StoreClient.put stub_store taken (codes "a") key value new_host_data)
    × (as_reply (delete as_status token token nothing_held (codes "a") key new_host_data)
        ≡ StoreClient.delete stub_store taken (codes "a") key new_host_data)
    × (as_reply (list as_status token token nothing_held (codes "a") key new_host_data)
        ≡ StoreClient.list stub_store taken (codes "a") key new_host_data)
store_calls_lem_example =
    store_calls_lem as_status token token nothing_held (codes "a") key value new_host_data found
