-- ===== src/ToyModule.antt =====
-- modulesdk/testkit/testdata/toymodule/main.go: the module with which the test kit tests the whole
-- loop, on the stub's host services. Its state is the stub's data, which its calls change; `rpc` says
-- how its store call goes, and `at` is the time of its publish.
pub mod Callbacks
pub mod Session
use weaveplatform_sdk.Base.{ℕ, Bool, true, false, List, [], ◌∷◌, Option, none, some, Bytes, codes}
use weaveplatform_sdk.Errors.{Status, GoError}
use weaveplatform_sdk.HostClient.{Surface, dialed, declare}
use weaveplatform_sdk.Lifecycle.{Module, Health, HealthStatus}
use weaveplatform_sdk.StoreClient.{Rpc, Reply, put}
use weaveplatform_sdk.HostData.{HostData}
use weaveplatform_sdk.HostData.StoreLaws.{stub_store}
use weaveplatform_sdk.HostCalls.{Message, peer_gate_weave, send, publish_event}

abbrev pub toy_id : Bytes
toy_id = codes "toy"

abbrev pub toy_card : Surface
toy_card = record { id = codes "toy-card"; title = codes "Toy"; kind = codes "card"; payload = [] }

abbrev pub heartbeat : Message
heartbeat = record { peer = peer_gate_weave; kind = codes "heartbeat"; payload = codes "beat" }

-- The host that Init hands to the module is freshly dialed.
unfoldable pub toy_init : Rpc → HostData → HostData × List (List Surface) × Option GoError
toy_init rpc d =
    let (r, d') = put stub_store rpc [] (codes "init-key") (codes "init-value") d in
    elim r [
      | Reply.err e ↦ (d', [], some e)
      | Reply.ok u ↦ (d', (toy_card ∷ []) ∷ [], (declare (toy_card ∷ []) dialed).1)
    ]

module _ (from_error : GoError → Option Status) (token wanted : Bytes) (rpc : Rpc) (at : ℕ) where
  unfoldable pub toy_start : HostData → HostData × List (List Surface) × Option GoError
  toy_start d =
      let (d1, u, e1) =
        publish_event from_error toy_id token wanted [] (codes "started") (codes "hello") at d in
      elim e1 [
        | some e ↦ (d1, [], some e)
        | none ↦
            let (d2, delivered, e2) = send from_error toy_id token wanted [] heartbeat false d1 in
            (d2, [], e2)
      ]

  abbrev pub toy : Module HostData
  toy = record {
    id = toy_id;
    requires = λ d. codes "test.cap" ∷ [];
    set_config = none;
    init = toy_init rpc;
    start = toy_start;
    stop = λ deadline d. (d, none);
    health = λ d. record { status = HealthStatus.healthy; reason = []; details = [] };
    jobs = none;
  }
