-- ===== src/HostCalls.antt =====
-- modulesdk/hostclient.go: the calls of Identity, Transport, Policy and Events that answer once, with
-- the interceptors of `dialHost`; and their other side in modulesdk/testkit/hostserver.go, behind
-- `tokenInterceptors`. As in the code a call gives a reply and an error that may be nil. `from_error`
-- is gRPC's `status.FromError`.
pub mod Gate
pub mod Store
pub mod Policy
pub mod Streams
use weaveplatform_sdk.Base.{
  ℕ, ◌*◌, Bool, true, false, List, [], ◌∷◌, ◌++◌, Option, none, some, Bytes, codes, if◌then◌else◌,
}
use weaveplatform_sdk.Base.Int.{ℤ, to_int32}
use weaveplatform_sdk.Errors.{Code, Status, GoError, sentinel_err}
use weaveplatform_sdk.HostData.{
  HostData, SentMessage, DeviceInfo, check_token, serve_send, serve_publish,
}

-- The stub's data behind a call, the reply and the error.
abbrev pub Answer : Type 0 → Type 0
Answer A = HostData × A × Option GoError

-- A handler of the stub: it works on the stub's data, and has the values that the call's metadata holds
-- under the token's key.
abbrev pub Handler : Type 0 → Type 0
Handler A = List Bytes → HostData → Answer A

-- `withToken` appends to what the caller's context already holds.
unfoldable pub with_token : Bytes → List Bytes → List Bytes
with_token token held = held ++ token ∷ []

-- The unary interceptor of `dialHost`.
unfoldable pub invoke :
    {A : Type 0} → (GoError → Option Status) → Bytes → Handler A → List Bytes → HostData → Answer A
unfolding with_token
invoke from_error token server held d =
    let (d', a, e) = server (with_token token held) d in (d', a, sentinel_err from_error e)

abbrev pub wrong_token : Status
wrong_token = record {
  code = Code.unauthenticated;
  message = codes "missing or wrong handshake token";
}

-- The stub's interceptor in front of a handler; `nil` stands for the reply that there is not.
unfoldable pub guarded : {A : Type 0} → Bytes → A → (HostData → Answer A) → Handler A
guarded token nil handler values d =
    if check_token token values then handler d else (d, nil, some (GoError.status wrong_token))

-- `if err != nil { return T{}, err }`, and else the reply converted.
unfoldable pub returned : {A B : Type 0} → B → (A → B) → Answer A → Answer B
returned zero_value convert (d, a, e) = elim e [
  | none ↦ (d, convert a, none)
  | some e ↦ (d, zero_value, some e)
]

pub record Credential : Type 0 where
  pub token : Bytes
  -- seconds since 1970
  pub expires_at : ℕ
  pub scopes : List Bytes

pub record Message : Type 0 where
  -- `Peer`, an `int`
  pub peer : ℤ
  pub kind : Bytes
  pub payload : Bytes

pub record PolicyDocument : Type 0 where
  pub revision : ℕ
  pub payload : Bytes
  pub schema_version : ℕ
  pub content_type : Bytes

abbrev pub peer_gate_weave : ℤ
peer_gate_weave = ℤ.pos 1

abbrev pub peer_hypervisor : ℤ
peer_hypervisor = ℤ.pos 2

-- `policyDoc`.
unfoldable pub policy_doc : PolicyDocument → PolicyDocument
policy_doc doc = record {
  revision = doc.revision;
  payload = doc.payload;
  schema_version = doc.schema_version;
  content_type = doc.content_type;
}

-- The stub's handlers.
unfoldable pub serve_who_am_i : HostData → Answer DeviceInfo
serve_who_am_i d = (
  d,
  record {
    device_id = d.device.device_id;
    ephemeral = d.device.ephemeral;
    tenant = d.device.tenant;
  },
  none,
)

unfoldable pub serve_credential : Bytes → List Bytes → HostData → Answer Credential
serve_credential module_id scopes d = (
  d,
  record {
    token = codes "test-credential-" ++ module_id;
    expires_at = 4102444800;
    scopes = scopes;
  },
  none,
)

unfoldable pub serve_transport : SentMessage → HostData → Answer Bool
serve_transport m d = let (d', delivered) = serve_send m d in (d', delivered, none)

unfoldable pub serve_event : Bytes → Bytes → Bytes → ℕ → HostData → Answer (Unit {0})
serve_event module_id topic payload at d = (serve_publish module_id topic payload at d, tt, none)

abbrev pub no_device : DeviceInfo
no_device = record { device_id = []; ephemeral = false; tenant = [] }

abbrev pub no_credential : Credential
no_credential = record { token = []; expires_at = 0; scopes = [] }

-- The calls of the module `module_id`, whose client has `token`, against a stub that wants `wanted`.
module _ (from_error : GoError → Option Status) (module_id token wanted : Bytes)
    (held : List Bytes) where
  unfoldable pub who_am_i : HostData → Answer DeviceInfo
  who_am_i d =
      returned no_device
        (λ r. record { device_id = r.device_id; ephemeral = r.ephemeral; tenant = r.tenant })
        (invoke from_error token (guarded wanted no_device serve_who_am_i) held d)

  unfoldable pub credential : List Bytes → HostData → Answer Credential
  credential scopes d =
      returned no_credential
        (λ r. record { token = r.token; expires_at = r.expires_at; scopes = r.scopes })
        (invoke from_error token (guarded wanted no_credential (serve_credential module_id scopes))
          held d)

  -- The peer on the wire is an `int32`; the stub records the same.
  unfoldable pub send : Message → Bool → HostData → Answer Bool
  send msg queue_offline d =
      let m : SentMessage = record {
        peer = to_int32 msg.peer;
        kind = msg.kind;
        payload = msg.payload;
        queue_offline = queue_offline;
      } in
      returned false (λ b. b)
        (invoke from_error token (guarded wanted false (serve_transport m)) held d)

  unfoldable pub publish_event : Bytes → Bytes → ℕ → HostData → Answer (Unit {0})
  publish_event topic payload at d =
      invoke from_error token (guarded wanted tt (serve_event module_id topic payload at)) held d
