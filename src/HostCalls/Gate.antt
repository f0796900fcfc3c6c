-- ===== src/HostCalls/Gate.antt =====
-- modulesdk/hostclient.go with modulesdk/testkit/hostserver.go: whose calls get through, and what they
-- do then.
use mathlib.Core.List.{cons-ne-nil}
use weaveplatform_sdk.Base.{
  ℕ, ◌≡◌, refl, ◌↔◌, Bool, true, false, List, [], ◌∷◌, ◌++◌, Option, none, some, arith, Bytes,
  codes, same, same_iff, if◌then◌else◌,
}
use weaveplatform_sdk.Base.Int.{to_int32}
use weaveplatform_sdk.Errors.{Status, GoError, sentinel_err}
use weaveplatform_sdk.HostData.{
  HostData, SentMessage, check_token, record_send, stamp, publish, serve_send, serve_publish,
}
use weaveplatform_sdk.HostCalls.{
  Answer, Message, with_token, invoke, guarded, wrong_token, returned, who_am_i, credential, send,
  publish_event, no_device, no_credential, serve_who_am_i, serve_credential, serve_transport,
  serve_event,
}

-- The caller's context holds no other token, and the client's is the one that the stub wants.
pub admits : Bytes → Bytes → List Bytes → Bool
admits token wanted [] = same token wanted
admits token wanted (v ∷ vs) = false

pub check_token-with_token :
    (token wanted : Bytes) (held : List Bytes)
    → check_token wanted (with_token token held) ≡ admits token wanted held
unfolding check_token with_token admits
check_token-with_token token wanted [] = refl
check_token-with_token token wanted (v ∷ []) = refl
check_token-with_token token wanted (v ∷ w ∷ vs) = refl

pub admits_iff :
    (token wanted : Bytes) (held : List Bytes)
    → (admits token wanted held ≡ true) ↔ ((held ≡ []) × (token ≡ wanted))
unfolding admits
admits_iff token wanted [] =
    (λ h. (refl, (same_iff token wanted).0 h), λ h. (same_iff token wanted).1 h.1)
admits_iff token wanted (v ∷ vs) = (λ h. cc, λ h. absurd (cons-ne-nil v vs h.0))

abbrev pub unauthenticated : GoError
unauthenticated = GoError.status wrong_token

module _ (from_error : GoError → Option Status) (token wanted : Bytes) (held : List Bytes) where
  pub invoke-guarded :
      {A : Type 0} (nil : A) (handler : HostData → Answer A) (d : HostData)
      → from_error unauthenticated ≡ some wrong_token
      → invoke from_error token (guarded wanted nil handler) held d ≡ (
          if admits token wanted held
          then ((handler d).0, (handler d).1, sentinel_err from_error (handler d).2)
          else (d, nil, some unauthenticated))
  unfolding invoke guarded sentinel_err
  invoke-guarded nil handler d finds =
      ground (arith, check_token-with_token token wanted held, finds)

  -- Where gRPC finds the status in the stub's refusal, as it does in every status: a module's calls get
  -- through exactly if its token is the one that the stub wants and the caller's context holds no
  -- other. Then WhoAmI answers with the stub's device, Credential with a token for the module and the
  -- scopes that were asked for, Send records the message, with the lowest 32 bits of its peer as a signed
  -- number, and says that it was delivered, and Publish publishes under the module's name. Else each of them fails with the refusal, and changes nothing.
  pub host_calls_lem :
      (module_id : Bytes) (d : HostData) (scopes : List Bytes) (msg : Message)
      (queue_offline : Bool) (topic payload : Bytes) (at : ℕ)
      → from_error unauthenticated ≡ some wrong_token
      → ((admits token wanted held ≡ true) ↔ ((held ≡ []) × (token ≡ wanted)))
        × (who_am_i from_error module_id token wanted held d ≡ (
            if admits token wanted held
            then (d, d.device, none)
            else (d, no_device, some unauthenticated)))
        × (credential from_error module_id token wanted held scopes d ≡ (
            if admits token wanted held
            then (
              d,
              record {
                token = codes "test-credential-" ++ module_id;
                expires_at = 4102444800;
                scopes = scopes;
              },
              none,
            )
            else (d, no_credential, some unauthenticated)))
        × (send from_error module_id token wanted held msg queue_offline d ≡ (
            if admits token wanted held
            then (
              record_send
                  (record {
                    peer = to_int32 msg.peer;
                    kind = msg.kind;
                    payload = msg.payload;
                    queue_offline = queue_offline;
                  })
                  d,
              true,
              none,
            )
            else (d, false, some unauthenticated)))
        × (publish_event from_error module_id token wanted held topic payload at d ≡ (
            if admits token wanted held
            then (
              publish (record { topic = stamp module_id topic; payload = payload; at = at }) d,
              tt,
              none,
            )
            else (d, tt, some unauthenticated)))
  unfolding who_am_i credential send publish_event returned serve_who_am_i serve_credential
      serve_transport serve_event sentinel_err serve_send serve_publish
  host_calls_lem module_id d scopes msg queue_offline topic payload at finds =
      let m : SentMessage = record {
        peer = to_int32 msg.peer;
        kind = msg.kind;
        payload = msg.payload;
        queue_offline = queue_offline;
      } in
      (
        admits_iff token wanted held,
        ground (arith, invoke-guarded no_device serve_who_am_i d finds),
        ground (arith, invoke-guarded no_credential (serve_credential module_id scopes) d finds),
        ground (arith, invoke-guarded false (serve_transport m) d finds),
        ground (arith, invoke-guarded tt (serve_event module_id topic payload at) d finds),
      )
