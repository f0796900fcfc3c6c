-- ===== src/HostCalls/Streams.antt =====
-- modulesdk/testkit/hostserver.go (`registerHostServices`, the stream interceptor, `Receive`) and
-- modulesdk/hostclient.go (the stream interceptor of `dialHost`): how a call that streams comes to its
-- handler, and what a module gets of the stub's `Receive`. `unimplemented` is gRPC's answer to a call of a
-- service that is not registered.
use weaveplatform_sdk.Base.{
  ◌≡◌, ◌⊎◌, ◌↔◌, inl, inr, refl, Bool, true, false, List, [], Bytes, Bool-cases, if◌then◌else◌,
}
use weaveplatform_sdk.Errors.{Status}
use weaveplatform_sdk.HostData.{check_token}
use weaveplatform_sdk.HostCalls.{with_token, wrong_token}
use weaveplatform_sdk.HostCalls.Gate.{admits, admits_iff, check_token-with_token}
use weaveplatform_sdk.Relay.{Place, Relay, Run, opened}

-- The services that the host client has clients of.
pub data Service : Type 0 where
  identity transport policy store events logs watchdog : Service

-- `registerHostServices`.
unfoldable pub is_registered : Service → Bool
is_registered Service.identity = true
is_registered Service.transport = true
is_registered Service.policy = true
is_registered Service.store = true
is_registered Service.events = true
is_registered Service.logs = false
is_registered Service.watchdog = false

pub data Opened : Type 0 where
  refused : Status → Opened
  handled : Opened

-- The stub's interceptor in front of a stream's handler.
unfoldable pub serve_stream : Status → Bytes → Service → List Bytes → Opened
serve_stream unimplemented token service values =
    if is_registered service
    then (if check_token token values then handled else refused wrong_token)
    else refused unimplemented

-- The stream interceptor of `dialHost`.
unfoldable pub open_call : Status → Bytes → Bytes → Service → List Bytes → Opened
open_call unimplemented mine theirs service held =
    serve_stream unimplemented theirs service (with_token mine held)

-- A call that streams comes to the stub's handler exactly if the service is registered, the caller's
-- context holds no other token, and the client's token is the one that the stub wants.
open_call_iff :
    (unimplemented : Status) (mine theirs : Bytes) (service : Service) (held : List Bytes)
    → (open_call unimplemented mine theirs service held ≡ handled)
      ↔ ((is_registered service ≡ true) × (held ≡ []) × (mine ≡ theirs))
unfolding open_call serve_stream
open_call_iff unimplemented mine theirs service held =
    let same_test = check_token-with_token mine theirs held in
    let tokens = admits_iff mine theirs held in
    elim (Bool-cases (is_registered service)) [
      | inr no_service ↦ (λ h. cc, λ h. cc)
      | inl there ↦ elim (Bool-cases (admits mine theirs held)) [
        | inl good ↦ (
          λ h. (there, (tokens.0 good).0, (tokens.0 good).1),
          λ h. rw (there, same_test, good) refl,
        )
        | inr bad ↦
            let open_bad : open_call unimplemented mine theirs service held ≡ refused wrong_token =
              rw (there, same_test, bad) refl in
            (λ h. cc (open_bad, h), λ h. cc (tokens.1 (h.1, h.2), bad))
      ]
    ]

module _ {A B : Type 0} (convert : A → B) where
  -- A `Receive` on the stub, whose handler sends nothing and returns when the stream's context is done.
  pub data ReceiveReach : Relay A B → Type 0 where
    start : ReceiveReach (opened convert)
    ran : {r s : Relay A B} → ReceiveReach r → Run convert r s → ReceiveReach s
    cancelled : {r : Relay A B} → ReceiveReach r → ReceiveReach (record r { context_done = true })
    returned :
        {r : Relay A B}
        → ReceiveReach r
        → r.context_done ≡ true
        → ReceiveReach (record r { broken = true })

  record IsQuiet (r : Relay A B) : Type 0 where
    nothing : r.received ≡ []
    none_comes : r.wire ≡ []
    ends : r.broken ≡ true → r.context_done ≡ true
    stands : (r.place ≡ Place.receiving) ⊎ ((r.place ≡ Place.closed) × (r.context_done ≡ true))

  no_offer :
      (r : Relay A B) (a : A)
      → r.place ≡ Place.offering a
      → (r.place ≡ Place.receiving) ⊎ ((r.place ≡ Place.closed) × (r.context_done ≡ true))
      → ⊥
  no_offer r a at (inl e) = cc
  no_offer r a at (inr e) = cc (at, e.0)

  Run-IsQuiet : {r s : Relay A B} → Run convert r s → IsQuiet r → IsQuiet s
  Run-IsQuiet (Run.recv at more) w = cc
  Run-IsQuiet {r} (Run.recv_fails at why) w = record {
    nothing = w.nothing;
    none_comes = w.none_comes;
    ends = w.ends;
    stands = inr (refl, elim why [ inl broken ↦ w.ends broken | inr done ↦ done ]);
  }
  Run-IsQuiet {r} (Run.hand_over at) w = absurd (no_offer r _ at w.stands)
  Run-IsQuiet {r} (Run.give_up at done) w = absurd (no_offer r _ at w.stands)

  ReceiveReach-IsQuiet : {r : Relay A B} → ReceiveReach r → IsQuiet r
  ReceiveReach-IsQuiet ReceiveReach.start = record {
    nothing = refl;
    none_comes = refl;
    ends = λ e. cc;
    stands = inl refl;
  }
  ReceiveReach-IsQuiet (ReceiveReach.ran w st) = Run-IsQuiet st (ReceiveReach-IsQuiet w)
  ReceiveReach-IsQuiet (ReceiveReach.cancelled w) =
      let q = ReceiveReach-IsQuiet w in
      record {
        nothing = q.nothing;
        none_comes = q.none_comes;
        ends = λ e. refl;
        stands = elim q.stands [ inl at ↦ inl at | inr (at, done) ↦ inr (at, refl) ];
      }
  ReceiveReach-IsQuiet (ReceiveReach.returned w done) =
      let q = ReceiveReach-IsQuiet w in
      record { nothing = q.nothing; none_comes = q.none_comes; ends = λ e. done; stands = q.stands }

  -- The module gets nothing of the stub's `Receive`, and its channel is closed only when the context is
  -- done.
  receive_lem :
      {r : Relay A B}
      → ReceiveReach r
      → (r.received ≡ [])
        × ((r.place ≡ Place.receiving) ⊎ ((r.place ≡ Place.closed) × (r.context_done ≡ true)))
  receive_lem w = let q = ReceiveReach-IsQuiet w in (q.nothing, q.stands)
