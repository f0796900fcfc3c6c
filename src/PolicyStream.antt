-- ===== src/PolicyStream.antt =====
-- modulesdk/testkit/hostserver.go (`policyServer.Watch`) and modulesdk/hostclient.go
-- (`policyClient.Watch`): one policy stream from the writers to the module. The stub's watcher is a
-- `PolicyWatch`, and the client's goroutine a `Relay`.
pub mod Arrival
pub mod Looking
pub mod Progress
pub mod Opening
pub mod Network
use weaveplatform_sdk.Base.{ℕ, ◌≡◌, true, false, List, [], ◌∷◌, ◌++◌, Bytes}
use weaveplatform_sdk.HostCalls.{PolicyDocument, policy_doc}
use weaveplatform_sdk.PolicyWatch as PolicyWatch
use weaveplatform_sdk.PolicyWatch.{Watch, Action, act}
use weaveplatform_sdk.Relay as Relay
use weaveplatform_sdk.Relay.{Relay, Run}

-- What the stub sends. It sets neither the schema version nor the content type.
unfoldable pub wire_document : ℕ × Bytes → PolicyDocument
wire_document (revision, payload) = record {
  revision = revision;
  payload = payload;
  schema_version = 0;
  content_type = [];
}

pub record Channel : Type 0 where
  pub watch : Watch
  pub relay : Relay PolicyDocument PolicyDocument

abbrev pub joined : ℕ → Bytes → Channel
joined revision document = record {
  watch = PolicyWatch.opened revision document;
  relay = Relay.opened policy_doc;
}

-- A step, with the actions of the writers and the watcher in it. What the watcher sends is then on the
-- wire.
pub data ChannelStep (c : Channel) : List Action → Channel → Type 0 where
  acting :
      (a : Action)
      → (act a c.watch).received ≡ c.watch.received
      → ChannelStep c (a ∷ []) (record c { watch = act a c.watch })
  sending :
      (a : Action) (x : ℕ × Bytes)
      → (act a c.watch).received ≡ c.watch.received ++ x ∷ []
      → c.relay.broken ≡ false
      → ChannelStep c (a ∷ []) (record {
        watch = act a c.watch;
        relay = record c.relay {
          sent = c.relay.sent ++ wire_document x ∷ [];
          wire = c.relay.wire ++ wire_document x ∷ [];
        };
      })
  running :
      {r : Relay PolicyDocument PolicyDocument}
      → Run policy_doc c.relay r
      → ChannelStep c [] (record c { relay = r })
  breaking : ChannelStep c [] (record c { relay = record c.relay { broken = true } })
  cancelling : ChannelStep c [] (record c { relay = record c.relay { context_done = true } })

pub data ChannelReach (revision : ℕ) (document : Bytes) : List Action → Channel → Type 0 where
  start : ChannelReach revision document [] (joined revision document)
  next :
      {as' bs : List Action} {c d : Channel}
      → ChannelReach revision document as' c
      → ChannelStep c bs d
      → ChannelReach revision document (as' ++ bs) d
