-- ===== src/PolicyStream/Network.antt =====
-- modulesdk/testkit/hostdata.go, hostserver.go and modulesdk/hostclient.go (`Watch` of both sides): the
-- policy with any number of writers, and with any number of modules, each at the end of its own stream.
-- `SetPolicy` is the one of `PolicyWatch.Watchers`, and each stream, with its watcher and the client's
-- goroutine, a `Channel`.
pub mod Received
pub mod Arrives
use weaveplatform_sdk.Base.{
  ℕ, zero, suc, ◌+◌, ◌%◌, ◌^◌, ◌<◌, ◌≡◌, true, false, List, [], ◌∷◌, ◌++◌, some, Bytes, length, map,
  set, get_elem?,
}
use weaveplatform_sdk.Round.{begun, moved}
use weaveplatform_sdk.HostCalls.{PolicyDocument, policy_doc}
use weaveplatform_sdk.PolicyWatch.{Action, act}
use weaveplatform_sdk.PolicyWatch.Watchers.{
  Slot, Writer, Policy, new_slot, watch_of, slot_of, IsOwn,
}
use weaveplatform_sdk.Relay as Relay
use weaveplatform_sdk.Relay.{Relay, Run}
use weaveplatform_sdk.PolicyStream.{Channel, wire_document}

pub record Stream : Type 0 where
  pub slot : Slot
  pub relay : Relay PolicyDocument PolicyDocument

pub record Net : Type 0 where
  pub revision : ℕ
  pub document : Bytes
  pub streams : List Stream
  pub writers : List Writer

abbrev pub new_net : Net
new_net = record { revision = 0; document = []; streams = []; writers = [] }

-- `SetPolicy`, up to the unlocking.
unfoldable pub set_policy : Bytes → Net → Net
set_policy document n = record n {
  revision = (n.revision + 1) % 2 ^ 64;
  document = document;
  writers = n.writers ++ begun tt (length n.streams) ∷ [];
}

abbrev pub new_stream : Stream
new_stream = record { slot = new_slot; relay = Relay.opened policy_doc }

-- A `Watch` of a module that has come to the stub's loop.
unfoldable pub add_stream : Net → Net
add_stream n = record n { streams = n.streams ++ new_stream ∷ [] }

-- The stub's side of it.
abbrev pub policy_of : Net → Policy
policy_of n = record {
  revision = n.revision;
  document = n.document;
  watchers = map (λ (s : Stream). s.slot) n.streams;
  writers = n.writers;
}

abbrev pub slot_after : Net → Action → Stream → Slot
slot_after n a s = slot_of (act a (watch_of (policy_of n) 0 s.slot))

abbrev pub woken : Stream → Stream
woken s = record s { slot = record s.slot { token = true } }

abbrev pub woken_on : Net → List Writer → Writer → List Writer → Stream → Net
woken_on n before x behind s = record n {
  writers = before ++ moved x ∷ behind;
  streams = set n.streams x.next (woken s);
}

-- What a watcher sends is then on the wire.
abbrev pub sent_by : Net → Action → ℕ × Bytes → Stream → Stream
sent_by n a x s = record {
  slot = slot_after n a s;
  relay = record s.relay {
    sent = s.relay.sent ++ wire_document x ∷ [];
    wire = s.relay.wire ++ wire_document x ∷ [];
  };
}

-- What a stream does by itself: a step of its watcher, of its network, or of the goroutine and the
-- module.
pub data StreamStep (n : Net) (s : Stream) : Stream → Type 0 where
  acting :
      (a : Action)
      → IsOwn a
      → (slot_after n a s).received ≡ s.slot.received
      → StreamStep n s (record s { slot = slot_after n a s })
  sending :
      (a : Action) (x : ℕ × Bytes)
      → IsOwn a
      → (slot_after n a s).received ≡ s.slot.received ++ x ∷ []
      → s.relay.broken ≡ false
      → StreamStep n s (sent_by n a x s)
  running :
      {r : Relay PolicyDocument PolicyDocument}
      → Run policy_doc s.relay r
      → StreamStep n s (record s { relay = r })
  breaking : StreamStep n s (record s { relay = record s.relay { broken = true } })
  cancelling : StreamStep n s (record s { relay = record s.relay { context_done = true } })

pub data NetStep (n : Net) : Net → Type 0 where
  change : (document : Bytes) → NetStep n (set_policy document n)
  wake :
      (before behind : List Writer) (x : Writer) (s : Stream)
      → n.writers ≡ before ++ x ∷ behind
      → x.next < x.upto
      → get_elem? n.streams x.next ≡ some s
      → NetStep n (woken_on n before x behind s)
  register : NetStep n (add_stream n)
  moving :
      (k : ℕ) (s t : Stream)
      → get_elem? n.streams k ≡ some s
      → StreamStep n s t
      → NetStep n (record n { streams = set n.streams k t })

-- With the number of steps.
pub data NetReach : ℕ → Net → Type 0 where
  start : NetReach zero new_net
  next : {k : ℕ} {m n : Net} → NetReach k m → NetStep m n → NetReach (suc k) n

-- A stream as `PolicyStream` has it, with the wake-ups that writers owe it.
abbrev pub channel_of : Net → ℕ → Stream → Channel
channel_of n wakes s = record { watch = watch_of (policy_of n) wakes s.slot; relay = s.relay }
