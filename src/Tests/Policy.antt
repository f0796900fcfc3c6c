-- ===== src/Tests/Policy.antt =====
-- A writer of the policy and two modules at a concrete run.
use weaveplatform_sdk.Base.{◌≡◌, refl, true, false, [], ◌∷◌, ◌++◌, List, arith, codes}
use weaveplatform_sdk.Round.{owed}
use weaveplatform_sdk.HostCalls.{PolicyDocument}
use weaveplatform_sdk.PolicyWatch.{Stage, Action, act, look_at}
use weaveplatform_sdk.PolicyWatch.Watchers.{Slot, new_slot}
use weaveplatform_sdk.Relay.{Run}
use weaveplatform_sdk.PolicyStream.{wire_document}
use weaveplatform_sdk.PolicyStream.Arrival.{Rises, arrived}
use weaveplatform_sdk.PolicyStream.Network.{
  Stream, Net, NetStep, NetReach, StreamStep, add_stream, new_stream, set_policy,
}
use weaveplatform_sdk.PolicyStream.Network.Received.{every_module_current}
use weaveplatform_sdk.PolicyStream.Network.Arrives.{NetCurrent, every_module_catches_up}

abbrev given : Stream
given = record new_stream { slot = record new_slot { token = true } }

abbrev looked : Slot
looked = record { token = true; stage = Stage.waiting; sent = 2; received = (1, codes "p") ∷ [] }

abbrev sent_policy : Stream
sent_policy = record {
  slot = looked;
  relay = record new_stream.relay {
    sent = wire_document (1, codes "p") ∷ [];
    wire = wire_document (1, codes "p") ∷ [];
  };
}

abbrev settled : Stream
settled = record sent_policy { slot = record looked { token = false } }

abbrev has_policy : Stream
has_policy = record settled {
  relay = record settled.relay { wire = []; received = arrived (1, codes "p") ∷ [] };
}

-- The first module has the policy, and the writer has yet to wake the second one.
abbrev net : Net
net = record {
  revision = 1;
  document = codes "p";
  streams = has_policy ∷ new_stream ∷ [];
  writers = record { item = tt; next = 1; upto = 2 } ∷ [];
}

net-NetReach : NetReach 9 net
unfolding add_stream set_policy act look_at
net-NetReach =
    let added = NetReach.next (NetReach.next NetReach.start NetStep.register) NetStep.register in
    let changed = NetReach.next added (NetStep.change (codes "p")) in
    let awake = NetReach.next changed (
      NetStep.wake [] [] (record { item = tt; next = 0; upto = 2 }) new_stream refl (omega arith)
        refl) in
    let sent = NetReach.next awake (
      NetStep.moving 0 given sent_policy refl
        (StreamStep.sending (Action.look true) (1, codes "p") tt refl refl)) in
    let taken =
      NetReach.next sent
        (NetStep.moving 0 sent_policy _ refl (StreamStep.acting Action.take_token tt refl)) in
    let waits =
      NetReach.next taken
        (NetStep.moving 0 _ settled refl (StreamStep.acting (Action.look true) tt refl)) in
    let came = NetReach.next waits (
      NetStep.moving 0 settled _ refl
        (StreamStep.running (Run.recv {a = wire_document (1, codes "p")} refl refl))) in
    NetReach.next came (
      NetStep.moving 0 _ has_policy refl
        (StreamStep.running (Run.hand_over {a = wire_document (1, codes "p")} refl)))

none_owed : owed 0 net.writers ≡ []
unfolding owed
none_owed = refl

every_module_current_example :
    Rises (arrived (1, codes "p") ∷ [])
    × (front : List PolicyDocument) × (arrived (1, codes "p") ∷ []
        ≡ front ++ arrived (1, codes "p") ∷ [])
every_module_current_example =
    every_module_current net-NetReach 0 has_policy refl (omega arith) refl refl none_owed refl refl

every_module_catches_up_example : NetCurrent net 1
every_module_catches_up_example =
    every_module_catches_up net-NetReach 1 new_stream refl (omega arith) (λ e. cc) refl refl
