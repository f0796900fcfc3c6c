-- ===== src/PolicyStream/Network/Received.antt =====
-- modulesdk/testkit/hostdata.go, hostserver.go and modulesdk/hostclient.go: each stream of the policy is
-- a run of one.
use weaveplatform_sdk.Base.{
  ℕ, suc, ◌+◌, ◌^◌, ◌≤◌, ◌<◌, ◌≡◌, refl, sym, ap, ◌∙◌, subst, false, List, [], ◌∷◌, ◌++◌, some,
  arith, Bytes, length, length-append, get_elem?, set,
}
use weaveplatform_sdk.Round.{IsWithin, owed}
use weaveplatform_sdk.Round.Fanned.{
  IsFanned, IsFanned-begun, IsFanned-added, IsFanned-set, IsFanned-moved, none-IsFanned,
}
use weaveplatform_sdk.HostCalls.{PolicyDocument}
use weaveplatform_sdk.PolicyWatch.{Stage, Watch, Action, act}
use weaveplatform_sdk.PolicyWatch.Watchers.{Writer, watch_of, IsOwn}
use weaveplatform_sdk.PolicyWatch.Watchers.Views.{act_own, act_wake, one_less}
use weaveplatform_sdk.Relay.{Place}
use weaveplatform_sdk.PolicyStream.{Channel, ChannelStep, ChannelReach}
use weaveplatform_sdk.PolicyStream.Arrival.{Rises, arrived, policy-Rises, policy_current}
use weaveplatform_sdk.PolicyStream.Network.{
  Stream, Net, NetStep, NetReach, StreamStep, set_policy, add_stream, new_stream, new_net,
  policy_of, slot_after, woken, woken_on, channel_of,
}

wake_silent : (w : Watch) → (act Action.wake w).received ≡ w.received
unfolding act
wake_silent w = ground arith

-- What a stream goes through is a run of `PolicyStream`, from the policy when it began.
pub record IsStreamed (k : ℕ) (c : Channel) : Type 0 where
  pub revision : ℕ
  pub document : Bytes
  pub actions : List Action
  pub reached : ChannelReach revision document actions c
  pub within : revision + length actions ≤ k

streamed_on :
    (k : ℕ) {bs : List Action} {c : Channel} (d e : Channel)
    → IsStreamed k c
    → ChannelStep c bs d
    → length bs ≤ 1
    → e ≡ d
    → IsStreamed (suc k) e
streamed_on k {bs} d e w st short same = record {
  revision = w.revision;
  document = w.document;
  actions = w.actions ++ bs;
  reached =
      subst (ChannelReach w.revision w.document (w.actions ++ bs)) (sym same)
        (ChannelReach.next w.reached st);
  within = omega (arith, w.within, length-append w.actions bs, short);
}

streamed_as : (k : ℕ) (c : Channel) → IsStreamed k c → IsStreamed (suc k) c
streamed_as k c w = record {
  revision = w.revision;
  document = w.document;
  actions = w.actions;
  reached = w.reached;
  within = omega (arith, w.within);
}

-- A step of the stream's own is a step of its channel, whatever wake-ups it is owed.
module _ (n : Net) (s : Stream) where
  own_same :
      (a : Action) (wakes : ℕ)
      → IsOwn a
      → watch_of (policy_of n) wakes (slot_after n a s)
        ≡ act a (watch_of (policy_of n) wakes s.slot)
  own_same a wakes own = act_own a wakes (policy_of n) s.slot own

  streamed_step :
      (k wakes : ℕ) (t : Stream)
      → StreamStep n s t
      → IsStreamed k (channel_of n wakes s)
      → IsStreamed (suc k) (channel_of n wakes t)
  streamed_step k wakes t (StreamStep.acting a own same) w =
      streamed_on k _ _ w
        (ChannelStep.acting a (sym (ap (λ v. v.received) (own_same a wakes own)) ∙ same))
        (omega arith) (ap (λ v. record { watch = v; relay = s.relay }) (own_same a wakes own))
  streamed_step k wakes t (StreamStep.sending a x own more whole) w =
      streamed_on k _ _ w
        (ChannelStep.sending a x (sym (ap (λ v. v.received) (own_same a wakes own)) ∙ more) whole)
        (omega arith) (ap (λ v. record { watch = v; relay = t.relay }) (own_same a wakes own))
  streamed_step k wakes t (StreamStep.running st) w =
      streamed_on k _ _ w (ChannelStep.running st) (omega arith) refl
  streamed_step k wakes t StreamStep.breaking w =
      streamed_on k _ _ w ChannelStep.breaking (omega arith) refl
  streamed_step k wakes t StreamStep.cancelling w =
      streamed_on k _ _ w ChannelStep.cancelling (omega arith) refl

Streamed : ℕ → Net → List (Unit {0}) → Stream → Type 0
Streamed k n rest s = IsStreamed k (channel_of n (length rest) s)

record IsNet (k : ℕ) (n : Net) : Type 0 where
  small : n.revision ≤ k
  fanned : IsFanned (Streamed k n) n.writers n.streams

module _ (k : ℕ) (n : Net) (t : IsNet k n) where
  later : (rest : List (Unit {0})) (s : Stream) → Streamed k n rest s → Streamed (suc k) n rest s
  unfolding Streamed
  later rest s v = streamed_as k (channel_of n (length rest) s) v

  change-IsNet : (document : Bytes) → IsNet (suc k) (set_policy document n)
  unfolding set_policy act Streamed
  change-IsNet document = record {
    small = omega (arith, t.small);
    fanned = IsFanned-begun n.writers n.streams t.fanned tt (λ rest s v.
        streamed_on k _ _ v (ChannelStep.acting (Action.change document) refl) (omega arith)
          (ap (λ j. channel_of (set_policy document n) j s) (length-append rest (tt ∷ []))));
  }

  wake-IsNet :
      (before behind : List Writer) (x : Writer) (s : Stream)
      → n.writers ≡ before ++ x ∷ behind
      → x.next < x.upto
      → get_elem? n.streams x.next ≡ some s
      → IsNet (suc k) (woken_on n before x behind s)
  unfolding Streamed
  wake-IsNet before behind x s split more at = record {
    small = omega (arith, t.small);
    fanned =
        IsFanned-moved n.writers n.streams t.fanned before behind x s (woken s) split more at later
          (λ front back v.
            streamed_on k _ _ v (ChannelStep.acting Action.wake (wake_silent _)) (omega arith) (
              ap (λ c. record { watch = c; relay = s.relay })
                (sym (act_wake (length (front ++ back)) (policy_of n) s.slot)
                  ∙ ap (λ j. act Action.wake (watch_of (policy_of n) j s.slot))
                      (sym (one_less front back x.item)))));
  }

  add-IsNet : IsNet (suc k) (add_stream n)
  unfolding add_stream Streamed
  add-IsNet = record {
    small = omega (arith, t.small);
    fanned = IsFanned-added n.writers n.streams t.fanned new_stream later (record {
      revision = n.revision;
      document = n.document;
      actions = [];
      reached = ChannelReach.start;
      within = omega (arith, t.small);
    });
  }

  moving-IsNet :
      (i : ℕ) (s s' : Stream)
      → get_elem? n.streams i ≡ some s
      → StreamStep n s s'
      → IsNet (suc k) (record n { streams = set n.streams i s' })
  unfolding Streamed
  moving-IsNet i s s' at st = record {
    small = omega (arith, t.small);
    fanned =
        IsFanned-set n.writers n.streams t.fanned i s s' at later
          (λ rest v. streamed_step n s k (length rest) s' st v);
  }

NetStep-IsNet : {k : ℕ} {m n : Net} → NetStep m n → IsNet k m → IsNet (suc k) n
NetStep-IsNet {k} {m} (NetStep.change document) t = change-IsNet k m t document
NetStep-IsNet {k} {m} (NetStep.wake before behind x s split more at) t =
    wake-IsNet k m t before behind x s split more at
NetStep-IsNet {k} {m} NetStep.register t = add-IsNet k m t
NetStep-IsNet {k} {m} (NetStep.moving i s s' at st) t = moving-IsNet k m t i s s' at st

NetReach-IsNet : {k : ℕ} {n : Net} → NetReach k n → IsNet k n
NetReach-IsNet NetReach.start = record {
  small = omega arith;
  fanned = none-IsFanned (Streamed 0 new_net);
}
NetReach-IsNet (NetReach.next r st) = NetStep-IsNet st (NetReach-IsNet r)

pub NetReach-IsStreamed :
    {k : ℕ} {n : Net} (r : NetReach k n) (i : ℕ) (s : Stream)
    → get_elem? n.streams i ≡ some s
    → IsStreamed k (channel_of n (length (owed i n.writers)) s)
unfolding Streamed
NetReach-IsStreamed r i s at = (NetReach-IsNet r).fanned.each i s at

pub NetReach-IsWithin : {k : ℕ} {n : Net} → NetReach k n → IsWithin (length n.streams) n.writers
NetReach-IsWithin r = (NetReach-IsNet r).fanned.bounded

-- Whatever modules watch the policy, and however the writers, the watchers of all streams, the networks
-- and the modules take turns, in fewer than 2^64 steps: once the watcher of a module waits with no token,
-- no writer has yet to wake it, its goroutine receives, and nothing is on the wire, the last document
-- that the module received is the current one; and the revisions that it received rise.
pub every_module_current :
    {k : ℕ} {n : Net} (r : NetReach k n) (i : ℕ) (s : Stream)
    → get_elem? n.streams i ≡ some s
    → k < 2 ^ 64
    → s.slot.stage ≡ Stage.waiting
    → s.slot.token ≡ false
    → owed i n.writers ≡ []
    → s.relay.place ≡ Place.receiving
    → s.relay.wire ≡ []
    → Rises s.relay.received
      × (front : List PolicyDocument) × (s.relay.received
          ≡ front ++ arrived (n.revision, n.document) ∷ [])
every_module_current r i s at small waits spent settled receives all_in =
    let w = NetReach-IsStreamed r i s at in
    let short : w.revision + length w.actions < 2 ^ 64 = omega (arith, w.within, small) in
    let (front, ends) =
      policy_current w.reached short waits spent (ap length settled) receives all_in in
    (policy-Rises w.reached short, front, ends)
