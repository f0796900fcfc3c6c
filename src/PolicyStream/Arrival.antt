-- ===== src/PolicyStream/Arrival.antt =====
-- modulesdk/testkit/hostserver.go with modulesdk/hostclient.go: which policies the module receives.
use mathlib.Core.List.{append-nil, map-append, map-map}
use weaveplatform_sdk.Base.{
  ℕ, ◌+◌, ◌^◌, ◌<◌, ◌≡◌, refl, sym, ap, ◌∙◌, false, List, [], ◌∷◌, ◌++◌, map, Bytes, All, All-split,
  length, subst,
}
use weaveplatform_sdk.HostCalls.{PolicyDocument, policy_doc}
use weaveplatform_sdk.PolicyWatch as PolicyWatch
use weaveplatform_sdk.PolicyWatch.{Stage, Watch, Action, act, run}
use weaveplatform_sdk.PolicyWatch.Current.{run-snoc, RisesBelow, EndsIn, watch_rises, watch_current}
use weaveplatform_sdk.Relay.{Place, Env, Reach}
use weaveplatform_sdk.Relay.Delivery.{Delivers, Run-sent, received-Prefix}
use weaveplatform_sdk.PolicyStream.{wire_document, Channel, ChannelStep, ChannelReach}

-- What a document of the stub is for the module.
abbrev pub arrived : ℕ × Bytes → PolicyDocument
arrived x = policy_doc (wire_document x)

-- Each revision is above those before.
abbrev pub Rises : List PolicyDocument → Type 0
Rises [] = Unit {0}
Rises (x ∷ rest) = All (λ y. x.revision < y.revision) rest × Rises rest

record IsJoined (revision : ℕ) (document : Bytes) (as' : List Action) (c : Channel) : Type 0 where
  watched : c.watch ≡ run as' (PolicyWatch.opened revision document)
  relayed : Reach policy_doc c.relay
  joint : c.relay.sent ≡ map wire_document c.watch.received

module _ (revision : ℕ) (document : Bytes) where
  abbrev after : List Action → Watch
  after as' = run as' (PolicyWatch.opened revision document)

  one_more :
      (as' : List Action) (a : Action) (w : Watch) → w ≡ after as' → act a w ≡ after (as' ++ a ∷ [])
  one_more as' a w e = ap (act a) e ∙ sym (run-snoc as' a (PolicyWatch.opened revision document))

  no_more : (as' : List Action) (w : Watch) → w ≡ after as' → w ≡ after (as' ++ [])
  no_more as' w e = e ∙ ap after (sym (append-nil as'))

  ChannelStep-IsJoined :
      {as' bs : List Action} {c d : Channel}
      → ChannelStep c bs d
      → IsJoined revision document as' c
      → IsJoined revision document (as' ++ bs) d
  ChannelStep-IsJoined {as'} {c = c} (ChannelStep.acting a same) v = record {
    watched = one_more as' a c.watch v.watched;
    relayed = v.relayed;
    joint = v.joint ∙ ap (map wire_document) (sym same);
  }
  ChannelStep-IsJoined {as'} {c = c} (ChannelStep.sending a x more whole) v = record {
    watched = one_more as' a c.watch v.watched;
    relayed = Reach.met v.relayed (Env.send (wire_document x) whole);
    joint =
        ap (λ l. l ++ wire_document x ∷ []) v.joint
        ∙ sym (map-append wire_document c.watch.received (x ∷ []))
        ∙ ap (map wire_document) (sym more);
  }
  ChannelStep-IsJoined {as'} {c = c} (ChannelStep.running st) v = record {
    watched = no_more as' c.watch v.watched;
    relayed = Reach.ran v.relayed st;
    joint = Run-sent policy_doc st ∙ v.joint;
  }
  ChannelStep-IsJoined {as'} {c = c} ChannelStep.breaking v = record {
    watched = no_more as' c.watch v.watched;
    relayed = Reach.met v.relayed Env.break;
    joint = v.joint;
  }
  ChannelStep-IsJoined {as'} {c = c} ChannelStep.cancelling v = record {
    watched = no_more as' c.watch v.watched;
    relayed = Reach.met v.relayed Env.cancel;
    joint = v.joint;
  }

  ChannelReach-IsJoined :
      {as' : List Action} {c : Channel}
      → ChannelReach revision document as' c
      → IsJoined revision document as' c
  ChannelReach-IsJoined ChannelReach.start = record {
    watched = unfold run in refl;
    relayed = Reach.start;
    joint = refl;
  }
  ChannelReach-IsJoined (ChannelReach.next w st) = ChannelStep-IsJoined st (ChannelReach-IsJoined w)

arrived_above :
    (n : ℕ) (xs : List (ℕ × Bytes))
    → All (λ y. n < y.0) xs
    → All (λ y. n < y.revision) (map arrived xs)
arrived_above n [] h = tt
arrived_above n (x ∷ xs) h =
    (unfold policy_doc in unfold wire_document in h.0, arrived_above n xs h.1)

Rises-arrived : (n : ℕ) (xs : List (ℕ × Bytes)) → RisesBelow n xs → Rises (map arrived xs)
unfolding policy_doc wire_document
Rises-arrived n [] h = tt
Rises-arrived n (x ∷ xs) (below, above, rest) =
    (arrived_above x.0 xs above, Rises-arrived n xs rest)

Rises-front : (xs zs : List PolicyDocument) → Rises (xs ++ zs) → Rises xs
Rises-front [] zs h = tt
Rises-front (x ∷ xs) zs (above, rest) =
    ((All-split (λ y. x.revision < y.revision) xs zs above).0, Rises-front xs zs rest)

module _ {revision : ℕ} {document : Bytes} {as' : List Action} {c : Channel}
    (w : ChannelReach revision document as' c) (small : revision + length as' < 2 ^ 64) where
  joins : IsJoined revision document as' c
  joins = ChannelReach-IsJoined revision document w

  -- However the writers of the policy, the stub's watcher, the network, the goroutine and the module
  -- take turns, as long as the revision stays within 64 bits: the revisions that the module receives
  -- rise, so no document comes twice and none after a newer one.
  pub policy-Rises : Rises c.relay.received
  policy-Rises =
      let (zs, begins) = (received-Prefix policy_doc joins.relayed).0 in
      let sent_all =
        sym (map-map policy_doc wire_document c.watch.received)
        ∙ ap (map policy_doc) (sym joins.joint)
        ∙ begins in
      Rises-front c.relay.received zs (
        subst Rises sent_all (
          Rises-arrived c.watch.sent c.watch.received (
            subst (λ v. RisesBelow v.sent v.received) (sym joins.watched)
              (watch_rises as' revision document small))))

  -- However they take turns, as long as the revision stays within 64 bits: once the watcher waits with
  -- no token and no writer is about to give one, the goroutine receives, and nothing is on the wire,
  -- the last document that the module received is the current one.
  pub policy_current :
      c.watch.stage ≡ Stage.waiting
      → c.watch.token ≡ false
      → c.watch.wakes ≡ 0
      → c.relay.place ≡ Place.receiving
      → c.relay.wire ≡ []
      → (front : List PolicyDocument) × (c.relay.received
          ≡ front ++ arrived (c.watch.revision, c.watch.document) ∷ [])
  policy_current waits no_token no_wake at all_in =
      let (front, ends) =
        subst
          (λ v.
            v.stage ≡ Stage.waiting
            → v.token ≡ false
            → v.wakes ≡ 0
            → EndsIn (v.revision, v.document) v.received)
          (sym joins.watched) (watch_current as' revision document small) waits no_token no_wake in
      let on_stream =
        subst (Delivers policy_doc c.relay.sent c.relay.wire c.relay.received) at
          (received-Prefix policy_doc joins.relayed).1 in
      (
        map arrived front,
        sym (append-nil c.relay.received)
            ∙ ap (λ l. c.relay.received ++ map policy_doc l) (sym all_in)
            ∙ sym on_stream
            ∙ ap (map policy_doc) joins.joint
            ∙ map-map policy_doc wire_document c.watch.received
            ∙ ap (map arrived) ends
            ∙ map-append arrived front ((c.watch.revision, c.watch.document) ∷ []),
      )
