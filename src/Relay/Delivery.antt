-- ===== src/Relay/Delivery.antt =====
-- modulesdk/hostclient.go: what a module receives from a channel of the host client.
use mathlib.Core.List.{append_assoc, map-append}
use weaveplatform_sdk.Base.{◌≡◌, refl, sym, ap, ◌∙◌, List, [], ◌∷◌, ◌++◌, map, subst}
use weaveplatform_sdk.Relay.{Place, Relay, Run, Env, Reach}

abbrev pub Prefix : {A : Type 0} → List A → List A → Type 0
Prefix {A} xs ys = (zs : List A) × (ys ≡ xs ++ zs)

module _ {A B : Type 0} (convert : A → B) where
  -- What the goroutine still has for the module.
  abbrev pub pending : Place A → List A → List B
  pending Place.receiving wire = map convert wire
  pending (Place.offering a) wire = convert a ∷ map convert wire
  pending Place.closed wire = []

  -- Nothing is lost or doubled while the goroutine runs; behind it, the rest is lost.
  abbrev pub Delivers : List A → List A → List B → Place A → Type 0
  Delivers sent wire received Place.closed = Prefix received (map convert sent)
  Delivers sent wire received p = map convert sent ≡ received ++ pending p wire

  abbrev pub IsDelivering : Relay A B → Type 0
  IsDelivering r = Delivers r.sent r.wire r.received r.place

  pub Run-sent : {r s : Relay A B} → Run convert r s → s.sent ≡ r.sent
  Run-sent (Run.recv at next) = refl
  Run-sent (Run.recv_fails at why) = refl
  Run-sent (Run.hand_over at) = refl
  Run-sent (Run.give_up at done) = refl

  Run-IsDelivering : {r s : Relay A B} → Run convert r s → IsDelivering r → IsDelivering s
  Run-IsDelivering {r} (Run.recv at next) d =
      subst (Delivers r.sent r.wire r.received) at d ∙ ap (λ w. r.received ++ map convert w) next
  Run-IsDelivering {r} (Run.recv_fails at why) d =
      (map convert r.wire, subst (Delivers r.sent r.wire r.received) at d)
  Run-IsDelivering {r} (Run.hand_over {a} at) d =
      subst (Delivers r.sent r.wire r.received) at d
      ∙ sym (append_assoc r.received (convert a ∷ []) (map convert r.wire))
  Run-IsDelivering {r} (Run.give_up {a} at done) d =
      (convert a ∷ map convert r.wire, subst (Delivers r.sent r.wire r.received) at d)

  one_more :
      (sent wire : List A) (xs : List B) (a : A)
      → map convert sent ≡ xs ++ map convert wire
      → map convert (sent ++ a ∷ []) ≡ xs ++ map convert (wire ++ a ∷ [])
  one_more sent wire xs a d =
      map-append convert sent (a ∷ [])
      ∙ ap (λ l. l ++ convert a ∷ []) d
      ∙ append_assoc xs (map convert wire) (convert a ∷ [])
      ∙ ap (λ l. xs ++ l) (sym (map-append convert wire (a ∷ [])))

  send-Delivers :
      (sent wire : List A) (received : List B) (a : A) (p : Place A)
      → Delivers sent wire received p
      → Delivers (sent ++ a ∷ []) (wire ++ a ∷ []) received p
  send-Delivers sent wire received a Place.receiving d = one_more sent wire received a d
  send-Delivers sent wire received a (Place.offering b) d =
      one_more sent wire (received ++ convert b ∷ []) a
        (d ∙ sym (append_assoc received (convert b ∷ []) (map convert wire)))
      ∙ append_assoc received (convert b ∷ []) (map convert (wire ++ a ∷ []))
  send-Delivers sent wire received a Place.closed (zs, d) = (
    zs ++ convert a ∷ [],
    map-append convert sent (a ∷ [])
        ∙ ap (λ l. l ++ convert a ∷ []) d
        ∙ append_assoc received zs (convert a ∷ []),
  )

  Env-IsDelivering : {r s : Relay A B} → Env r s → IsDelivering r → IsDelivering s
  Env-IsDelivering {r} (Env.send a whole) d = send-Delivers r.sent r.wire r.received a r.place d
  Env-IsDelivering Env.break d = d
  Env-IsDelivering Env.cancel d = d

  Reach-IsDelivering : {r : Relay A B} → Reach convert r → IsDelivering r
  Reach-IsDelivering Reach.start = refl
  Reach-IsDelivering (Reach.ran w st) = Run-IsDelivering st (Reach-IsDelivering w)
  Reach-IsDelivering (Reach.met w st) = Env-IsDelivering st (Reach-IsDelivering w)

  Delivers-Prefix :
      (sent wire : List A) (received : List B) (p : Place A)
      → Delivers sent wire received p
      → Prefix received (map convert sent)
  Delivers-Prefix sent wire received Place.receiving d = (_, d)
  Delivers-Prefix sent wire received (Place.offering a) d = (_, d)
  Delivers-Prefix sent wire received Place.closed d = d

  -- In every state that core, the network, the module and the goroutine can reach, the module has
  -- received, converted and in order, the beginning of what core sent. While the goroutine runs, the
  -- rest is exactly the message that it offers and those on the wire.
  pub received-Prefix :
      {r : Relay A B} → Reach convert r → Prefix r.received (map convert r.sent) × IsDelivering r
  received-Prefix {r} w =
      let d = Reach-IsDelivering w in (Delivers-Prefix r.sent r.wire r.received r.place d, d)
