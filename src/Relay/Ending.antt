-- ===== src/Relay/Ending.antt =====
-- modulesdk/hostclient.go: the goroutine of a channel ends with its context.
use weaveplatform_sdk.Base.{
  ℕ, zero, suc, ◌+◌, ◌*◌, ◌≤◌, ◌<◌, ◌≡◌, refl, ◌∙◌, ◌⊎◌, inl, inr, true, List, arith, length,
}
use weaveplatform_sdk.Relay.{Place, Relay, Run}

module _ {A B : Type 0} (convert : A → B) where
  -- `n` steps of the goroutine, with nothing that core or the network does between.
  pub data Runs : ℕ → Relay A B → Relay A B → Type 0 where
    stay : {r : Relay A B} → Runs zero r r
    step : {n : ℕ} {r s t : Relay A B} → Run convert r s → Runs n s t → Runs (suc n) r t

  -- How many steps are left at most.
  abbrev budget : List A → Place A → ℕ
  budget wire Place.receiving = 2 * length wire + 1
  budget wire (Place.offering a) = 2 * length wire + 2
  budget wire Place.closed = 0

  Run-budget : {r s : Relay A B} → Run convert r s → budget s.wire s.place < budget r.wire r.place
  Run-budget {r} (Run.recv {a} {rest} at next) = rw (at, next) (omega arith)
  Run-budget {r} (Run.recv_fails at why) = rw at (omega arith)
  Run-budget {r} (Run.hand_over at) = rw at (omega arith)
  Run-budget {r} (Run.give_up at done) = rw at (omega arith)

  Run-context_done : {r s : Relay A B} → Run convert r s → s.context_done ≡ r.context_done
  Run-context_done (Run.recv at next) = refl
  Run-context_done (Run.recv_fails at why) = refl
  Run-context_done (Run.hand_over at) = refl
  Run-context_done (Run.give_up at done) = refl

  -- A step that needs nobody at the other end of the channel.
  abbrev pub IsAlone : {r s : Relay A B} → Run convert r s → Type 0
  IsAlone (Run.recv at next) = Unit {0}
  IsAlone (Run.recv_fails at why) = Unit {0}
  IsAlone (Run.hand_over at) = ⊥
  IsAlone (Run.give_up at done) = Unit {0}

  goes_on :
      (r : Relay A B) (p : Place A)
      → r.place ≡ p
      → r.context_done ≡ true
      → (r.place ≡ Place.closed) ⊎ ((s : Relay A B) × (st : Run convert r s) × IsAlone st)
  goes_on r Place.receiving at done = inr (_, Run.recv_fails at (inr done), tt)
  goes_on r (Place.offering a) at done = inr (_, Run.give_up at done, tt)
  goes_on r Place.closed at done = inl at

  Runs-budget :
      {n : ℕ} {r s : Relay A B} → Runs n r s → n + budget s.wire s.place ≤ budget r.wire r.place
  Runs-budget Runs.stay = omega arith
  Runs-budget (Runs.step st w) = omega (arith, Run-budget st, Runs-budget w)

  Runs-context_done : {n : ℕ} {r s : Relay A B} → Runs n r s → s.context_done ≡ r.context_done
  Runs-context_done Runs.stay = refl
  Runs-context_done (Runs.step st w) = Runs-context_done w ∙ Run-context_done st

  budget-le : (wire : List A) (p : Place A) → budget wire p ≤ 2 * length wire + 2
  budget-le wire Place.receiving = omega arith
  budget-le wire (Place.offering a) = omega arith
  budget-le wire Place.closed = omega arith

  -- Once the context of the call is done and core sends no more, the goroutine makes at most two
  -- steps for each message on the wire and two more, whatever it and the module choose; and until
  -- it has closed the channel it has a step that does not need the module to receive.
  pub Runs_end :
      {n : ℕ} {r s : Relay A B}
      → r.context_done ≡ true
      → Runs n r s
      → (n ≤ 2 * length r.wire + 2)
        × ((s.place ≡ Place.closed) ⊎ ((t : Relay A B) × (st : Run convert s t) × IsAlone st))
  Runs_end {r} {s} done w = (
    omega (arith, Runs-budget w, budget-le r.wire r.place),
    goes_on s s.place refl (Runs-context_done w ∙ done),
  )
