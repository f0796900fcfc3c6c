-- ===== src/Lifecycle/Started.antt =====
-- modulesdk/lifecycle.go with modulesdk/hostclient.go: the server after a Start that succeeded. No RPC,
-- and no loss of the connection, gives it another host client, or lets the client forget that it was
-- started.
use weaveplatform_sdk.Base.{
  ℕ, ◌≡◌, true, List, [], ◌∷◌, Option, some, arith, Bool-cases, inl, inr, ◌⊎◌,
}
use weaveplatform_sdk.Errors.{GoError}
use weaveplatform_sdk.HostClient.{HostClient, Surface, declare, declared_too_late, stop_jobs}
use weaveplatform_sdk.Lifecycle.{Module, State, Server, is_state, InitRequest}
use weaveplatform_sdk.Lifecycle.Handlers.{init, start, stop_locked, stop, shutdown, lose_host}
use weaveplatform_sdk.Lifecycle.Order.{Event, step, run}
use weaveplatform_sdk.Lifecycle.Order.Steps.{init_cases}

pub record IsStarted {S : Type 0} (s : Server S) (h : HostClient) : Type 0 where
  pub has_host : s.host ≡ some h
  pub was_started : h.started ≡ true
  pub is_late : (s.state ≡ State.started) ⊎ (s.state ≡ State.stopped)

abbrev pub Started : {S : Type 0} → Server S → Type 0
Started s = (h : HostClient) × IsStarted s h

pub declare_late :
    (xs : List Surface) (h : HostClient)
    → h.started ≡ true
    → declare xs h ≡ (h, some declared_too_late)
unfolding declare
declare_late xs h e = ground (arith, e)

stop_jobs-started : (h : HostClient) → (stop_jobs h).started ≡ h.started
unfolding stop_jobs
stop_jobs-started h = ground arith

module _ {S : Type 0} (m : Module S) where
  init-Started :
      (req : InitRequest) (dial : Option GoError) (s : Server S) (h : HostClient)
      → IsStarted s h
      → IsStarted (init m req dial s).0 h
  init-Started req dial s h f = elim (init_cases m req dial s) [
    | inl e ↦ rw e f
    | inr (unused, e) ↦ elim f.is_late [ inl up ↦ cc | inr down ↦ cc ]
  ]

  start-Started : (s : Server S) (h : HostClient) → IsStarted s h → IsStarted (start m s).0 h
  unfolding start
  start-Started s h f = ground (arith, f.has_host, f.was_started, f.is_late)

  stop_locked-Started :
      (secs : ℕ) (s : Server S) (h : HostClient) → IsStarted s h → Started (stop_locked m secs s).0
  unfolding stop_locked
  stop_locked-Started secs s h f = elim (Bool-cases (is_state s.state State.started)) [
    | inl up ↦
        (stop_jobs h, ground (arith, f.has_host, f.was_started, f.is_late, stop_jobs-started h))
    | inr down ↦ (h, ground (arith, f.has_host, f.was_started, f.is_late))
  ]

  shutdown-Started : (s : Server S) (h : HostClient) → IsStarted s h → Started (shutdown m s).0
  unfolding shutdown
  shutdown-Started s h f =
      let (h', g) = stop_locked-Started 0 s h f in
      (h', ground (arith, g.has_host, g.was_started, g.is_late))

  step-Started : (s : Server S) (h : HostClient) (e : Event) → IsStarted s h → Started (step m s e)
  unfolding step stop lose_host
  step-Started s h (Event.init_rpc req dial) f = (h, init-Started req dial s h f)
  step-Started s h Event.start_rpc f = (h, start-Started s h f)
  step-Started s h (Event.stop_rpc secs) f = stop_locked-Started secs s h f
  step-Started s h Event.shutdown_rpc f = shutdown-Started s h f
  step-Started s h Event.health_rpc f = (h, f)
  step-Started s h Event.connection_lost f =
      (h, ground (arith, f.has_host, f.was_started, f.is_late))
  step-Started s h (Event.declare_call xs) f =
      (h, ground (arith, f.has_host, f.was_started, f.is_late, declare_late xs h f.was_started))

  run-Started : (es : List Event) (s : Server S) → Started s → Started (run m s es)
  unfolding run
  run-Started [] s f = f
  run-Started (e ∷ es) s (h, f) = run-Started es (step m s e) (step-Started s h e f)

  pub declare_refused :
      (s : Server S) (h : HostClient) (es : List Event) (xs : List Surface)
      → IsStarted s h
      → (h' : HostClient) × ((run m s es).host ≡ some h')
        × (declare xs h' ≡ (h', some declared_too_late))
  declare_refused s h es xs f =
      let (h', g) = run-Started es s (h, f) in (h', g.has_host, declare_late xs h' g.was_started)
