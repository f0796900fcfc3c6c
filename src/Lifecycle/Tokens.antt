-- ===== src/Lifecycle/Tokens.antt =====
-- modulesdk/lifecycle.go: what a token in the channels `shutdown` and `hostLost` tells of the server.
use weaveplatform_sdk.Base.{ℕ, ◌≡◌, ◌≢◌, true, List, [], ◌∷◌, Option, none, some, arith, inl, inr}
use weaveplatform_sdk.Errors.{GoError}
use weaveplatform_sdk.HostClient.{HostClient}
use weaveplatform_sdk.Lifecycle.{Module, State, Server, InitRequest}
use weaveplatform_sdk.Lifecycle.Handlers.{
  new_server, configure, finish_init, run_init, connect, accept, init, start, stop_locked, stop,
  shutdown, lose_host,
}
use weaveplatform_sdk.Lifecycle.Order.{Event, step, run}
use weaveplatform_sdk.Lifecycle.Order.Steps.{init_cases}

abbrev pub HasHost : Option HostClient → Type 0
HasHost none = ⊥
HasHost (some h) = Unit {0}

-- A token of `Shutdown` is there after the stop only, and one of the lost host only while the host is
-- watched, which is after Init.
pub record IsTokened {S : Type 0} (s : Server S) : Type 0 where
  pub stopped : s.shutdown ≡ true → s.state ≡ State.stopped
  pub watched : s.host_lost ≡ true → s.watching ≡ true
  pub hosted : s.watching ≡ true → (s.state ≢ State.created) × HasHost s.host

module _ {S : Type 0} (m : Module S) where
  accept-IsTokened :
      (req : InitRequest) (dial : Option GoError) (s : Server S)
      → s.state ≡ State.created
      → IsTokened s
      → IsTokened (accept m req dial s).0
  unfolding accept configure connect run_init finish_init
  accept-IsTokened req dial s e t = record {
    stopped = λ h. ground (arith, t.stopped);
    watched = λ h. ground (arith, t.watched);
    hosted = λ h. ground (arith, t.hosted);
  }

  start-IsTokened : (s : Server S) → IsTokened s → IsTokened (start m s).0
  unfolding start
  start-IsTokened s t = record {
    stopped = λ h. ground (arith, t.stopped);
    watched = λ h. ground (arith, t.watched);
    hosted = λ h. ground (arith, t.hosted);
  }

  stop_locked-IsTokened :
      (secs : ℕ) (s : Server S) → IsTokened s → IsTokened (stop_locked m secs s).0
  unfolding stop_locked
  stop_locked-IsTokened secs s t = record {
    stopped = λ h. ground (arith, t.stopped);
    watched = λ h. ground (arith, t.watched);
    hosted = λ h. ground (arith, t.hosted);
  }

  shutdown-IsTokened : (s : Server S) → IsTokened s → IsTokened (shutdown m s).0
  unfolding shutdown stop_locked
  shutdown-IsTokened s t = record {
    stopped = λ h. ground (arith, t.stopped);
    watched = λ h. ground (arith, t.watched);
    hosted = λ h. ground (arith, t.hosted);
  }

  step-IsTokened : (s : Server S) (e : Event) → IsTokened s → IsTokened (step m s e)
  unfolding step stop lose_host
  step-IsTokened s (Event.init_rpc req dial) t = elim (init_cases m req dial s) [
    | inl e ↦ rw e t
    | inr (unused, e) ↦ rw e (accept-IsTokened req dial s unused t)
  ]
  step-IsTokened s Event.start_rpc t = start-IsTokened s t
  step-IsTokened s (Event.stop_rpc secs) t = stop_locked-IsTokened secs s t
  step-IsTokened s Event.shutdown_rpc t = shutdown-IsTokened s t
  step-IsTokened s Event.health_rpc t = t
  step-IsTokened s Event.connection_lost t = record {
    stopped = λ h. ground (arith, t.stopped);
    watched = λ h. ground (arith, t.watched);
    hosted = λ h. ground (arith, t.hosted);
  }
  step-IsTokened s (Event.declare_call surfaces) t = record {
    stopped = λ h. ground (arith, t.stopped);
    watched = λ h. ground (arith, t.watched);
    hosted = λ h. ground (arith, t.hosted);
  }

  pub run-IsTokened : (s : Server S) (es : List Event) → IsTokened s → IsTokened (run m s es)
  unfolding run
  run-IsTokened s [] t = t
  run-IsTokened s (e ∷ es) t = run-IsTokened (step m s e) es (step-IsTokened s e t)

  pub new_server-IsTokened : (t : S) → IsTokened (new_server m t)
  new_server-IsTokened t = record { stopped = λ h. cc; watched = λ h. cc; hosted = λ h. cc }

  step-shutdown : (s : Server S) (e : Event) → s.shutdown ≡ true → (step m s e).shutdown ≡ true
  unfolding step start stop shutdown stop_locked lose_host init accept configure connect run_init
      finish_init
  step-shutdown s e h = ground arith

  step-host_lost : (s : Server S) (e : Event) → s.host_lost ≡ true → (step m s e).host_lost ≡ true
  unfolding step start stop shutdown stop_locked lose_host init accept configure connect run_init
      finish_init
  step-host_lost s e h = ground arith

  -- A token stays until `serve` takes it.
  pub run-shutdown :
      (s : Server S) (es : List Event) → s.shutdown ≡ true → (run m s es).shutdown ≡ true
  unfolding run
  run-shutdown s [] h = h
  run-shutdown s (e ∷ es) h = run-shutdown (step m s e) es (step-shutdown s e h)

  pub run-host_lost :
      (s : Server S) (es : List Event) → s.host_lost ≡ true → (run m s es).host_lost ≡ true
  unfolding run
  run-host_lost s [] h = h
  run-host_lost s (e ∷ es) h = run-host_lost (step m s e) es (step-host_lost s e h)
