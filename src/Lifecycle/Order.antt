-- ===== src/Lifecycle/Order.antt =====
-- modulesdk/lifecycle.go: the RPCs as steps, and the order of calls that a module is to see, whatever
-- RPCs come and however the callbacks answer.
pub mod Steps
use weaveplatform_sdk.Base.{
  ℕ, ◌≡◌, refl, ◌∙◌, true, false, List, [], ◌∷◌, ◌++◌, Option, none, some, arith, Bool-cases,
  Option-cases, inl, inr, ◌⊎◌,
}
use weaveplatform_sdk.Errors.{GoError}
use weaveplatform_sdk.HostClient.{HostClient, Surface, dialed, declare}
use weaveplatform_sdk.Lifecycle.{Module, State, Call, Server, is_state, InitRequest}
use weaveplatform_sdk.Lifecycle.Handlers.{
  called, on_host, new_server, configure, run_init, connect, accept, init, start, deadline,
  stop_locked, stop, shutdown, lose_host,
}

-- What core, the network and the module may do to the server: the RPCs, the loss of the connection,
-- and a `Declare` outside the callbacks.
pub data Event : Type 0 where
  init_rpc : InitRequest → Option GoError → Event
  start_rpc : Event
  stop_rpc : ℕ → Event
  shutdown_rpc health_rpc connection_lost : Event
  declare_call : List Surface → Event

module _ {S : Type 0} (m : Module S) where
  unfoldable pub step : Server S → Event → Server S
  step s (Event.init_rpc req dial) = (init m req dial s).0
  step s Event.start_rpc = (start m s).0
  step s (Event.stop_rpc secs) = (stop m secs s).0
  step s Event.shutdown_rpc = (shutdown m s).0
  step s Event.health_rpc = s
  step s Event.connection_lost = lose_host m s
  step s (Event.declare_call surfaces) = on_host (λ h. (declare surfaces h).0) s

  unfoldable pub run : Server S → List Event → Server S
  run s [] = s
  run s (e ∷ es) = run (step s e) es

-- Where a module stands, by the calls alone.
pub data Phase : Type 0 where
  fresh connected closing inited starting running draining stop_pending stopped : Phase

-- The calls that may come next: SetConfig and the connection before Init, Init until it succeeds
-- once, Start after that until it succeeds once, Stop after the jobs have ended, until it succeeds.
abbrev pub next_phase : Phase → Call → Option Phase
next_phase Phase.fresh (Call.set_config b) = some Phase.fresh
next_phase Phase.fresh (Call.connect false) = some Phase.fresh
next_phase Phase.fresh (Call.connect true) = some Phase.connected
next_phase Phase.connected (Call.init true) = some Phase.inited
next_phase Phase.connected (Call.init false) = some Phase.closing
next_phase Phase.closing Call.close = some Phase.fresh
next_phase Phase.inited (Call.start false) = some Phase.inited
next_phase Phase.inited (Call.start true) = some Phase.starting
next_phase Phase.starting Call.jobs_begin = some Phase.running
next_phase Phase.running Call.jobs_end = some Phase.draining
next_phase Phase.stop_pending Call.jobs_end = some Phase.draining
next_phase Phase.draining (Call.stop true) = some Phase.stopped
next_phase Phase.draining (Call.stop false) = some Phase.stop_pending
next_phase _ _ = none

abbrev pub advance : Option Phase → Call → Option Phase
advance none c = none
advance (some p) c = next_phase p c

unfoldable pub phase_after : Option Phase → List Call → Option Phase
phase_after p [] = p
phase_after p (c ∷ cs) = phase_after (advance p c) cs

-- The server's state fits the phase; a server that was stopped early is in no later phase.
abbrev pub Agrees : State → Phase → Type 0
Agrees State.created Phase.fresh = Unit {0}
Agrees State.inited Phase.inited = Unit {0}
Agrees State.started Phase.running = Unit {0}
Agrees State.started Phase.stop_pending = Unit {0}
Agrees State.stopped Phase.fresh = Unit {0}
Agrees State.stopped Phase.inited = Unit {0}
Agrees State.stopped Phase.stopped = Unit {0}
Agrees _ _ = ⊥

-- The calls so far are in order, and lead to a phase that the state fits.
abbrev pub IsOrdered : {S : Type 0} → Server S → Type 0
IsOrdered s = (p : Phase) × (phase_after (some Phase.fresh) s.calls ≡ some p) × Agrees s.state p
