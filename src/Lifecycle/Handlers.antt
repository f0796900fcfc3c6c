-- ===== src/Lifecycle/Handlers.antt =====
-- modulesdk/lifecycle.go: the handlers. `Init` is one function for each stretch of its body; `dial`
-- is the error of `connectHost`, or nil. A host client that `Start` or `Stop` uses is there
-- (`Lifecycle.Hosted`), so `on_host` leaves nothing out.
use mathlib.Core.Option
use weaveplatform_sdk.Base.{
  ℕ, true, false, not, ◌||◌, [], ◌∷◌, ◌++◌, Option, none, some, same, ltb, ◌==◌, if◌then◌else◌,
}
use weaveplatform_sdk.Base.Int.{seconds}
use weaveplatform_sdk.Errors.{GoError}
use weaveplatform_sdk.HostClient.{
  HostClient, dialed, declared_surfaces, add_jobs, set_watchdog_interval, start_jobs, stop_jobs,
}
use weaveplatform_sdk.Lifecycle.{
  Module, State, Call, Server, InitRequest, InitResponse, Refusal, Reply, Health, succeeded,
  declare_all, state_number, is_state, protocol_version,
}

abbrev pub called : {S : Type 0} → Call → Server S → Server S
called c s = record s { calls = s.calls ++ c ∷ [] }

abbrev pub on_host : {S : Type 0} → (HostClient → HostClient) → Server S → Server S
on_host f s = record s { host = Option.map f s.host }

module _ {S : Type 0} (m : Module S) where
  -- The server that `serve` makes.
  abbrev pub new_server : S → Server S
  new_server t = record {
    module_state = t;
    host = none;
    state = State.created;
    shutdown = false;
    host_lost = false;
    watching = false;
    health_interval = 0;
    calls = [];
  }

  unfoldable pub configure : InitRequest → Server S → Server S × Option GoError
  configure req s = elim m.set_config [
    | none ↦ (s, none)
    | some set_config ↦
        let (t, e) = set_config req.config s.module_state in
        (called (Call.set_config (succeeded e)) (record s { module_state = t }), e)
  ]

  -- The watchdog's cadence, and the module's jobs, of a module that is Scheduled.
  unfoldable pub with_watchdog : InitRequest → HostClient → HostClient
  with_watchdog req host =
      if ltb 0 req.watchdog_interval_seconds
      then set_watchdog_interval (seconds req.watchdog_interval_seconds) host
      else host

  unfoldable pub with_jobs : S → HostClient → HostClient
  with_jobs t host = elim m.jobs [ none ↦ host | some jobs ↦ add_jobs (jobs t) host ]

  -- What `Init` does once the module's `Init` has succeeded.
  unfoldable pub finish_init : InitRequest → HostClient → Server S → Server S × Reply InitResponse
  unfolding with_watchdog with_jobs
  finish_init req host s =
      let h = with_jobs s.module_state (with_watchdog req host) in
      (
        record s { host = some h; state = State.inited; watching = true },
        Reply.ok (record {
          requires = m.requires s.module_state;
          surfaces = declared_surfaces h;
          health_interval_seconds = s.health_interval;
        }),
      )

  -- The call of the module's `Init`, on a fresh connection.
  unfoldable pub run_init : InitRequest → HostClient → Server S → Server S × Reply InitResponse
  unfolding finish_init
  run_init req host s =
      let (t, surfaces, e) = m.init s.module_state in
      let s' = called (Call.init (succeeded e)) (record s { module_state = t }) in
      elim e [
        | none ↦ finish_init req (declare_all surfaces host) s'
        | some e ↦
            (called Call.close (record s' { host = none }), Reply.err (Refusal.init_failed e))
      ]

  unfoldable pub connect : InitRequest → Option GoError → Server S → Server S × Reply InitResponse
  unfolding run_init
  connect req (some e) s = (called (Call.connect false) s, Reply.err (Refusal.no_host e))
  connect req none s =
      run_init req dialed (called (Call.connect true) (record s { host = some dialed }))

  -- What `Init` does once the request is accepted.
  unfoldable pub accept : InitRequest → Option GoError → Server S → Server S × Reply InitResponse
  unfolding configure connect
  accept req dial s =
      let (s', e) = configure req s in
      elim e [ none ↦ connect req dial s' | some e ↦ (s', Reply.err (Refusal.bad_config e)) ]

  unfoldable pub init : InitRequest → Option GoError → Server S → Server S × Reply InitResponse
  unfolding accept
  init req dial s =
      if not (is_state s.state State.created)
      then (s, Reply.err Refusal.init_twice)
      else if not (same req.module_id m.id)
      then (s, Reply.err (Refusal.identity_mismatch req.module_id m.id))
      else if not (req.protocol == protocol_version)
      then (s, Reply.err (Refusal.protocol_mismatch req.protocol))
      else accept req dial s

  unfoldable pub start : Server S → Server S × Reply (Unit {0})
  start s =
      if not (is_state s.state State.inited)
      then (s, Reply.err (Refusal.start_in_state (state_number s.state)))
      else let (t, surfaces, e) = m.start s.module_state in
        let s' =
          on_host (declare_all surfaces)
            (called (Call.start (succeeded e)) (record s { module_state = t })) in
        elim e [
          | none ↦ (
            record (called Call.jobs_begin (on_host start_jobs s')) { state = State.started },
            Reply.ok tt,
          )
          | some e ↦ (s', Reply.err (Refusal.start_failed e))
        ]

  -- The deadline of the module's `Stop`; 0 sets none.
  abbrev pub deadline : ℕ → Option ℕ
  deadline secs = if ltb 0 secs then some secs else none

  unfoldable pub stop_locked : ℕ → Server S → Server S × Reply (Unit {0})
  stop_locked secs s =
      if is_state s.state State.stopped
        || is_state s.state State.created
        || is_state s.state State.inited
      then (record s { state = State.stopped }, Reply.ok tt)
      else let s' = called Call.jobs_end (on_host stop_jobs s) in
        let (t, e) = m.stop (deadline secs) s'.module_state in
        let s'' = called (Call.stop (succeeded e)) (record s' { module_state = t }) in
        elim e [
          | none ↦ (record s'' { state = State.stopped }, Reply.ok tt)
          | some e ↦ (s'', Reply.err (Refusal.stop_failed e))
        ]

  unfoldable pub stop : ℕ → Server S → Server S × Reply (Unit {0})
  unfolding stop_locked
  stop secs s = stop_locked secs s

  unfoldable pub shutdown : Server S → Server S × Reply (Unit {0})
  unfolding stop_locked
  shutdown s =
      let (s', r) = stop_locked 0 s in
      elim r [
        | Reply.ok u ↦ (record s' { shutdown = true }, Reply.ok tt)
        | Reply.err e ↦ (s', Reply.err e)
      ]

  unfoldable pub health : Server S → Health
  health s = m.health s.module_state

  -- The callback that `Init` gives to `awaitDisconnect`.
  unfoldable pub lose_host : Server S → Server S
  lose_host s = if s.watching then record s { host_lost = true } else s
