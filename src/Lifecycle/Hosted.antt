-- ===== src/Lifecycle/Hosted.antt =====
-- modulesdk/lifecycle.go with modulesdk/hostclient.go: when the server has a host client, and when
-- its goroutines run.
pub mod Client
use mathlib.Core.List.{append-nil, append_assoc}
use weaveplatform_sdk.Base.{
  ℕ, ◌≡◌, ◌≢◌, refl, ap, ◌∙◌, Bool, true, false, List, [], ◌∷◌, ◌++◌, Option, none, some, arith,
  Bool-cases, Option-cases, inl, inr, ◌⊎◌, if◌then◌else◌,
}
use weaveplatform_sdk.Base.Int.{is_positive}
use weaveplatform_sdk.Errors.{GoError}
use weaveplatform_sdk.HostClient.{
  HostClient, Surface, Job, dialed, declare, add_jobs, set_watchdog_interval, launch_job_locked,
  launch_jobs, start_jobs, stop_jobs,
}
use weaveplatform_sdk.Lifecycle.{
  Module, State, Call, Server, is_state, succeeded, InitRequest, declare_all,
}
use weaveplatform_sdk.Lifecycle.Handlers.{
  called, on_host, new_server, configure, finish_init, run_init, connect, accept, init, start,
  deadline, stop_locked, stop, shutdown, lose_host,
}
use weaveplatform_sdk.Lifecycle.Order.{Event, step, run}
use weaveplatform_sdk.Lifecycle.Order.Steps.{init_cases}
use weaveplatform_sdk.Lifecycle.Hosted.Client.{
  HostFits, note, jobs_up, jobs_up-append, launch_jobs_lem, declare-IsIdle, declare-HostFits,
  declare_all-inited, start_jobs_lem, start_jobs-IsBusy, stop_jobs-IsIdle,
}

abbrev pub IsHosted : {S : Type 0} → Server S → Type 0
IsHosted s = HostFits s.state (jobs_up false s.calls) s.host

host_inited :
    (t : State) (up : Bool) (o : Option HostClient)
    → t ≡ State.inited
    → HostFits t up o
    → (h : HostClient) × (o ≡ some h) × HostFits State.inited false (some h)
host_inited State.inited up (some h) e f = (h, refl, f)
host_inited State.inited up none e f = absurd f
host_inited t up o e f = cc

host_started :
    (t : State) (up : Bool) (o : Option HostClient)
    → t ≡ State.started
    → HostFits t up o
    → (h : HostClient) × (o ≡ some h) × HostFits State.started up (some h)
host_started State.started up (some h) e f = (h, refl, f)
host_started State.started up none e f = absurd f
host_started t up o e f = cc

HostFits-stopped :
    (t : State) (up up' : Bool) (o : Option HostClient)
    → HostFits t up o
    → t ≢ State.started
    → HostFits State.stopped up' o
HostFits-stopped t up up' none f e = tt
HostFits-stopped State.created up up' (some h) f e = cc
HostFits-stopped State.inited up up' (some h) f e = f.0
HostFits-stopped State.started up up' (some h) f e = absurd (e refl)
HostFits-stopped State.stopped up up' (some h) f e = f

HostFits-created :
    (t : State) (up up' : Bool) (o : Option HostClient)
    → t ≡ State.created
    → HostFits t up o
    → HostFits t up' o
HostFits-created State.created up up' o e f = f
HostFits-created t up up' o e f = cc

jobs_up_twice :
    (cs : List Call) (c d : Call)
    → jobs_up false ((cs ++ c ∷ []) ++ d ∷ []) ≡ note (note (jobs_up false cs) c) d
jobs_up_twice cs c d =
    jobs_up-append false (cs ++ c ∷ []) d ∙ ap (λ up. note up d) (jobs_up-append false cs c)

module _ {S : Type 0} (m : Module S) where
  finish_init-IsHosted :
      (req : InitRequest) (h : HostClient) (s : Server S)
      → HostFits State.inited false (some h)
      → IsHosted (finish_init m req h s).0
  unfolding finish_init set_watchdog_interval add_jobs
  finish_init-IsHosted req h s f = ground arith

  run_init-IsHosted :
      (req : InitRequest) (h : HostClient) (s : Server S)
      → HostFits State.inited false (some h)
      → s.state ≡ State.created
      → IsHosted (run_init m req h s).0
  unfolding run_init
  run_init-IsHosted req h s f e = elim (Option-cases (m.init s.module_state).2) [
    | inl done ↦
        rw (run_init, done)
          (finish_init-IsHosted req (declare_all (m.init s.module_state).1 h)
            (called (Call.init true) (record s { module_state = (m.init s.module_state).0 }))
            (declare_all-inited (m.init s.module_state).1 h f))
    | inr (x, failed) ↦ ground arith
  ]

  connect-IsHosted :
      (req : InitRequest) (dial : Option GoError) (s : Server S)
      → IsHosted s
      → s.state ≡ State.created
      → IsHosted (connect m req dial s).0
  unfolding connect
  connect-IsHosted req (some x) s f e =
      HostFits-created s.state (jobs_up false s.calls)
        (jobs_up false (s.calls ++ Call.connect false ∷ [])) s.host e f
  connect-IsHosted req none s f e =
      run_init-IsHosted req dialed (called (Call.connect true) (record s { host = some dialed }))
        (record { not_running = refl; no_job = refl; no_watchdog = refl }, refl) e

  configure_keeps :
      (req : InitRequest) (s : Server S)
      → ((configure m req s).0.state ≡ s.state) × ((configure m req s).0.host ≡ s.host)
  unfolding configure
  configure_keeps req s = ground arith

  accept-IsHosted :
      (req : InitRequest) (dial : Option GoError) (s : Server S)
      → IsHosted s
      → s.state ≡ State.created
      → IsHosted (accept m req dial s).0
  unfolding accept
  accept-IsHosted req dial s f e =
      let (same, kept) = configure_keeps req s in
      let calls = (configure m req s).0.calls in
      let fits : IsHosted (configure m req s).0 =
        rw (same, kept)
          (HostFits-created s.state (jobs_up false s.calls) (jobs_up false calls) s.host e f) in
      elim (Option-cases (configure m req s).1) [
        | inl done ↦
            rw (accept, done) (connect-IsHosted req dial (configure m req s).0 fits (same ∙ e))
        | inr (x, failed) ↦ rw (accept, failed) fits
      ]

  init-IsHosted :
      (req : InitRequest) (dial : Option GoError) (s : Server S)
      → IsHosted s
      → IsHosted (init m req dial s).0
  init-IsHosted req dial s f = elim (init_cases m req dial s) [
    | inl e ↦ rw e f
    | inr (unused, e) ↦ rw e (accept-IsHosted req dial s f unused)
  ]

  start-IsHosted : (s : Server S) → IsHosted s → IsHosted (start m s).0
  unfolding start
  start-IsHosted s f = elim (Bool-cases (is_state s.state State.inited)) [
    | inr other ↦ ground arith
    | inl ready ↦
        let (h, at, fits) = host_inited s.state (jobs_up false s.calls) s.host (ground arith) f in
        let declared = declare_all-inited (m.start s.module_state).1 h fits in
        let busy = start_jobs-IsBusy (declare_all (m.start s.module_state).1 h) declared.0 in
        let marks =
          jobs_up_twice s.calls (Call.start (succeeded (m.start s.module_state).2))
            Call.jobs_begin in
        ground (arith, at, declared, busy, marks)
  ]

  stop_locked-IsHosted : (secs : ℕ) (s : Server S) → IsHosted s → IsHosted (stop_locked m secs s).0
  unfolding stop_locked
  stop_locked-IsHosted secs s f = elim (Bool-cases (is_state s.state State.started)) [
    | inr other ↦
        ground
          (arith, HostFits-stopped s.state (jobs_up false s.calls) (jobs_up false s.calls) s.host f)
    | inl up ↦
        let (h, at, fits) = host_started s.state (jobs_up false s.calls) s.host (ground arith) f in
        let idle = stop_jobs-IsIdle (jobs_up false s.calls) h fits.0 in
        let marks =
          jobs_up_twice s.calls Call.jobs_end
            (Call.stop (succeeded (m.stop (deadline m secs) s.module_state).1)) in
        ground (arith, at, fits, idle, marks)
  ]

  shutdown_same :
      (s : Server S)
      → ((shutdown m s).0.host ≡ (stop_locked m 0 s).0.host)
        × ((shutdown m s).0.state ≡ (stop_locked m 0 s).0.state)
        × ((shutdown m s).0.calls ≡ (stop_locked m 0 s).0.calls)
  unfolding shutdown
  shutdown_same s = ground arith

  declare-IsHosted :
      (xs : List Surface) (s : Server S) → IsHosted s → IsHosted (on_host (λ h. (declare xs h).0) s)
  declare-IsHosted xs s f = elim (Option-cases s.host) [
    | inl none_yet ↦ rw none_yet (rw none_yet at f)
    | inr (h, at) ↦ rw at (declare-HostFits xs s.state (jobs_up false s.calls) h (rw at at f))
  ]

  step-IsHosted : (s : Server S) (e : Event) → IsHosted s → IsHosted (step m s e)
  unfolding step stop lose_host
  step-IsHosted s (Event.init_rpc req dial) f = init-IsHosted req dial s f
  step-IsHosted s Event.start_rpc f = start-IsHosted s f
  step-IsHosted s (Event.stop_rpc secs) f = stop_locked-IsHosted secs s f
  step-IsHosted s Event.shutdown_rpc f =
      let (o, t, c) = shutdown_same s in rw (o, t, c) (stop_locked-IsHosted 0 s f)
  step-IsHosted s Event.health_rpc f = f
  step-IsHosted s Event.connection_lost f = ground arith
  step-IsHosted s (Event.declare_call surfaces) f = declare-IsHosted surfaces s f

  pub run-IsHosted : (s : Server S) (es : List Event) → IsHosted s → IsHosted (run m s es)
  unfolding run
  run-IsHosted s [] f = f
  run-IsHosted s (e ∷ es) f = run-IsHosted (step m s e) es (step-IsHosted s e f)

  pub run-new_server-IsHosted : (t : S) (es : List Event) → IsHosted (run m (new_server m t) es)
  run-new_server-IsHosted t es = run-IsHosted (new_server m t) es refl
