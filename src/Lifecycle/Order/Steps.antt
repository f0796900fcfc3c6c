-- ===== src/Lifecycle/Order/Steps.antt =====
-- modulesdk/lifecycle.go: each handler keeps the order of the module's calls.
use weaveplatform_sdk.Base.{
  ℕ, ◌≡◌, refl, ◌∙◌, true, false, List, [], ◌∷◌, ◌++◌, Option, none, some, arith, Bool-cases,
  Option-cases, inl, inr, ◌⊎◌,
}
use weaveplatform_sdk.Errors.{GoError}
use weaveplatform_sdk.HostClient.{HostClient, dialed}
use weaveplatform_sdk.Lifecycle.{Module, State, Call, Server, is_state, InitRequest}
use weaveplatform_sdk.Lifecycle.Handlers.{
  called, new_server, configure, run_init, connect, accept, init, start, deadline, stop_locked,
  stop, shutdown, lose_host,
}
use weaveplatform_sdk.Lifecycle.Order.{
  Event, step, run, Phase, next_phase, advance, phase_after, Agrees, IsOrdered,
}

phase_after-snoc :
    (p : Option Phase) (cs : List Call) (c : Call)
    → phase_after p (cs ++ c ∷ []) ≡ advance (phase_after p cs) c
unfolding phase_after
phase_after-snoc p [] c = refl
phase_after-snoc p (d ∷ cs) c = phase_after-snoc (advance p d) cs c

-- One more call.
At : {S : Type 0} → Server S → Phase → Type 0
At s p = phase_after (some Phase.fresh) s.calls ≡ some p

module _ {S : Type 0} (s : Server S) where
  called-At :
      (p : Phase) (c : Call) {q : Phase} → At s p → next_phase p c ≡ some q → At (called c s) q
  unfolding At
  called-At p c h e = rw (phase_after-snoc (some Phase.fresh) s.calls c, h) e

module _ {S : Type 0} (m : Module S) where
  configure-At :
      (req : InitRequest) (s : Server S)
      → At s Phase.fresh
      → At (configure m req s).0 Phase.fresh × ((configure m req s).0.state ≡ s.state)
  unfolding configure At
  configure-At req s h = ground (
    arith,
    phase_after-snoc (some Phase.fresh) s.calls (Call.set_config true),
    phase_after-snoc (some Phase.fresh) s.calls (Call.set_config false),
  )

  run_init-IsOrdered :
      (req : InitRequest) (host : HostClient) (s : Server S)
      → At s Phase.connected
      → s.state ≡ State.created
      → IsOrdered (run_init m req host s).0
  unfolding run_init At
  run_init-IsOrdered req host s h e = elim (Option-cases (m.init s.module_state).2) [
    | inl done ↦ (
      Phase.inited,
      ground (arith, phase_after-snoc (some Phase.fresh) s.calls (Call.init true)),
      ground arith,
    )
    | inr (x, failed) ↦ (
      Phase.fresh,
      ground (
        arith,
        phase_after-snoc (some Phase.fresh) s.calls (Call.init false),
        phase_after-snoc (some Phase.fresh) (s.calls ++ Call.init false ∷ []) Call.close,
      ),
      ground arith,
    )
  ]

  connect-IsOrdered :
      (req : InitRequest) (dial : Option GoError) (s : Server S)
      → At s Phase.fresh
      → s.state ≡ State.created
      → IsOrdered (connect m req dial s).0
  unfolding connect At
  connect-IsOrdered req (some x) s h e = (
    Phase.fresh,
    ground (arith, phase_after-snoc (some Phase.fresh) s.calls (Call.connect false)),
    ground arith,
  )
  connect-IsOrdered req none s h e =
      run_init-IsOrdered req dialed (called (Call.connect true) (record s { host = some dialed }))
        (ground (arith, phase_after-snoc (some Phase.fresh) s.calls (Call.connect true))) e

  accept-IsOrdered :
      (req : InitRequest) (dial : Option GoError) (s : Server S)
      → At s Phase.fresh
      → s.state ≡ State.created
      → IsOrdered (accept m req dial s).0
  unfolding At accept
  accept-IsOrdered req dial s h e =
      let (at, same) = configure-At req s h in
      elim (Option-cases (configure m req s).1) [
        | inl done ↦
            rw (accept, done) (connect-IsOrdered req dial (configure m req s).0 at (same ∙ e))
        | inr (x, failed) ↦ rw (accept, failed) (Phase.fresh, at, ground arith)
      ]

Agrees-created : (p : Phase) {t : State} → Agrees t p → t ≡ State.created → p ≡ Phase.fresh
Agrees-created p a e = ground arith

Agrees-inited : (p : Phase) {t : State} → Agrees t p → t ≡ State.inited → p ≡ Phase.inited
Agrees-inited p a e = ground arith

Agrees-started :
    (p : Phase) {t : State}
    → Agrees t p
    → t ≡ State.started
    → (p ≡ Phase.running) ⊎ (p ≡ Phase.stop_pending)
Agrees-started p a e = ground arith

Agrees-stopped :
    (p : Phase) (t : State) → Agrees t p → (t ≡ State.started → ⊥) → Agrees State.stopped p
Agrees-stopped p t a e = ground arith

module _ {S : Type 0} (m : Module S) where
  pub init_cases :
      (req : InitRequest) (dial : Option GoError) (s : Server S)
      → ((init m req dial s).0 ≡ s)
        ⊎ ((s.state ≡ State.created) × ((init m req dial s).0 ≡ (accept m req dial s).0))
  unfolding init
  init_cases req dial s = ground arith

  init-IsOrdered :
      (req : InitRequest) (dial : Option GoError) (s : Server S)
      → IsOrdered s
      → IsOrdered (init m req dial s).0
  unfolding At
  init-IsOrdered req dial s (p, h, a) = elim (init_cases req dial s) [
    | inl e ↦ rw e (p, h, a)
    | inr (unused, e) ↦
        rw e
          (accept-IsOrdered m req dial s (ground (arith, Agrees-created p {t = s.state} a)) unused)
  ]

  start-IsOrdered : (s : Server S) → IsOrdered s → IsOrdered (start m s).0
  unfolding start
  start-IsOrdered s (p, h, a) = elim (Bool-cases (is_state s.state State.inited)) [
    | inr other ↦ (p, ground arith, ground arith)
    | inl ready ↦
        let e = Agrees-inited p {t = s.state} a (ground arith) in
        elim (Option-cases (m.start s.module_state).2) [
          | inl done ↦ (
            Phase.running,
            ground (
              arith,
              e,
              phase_after-snoc (some Phase.fresh) s.calls (Call.start true),
              phase_after-snoc (some Phase.fresh) (s.calls ++ Call.start true ∷ []) Call.jobs_begin,
            ),
            ground arith,
          )
          | inr (x, failed) ↦ (
            Phase.inited,
            ground (arith, e, phase_after-snoc (some Phase.fresh) s.calls (Call.start false)),
            ground arith,
          )
        ]
  ]

  stop_locked-IsOrdered :
      (secs : ℕ) (s : Server S) → IsOrdered s → IsOrdered (stop_locked m secs s).0
  unfolding stop_locked
  stop_locked-IsOrdered secs s (p, h, a) = elim (Bool-cases (is_state s.state State.started)) [
    | inr other ↦ (p, ground arith, ground (arith, Agrees-stopped p s.state a))
    | inl up ↦
        let e = Agrees-started p {t = s.state} a (ground arith) in
        elim (Option-cases (m.stop (deadline m secs) s.module_state).1) [
          | inl done ↦ (
            Phase.stopped,
            ground (
              arith,
              e,
              phase_after-snoc (some Phase.fresh) s.calls Call.jobs_end,
              phase_after-snoc (some Phase.fresh) (s.calls ++ Call.jobs_end ∷ []) (Call.stop true),
            ),
            ground arith,
          )
          | inr (x, failed) ↦ (
            Phase.stop_pending,
            ground (
              arith,
              e,
              phase_after-snoc (some Phase.fresh) s.calls Call.jobs_end,
              phase_after-snoc (some Phase.fresh) (s.calls ++ Call.jobs_end ∷ []) (Call.stop false),
            ),
            ground arith,
          )
        ]
  ]

  shutdown-same :
      (s : Server S)
      → ((shutdown m s).0.calls ≡ (stop_locked m 0 s).0.calls)
        × ((shutdown m s).0.state ≡ (stop_locked m 0 s).0.state)
  unfolding shutdown
  shutdown-same s = ground arith

  step-IsOrdered : (s : Server S) (e : Event) → IsOrdered s → IsOrdered (step m s e)
  unfolding step stop lose_host
  step-IsOrdered s (Event.init_rpc req dial) o = init-IsOrdered req dial s o
  step-IsOrdered s Event.start_rpc o = start-IsOrdered s o
  step-IsOrdered s (Event.stop_rpc secs) o = stop_locked-IsOrdered secs s o
  step-IsOrdered s Event.shutdown_rpc o =
      let (q, h, a) = stop_locked-IsOrdered 0 s o in
      let (c, t) = shutdown-same s in (q, rw c h, rw t a)
  step-IsOrdered s Event.health_rpc o = o
  step-IsOrdered s Event.connection_lost (p, h, a) = (p, ground arith, ground arith)
  step-IsOrdered s (Event.declare_call surfaces) o = o

  pub run-IsOrdered : (s : Server S) (es : List Event) → IsOrdered s → IsOrdered (run m s es)
  unfolding run
  run-IsOrdered s [] o = o
  run-IsOrdered s (e ∷ es) o = run-IsOrdered (step m s e) es (step-IsOrdered s e o)

  -- Whatever RPCs come, in whatever order, and however the callbacks answer, the module sees its
  -- calls in order: SetConfig and the connection before Init, Init until it succeeds, once; then
  -- Start until it succeeds, once; then the jobs, which end before Stop; and after a successful
  -- Stop nothing. The server's state tells how far the module is.
  pub run-new_server-IsOrdered : (t : S) (es : List Event) → IsOrdered (run m (new_server m t) es)
  unfolding phase_after
  run-new_server-IsOrdered t es = run-IsOrdered (new_server m t) es (Phase.fresh, refl, tt)
