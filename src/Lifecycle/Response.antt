-- ===== src/Lifecycle/Response.antt =====
-- modulesdk/lifecycle.go: when Init succeeds, what it answers, and what becomes of surfaces that
-- are declared after it.
pub mod Surfaces
use mathlib.Core.List.{flatten, append-nil, append_assoc}
use weaveplatform_sdk.Base.{
  ◌↔◌, ◌≡◌, refl, sym, ap, ◌∙◌, true, false, List, [], ◌∷◌, ◌++◌, Option, none, some, arith,
  Option-cases, inl, inr, same_iff,
}
use weaveplatform_sdk.Base.Int.{seconds}
use weaveplatform_sdk.Errors.{GoError}
use weaveplatform_sdk.HostClient.{
  HostClient, Surface, Job, dialed, declare, declared_surfaces, add_jobs, set_watchdog_interval,
}
use weaveplatform_sdk.Lifecycle.{
  Module, State, Call, Server, InitRequest, InitResponse, Reply, declare_all, protocol_version,
  succeeded,
}
use weaveplatform_sdk.Lifecycle.Handlers.{
  called, configure, with_watchdog, with_jobs, finish_init, run_init, connect, accept, init,
}
use weaveplatform_sdk.Lifecycle.Response.Surfaces.{map_same, declare_early, declare_all-surfaces}

module _ {S : Type 0} (m : Module S) where
  -- The module's recurring jobs, none if it is not Scheduled.
  unfoldable pub scheduled : S → List Job
  scheduled t = elim m.jobs [ none ↦ [] | some jobs ↦ jobs t ]

  unfoldable pub answer : Server S → S → List (List Surface) → InitResponse
  answer s t xss = record {
    requires = m.requires t;
    surfaces = flatten xss;
    health_interval_seconds = s.health_interval;
  }

  -- The host client that Init leaves behind, of which the module declared `xss`.
  unfoldable pub prepared : InitRequest → S → List Surface → HostClient
  prepared req t xs = record dialed {
    surfaces = xs;
    jobs = scheduled t;
    watchdog_interval = seconds req.watchdog_interval_seconds;
  }

  with_watchdog_lem :
      (req : InitRequest) (xs : List Surface)
      → with_watchdog m req (record dialed { surfaces = xs })
        ≡ record dialed { surfaces = xs; watchdog_interval = seconds req.watchdog_interval_seconds }
  unfolding with_watchdog set_watchdog_interval seconds
  with_watchdog_lem req xs = ground arith

  with_jobs_lem :
      (t : S) (h : HostClient) → with_jobs m t h ≡ record h { jobs = h.jobs ++ scheduled t }
  unfolding with_jobs scheduled add_jobs
  with_jobs_lem t h = elim (Option-cases m.jobs) [
    | inl e ↦ rw e (ap (λ js. record h { jobs = js }) (sym (append-nil h.jobs)))
    | inr (jobs, e) ↦ rw e refl
  ]

  prepared_lem :
      (req : InitRequest) (t : S) (xss : List (List Surface))
      → with_jobs m t (with_watchdog m req (declare_all xss dialed)) ≡ prepared req t (flatten xss)
  unfolding prepared
  prepared_lem req t xss =
      ap (λ h. with_jobs m t (with_watchdog m req h)) (declare_all-surfaces xss dialed refl)
      ∙ ap (with_jobs m t) (with_watchdog_lem req (flatten xss))
      ∙ with_jobs_lem t _

  finish_init_lem :
      (req : InitRequest) (s : Server S) (xss : List (List Surface))
      → finish_init m req (declare_all xss dialed) s ≡ (
        record s {
          host = some (prepared req s.module_state (flatten xss));
          state = State.inited;
          watching = true;
        },
        Reply.ok (answer s s.module_state xss),
      )
  unfolding finish_init answer prepared
  finish_init_lem req s xss =
      ap (λ (h : HostClient). inited_with h (declared_surfaces h))
        (prepared_lem req s.module_state xss)
      ∙ ap (λ (xs : List Surface). inited_with (prepared req s.module_state (flatten xss)) xs)
          (map_same (flatten xss) (prepared req s.module_state (flatten xss)) refl)
    where
      inited_with : HostClient → List Surface → Server S × Reply InitResponse
      inited_with h xs = (
        record s { host = some h; state = State.inited; watching = true },
        Reply.ok (record {
          requires = m.requires s.module_state;
          surfaces = xs;
          health_interval_seconds = s.health_interval;
        }),
      )

  -- The request fits the server and the binary, and nothing that Init asks for fails.
  pub record InitSucceeds (req : InitRequest) (dial : Option GoError) (s : Server S) : Type 0 where
    pub is_created : s.state ≡ State.created
    pub same_module : req.module_id ≡ m.id
    pub same_protocol : req.protocol ≡ protocol_version
    pub config_taken : (configure m req s).1 ≡ none
    pub dialed_host : dial ≡ none
    pub module_inited : (m.init (configure m req s).0.module_state).2 ≡ none

  -- The server when the module's `Init` is called.
  unfoldable pub connected : InitRequest → Server S → Server S
  connected req s =
      called (Call.connect true) (record ((configure m req s).0) { host = some dialed })

  run_init_lem :
      (req : InitRequest) (s : Server S)
      → (m.init s.module_state).2 ≡ none
      → run_init m req dialed s
        ≡ finish_init m req
            (declare_all (m.init s.module_state).1 dialed)
            (called (Call.init true) (record s { module_state = (m.init s.module_state).0 }))
  unfolding run_init
  run_init_lem req s e =
      rw (e, run_init)
        (ap
          (λ (x : Option GoError).
            finish_init m req (declare_all (m.init s.module_state).1 dialed) (
              called (Call.init (succeeded x))
                (record s { module_state = (m.init s.module_state).0 })))
          e)

  accept_lem :
      (req : InitRequest) (s : Server S)
      → (configure m req s).1 ≡ none
      → accept m req none s ≡ run_init m req dialed (connected req s)
  unfolding accept connected
  accept_lem req s e = rw (e, accept) refl

  init_success :
      (req : InitRequest) (dial : Option GoError) (s : Server S)
      → InitSucceeds req dial s
      → init m req dial s ≡ accept m req none s
  unfolding init
  init_success req dial s w = ground (
    arith,
    w.is_created,
    w.same_protocol,
    w.dialed_host,
    same_iff req.module_id m.id,
    w.same_module,
  )

  connect_tests :
      (req : InitRequest) (dial : Option GoError) (s : Server S) (r : InitResponse)
      → (connect m req dial s).1 ≡ Reply.ok r
      → (dial ≡ none) × ((m.init s.module_state).2 ≡ none)
  unfolding connect
  connect_tests req (some x) s r h = cc
  connect_tests req none s r h = ground arith

  accept_tests :
      (req : InitRequest) (dial : Option GoError) (s : Server S) (r : InitResponse)
      → (accept m req dial s).1 ≡ Reply.ok r
      → ((configure m req s).1 ≡ none)
        × (dial ≡ none)
        × ((m.init (configure m req s).0.module_state).2 ≡ none)
  unfolding accept
  accept_tests req dial s r h = elim (Option-cases (configure m req s).1) [
    | inl e ↦
        let (reached, done) =
          connect_tests req dial (configure m req s).0 r (rw (e, accept) at h) in
        (e, reached, done)
    | inr (x, e) ↦ let impossible = rw (e, accept) at h in cc
  ]

  init_guards :
      (req : InitRequest) (dial : Option GoError) (s : Server S) (r : InitResponse)
      → (init m req dial s).1 ≡ Reply.ok r
      → (s.state ≡ State.created)
        × (req.module_id ≡ m.id)
        × (req.protocol ≡ protocol_version)
        × ((accept m req dial s).1 ≡ Reply.ok r)
  unfolding init
  init_guards req dial s r h = ground (arith, same_iff req.module_id m.id)

  pub init_tests :
      (req : InitRequest) (dial : Option GoError) (s : Server S) (r : InitResponse)
      → (init m req dial s).1 ≡ Reply.ok r
      → InitSucceeds req dial s
  init_tests req dial s r h =
      let (created, same_id, same_version, rest) = init_guards req dial s r h in
      let (configured, reached, done) = accept_tests req dial s r rest in
      record {
        is_created = created;
        same_module = same_id;
        same_protocol = same_version;
        config_taken = configured;
        dialed_host = reached;
        module_inited = done;
      }

  -- What Init leaves behind and answers when it succeeds.
  unfoldable pub init_result : InitRequest → Server S → Server S × Reply InitResponse
  unfolding connected prepared
  init_result req s =
      let (t, xss, e) = m.init (configure m req s).0.module_state in
      (
        record (called (Call.init true) (connected req s)) {
          module_state = t;
          host = some (prepared req t (flatten xss));
          state = State.inited;
          watching = true;
        },
        Reply.ok (answer (configure m req s).0 t xss),
      )

  pub init_succeeds :
      (req : InitRequest) (dial : Option GoError) (s : Server S)
      → InitSucceeds req dial s
      → init m req dial s ≡ init_result req s
  unfolding init_result connected answer
  init_succeeds req dial s w =
      init_success req dial s w
      ∙ accept_lem req s w.config_taken
      ∙ run_init_lem req (connected req s) w.module_inited
      ∙ finish_init_lem req _ (m.init (configure m req s).0.module_state).1

  -- Init succeeds exactly when the server is new, the request names this module and this protocol,
  -- the module takes its configuration if it wants one, the host is reached, and the module's own
  -- Init succeeds. These are also the cases in which the answer holds the surfaces that the module
  -- declared in its Init, in order, and the server has a host client with the module's jobs and
  -- core's watchdog interval.
  pub init_iff :
      (req : InitRequest) (dial : Option GoError) (s : Server S)
      → (InitSucceeds req dial s ↔ ((r : InitResponse) × ((init m req dial s).1 ≡ Reply.ok r)))
        × (InitSucceeds req dial s ↔ (init m req dial s ≡ init_result req s))
  unfolding init_result
  init_iff req dial s =
      let done = λ (e : init m req dial s ≡ init_result req s). ap (λ p. p.1) e in
      (
        (λ w. (_, done (init_succeeds req dial s w)), λ h. init_tests req dial s h.0 h.1),
        (init_succeeds req dial s, λ e. init_tests req dial s _ (done e)),
      )
