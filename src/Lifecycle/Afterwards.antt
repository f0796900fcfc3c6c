-- ===== src/Lifecycle/Afterwards.antt =====
-- modulesdk/lifecycle.go with modulesdk/hostclient.go: what happens between the end of Init and the
-- end of Start, to surfaces that are declared late and to the goroutines.
use mathlib.Core.List.{flatten}
use weaveplatform_sdk.Base.{
  ℕ, zero, suc, ◌<◌, ◌^◌, ◌*◌, ◌≡◌, refl, sym, ap, ◌∙◌, true, false, List, [], ◌++◌, Option, none,
  some, arith, if◌then◌else◌, ltb,
}
use weaveplatform_sdk.Base.Int.{ℤ, is_positive, seconds, seconds_exact}
use weaveplatform_sdk.Errors.{GoError}
use weaveplatform_sdk.HostClient.{
  HostClient, Surface, declare, declared_surfaces, declared_too_late, start_jobs,
}
use weaveplatform_sdk.Lifecycle.{
  Module, State, Server, InitRequest, InitResponse, Refusal, Reply, declare_all,
}
use weaveplatform_sdk.Lifecycle.Handlers.{configure, init, start}
use weaveplatform_sdk.Lifecycle.Order.{Event, run}
use weaveplatform_sdk.Lifecycle.Started.{IsStarted, declare_refused}
use weaveplatform_sdk.Lifecycle.Hosted.Client.{start_jobs_lem}
use weaveplatform_sdk.Lifecycle.Response.Surfaces.{declare_early, map_same, declare_all-surfaces}
use weaveplatform_sdk.Lifecycle.Response.{
  scheduled, prepared, answer, InitSucceeds, init_result, init_succeeds, init_tests,
}

reply_surfaces : Reply InitResponse → List Surface
reply_surfaces (Reply.ok r) = r.surfaces
reply_surfaces (Reply.err e) = []

module _ {S : Type 0} (m : Module S) where
  -- The module's state and declarations when its `Init` returns.
  unfoldable pub inits : InitRequest → Server S → S × List (List Surface) × Option GoError
  inits req s = m.init (configure m req s).0.module_state

  init_host :
      (req : InitRequest) (dial : Option GoError) (s : Server S)
      → InitSucceeds m req dial s
      → ((init m req dial s).0.host
          ≡ some (prepared m req (inits req s).0 (flatten (inits req s).1)))
        × ((init m req dial s).0.state ≡ State.inited)
  unfolding init_result inits
  init_host req dial s w =
      let e = init_succeeds m req dial s w in (ap (λ r. r.0.host) e, ap (λ r. r.0.state) e)

  prepared_unstarted :
      (req : InitRequest) (t : S) (xs : List Surface) → (prepared m req t xs).started ≡ false
  unfolding prepared
  prepared_unstarted req t xs = refl

  prepared-surfaces :
      (req : InitRequest) (s : Server S)
      → (prepared m req (inits req s).0 (flatten (inits req s).1)).surfaces
        ≡ flatten (inits req s).1
  unfolding prepared
  prepared-surfaces req s = refl

  answered :
      (req : InitRequest) (dial : Option GoError) (s : Server S) (r : InitResponse)
      → InitSucceeds m req dial s
      → (init m req dial s).1 ≡ Reply.ok r
      → r.surfaces ≡ flatten (inits req s).1
  unfolding init_result answer inits reply_surfaces
  answered req dial s r w done =
      ap reply_surfaces (sym done ∙ ap (λ p. p.1) (init_succeeds m req dial s w))

  init_again :
      (req : InitRequest) (dial : Option GoError) (s : Server S)
      → s.state ≡ State.inited
      → (init m req dial s).1 ≡ Reply.err Refusal.init_twice
  unfolding init
  init_again req dial s e = ground arith

  -- After an Init that answered `r`, `Declare` still succeeds, and adds to the client's surfaces; but
  -- `r` lacks them, and no later Init can carry them, since it is refused.
  pub late_surfaces :
      (req : InitRequest) (dial : Option GoError) (s : Server S) (r : InitResponse)
      (xs : List Surface)
      → (init m req dial s).1 ≡ Reply.ok r
      → (h : HostClient) × ((init m req dial s).0.host ≡ some h)
        × ((declare xs h).1 ≡ none)
        × (declared_surfaces (declare xs h).0 ≡ r.surfaces ++ xs)
        × ((req' : InitRequest) (dial' : Option GoError)
            → (init m req' dial' (init m req dial s).0).1 ≡ Reply.err Refusal.init_twice)
  late_surfaces req dial s r xs done =
      let w = init_tests m req dial s r done in
      let (at, now) = init_host req dial s w in
      let h = prepared m req (inits req s).0 (flatten (inits req s).1) in
      let early =
        declare_early xs h (prepared_unstarted req (inits req s).0 (flatten (inits req s).1)) in
      (
        h,
        at,
        ap (λ r. r.1) early,
        ap (λ r. declared_surfaces r.0) early
            ∙ map_same (h.surfaces ++ xs) (record h { surfaces = h.surfaces ++ xs }) refl
            ∙ ap (λ ys. ys ++ xs) (prepared-surfaces req s)
            ∙ ap (λ ys. ys ++ xs) (sym (answered req dial s r w done)),
        λ req' dial'. init_again req' dial' (init m req dial s).0 now,
      )

  start_host :
      (s : Server S) (h : HostClient)
      → s.state ≡ State.inited
      → s.host ≡ some h
      → (start m s).1 ≡ Reply.ok tt
      → (start m s).0.host ≡ some (start_jobs (declare_all (m.start s.module_state).1 h))
  unfolding start
  start_host s h now at done = ground arith

  -- The client once its jobs run, with the surfaces `xs`.
  busy : InitRequest → S → List Surface → HostClient
  busy req t xs = record (prepared m req t xs) {
    job_cancel = true;
    started = true;
    launched = scheduled m t;
    watchdog =
        if is_positive (seconds req.watchdog_interval_seconds)
        then some (seconds req.watchdog_interval_seconds)
        else none;
  }

  busy_lem :
      (req : InitRequest) (t : S) (xs : List Surface) (yss : List (List Surface))
      → start_jobs (declare_all yss (prepared m req t xs)) ≡ busy req t (xs ++ flatten yss)
  unfolding busy prepared
  busy_lem req t xs yss =
      ap start_jobs (declare_all-surfaces yss (prepared m req t xs) refl)
      ∙ start_jobs_lem (prepared m req t (xs ++ flatten yss)) refl

  watchdog_interval :
      (secs : ℕ)
      → secs < 2 ^ 32
      → (if is_positive (seconds secs) then some (seconds secs) else none)
        ≡ (if ltb 0 secs then some (ℤ.pos (secs * 1000000000)) else none)
  watchdog_interval zero fits = rw (seconds_exact 0 (omega arith)) refl
  watchdog_interval (suc n) fits = rw (seconds_exact (suc n) fits) (ground arith)

  started :
      (s : Server S) (h : HostClient)
      → s.state ≡ State.inited
      → (start m s).1 ≡ Reply.ok tt
      → (start m s).0.host ≡ some h
      → h.started ≡ true
      → IsStarted (start m s).0 h
  unfolding start
  started s h now done at up = record { has_host = at; was_started = up; is_late = ground arith }

  -- Let Init succeed with a watchdog interval that fits 32 bits, and then Start. The goroutines are
  -- then one for each of the module's jobs, in order, and the watchdog's if the interval is not 0,
  -- at exactly that many seconds in nanoseconds. Whatever comes after that, Stop included, the server
  -- has a host client, and its `Declare` is refused and changes nothing.
  pub started_goroutines :
      (req : InitRequest) (dial : Option GoError) (s : Server S)
      → InitSucceeds m req dial s
      → req.watchdog_interval_seconds < 2 ^ 32
      → (start m (init m req dial s).0).1 ≡ Reply.ok tt
      → ((h : HostClient) × ((start m (init m req dial s).0).0.host ≡ some h)
          × (h.launched ≡ scheduled m (inits req s).0)
          × (h.watchdog ≡ (
              if ltb 0 req.watchdog_interval_seconds
              then some (ℤ.pos (req.watchdog_interval_seconds * 1000000000))
              else none)))
        × ((es : List Event) (xs : List Surface)
            → (h : HostClient) × ((run m (start m (init m req dial s).0).0 es).host ≡ some h)
              × (declare xs h ≡ (h, some declared_too_late)))
  unfolding busy prepared
  started_goroutines req dial s w fits done =
      let (at, now) = init_host req dial s w in
      let s' = (init m req dial s).0 in
      let yss = (m.start s'.module_state).1 in
      let (t, xss, e) = inits req s in
      let h = busy req t (flatten xss ++ flatten yss) in
      let has_it =
        start_host s' (prepared m req t (flatten xss)) now at done
        ∙ ap some (busy_lem req t (flatten xss) yss) in
      (
        (h, has_it, refl, watchdog_interval req.watchdog_interval_seconds fits),
        λ es xs. declare_refused m (start m s').0 h es xs (started s' h now done has_it refl),
      )
