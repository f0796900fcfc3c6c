-- ===== src/HostClient/Goroutines/Returned.antt =====
-- modulesdk/hostclient.go: what is left when a call of `stopJobs` has returned.
use weaveplatform_sdk.Base.{
  ℕ, ◌≡◌, refl, true, List, [], ◌∷◌, none, some, arith, sum_by-get_elem?, get_elem?,
}
use weaveplatform_sdk.HostClient.{HostClient, stop_jobs}
use weaveplatform_sdk.HostClient.Goroutines.{
  Routine, Caller, Crew, CrewReach, is_live, live, view, live_jobs, live_watchdog,
}
use weaveplatform_sdk.HostClient.Goroutines.Invariant.{CrewReach-IsCrew}
use weaveplatform_sdk.HostClient.Goroutines.Counts.{bit_is_set, takes}

-- With no goroutine left.
no_live_jobs : (rs : List Routine) → live rs ≡ 0 → live_jobs rs ≡ []
no_live_jobs [] e = refl
no_live_jobs (r ∷ rs) e =
    let gone : is_live r.stage ≡ 0 = omega (arith, e) in
    rw (gone, no_live_jobs rs (omega (arith, e))) refl

no_live_watchdog : (rs : List Routine) → live rs ≡ 0 → live_watchdog rs ≡ none
no_live_watchdog [] e = refl
no_live_watchdog (r ∷ rs) e =
    let gone : is_live r.stage ≡ 0 = omega (arith, e) in
    rw gone (no_live_watchdog rs (omega (arith, e)))

-- However the calls of `stopJobs`, the jobs and the watchdog take turns: when the call that took the
-- cancel function has returned, the context is done and every goroutine has returned, and what is left
-- is the host client after `stop_jobs`.
pub stopped_lem :
    {h : HostClient} {calls : ℕ} {c : Crew} (r : CrewReach h calls c) (i : ℕ)
    → get_elem? c.callers i ≡ some (Caller.returned true)
    → (c.context_done ≡ true) × (live c.routines ≡ 0) × (view h c ≡ stop_jobs h)
unfolding stop_jobs
stopped_lem {h} {calls} {c} r i at =
    let w = CrewReach-IsCrew r in
    let (no_cancel, done, over) = w.called i (Caller.returned true) at in
    let was_started : h.job_cancel ≡ true =
      bit_is_set h.job_cancel
        (omega (arith, w.taken, sum_by-get_elem? takes c.callers i (Caller.returned true) at)) in
    (
      done,
      over,
      rw (no_cancel, no_live_jobs c.routines over, no_live_watchdog c.routines over, was_started)
          refl,
    )
