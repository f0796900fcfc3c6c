-- ===== src/Tests/Crews.antt =====
-- Calls of `stopJobs` at a concrete run.
use weaveplatform_sdk.Base.{ℕ, ◌≡◌, refl, true, false, List, [], ◌∷◌, none, some, codes}
use weaveplatform_sdk.Base.Int.{ℤ}
use weaveplatform_sdk.HostClient.{HostClient, Job, dialed, stop_jobs}
use weaveplatform_sdk.HostClient.Jobs.{interval}
use weaveplatform_sdk.HostClient.Goroutines.{
  Stage, Worker, Routine, Caller, Crew, RoutineStep, CrewStep, CrewReach, goes_on, live, view,
}
use weaveplatform_sdk.HostClient.Goroutines.Returned.{stopped_lem}
use weaveplatform_sdk.HostClient.Goroutines.Stopping.{Stopped, stop_returns}

-- A job that runs once, and the watchdog.
abbrev once : Job
once = record { name = codes "once"; every = ℤ.pos 0; every_func = none }

abbrev started_host : HostClient
started_host = record dialed {
  jobs = once ∷ [];
  job_cancel = true;
  started = true;
  launched = once ∷ [];
  watchdog = some (ℤ.pos 5);
}

abbrev job_at : Stage → ℕ → Routine
job_at s n = record { worker = Worker.works once; stage = s; round = n }

abbrev watchdog_at : Stage → Routine
watchdog_at s = record { worker = Worker.pings (ℤ.pos 5); stage = s; round = 0 }

abbrev crew : Stage → ℕ → Stage → List Caller → Crew
crew s n t callers = record {
  locked = false;
  job_cancel = false;
  context_done = true;
  routines = job_at s n ∷ watchdog_at t ∷ [];
  callers = callers;
}

-- The first call waits, while the job declares surfaces and another call comes.
abbrev busy : Crew
busy = record (crew Stage.declaring 0 Stage.waiting (Caller.awaiting ∷ Caller.arriving ∷ [])) {
  locked = true;
}

waits-CrewReach :
    CrewReach started_host 2
      (crew Stage.running 0 Stage.waiting (Caller.awaiting ∷ Caller.arriving ∷ []))
waits-CrewReach =
    CrewReach.next
      (CrewReach.next (CrewReach.next CrewReach.start (CrewStep.lock 0 refl refl))
        (CrewStep.unlock 0 refl))
      (CrewStep.cancel 0 refl)

busy-CrewReach : CrewReach started_host 2 busy
busy-CrewReach =
    CrewReach.next
      (CrewReach.next waits-CrewReach (
        CrewStep.routine 0 (job_at Stage.running 0) (job_at Stage.locking_mu 0) false refl
          (RoutineStep.declare_called refl refl)))
      (CrewStep.routine 0 (job_at Stage.locking_mu 0) (job_at Stage.declaring 0) true refl
        (RoutineStep.declare_begins refl))

abbrev gone : Crew
gone = crew Stage.ended 1 Stage.ended (Caller.returned true ∷ Caller.arriving ∷ [])

gone-CrewReach : CrewReach started_host 2 gone
unfolding goes_on interval
gone-CrewReach =
    let declared = CrewReach.next busy-CrewReach (
      CrewStep.routine 0 (job_at Stage.declaring 0) (job_at Stage.running 0) false refl
        (RoutineStep.declare_ends refl)) in
    let ran = CrewReach.next declared (
      CrewStep.routine 0 (job_at Stage.running 0) (job_at Stage.choosing 0) false refl
        (RoutineStep.run_returns refl)) in
    let job_over = CrewReach.next ran (
      CrewStep.routine 0 (job_at Stage.choosing 0) (job_at Stage.ended 1) false refl
        (RoutineStep.chooses refl)) in
    let all_over = CrewReach.next job_over (
      CrewStep.routine 1 (watchdog_at Stage.waiting) (watchdog_at Stage.ended) false refl
        (RoutineStep.context_ends refl refl)) in
    CrewReach.next all_over (CrewStep.wait_returns 0 refl refl)

stopped_lem_example :
    (gone.context_done ≡ true)
    × (live gone.routines ≡ 0)
    × (view started_host gone ≡ stop_jobs started_host)
stopped_lem_example = stopped_lem gone-CrewReach 0 refl

stop_returns_example : Stopped started_host busy
stop_returns_example = stop_returns busy-CrewReach refl
