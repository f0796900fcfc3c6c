-- ===== src/HostClient/Goroutines.antt =====
-- modulesdk/hostclient.go (`launchJobLocked`, `launchWatchdogLocked`, `stopJobs`): the goroutines of a
-- host client that has been started, and the calls of `stopJobs`, step by step. In `HostClient`
-- `stopJobs` is one step; here it takes the mutex, gives it back, cancels the context and waits, and
-- between its steps jobs run, declare surfaces under the same mutex, wait for their timers, and other
-- calls of `stopJobs` go on. A step stands for the return of the module's `Run`, and of the watchdog's
-- calls of gRPC.
pub mod Counts
pub mod Invariant
pub mod Returned
pub mod Moves
pub mod Stopping
use weaveplatform_sdk.Base.{
  ℕ, zero, suc, ◌+◌, ◌≡◌, Bool, true, false, List, [], ◌∷◌, ◌++◌, map, Option, none, some, set,
  sum_by, get_elem?, if◌then◌else◌,
}
use weaveplatform_sdk.Base.Int.{ℤ, is_positive}
use weaveplatform_sdk.HostClient.{HostClient, Job}
use weaveplatform_sdk.HostClient.Jobs.{interval}

-- Where a goroutine is: in the module's `Run`, or in the send of a ping; at the `Lock` of a `Declare` that
-- the module calls in `Run`; behind that `Lock`; behind the run; in the select; returned.
pub data Stage : Type 0 where
  running locking_mu declaring choosing waiting ended : Stage

pub data Worker : Type 0 where
  works : Job → Worker
  pings : ℤ → Worker

-- `round` counts the calls of `next`.
pub record Routine : Type 0 where
  pub worker : Worker
  pub stage : Stage
  pub round : ℕ

-- A call of `stopJobs`: before the mutex; behind `Lock`; behind `Unlock`, and whether `cancel` is not
-- nil; in `jobWG.Wait`; returned, and whether it has waited.
pub data Caller : Type 0 where
  arriving locking awaiting : Caller
  unlocked returned : Bool → Caller

pub record Crew : Type 0 where
  -- `mu` is held
  pub locked : Bool
  pub job_cancel : Bool
  pub context_done : Bool
  pub routines : List Routine
  pub callers : List Caller

-- A job's goroutine goes on while its interval is positive, the watchdog's always.
unfoldable pub goes_on : Worker → ℕ → Bool
unfolding interval
goes_on (Worker.works j) n = is_positive (interval j n)
goes_on (Worker.pings d) n = true

abbrev pub at_stage : Stage → Routine → Routine
at_stage s r = record r { stage = s }

-- The counter of `jobWG`.
abbrev pub is_live : Stage → ℕ
is_live Stage.ended = 0
is_live Stage.running = 1
is_live Stage.locking_mu = 1
is_live Stage.declaring = 1
is_live Stage.choosing = 1
is_live Stage.waiting = 1

abbrev pub live : List Routine → ℕ
live = sum_by (λ r. is_live r.stage)

-- A step of a goroutine, with the mutex before and behind it, and whether the context is done.
pub data RoutineStep (r : Routine) (done : Bool) : Bool → Bool → Routine → Type 0 where
  declare_called :
      {j : Job} {m : Bool}
      → r.worker ≡ works j
      → r.stage ≡ running
      → RoutineStep r done m m (at_stage locking_mu r)
  -- `Lock` returns when nobody has the mutex; until then `Run` does not return.
  declare_begins : r.stage ≡ locking_mu → RoutineStep r done false true (at_stage declaring r)
  declare_ends : r.stage ≡ declaring → RoutineStep r done true false (at_stage running r)
  run_returns : {m : Bool} → r.stage ≡ running → RoutineStep r done m m (at_stage choosing r)
  -- `d := next()`
  chooses :
      {m : Bool}
      → r.stage ≡ choosing
      → RoutineStep r done m m (record r {
        stage = if goes_on r.worker r.round then waiting else ended;
        round = r.round + 1;
      })
  timer_fires : {m : Bool} → r.stage ≡ waiting → RoutineStep r done m m (at_stage running r)
  context_ends :
      {m : Bool} → r.stage ≡ waiting → done ≡ true → RoutineStep r done m m (at_stage ended r)

pub data CrewStep (c : Crew) : Crew → Type 0 where
  routine :
      (k : ℕ) (r s : Routine) (m : Bool)
      → get_elem? c.routines k ≡ some r
      → RoutineStep r c.context_done c.locked m s
      → CrewStep c (record c { locked = m; routines = set c.routines k s })
  lock :
      (k : ℕ)
      → get_elem? c.callers k ≡ some arriving
      → c.locked ≡ false
      → CrewStep c (record c { locked = true; callers = set c.callers k locking })
  -- `cancel := h.jobCancel`, `h.jobCancel = nil`, `h.mu.Unlock()`
  unlock :
      (k : ℕ)
      → get_elem? c.callers k ≡ some locking
      → CrewStep c (record c {
        locked = false;
        job_cancel = false;
        callers = set c.callers k (unlocked c.job_cancel);
      })
  pass :
      (k : ℕ)
      → get_elem? c.callers k ≡ some (unlocked false)
      → CrewStep c (record c { callers = set c.callers k (returned false) })
  cancel :
      (k : ℕ)
      → get_elem? c.callers k ≡ some (unlocked true)
      → CrewStep c (record c { context_done = true; callers = set c.callers k awaiting })
  wait_returns :
      (k : ℕ)
      → get_elem? c.callers k ≡ some awaiting
      → live c.routines ≡ 0
      → CrewStep c (record c { callers = set c.callers k (returned true) })

abbrev pub began : Worker → Routine
began w = record { worker = w; stage = running; round = 0 }

abbrev pub watchdog_routines : Option ℤ → List Routine
watchdog_routines none = []
watchdog_routines (some d) = record { worker = pings d; stage = waiting; round = 0 } ∷ []

abbrev pub arrivals : ℕ → List Caller
arrivals zero = []
arrivals (suc n) = arriving ∷ arrivals n

-- The goroutines that `startJobs` has begun, and calls of `stopJobs`.
abbrev pub crew_of : HostClient → ℕ → Crew
crew_of h calls = record {
  locked = false;
  job_cancel = h.job_cancel;
  context_done = false;
  routines = map (λ j. began (works j)) h.launched ++ watchdog_routines h.watchdog;
  callers = arrivals calls;
}

pub data CrewReach (h : HostClient) (calls : ℕ) : Crew → Type 0 where
  start : CrewReach h calls (crew_of h calls)
  next : {c d : Crew} → CrewReach h calls c → CrewStep c d → CrewReach h calls d

-- What a crew is in `HostClient`: the goroutines that have not returned.
abbrev pub counted_job : Worker → ℕ → List Job
counted_job w zero = []
counted_job (Worker.works j) (suc n) = j ∷ []
counted_job (Worker.pings d) (suc n) = []

abbrev pub live_jobs : List Routine → List Job
live_jobs [] = []
live_jobs (r ∷ rs) = counted_job r.worker (is_live r.stage) ++ live_jobs rs

abbrev pub counted_watchdog : Worker → ℕ → Option ℤ → Option ℤ
counted_watchdog w zero other = other
counted_watchdog (Worker.works j) (suc n) other = other
counted_watchdog (Worker.pings d) (suc n) other = some d

abbrev pub live_watchdog : List Routine → Option ℤ
live_watchdog [] = none
live_watchdog (r ∷ rs) = counted_watchdog r.worker (is_live r.stage) (live_watchdog rs)

abbrev pub view : HostClient → Crew → HostClient
view h c = record h {
  job_cancel = c.job_cancel;
  launched = live_jobs c.routines;
  watchdog = live_watchdog c.routines;
}
