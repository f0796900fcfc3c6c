-- ===== src/HostClient.antt =====
-- modulesdk/hostclient.go: the part of the host client that keeps state, that is the declared
-- surfaces, the jobs and the watchdog interval, and the goroutines that it starts. The mutex makes
-- each method one step. `launched` holds the jobs whose goroutines `jobWG` counts; `stopJobs` waits
-- until there is none, which assumes that a job's `Run` returns when its context is cancelled.
-- Goroutines has its steps, and what runs between them.
pub mod Jobs
pub mod Watchdog
pub mod Disconnect
pub mod Goroutines
use weaveplatform_sdk.Base.{
  ℕ, Bool, true, false, List, [], ◌∷◌, ◌++◌, map, Option, none, some, Bytes, codes, if◌then◌else◌,
}
use weaveplatform_sdk.Base.Int.{ℤ, is_positive}
use weaveplatform_sdk.Errors.{GoError}

pub record Surface : Type 0 where
  pub id : Bytes
  pub title : Bytes
  pub kind : Bytes
  pub payload : Bytes

-- A job without `Run`, which is the module's own. `every_func` gives the answer of `EveryFunc` to
-- its n-th call.
pub record Job : Type 0 where
  pub name : Bytes
  pub every : ℤ
  pub every_func : Option (ℕ → ℤ)

pub record HostClient : Type 0 where
  pub surfaces : List Surface
  pub jobs : List Job
  pub watchdog_interval : ℤ
  -- `jobCancel` is not nil
  pub job_cancel : Bool
  pub started : Bool
  -- the goroutines of the jobs, and of the watchdog with its interval
  pub launched : List Job
  pub watchdog : Option ℤ
  pub closed : Bool

-- What `dialHost` returns.
abbrev pub dialed : HostClient
dialed = record {
  surfaces = [];
  jobs = [];
  watchdog_interval = ℤ.pos 0;
  job_cancel = false;
  started = false;
  launched = [];
  watchdog = none;
  closed = false;
}

unfoldable pub close : HostClient → HostClient
close h = record h { closed = true }

abbrev pub declared_too_late : GoError
declared_too_late =
    GoError.plain (codes "modulesdk: declaring surfaces after Init is not supported at protocol 1")

-- `uiBroker.Declare`.
unfoldable pub declare : List Surface → HostClient → HostClient × Option GoError
declare surfaces h =
    if h.started
    then (h, some declared_too_late)
    else (record h { surfaces = h.surfaces ++ surfaces }, none)

-- A copy of each surface goes into the response.
unfoldable pub declared_surfaces : HostClient → List Surface
declared_surfaces h =
    map (λ s. record { id = s.id; title = s.title; kind = s.kind; payload = s.payload }) h.surfaces

unfoldable pub add_jobs : List Job → HostClient → HostClient
add_jobs jobs h = record h { jobs = h.jobs ++ jobs }

unfoldable pub set_watchdog_interval : ℤ → HostClient → HostClient
set_watchdog_interval d h = record h { watchdog_interval = d }

unfoldable pub launch_job_locked : Job → HostClient → HostClient
launch_job_locked j h = record h { launched = h.launched ++ j ∷ [] }

unfoldable pub launch_watchdog_locked : ℤ → HostClient → HostClient
launch_watchdog_locked interval h = record h { watchdog = some interval }

-- `for _, j := range h.jobs { h.launchJobLocked(j) }`
unfoldable pub launch_jobs : List Job → HostClient → HostClient
unfolding launch_job_locked
launch_jobs [] h = h
launch_jobs (j ∷ js) h = launch_jobs js (launch_job_locked j h)

unfoldable pub start_jobs : HostClient → HostClient
unfolding launch_jobs launch_watchdog_locked
start_jobs h =
    if h.job_cancel
    then h
    else let h' = launch_jobs h.jobs (record h { job_cancel = true; started = true }) in
      if is_positive h'.watchdog_interval
      then launch_watchdog_locked h'.watchdog_interval h'
      else h'

-- Cancelling and waiting ends every goroutine.
unfoldable pub stop_jobs : HostClient → HostClient
stop_jobs h =
    if h.job_cancel then record h { job_cancel = false; launched = []; watchdog = none } else h
