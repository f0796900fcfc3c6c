-- ===== src/Lifecycle/Hosted/Client.antt =====
-- modulesdk/hostclient.go: when a host client has goroutines, by the state of the server that has it.
use mathlib.Core.List.{append-nil, append_assoc}
use weaveplatform_sdk.Base.{
  ◌≡◌, refl, ◌∙◌, Bool, true, false, List, [], ◌∷◌, ◌++◌, Option, none, some, arith, if◌then◌else◌,
}
use weaveplatform_sdk.Base.Int.{is_positive}
use weaveplatform_sdk.HostClient.{
  HostClient, Surface, Job, declare, launch_job_locked, launch_jobs, start_jobs, stop_jobs,
}
use weaveplatform_sdk.Lifecycle.{State, Call, declare_all}

-- No goroutine of the jobs or of the watchdog, and none to stop.
pub record IsIdle (h : HostClient) : Type 0 where
  pub not_running : h.job_cancel ≡ false
  pub no_job : h.launched ≡ []
  pub no_watchdog : h.watchdog ≡ none

-- One goroutine for each job, and one for the watchdog if core asked for it.
pub record IsBusy (h : HostClient) : Type 0 where
  pub is_running : h.job_cancel ≡ true
  pub each_job : h.launched ≡ h.jobs
  pub the_watchdog :
      h.watchdog ≡ (if is_positive h.watchdog_interval then some h.watchdog_interval else none)

-- Whether the jobs run, by the calls: since they last began, they have not been ended.
abbrev pub note : Bool → Call → Bool
note up Call.jobs_begin = true
note up Call.jobs_end = false
note up _ = up

unfoldable pub jobs_up : Bool → List Call → Bool
jobs_up up [] = up
jobs_up up (c ∷ cs) = jobs_up (note up c) cs

pub jobs_up-append :
    (up : Bool) (cs : List Call) (c : Call) → jobs_up up (cs ++ c ∷ []) ≡ note (jobs_up up cs) c
unfolding jobs_up
jobs_up-append up [] c = refl
jobs_up-append up (d ∷ cs) c = jobs_up-append (note up d) cs c

abbrev pub JobsFit : Bool → HostClient → Type 0
JobsFit true h = IsBusy h
JobsFit false h = IsIdle h

-- What the server has of a host client in each of its states, and whether the jobs are to run.
abbrev pub HostFits : State → Bool → Option HostClient → Type 0
HostFits State.created up o = o ≡ none
HostFits State.inited up none = ⊥
HostFits State.inited up (some h) = IsIdle h × (h.started ≡ false)
HostFits State.started up none = ⊥
HostFits State.started up (some h) = JobsFit up h × (h.started ≡ true)
HostFits State.stopped up none = Unit {0}
HostFits State.stopped up (some h) = IsIdle h

pub launch_jobs_lem :
    (js : List Job) (h : HostClient) → launch_jobs js h ≡ record h { launched = h.launched ++ js }
unfolding launch_jobs
launch_jobs_lem [] h = ground (arith, append-nil h.launched)
launch_jobs_lem (j ∷ js) h =
    ground (arith, launch_jobs_lem js (launch_job_locked j h), append_assoc h.launched (j ∷ []) js)

pub declare-IsIdle : (xs : List Surface) (h : HostClient) → IsIdle h → IsIdle (declare xs h).0
unfolding declare
declare-IsIdle xs h i = ground arith

declare-JobsFit :
    (xs : List Surface) (up : Bool) (h : HostClient) → JobsFit up h → JobsFit up (declare xs h).0
unfolding declare
declare-JobsFit xs true h f = ground arith
declare-JobsFit xs false h f = ground arith

declare-started : (xs : List Surface) (h : HostClient) → (declare xs h).0.started ≡ h.started
unfolding declare
declare-started xs h = ground arith

pub declare-HostFits :
    (xs : List Surface) (t : State) (up : Bool) (h : HostClient)
    → HostFits t up (some h)
    → HostFits t up (some (declare xs h).0)
declare-HostFits xs State.created up h f = cc
declare-HostFits xs State.inited up h f = (declare-IsIdle xs h f.0, declare-started xs h ∙ f.1)
declare-HostFits xs State.started up h f = (declare-JobsFit xs up h f.0, declare-started xs h ∙ f.1)
declare-HostFits xs State.stopped up h f = declare-IsIdle xs h f

pub declare_all-inited :
    (xss : List (List Surface)) (h : HostClient)
    → HostFits State.inited false (some h)
    → HostFits State.inited false (some (declare_all xss h))
unfolding declare_all
declare_all-inited [] h f = f
declare_all-inited (xs ∷ xss) h f =
    declare_all-inited xss (declare xs h).0 (declare-HostFits xs State.inited false h f)

pub start_jobs_lem :
    (h : HostClient)
    → h.job_cancel ≡ false
    → start_jobs h ≡ record h {
      job_cancel = true;
      started = true;
      launched = h.launched ++ h.jobs;
      watchdog = if is_positive h.watchdog_interval then some h.watchdog_interval else h.watchdog;
    }
unfolding start_jobs
start_jobs_lem h i =
    ground (arith, i, launch_jobs_lem h.jobs (record h { job_cancel = true; started = true }))

pub start_jobs-IsBusy :
    (h : HostClient) → IsIdle h → IsBusy (start_jobs h) × ((start_jobs h).started ≡ true)
start_jobs-IsBusy h i = ground (arith, start_jobs_lem h i.not_running)

pub stop_jobs-IsIdle :
    (up : Bool) (h : HostClient)
    → JobsFit up h
    → IsIdle (stop_jobs h) × ((stop_jobs h).started ≡ h.started)
unfolding stop_jobs
stop_jobs-IsIdle true h i = ground arith
stop_jobs-IsIdle false h i = ground arith
