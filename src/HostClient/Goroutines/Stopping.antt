-- ===== src/HostClient/Goroutines/Stopping.antt =====
-- modulesdk/hostclient.go: every call of `stopJobs` can come to its return.
use weaveplatform_sdk.Base.{
  ℕ, zero, suc, ◌≤◌, ◌≡◌, refl, ap, ◌∙◌, Bool, true, false, some, arith, sum_by, sum_by_cases,
  sum_by-get_elem?, get_elem?, get_elem?-some, inl, inr,
}
use weaveplatform_sdk.HostClient.{HostClient, stop_jobs}
use weaveplatform_sdk.HostClient.Goroutines.{Caller, Crew, CrewStep, CrewReach, live, view}
use weaveplatform_sdk.HostClient.Goroutines.Invariant.{IsCrew, CrewReach-IsCrew}
use weaveplatform_sdk.HostClient.Goroutines.Counts.{IsCalled, bit, bit_is_set, takes}
use weaveplatform_sdk.HostClient.Goroutines.Returned.{stopped_lem}
use weaveplatform_sdk.HostClient.Goroutines.Moves.{rank_caller, rank, some_moves}

pub data CrewWorks : Crew → Crew → Type 0 where
  stay : {c : Crew} → CrewWorks c c
  work : {c d e : Crew} → CrewStep c d → CrewWorks d e → CrewWorks c e

pub CrewReach-append :
    {h : HostClient} {calls : ℕ} {c d : Crew}
    → CrewReach h calls c
    → CrewWorks c d
    → CrewReach h calls d
CrewReach-append r CrewWorks.stay = r
CrewReach-append r (CrewWorks.work st w) = CrewReach-append (CrewReach.next r st) w

all_return :
    {h : HostClient} {calls : ℕ} (fuel : ℕ) (c : Crew)
    → CrewReach h calls c
    → rank c ≤ fuel
    → (d : Crew) × CrewWorks c d × (sum_by rank_caller d.callers ≡ 0)
all_return zero c r enough = (c, CrewWorks.stay, omega (arith, enough))
all_return (suc fuel) c r enough = elim (sum_by_cases rank_caller c.callers) [
  | inl none_left ↦ (c, CrewWorks.stay, none_left)
  | inr (k, x, at, more) ↦
      let move = some_moves c (CrewReach-IsCrew r) k x at more in
      let (d, works, over) =
        all_return fuel move.state (CrewReach.next r move.step)
          (omega (arith, enough, move.nearer)) in
      (d, CrewWorks.work move.step works, over)
]

has_returned : (x : Caller) → rank_caller x ≡ 0 → (waited : Bool) × (x ≡ Caller.returned waited)
has_returned (Caller.returned waited) e = (waited, refl)
has_returned Caller.arriving e = absurd (omega (arith, e))
has_returned Caller.locking e = absurd (omega (arith, e))
has_returned Caller.awaiting e = absurd (omega (arith, e))
has_returned (Caller.unlocked took) e = absurd (omega (arith, e))

-- Every call has returned, and what is left is the host client after `stop_jobs`.
pub record Stopped (h : HostClient) (c : Crew) : Type 0 where
  pub state : Crew
  pub works : CrewWorks c state
  pub all_returned :
      (i : ℕ) (x : Caller)
      → get_elem? state.callers i ≡ some x
      → (waited : Bool) × (x ≡ Caller.returned waited)
  pub same_view : view h state ≡ stop_jobs h

returned_cancel :
    (p q : Bool) (n : ℕ) (waited : Bool) → IsCalled p q n (Caller.returned waited) → p ≡ false
returned_cancel p q n true known = known.0
returned_cancel p q n false known = known

-- The first call has found the cancel function, or another one before it.
one_took :
    {h : HostClient} {calls : ℕ} (d : Crew) (w : IsCrew h (suc calls) d)
    → h.job_cancel ≡ true
    → sum_by rank_caller d.callers ≡ 0
    → (i : ℕ) × (get_elem? d.callers i ≡ some (Caller.returned true))
one_took d w running over =
    let (x, first) = get_elem?-some d.callers 0 (omega (arith, w.same_calls)) in
    let (waited, returns) = all_over 0 x first in
    let no_cancel =
      returned_cancel d.job_cancel d.context_done (live d.routines) waited
        (w.called 0 (Caller.returned waited) (first ∙ ap some returns)) in
    elim (sum_by_cases takes d.callers) [
      | inl none_took ↦ absurd (omega (arith, none_took, w.taken, ap bit no_cancel, ap bit running))
      | inr (i, y, at, took) ↦
          let (b, is_back) = all_over i y at in
          let did : b ≡ true = bit_is_set b (omega (arith, took, ap takes is_back)) in
          (i, at ∙ ap some (is_back ∙ ap Caller.returned did))
    ]
  where
    all_over :
        (i : ℕ) (x : Caller)
        → get_elem? d.callers i ≡ some x
        → (waited : Bool) × (x ≡ Caller.returned waited)
    all_over i x at =
        has_returned x (omega (arith, over, sum_by-get_elem? rank_caller d.callers i x at))

-- A host client has been started, and `stopJobs` is called at least once. Wherever the calls stand, and
-- whatever jobs and the watchdog are doing, of which some may wait for the mutex, which one may have, in
-- a `Declare`: no call is stuck. There
-- are steps to where every call has returned, every goroutine has, and what is left is the host client
-- after `stop_jobs`.
pub stop_returns :
    {h : HostClient} {calls : ℕ} {c : Crew}
    → CrewReach h (suc calls) c
    → h.job_cancel ≡ true
    → Stopped h c
stop_returns {h} {calls} {c} r running =
    let (d, works, over) = all_return (rank c) c r (omega arith) in
    let reached = CrewReach-append r works in
    let (i, took) = one_took d (CrewReach-IsCrew reached) running over in
    record {
      state = d;
      works = works;
      all_returned = λ k x at.
          has_returned x (omega (arith, over, sum_by-get_elem? rank_caller d.callers k x at));
      same_view = (stopped_lem reached i took).2;
    }
