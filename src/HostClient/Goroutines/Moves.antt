-- ===== src/HostClient/Goroutines/Moves.antt =====
-- modulesdk/hostclient.go: as long as a call of `stopJobs` has not returned, someone can go on.
use weaveplatform_sdk.Base.{
  ℕ, ◌+◌, ◌<◌, ◌≡◌, refl, sym, ap, subst, Bool, true, false, some, arith, set, sum_by, sum_by-set,
  sum_by_cases, sum_by-get_elem?, get_elem?, Bool-cases, inl, inr,
}
use weaveplatform_sdk.HostClient.{HostClient}
use weaveplatform_sdk.HostClient.Goroutines.{
  Stage, Routine, Caller, Crew, RoutineStep, CrewStep, is_live, at_stage,
}
use weaveplatform_sdk.HostClient.Goroutines.Invariant.{IsCrew}
use weaveplatform_sdk.HostClient.Goroutines.Counts.{bit, locks, declares}

-- How many steps a goroutine, and a call, is from its end at most.
abbrev pub rank_stage : Stage → ℕ
rank_stage Stage.locking_mu = 5
rank_stage Stage.declaring = 4
rank_stage Stage.running = 3
rank_stage Stage.choosing = 2
rank_stage Stage.waiting = 1
rank_stage Stage.ended = 0

abbrev pub rank_caller : Caller → ℕ
rank_caller Caller.arriving = 4
rank_caller Caller.locking = 3
rank_caller (Caller.unlocked took) = 2
rank_caller Caller.awaiting = 1
rank_caller (Caller.returned waited) = 0

abbrev pub rank : Crew → ℕ
rank c = sum_by (λ r. rank_stage r.stage) c.routines + sum_by rank_caller c.callers

pub record Nearer (c : Crew) : Type 0 where
  pub state : Crew
  pub step : CrewStep c state
  pub nearer : rank state < rank c

module _ (c : Crew) where
  caller_moves :
      (k : ℕ) (x y : Caller)
      → get_elem? c.callers k ≡ some x
      → rank_caller y < rank_caller x
      → (d : Crew) → d.routines ≡ c.routines
      → d.callers ≡ set c.callers k y
      → CrewStep c d
      → Nearer c
  caller_moves k x y at less d same moved st = record {
    state = d;
    step = st;
    nearer = rw (same, moved) (omega (arith, less, sum_by-set rank_caller c.callers k x y at));
  }

  routine_moves :
      (k : ℕ) (r s : Routine) (m : Bool)
      → get_elem? c.routines k ≡ some r
      → rank_stage s.stage < rank_stage r.stage
      → RoutineStep r c.context_done c.locked m s
      → Nearer c
  routine_moves k r s m at less st = record {
    state = _;
    step = CrewStep.routine k r s m at st;
    nearer = omega (arith, less, sum_by-set (λ q. rank_stage q.stage) c.routines k r s at);
  }

  -- The one that has the mutex gives it back.
  holder_moves : {h : HostClient} {calls : ℕ} → IsCrew h calls c → c.locked ≡ true → Nearer c
  holder_moves w held = elim (sum_by_cases locks c.callers) [
    | inr (k, x, at, more) ↦ unlocks k x at more
    | inl none_locks ↦ elim (sum_by_cases (λ (r : Routine). declares r.stage) c.routines) [
      | inr (k, r, at, more) ↦ declared k r r.stage at refl more
      | inl none_declares ↦ absurd (omega (arith, w.held, ap bit held, none_locks, none_declares))
    ]
  ]
    where
      unlocks : (k : ℕ) (x : Caller) → get_elem? c.callers k ≡ some x → 0 < locks x → Nearer c
      unlocks k Caller.locking at more =
          caller_moves k Caller.locking (Caller.unlocked c.job_cancel) at (omega arith) _ refl refl
            (CrewStep.unlock k at)
      unlocks k Caller.arriving at more = absurd (omega (arith, more))
      unlocks k Caller.awaiting at more = absurd (omega (arith, more))
      unlocks k (Caller.unlocked took) at more = absurd (omega (arith, more))
      unlocks k (Caller.returned waited) at more = absurd (omega (arith, more))

      declared :
          (k : ℕ) (r : Routine) (s : Stage)
          → get_elem? c.routines k ≡ some r
          → r.stage ≡ s
          → 0 < declares r.stage
          → Nearer c
      declared k r Stage.declaring at e more =
          routine_moves k r (at_stage Stage.running r) false at (rw e (omega arith)) (
            subst (λ m. RoutineStep r c.context_done m false (at_stage Stage.running r)) (sym held)
              (RoutineStep.declare_ends e))
      declared k r Stage.locking_mu at e more = absurd (omega (arith, more, ap declares e))
      declared k r Stage.running at e more = absurd (omega (arith, more, ap declares e))
      declared k r Stage.choosing at e more = absurd (omega (arith, more, ap declares e))
      declared k r Stage.waiting at e more = absurd (omega (arith, more, ap declares e))
      declared k r Stage.ended at e more = absurd (omega (arith, more, ap declares e))

  -- Where the context is done, a goroutine that has not returned goes on, if nobody has the mutex.
  live_moves :
      {h : HostClient} {calls : ℕ}
      → IsCrew h calls c
      → c.locked ≡ false
      → c.context_done ≡ true
      → (k : ℕ) (r : Routine) (s : Stage) → get_elem? c.routines k ≡ some r
      → r.stage ≡ s
      → 0 < is_live r.stage
      → Nearer c
  live_moves w free done k r Stage.running at e more =
      routine_moves k r (at_stage Stage.choosing r) c.locked at (rw e (omega arith))
        (RoutineStep.run_returns e)
  live_moves w free done k r Stage.locking_mu at e more =
      routine_moves k r (at_stage Stage.declaring r) true at (rw e (omega arith)) (
        subst (λ m. RoutineStep r c.context_done m true (at_stage Stage.declaring r)) (sym free)
          (RoutineStep.declare_begins e))
  live_moves w free done k r Stage.declaring at e more = absurd (
      omega (
        arith,
        w.held,
        ap bit free,
        ap declares e,
        sum_by-get_elem? (λ (q : Routine). declares q.stage) c.routines k r at,
      ))
  live_moves w free done k r Stage.choosing at e more =
      routine_moves k r _ c.locked at (ground (arith, e)) (RoutineStep.chooses e)
  live_moves w free done k r Stage.waiting at e more =
      routine_moves k r (at_stage Stage.ended r) c.locked at (rw e (omega arith))
        (RoutineStep.context_ends e done)
  live_moves w free done k r Stage.ended at e more = absurd (omega (arith, more, ap is_live e))

  -- A call that has not returned, or what it waits for, goes on.
  call_moves :
      {h : HostClient} {calls : ℕ}
      → IsCrew h calls c
      → c.locked ≡ false
      → (k : ℕ) (x : Caller) → get_elem? c.callers k ≡ some x
      → 0 < rank_caller x
      → Nearer c
  call_moves w free k Caller.arriving at more =
      caller_moves k Caller.arriving Caller.locking at (omega arith) _ refl refl
        (CrewStep.lock k at free)
  call_moves w free k Caller.locking at more =
      absurd
        (omega (arith, w.held, ap bit free, sum_by-get_elem? locks c.callers k Caller.locking at))
  call_moves w free k (Caller.unlocked false) at more =
      caller_moves k (Caller.unlocked false) (Caller.returned false) at (omega arith) _ refl refl
        (CrewStep.pass k at)
  call_moves w free k (Caller.unlocked true) at more =
      caller_moves k (Caller.unlocked true) Caller.awaiting at (omega arith) _ refl refl
        (CrewStep.cancel k at)
  call_moves w free k Caller.awaiting at more =
      elim (sum_by_cases (λ (r : Routine). is_live r.stage) c.routines) [
        | inl over ↦
            caller_moves k Caller.awaiting (Caller.returned true) at (omega arith) _ refl refl
              (CrewStep.wait_returns k at over)
        | inr (i, r, there, lives) ↦
            live_moves w free (w.called k Caller.awaiting at).1 i r r.stage there refl lives
      ]
  call_moves w free k (Caller.returned waited) at more = absurd (omega (arith, more))

pub some_moves :
    {h : HostClient} {calls : ℕ} (c : Crew)
    → IsCrew h calls c
    → (k : ℕ) (x : Caller) → get_elem? c.callers k ≡ some x
    → 0 < rank_caller x
    → Nearer c
some_moves c w k x at more = elim (Bool-cases c.locked) [
  | inl held ↦ holder_moves c w held
  | inr free ↦ call_moves c w free k x at more
]
