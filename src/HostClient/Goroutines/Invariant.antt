-- ===== src/HostClient/Goroutines/Invariant.antt =====
-- modulesdk/hostclient.go: the mutex has one holder, one call of `stopJobs` takes the cancel function,
-- and that call has waited for every goroutine when it returns.
use weaveplatform_sdk.Base.{
  ℕ, zero, suc, ◌+◌, ◌≤◌, ◌≡◌, refl, sym, ap, ◌∙◌, subst, Bool, true, false, List, [], ◌∷◌, ◌++◌,
  map, Option, none, some, arith, set, sum_by, sum_by-set, length, length-set, each_set, get_elem?,
}
use weaveplatform_sdk.Base.Int.{ℤ}
use weaveplatform_sdk.HostClient.{HostClient, Job}
use weaveplatform_sdk.HostClient.Goroutines.{
  Routine, Caller, Crew, RoutineStep, CrewStep, CrewReach, is_live, live, crew_of, arrivals, began,
  watchdog_routines, Worker,
}
use weaveplatform_sdk.HostClient.Goroutines.Counts.{
  bit, bit_small, declares, locks, takes, holders, IsCalled, IsCalled-mono,
}

pub record IsCrew (h : HostClient) (calls : ℕ) (c : Crew) : Type 0 where
  pub same_calls : length c.callers ≡ calls
  pub held : holders c ≡ bit c.locked
  pub taken : sum_by takes c.callers + bit c.job_cancel ≡ bit h.job_cancel
  pub called :
      (i : ℕ) (x : Caller)
      → get_elem? c.callers i ≡ some x
      → IsCalled c.job_cancel c.context_done (live c.routines) x

RoutineStep-held :
    {r s : Routine} {done m m' : Bool}
    → RoutineStep r done m m' s
    → declares s.stage + bit m ≡ declares r.stage + bit m'
RoutineStep-held (RoutineStep.declare_called job at) = rw at refl
RoutineStep-held (RoutineStep.declare_begins at) = rw at refl
RoutineStep-held (RoutineStep.declare_ends at) = rw at refl
RoutineStep-held (RoutineStep.run_returns at) = rw at refl
RoutineStep-held (RoutineStep.chooses at) = ground (arith, at)
RoutineStep-held (RoutineStep.timer_fires at) = rw at refl
RoutineStep-held (RoutineStep.context_ends at done) = rw at refl

RoutineStep-live :
    {r s : Routine} {done m m' : Bool}
    → RoutineStep r done m m' s
    → is_live s.stage ≤ is_live r.stage
RoutineStep-live (RoutineStep.declare_called job at) = rw at (omega arith)
RoutineStep-live (RoutineStep.declare_begins at) = rw at (omega arith)
RoutineStep-live (RoutineStep.declare_ends at) = rw at (omega arith)
RoutineStep-live (RoutineStep.run_returns at) = rw at (omega arith)
RoutineStep-live (RoutineStep.chooses at) = ground (arith, at)
RoutineStep-live (RoutineStep.timer_fires at) = rw at (omega arith)
RoutineStep-live (RoutineStep.context_ends at done) = rw at (omega arith)

-- A call moves.
module _ {h : HostClient} {calls : ℕ} {c : Crew} (w : IsCrew h calls c) (k : ℕ) (x y : Caller)
    (at : get_elem? c.callers k ≡ some x) where
  called_on :
      (p q : Bool)
      → (c.job_cancel ≡ false → p ≡ false)
      → (c.context_done ≡ true → q ≡ true)
      → IsCalled p q (live c.routines) y
      → (i : ℕ) (z : Caller) → get_elem? (set c.callers k y) i ≡ some z
      → IsCalled p q (live c.routines) z
  called_on p q f g own =
      each_set (λ i z. IsCalled p q (live c.routines) z) c.callers k x y at own
        (λ i z other there.
          IsCalled-mono c.job_cancel c.context_done p q (live c.routines) (live c.routines) z f g
            (λ e. e) (w.called i z there))

CrewStep-IsCrew :
    {h : HostClient} {calls : ℕ} {c d : Crew} → CrewStep c d → IsCrew h calls c → IsCrew h calls d
CrewStep-IsCrew {c = c} (CrewStep.routine k r s m at st) w = record {
  same_calls = w.same_calls;
  held =
      omega (
        arith,
        w.held,
        RoutineStep-held st,
        sum_by-set (λ q. declares q.stage) c.routines k r s at,
      );
  taken = w.taken;
  called = λ i z there.
      IsCalled-mono c.job_cancel c.context_done c.job_cancel c.context_done (live c.routines)
        (live (set c.routines k s)) z (λ e. e) (λ e. e)
        (λ e.
          omega
            (arith, e, RoutineStep-live st, sum_by-set (λ q. is_live q.stage) c.routines k r s at))
        (w.called i z there);
}
CrewStep-IsCrew {c = c} (CrewStep.lock k at free) w = record {
  same_calls = length-set c.callers k Caller.locking ∙ w.same_calls;
  held =
      omega (
        arith,
        w.held,
        sum_by-set locks c.callers k Caller.arriving Caller.locking at,
        ap bit free,
      );
  taken = omega (arith, w.taken, sum_by-set takes c.callers k Caller.arriving Caller.locking at);
  called =
      called_on w k Caller.arriving Caller.locking at c.job_cancel c.context_done (λ e. e) (λ e. e)
        tt;
}
CrewStep-IsCrew {c = c} (CrewStep.unlock k at) w =
    let y = Caller.unlocked c.job_cancel in
    record {
      same_calls = length-set c.callers k y ∙ w.same_calls;
      held =
          omega
            (arith, w.held, sum_by-set locks c.callers k Caller.locking y at, bit_small c.locked);
      taken = omega (arith, w.taken, sum_by-set takes c.callers k Caller.locking y at);
      called = called_on w k Caller.locking y at false c.context_done (λ e. refl) (λ e. e) refl;
    }
CrewStep-IsCrew {c = c} (CrewStep.pass k at) w =
    let x = Caller.unlocked false in
    let y = Caller.returned false in
    record {
      same_calls = length-set c.callers k y ∙ w.same_calls;
      held = omega (arith, w.held, sum_by-set locks c.callers k x y at);
      taken = omega (arith, w.taken, sum_by-set takes c.callers k x y at);
      called = called_on w k x y at c.job_cancel c.context_done (λ e. e) (λ e. e) (w.called k x at);
    }
CrewStep-IsCrew {c = c} (CrewStep.cancel k at) w =
    let x = Caller.unlocked true in
    let y = Caller.awaiting in
    record {
      same_calls = length-set c.callers k y ∙ w.same_calls;
      held = omega (arith, w.held, sum_by-set locks c.callers k x y at);
      taken = omega (arith, w.taken, sum_by-set takes c.callers k x y at);
      called = called_on w k x y at c.job_cancel true (λ e. e) (λ e. refl) (w.called k x at, refl);
    }
CrewStep-IsCrew {c = c} (CrewStep.wait_returns k at over) w =
    let x = Caller.awaiting in
    let y = Caller.returned true in
    let known = w.called k x at in
    record {
      same_calls = length-set c.callers k y ∙ w.same_calls;
      held = omega (arith, w.held, sum_by-set locks c.callers k x y at);
      taken = omega (arith, w.taken, sum_by-set takes c.callers k x y at);
      called =
          called_on w k x y at c.job_cancel c.context_done (λ e. e) (λ e. e)
            (known.0, known.1, over);
    }

-- No goroutine has the mutex, and no call has begun.
declares_none :
    (js : List Job) (d : Option ℤ)
    → sum_by
        (λ (r : Routine). declares r.stage)
        (map (λ j. began (Worker.works j)) js ++ watchdog_routines d)
      ≡ 0
declares_none [] none = refl
declares_none [] (some d) = refl
declares_none (j ∷ js) d = omega (arith, declares_none js d)

arrived : (n i : ℕ) (x : Caller) → get_elem? (arrivals n) i ≡ some x → x ≡ Caller.arriving
arrived zero i x at = cc
arrived (suc n) zero x at = cc
arrived (suc n) (suc i) x at = arrived n i x at

length-arrivals : (n : ℕ) → length (arrivals n) ≡ n
length-arrivals zero = refl
length-arrivals (suc n) = ap suc (length-arrivals n)

no_locks : (n : ℕ) → sum_by locks (arrivals n) ≡ 0
no_locks zero = refl
no_locks (suc n) = omega (arith, no_locks n)

no_takes : (n : ℕ) → sum_by takes (arrivals n) ≡ 0
no_takes zero = refl
no_takes (suc n) = omega (arith, no_takes n)

crew_of-IsCrew : (h : HostClient) (calls : ℕ) → IsCrew h calls (crew_of h calls)
crew_of-IsCrew h calls = record {
  same_calls = length-arrivals calls;
  held = omega (arith, declares_none h.launched h.watchdog, no_locks calls);
  taken = omega (arith, no_takes calls);
  called = λ i x at.
      subst (IsCalled h.job_cancel false (live (crew_of h calls).routines))
        (sym (arrived calls i x at)) tt;
}

pub CrewReach-IsCrew :
    {h : HostClient} {calls : ℕ} {c : Crew} → CrewReach h calls c → IsCrew h calls c
CrewReach-IsCrew {h} {calls} CrewReach.start = crew_of-IsCrew h calls
CrewReach-IsCrew (CrewReach.next r st) = CrewStep-IsCrew st (CrewReach-IsCrew r)
