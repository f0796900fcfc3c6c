-- ===== src/HostClient/Jobs.antt =====
-- modulesdk/hostclient.go: the goroutine of a job (`launchJobLocked`). `Run` is the module's own;
-- how each select goes is a list: the timer fires, or the context is done. At the list's end the
-- goroutine still waits.
use weaveplatform_sdk.Base.{
  ◌⊎◌, inl, inr, Bool-cases, ℕ, zero, suc, ◌+◌, ◌<◌, ◌≡◌, refl, ap, ◌∙◌, true, false, List, [], ◌∷◌,
  none, some, arith, if◌then◌else◌,
}
use weaveplatform_sdk.Base.Int.{ℤ, is_positive}
use weaveplatform_sdk.HostClient.{Job}

pub data Select : Type 0 where
  fired context_done : Select

-- What the goroutine does: it runs the job, waits for an interval, and ends.
pub data JobEvent : Type 0 where
  ran ended : JobEvent
  waits : ℤ → JobEvent

-- `next()`, called for the n-th time.
unfoldable pub interval : Job → ℕ → ℤ
interval j n = elim j.every_func [ none ↦ j.every | some f ↦ f n ]

-- The loop, from its n-th round.
unfoldable pub job_loop : Job → ℕ → List Select → List JobEvent
job_loop j n [] =
    if is_positive (interval j n) then waits (interval j n) ∷ [] else JobEvent.ended ∷ []
job_loop j n (Select.context_done ∷ sels) =
    if is_positive (interval j n)
    then waits (interval j n) ∷ JobEvent.ended ∷ []
    else JobEvent.ended ∷ []
job_loop j n (Select.fired ∷ sels) =
    let rest = job_loop j (n + 1) sels in
    if is_positive (interval j n)
    then waits (interval j n) ∷ JobEvent.ran ∷ rest
    else JobEvent.ended ∷ []

unfoldable pub launch_job : Job → List Select → List JobEvent
unfolding job_loop
launch_job j sels = JobEvent.ran ∷ job_loop j 0 sels

pub times : ℕ → List Select → List Select
times zero sels = sels
times (suc k) sels = Select.fired ∷ times k sels

-- The n-th to the (n + k)-th wait, each with a run behind it.
pub cycles : Job → ℕ → ℕ → List JobEvent → List JobEvent
cycles j n zero rest = rest
cycles j n (suc k) rest = waits (interval j n) ∷ JobEvent.ran ∷ cycles j (n + 1) k rest

job_loop-times :
    (j : Job) (k n : ℕ) (sels : List Select)
    → ((i : ℕ) → n < i + 1 → i < n + k → is_positive (interval j i) ≡ true)
    → job_loop j n (times k sels) ≡ cycles j n k (job_loop j (n + k) sels)
unfolding job_loop times cycles
job_loop-times j zero n sels pos = ap (λ i. job_loop j i sels) (omega arith)
job_loop-times j (suc k) n sels pos = rw (pos n (omega arith) (omega arith)) (
    ap (λ l. waits (interval j n) ∷ JobEvent.ran ∷ l)
      (job_loop-times j k (n + 1) sels (λ i a b. pos i (omega arith) (omega arith))
        ∙ ap (λ i. cycles j (n + 1) k (job_loop j i sels)) (omega arith)))

job_loop_ends :
    (j : Job) (n : ℕ) (sels : List Select)
    → is_positive (interval j n) ≡ false
    → job_loop j n sels ≡ JobEvent.ended ∷ []
unfolding job_loop
job_loop_ends j n [] e = rw e refl
job_loop_ends j n (Select.fired ∷ sels) e = rw e refl
job_loop_ends j n (Select.context_done ∷ sels) e = rw e refl

job_loop_cancelled :
    (j : Job) (n : ℕ) (sels : List Select)
    → is_positive (interval j n) ≡ true
    → job_loop j n (Select.context_done ∷ sels) ≡ waits (interval j n) ∷ JobEvent.ended ∷ []
unfolding job_loop
job_loop_cancelled j n sels e = rw e refl

from_zero : (k : ℕ) → 0 + k ≡ k
from_zero k = omega arith

-- Let the first `k` intervals of a job, which are asked for anew each time, be positive. Then the job
-- runs once at once, and once more for each of `k` timers. If the next interval is positive, the end
-- of the context ends it then without another run; and if not, it ends there, whatever comes.
pub launch_job_lem :
    (j : Job) (k : ℕ) (sels : List Select)
    → ((i : ℕ) → i < k → is_positive (interval j i) ≡ true)
    → (is_positive (interval j k) ≡ true)
        × (launch_job j (times k (Select.context_done ∷ sels))
            ≡ JobEvent.ran ∷ cycles j 0 k (waits (interval j k) ∷ JobEvent.ended ∷ []))
      ⊎ (is_positive (interval j k) ≡ false)
        × (launch_job j (times k sels) ≡ JobEvent.ran ∷ cycles j 0 k (JobEvent.ended ∷ []))
unfolding launch_job
launch_job_lem j k sels pos =
    let fires = λ (sels : List Select). job_loop-times j k 0 sels (λ i a b. pos i (omega arith)) in
    let at_k = λ (sels : List Select). ap (λ i. cycles j 0 k (job_loop j i sels)) (from_zero k) in
    elim (Bool-cases (is_positive (interval j k))) [
      | inl go ↦ inl (
        go,
        ap (◌∷◌ JobEvent.ran) (
            fires (Select.context_done ∷ sels)
            ∙ at_k (Select.context_done ∷ sels)
            ∙ ap (cycles j 0 k) (job_loop_cancelled j k sels go)),
      )
      | inr stop ↦ inr (
        stop,
        ap (◌∷◌ JobEvent.ran)
            (fires sels ∙ at_k sels ∙ ap (cycles j 0 k) (job_loop_ends j k sels stop)),
      )
    ]
