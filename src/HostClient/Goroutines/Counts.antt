-- ===== src/HostClient/Goroutines/Counts.antt =====
-- modulesdk/hostclient.go: who has the mutex and the cancel function, in numbers, and what a call of
-- `stopJobs` knows.
use weaveplatform_sdk.Base.{ℕ, ◌+◌, ◌≤◌, ◌<◌, ◌≡◌, refl, Bool, true, false, arith, sum_by}
use weaveplatform_sdk.HostClient.Goroutines.{Stage, Caller, Crew}

abbrev pub bit : Bool → ℕ
bit true = 1
bit false = 0

pub bit_small : (b : Bool) → bit b ≤ 1
bit_small true = omega arith
bit_small false = omega arith

pub bit_is_set : (b : Bool) → 0 < bit b → b ≡ true
bit_is_set true m = refl
bit_is_set false m = absurd (omega (arith, m))

abbrev pub declares : Stage → ℕ
declares Stage.declaring = 1
declares Stage.running = 0
declares Stage.locking_mu = 0
declares Stage.choosing = 0
declares Stage.waiting = 0
declares Stage.ended = 0

abbrev pub locks : Caller → ℕ
locks Caller.locking = 1
locks Caller.arriving = 0
locks Caller.awaiting = 0
locks (Caller.unlocked took) = 0
locks (Caller.returned waited) = 0

-- The call has found the cancel function.
abbrev pub takes : Caller → ℕ
takes Caller.awaiting = 1
takes (Caller.unlocked took) = bit took
takes (Caller.returned waited) = bit waited
takes Caller.arriving = 0
takes Caller.locking = 0

abbrev pub holders : Crew → ℕ
holders c = sum_by (λ r. declares r.stage) c.routines + sum_by locks c.callers

-- What a call knows of where it stands.
abbrev pub IsCalled : Bool → Bool → ℕ → Caller → Type 0
IsCalled job_cancel context_done count Caller.arriving = Unit
IsCalled job_cancel context_done count Caller.locking = Unit
IsCalled job_cancel context_done count (Caller.unlocked took) = job_cancel ≡ false
IsCalled job_cancel context_done count Caller.awaiting =
    (job_cancel ≡ false) × (context_done ≡ true)
IsCalled job_cancel context_done count (Caller.returned false) = job_cancel ≡ false
IsCalled job_cancel context_done count (Caller.returned true) =
    (job_cancel ≡ false) × (context_done ≡ true) × (count ≡ 0)

pub IsCalled-mono :
    (p q p' q' : Bool) (n n' : ℕ) (x : Caller)
    → (p ≡ false → p' ≡ false)
    → (q ≡ true → q' ≡ true)
    → (n ≡ 0 → n' ≡ 0)
    → IsCalled p q n x
    → IsCalled p' q' n' x
IsCalled-mono p q p' q' n n' Caller.arriving f g k h = tt
IsCalled-mono p q p' q' n n' Caller.locking f g k h = tt
IsCalled-mono p q p' q' n n' (Caller.unlocked took) f g k h = f h
IsCalled-mono p q p' q' n n' Caller.awaiting f g k h = (f h.0, g h.1)
IsCalled-mono p q p' q' n n' (Caller.returned false) f g k h = f h
IsCalled-mono p q p' q' n n' (Caller.returned true) f g k h = (f h.0, g h.1, k h.2)
