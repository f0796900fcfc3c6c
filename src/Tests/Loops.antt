-- ===== src/Tests/Loops.antt =====
-- The loops at concrete inputs: a job, the watchdog, the gated listener and the backoff.
use weaveplatform_sdk.Base.{
  ℕ, zero, suc, ◌*◌, ◌^◌, ◌<◌, ◌≡◌, ◌⊎◌, refl, true, false, List, [], ◌∷◌, some, arith, codes, leb,
  min, if◌then◌else◌,
}
use weaveplatform_sdk.Base.Int.{ℤ, is_positive}
use weaveplatform_sdk.HostClient.{Job}
use weaveplatform_sdk.HostClient.Jobs.{
  Select, JobEvent, interval, times, cycles, launch_job, launch_job_lem,
}
use weaveplatform_sdk.HostClient.Watchdog.{Tick}
use weaveplatform_sdk.Retry.{Float, new_backoff, computed, computed_curve}

-- Its interval is five seconds, twice, and then zero.
abbrev sync : Job
sync = record {
  name = codes "sync";
  every = ℤ.pos 0;
  every_func = some (λ n. if leb n 1 then ℤ.pos 5000000000 else ℤ.pos 0);
}

sync_fires : (i : ℕ) → i < 2 → is_positive (interval sync i) ≡ true
unfolding interval
sync_fires zero h = refl
sync_fires (suc zero) h = refl
sync_fires (suc (suc i)) h = ground arith

launch_job_lem_example :
    (is_positive (interval sync 2) ≡ true)
      × (launch_job sync (times 2 (Select.context_done ∷ []))
          ≡ JobEvent.ran ∷ cycles sync 0 2 (JobEvent.waits (interval sync 2) ∷ JobEvent.ended ∷ []))
    ⊎ (is_positive (interval sync 2) ≡ false)
      × (launch_job sync (times 2 []) ≡ JobEvent.ran ∷ cycles sync 0 2 (JobEvent.ended ∷ []))
launch_job_lem_example = launch_job_lem sync 2 [] sync_fires

abbrev broken_stream : List Tick
broken_stream =
    record { opens = true; sends = true }
    ∷ record { opens = true; sends = false }
    ∷ record { opens = true; sends = true }
    ∷ []

-- Whole numbers in place of float64.
abbrev whole : Float
whole = record { F = ℕ; of = λ n. n; mul = λ a b. a * b; ge = λ a b. leb b a; to_int = λ n. n }

computed_curve_example :
    ((computed whole (new_backoff whole) 10 ≡ 120000000000)
      ⊎ (leb 120000000000 (computed whole (new_backoff whole) 10) ≡ false))
    × (computed whole (new_backoff whole) 9 ≡ min 120000000000 (1000000000 * 2 ^ 9))
unfolding new_backoff
computed_curve_example =
    computed_curve whole (record { mul-of = λ a b h. refl; ge-of = λ a b h k. refl })
      (new_backoff whole) 9
