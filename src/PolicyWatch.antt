-- ===== src/PolicyWatch.antt =====
-- modulesdk/testkit/hostdata.go (`SetPolicy`, `Policy`, `addPolicyWatcher`) and hostserver.go
-- (`policyServer.Watch`): writers of the policy and one watcher's stream, interleaved. `SetPolicy`
-- changes the document under the mutex and wakes the watchers behind it, so that is two steps; the
-- watcher reads under the mutex, sends, and then waits for its channel, which holds one token.
-- Watchers has any number of writers and of watchers.
pub mod Current
pub mod Watchers
use weaveplatform_sdk.Base.{
  ℕ, ◌+◌, ◌-◌, ◌%◌, ◌^◌, ◌≤◌, ◌<◌, ◌≡◌, refl, Bool, true, false, List, [], ◌∷◌, ◌++◌, Option, none,
  some, arith, Bytes, All, length, leb, ltb, if◌then◌else◌,
}

pub data Stage : Type 0 where
  -- before the loop reads the policy, in the select, and after the stream has ended
  reading waiting closed : Stage

pub record Watch : Type 0 where
  pub revision : ℕ
  pub document : Bytes
  -- the `SetPolicy` calls that have changed the document and not yet woken the watcher
  pub wakes : ℕ
  pub token : Bool
  pub stage : Stage
  pub sent : ℕ
  pub received : List (ℕ × Bytes)

pub data Action : Type 0 where
  -- `SetPolicy`, its two halves
  change : Bytes → Action
  wake : Action
  -- the watcher reads, and sends if the revision is new; the answer of `stream.Send`
  look : Bool → Action
  -- the select takes the token, or the context is done
  take_token : Action
  hang_up : Action

-- A new stream, on a policy of any revision. Writers from before its channel was registered do not
-- wake it.
abbrev pub opened : ℕ → Bytes → Watch
opened revision document = record {
  revision = revision;
  document = document;
  wakes = 0;
  token = false;
  stage = Stage.reading;
  sent = 0;
  received = [];
}

-- The loop's first half: read, send if the revision is at least `sent`, remember it.
unfoldable pub look_at : Bool → Watch → Watch
look_at delivered w =
    if leb w.sent w.revision
    then (if delivered
        then record w {
          stage = Stage.waiting;
          sent = (w.revision + 1) % 2 ^ 64;
          received = w.received ++ (w.revision, w.document) ∷ [];
        }
        else record w { stage = Stage.closed })
    else record w { stage = Stage.waiting }

-- An action that the stage does not allow, or for which there is no token, does not happen.
unfoldable pub act : Action → Watch → Watch
unfolding look_at
act (Action.change document) w = record w {
  revision = (w.revision + 1) % 2 ^ 64;
  document = document;
  wakes = w.wakes + 1;
}
act Action.wake w = if ltb 0 w.wakes then record w { wakes = w.wakes - 1; token = true } else w
act (Action.look delivered) w = elim w.stage [
  | Stage.reading ↦ look_at delivered w
  | Stage.waiting ↦ w
  | Stage.closed ↦ w
]
act Action.take_token w = elim w.stage [
  | Stage.reading ↦ w
  | Stage.waiting ↦ if w.token then record w { token = false; stage = Stage.reading } else w
  | Stage.closed ↦ w
]
act Action.hang_up w = elim w.stage [
  | Stage.reading ↦ w
  | Stage.waiting ↦ record w { stage = Stage.closed }
  | Stage.closed ↦ w
]

unfoldable pub run : List Action → Watch → Watch
run [] w = w
run (a ∷ as') w = run as' (act a w)
