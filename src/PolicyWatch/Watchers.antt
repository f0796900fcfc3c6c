-- ===== src/PolicyWatch/Watchers.antt =====
-- modulesdk/testkit/hostdata.go and hostserver.go: the policy with any number of writers and watchers.
-- `SetPolicy` takes the list of the watchers under the mutex and wakes them behind it, one after the
-- other, while other writers, and watchers that are added, come between. A watcher's loop is that of
-- `PolicyWatch`.
pub mod Views
use weaveplatform_sdk.Base.{
  ℕ, zero, suc, ◌+◌, ◌%◌, ◌^◌, ◌<◌, ◌≡◌, Bool, true, false, List, [], ◌∷◌, ◌++◌, Option, none, some,
  Bytes, length, get_elem?, set,
}
use weaveplatform_sdk.Round.{Round, begun, moved}
use weaveplatform_sdk.PolicyWatch.{Stage, Watch, Action, act}

-- A watcher: its channel's token, and the loop of its stream.
pub record Slot : Type 0 where
  pub token : Bool
  pub stage : Stage
  pub sent : ℕ
  pub received : List (ℕ × Bytes)

-- A `SetPolicy` behind the mutex, with a token for each watcher.
abbrev pub Writer : Type 0
Writer = Round (Unit {0})

pub record Policy : Type 0 where
  pub revision : ℕ
  pub document : Bytes
  pub watchers : List Slot
  pub writers : List Writer

abbrev pub new_policy : Policy
new_policy = record { revision = 0; document = []; watchers = []; writers = [] }

-- `SetPolicy`, up to the unlocking.
unfoldable pub set_policy : Bytes → Policy → Policy
set_policy document p = record p {
  revision = (p.revision + 1) % 2 ^ 64;
  document = document;
  writers = p.writers ++ begun tt (length p.watchers) ∷ [];
}

abbrev pub new_slot : Slot
new_slot = record { token = false; stage = Stage.reading; sent = 0; received = [] }

unfoldable pub add_policy_watcher : Policy → Policy
add_policy_watcher p = record p { watchers = p.watchers ++ new_slot ∷ [] }

-- A watcher as `PolicyWatch` has it, with the wake-ups that writers owe it.
abbrev pub watch_of : Policy → ℕ → Slot → Watch
watch_of p wakes w = record {
  revision = p.revision;
  document = p.document;
  wakes = wakes;
  token = w.token;
  stage = w.stage;
  sent = w.sent;
  received = w.received;
}

abbrev pub slot_of : Watch → Slot
slot_of w = record { token = w.token; stage = w.stage; sent = w.sent; received = w.received }

-- The actions of a watcher itself.
abbrev pub IsOwn : Action → Type 0
IsOwn (Action.change document) = ⊥
IsOwn Action.wake = ⊥
IsOwn (Action.look delivered) = Unit {0}
IsOwn Action.take_token = Unit {0}
IsOwn Action.hang_up = Unit {0}

pub data PolicyStep (p : Policy) : Policy → Type 0 where
  change : (document : Bytes) → PolicyStep p (set_policy document p)
  -- A writer's send to the channel of its next watcher; a full channel drops it.
  wake :
      (before behind : List Writer) (x : Writer) (w : Slot)
      → p.writers ≡ before ++ x ∷ behind
      → x.next < x.upto
      → get_elem? p.watchers x.next ≡ some w
      → PolicyStep p (record p {
        writers = before ++ moved x ∷ behind;
        watchers = set p.watchers x.next (record w { token = true });
      })
  register : PolicyStep p (add_policy_watcher p)
  watching :
      (k : ℕ) (a : Action) (w : Slot)
      → IsOwn a
      → get_elem? p.watchers k ≡ some w
      → PolicyStep p (record p { watchers = set p.watchers k (slot_of (act a (watch_of p 0 w))) })

-- With the number of steps.
pub data PolicyReach : ℕ → Policy → Type 0 where
  start : PolicyReach zero new_policy
  next : {n : ℕ} {p q : Policy} → PolicyReach n p → PolicyStep p q → PolicyReach (suc n) q
