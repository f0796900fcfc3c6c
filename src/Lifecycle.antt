-- ===== src/Lifecycle.antt =====
-- modulesdk/lifecycle.go, with the interface of modulesdk/module.go: the server that core drives.
-- `Module S` is the interface `Module` with the optional `ConfigReceiver` and `Scheduled`; `S` is the
-- module's own state, and a callback returns its new state, the surfaces that it declares through
-- `Host.UI`, one list for each call, and its error. The mutex makes each handler one step. `calls` is
-- a history that the code does not keep: what was asked of the module and of its host connection, in
-- order.
pub mod Handlers
pub mod Order
pub mod Started
pub mod Hosted
pub mod Response
pub mod Afterwards
pub mod Tokens
use weaveplatform_sdk.Base.{
  ℕ, ◌≡◌, Bool, true, false, not, List, [], ◌∷◌, ◌++◌, Option, none, some, Bytes, codes, same, ltb,
  ◌==◌, if◌then◌else◌,
}
use weaveplatform_sdk.Base.Decimal.{format_uint}
use weaveplatform_sdk.Base.Int.{seconds}
use weaveplatform_sdk.Errors.{GoError, Code, Status}
use weaveplatform_sdk.HostClient.{HostClient, Surface, Job, declare}

abbrev pub protocol_version : ℕ
protocol_version = 1

pub data HealthStatus : Type 0 where
  unknown healthy degraded unhealthy : HealthStatus

pub record Health : Type 0 where
  pub status : HealthStatus
  pub reason : Bytes
  pub details : List (Bytes × Bytes)

pub record Module (S : Type 0) : Type 0 where
  pub id : Bytes
  pub requires : S → List Bytes
  pub set_config : Option (Bytes → S → S × Option GoError)
  pub init : S → S × List (List Surface) × Option GoError
  pub start : S → S × List (List Surface) × Option GoError
  -- with the seconds of the deadline that `Stop` sets, if it sets one
  pub stop : Option ℕ → S → S × Option GoError
  pub health : S → Health
  pub jobs : Option (S → List Job)

pub data State : Type 0 where
  created inited started stopped : State

-- What is asked, with its success.
pub data Call : Type 0 where
  set_config connect init start stop : Bool → Call
  close jobs_begin jobs_end : Call

pub record Server (S : Type 0) : Type 0 where
  pub module_state : S
  pub host : Option HostClient
  pub state : State
  -- the tokens in the channels `shutdown` and `hostLost`, which hold one each
  pub shutdown : Bool
  pub host_lost : Bool
  -- a goroutine waits for the loss of the connection
  pub watching : Bool
  pub health_interval : ℕ
  pub calls : List Call

pub record InitRequest : Type 0 where
  pub module_id : Bytes
  pub protocol : ℕ
  pub config : Bytes
  pub watchdog_interval_seconds : ℕ

pub record InitResponse : Type 0 where
  pub requires : List Bytes
  pub surfaces : List Surface
  pub health_interval_seconds : ℕ

-- Why an RPC is refused, with what the message quotes; the error of a callback is its last part.
pub data Refusal : Type 0 where
  init_twice : Refusal
  identity_mismatch : Bytes → Bytes → Refusal
  protocol_mismatch : ℕ → Refusal
  bad_config no_host init_failed start_failed stop_failed : GoError → Refusal
  start_in_state : ℕ → Refusal

unfoldable pub refusal_code : Refusal → Code
refusal_code Refusal.init_twice = Code.failed_precondition
refusal_code (Refusal.identity_mismatch got want) = Code.failed_precondition
refusal_code (Refusal.protocol_mismatch got) = Code.failed_precondition
refusal_code (Refusal.bad_config e) = Code.invalid_argument
refusal_code (Refusal.no_host e) = Code.unavailable
refusal_code (Refusal.init_failed e) = Code.internal
refusal_code (Refusal.start_failed e) = Code.internal
refusal_code (Refusal.stop_failed e) = Code.internal
refusal_code (Refusal.start_in_state n) = Code.failed_precondition

-- What an RPC answers.
pub data Reply {ℓ} (A : Type ℓ) : Type ℓ where
  ok : A → Reply A
  err : Refusal → Reply A

abbrev pub succeeded : Option GoError → Bool
succeeded none = true
succeeded (some e) = false

-- Every `Declare` of a callback, whatever it answers.
unfoldable pub declare_all : List (List Surface) → HostClient → HostClient
declare_all [] h = h
declare_all (surfaces ∷ rest) h = declare_all rest (declare surfaces h).0

-- `%d` of a state.
abbrev pub state_number : State → ℕ
state_number State.created = 0
state_number State.inited = 1
state_number State.started = 2
state_number State.stopped = 3

abbrev pub is_state : State → State → Bool
is_state a b = state_number a == state_number b
