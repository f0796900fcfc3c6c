-- ===== src/StubCore/Harness.antt =====
-- modulesdk/testkit/stubcore.go: what `Launch` sets up and takes down around its decision, and
-- `Shutdown`, `WaitExit` and `Kill`. `Setup` has the errors of the calls in front of the wait for the
-- module's line, which are not of this repository, or nil.
pub mod Cleanup
use weaveplatform_sdk.Base.{ℕ, Bool, true, false, Option, none, some, ◌⊎◌, inl, inr, Bytes}
use weaveplatform_sdk.Errors.{GoError}
use weaveplatform_sdk.Handshake.{Line, Window}
use weaveplatform_sdk.Lifecycle.{InitRequest}
use weaveplatform_sdk.StubCore.{Answer, LaunchError, launch}

pub record Setup : Type 0 where
  pub nonce : Option GoError
  pub sock_dir : Option GoError
  pub listen : Option GoError
  pub stdout_pipe : Option GoError
  pub stderr_pipe : Option GoError
  pub start : Option GoError

-- The process: `exited` has been waited for, `killed` not.
pub data Process : Type 0 where
  unstarted running killed exited : Process

pub record Harness : Type 0 where
  pub sock_dir : Bool
  pub host_serving : Bool
  pub process : Process
  pub conn_open : Bool

abbrev pub nothing : Harness
nothing = record {
  sock_dir = false;
  host_serving = false;
  process = Process.unstarted;
  conn_open = false;
}

-- `hostSrv.Stop()`, and with `cmd.Process.Kill()` before it.
abbrev pub stop_host : Harness → Harness
stop_host h = record h { host_serving = false }

abbrev pub kill_and_stop : Harness → Harness
kill_and_stop h = stop_host (record h { process = Process.killed })

-- `if err != nil { return nil, err }`, with what is left then.
abbrev pub checked :
    Option GoError
    → (GoError → LaunchError)
    → Harness
    → (LaunchError ⊎ Unit {0}) × Harness
    → (LaunchError ⊎ Unit {0}) × Harness
checked none why left next = next
checked (some e) why left next = (inl (why e), left)

abbrev pub with_dir : Harness
with_dir = record nothing { sock_dir = true }

abbrev pub serving : Harness
serving = record with_dir { host_serving = true }

-- Up to the start of the process.
unfoldable pub spawn : Setup → (LaunchError ⊎ Unit {0}) × Harness
spawn s = checked s.nonce LaunchError.setup_failed nothing (
    checked s.sock_dir LaunchError.setup_failed nothing (
      checked s.listen LaunchError.setup_failed with_dir (
        checked s.stdout_pipe LaunchError.setup_failed (stop_host serving) (
          checked s.stderr_pipe LaunchError.setup_failed (stop_host serving) (
            checked s.start LaunchError.start_failed (stop_host serving)
              (inr tt, record serving { process = Process.running }))))))

-- What an error behind the start takes down, by the answer that it comes with.
unfoldable pub take_down : Answer → Harness → Harness
take_down (Answer.printed raw) h = kill_and_stop h
take_down (Answer.exited code) h = stop_host (record h { process = Process.exited })
take_down Answer.timed_out h = kill_and_stop h
take_down (Answer.context_done e) h = kill_and_stop h

unfoldable pub settle : Answer → LaunchError ⊎ Line → Harness → (LaunchError ⊎ Line) × Harness
unfolding take_down
settle answer (inl e) h = (inl e, take_down answer h)
settle answer (inr l) h = (inr l, record h { conn_open = true })

-- `Launch` behind the start.
unfoldable pub once_spawned :
    Window
    → (Line → Option GoError)
    → Answer
    → (LaunchError ⊎ Unit {0}) × Harness
    → (LaunchError ⊎ Line) × Harness
once_spawned w dial answer (inl e, h) = (inl e, h)
once_spawned w dial answer (inr started, h) = settle answer (launch w dial answer) h

unfoldable pub launch_stub :
    Setup → Window → (Line → Option GoError) → Answer → (LaunchError ⊎ Line) × Harness
unfolding once_spawned
launch_stub s w dial answer = once_spawned w dial answer (spawn s)

-- How the wait for the process goes: it ends, with `cmd.Wait`'s error, or the context is done first.
pub data Exit : Type 0 where
  ended : Option GoError → Exit
  given_up : GoError → Exit

unfoldable pub wait_exit : Exit → Harness → Harness × Option GoError
wait_exit (Exit.ended e) h =
    (record h { process = Process.exited; conn_open = false; host_serving = false }, e)
wait_exit (Exit.given_up e) h =
    (record h { process = Process.exited; conn_open = false; host_serving = false }, some e)

-- `rpc` is the error of the Shutdown call.
unfoldable pub shutdown : Option GoError → Exit → Harness → Harness × Option GoError
unfolding wait_exit
shutdown (some e) x h = (h, some e)
shutdown none x h = wait_exit x h

unfoldable pub kill : Harness → Harness
kill h = record h { process = Process.exited; conn_open = false; host_serving = false }

pub record StubCore : Type 0 where
  pub window : Window
  pub module_id : Bytes
  pub config : Bytes

-- The request of `StubCore.Init`, without what the module does not read; it asks for no watchdog.
unfoldable pub init_request : StubCore → Line → InitRequest
init_request c l = record {
  module_id = c.module_id;
  protocol = l.protocol;
  config = c.config;
  watchdog_interval_seconds = 0;
}
