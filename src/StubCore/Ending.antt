-- ===== src/StubCore/Ending.antt =====
-- modulesdk/testkit/stubcore.go (`Shutdown`, `WaitExit`) with modulesdk/lifecycle.go and serve.go: the
-- stub of core asks a module that it drives to exit. How gRPC hands a refusal over, and the error that
-- `cmd.Wait` gives for an exit code other than 0, are arguments.
use weaveplatform_sdk.Base.{ℕ, zero, suc, ◌≡◌, ◌≢◌, ◌⊎◌, false, List, Option, none, some}
use weaveplatform_sdk.Errors.{GoError}
use weaveplatform_sdk.Lifecycle.{Module, Server, State, Refusal, Reply}
use weaveplatform_sdk.Lifecycle.Handlers.{new_server, deadline}
use weaveplatform_sdk.Lifecycle.Handlers as Handlers
use weaveplatform_sdk.Lifecycle.Order.{Event, run}
use weaveplatform_sdk.Serve.{Wake, wake_error, hang_up, exit_code}
use weaveplatform_sdk.Serve.End.{Leaves}
use weaveplatform_sdk.StubCore.Harness.{Harness, Process, Exit, shutdown}

-- The error of an RPC at its caller.
unfoldable pub rpc_error : (Refusal → GoError) → Reply (Unit {0}) → Option GoError
rpc_error handed (Reply.ok u) = none
rpc_error handed (Reply.err e) = some (handed e)

-- The end of a process, by its exit code.
unfoldable pub exit_of : (ℕ → GoError) → ℕ → Exit
exit_of exit_error zero = Exit.ended none
exit_of exit_error (suc n) = Exit.ended (some (exit_error (suc n)))

-- No process, no host services and no connection.
abbrev pub taken_down : Harness → Harness
taken_down h = record h { process = Process.exited; conn_open = false; host_serving = false }

module _ (handed : Refusal → GoError) (exit_error : ℕ → GoError) {S : Type 0} (m : Module S) where
  -- The error of the Shutdown call: the one that gRPC has when no answer came, or what the handler
  -- answered.
  unfoldable pub call_error : Option GoError → Server S → Option GoError
  unfolding rpc_error
  call_error (some e) s = some e
  call_error none s = rpc_error handed (Handlers.shutdown m s).1

  -- How the wait ends: with the context's error, if that is done first; or with the process, which has
  -- the code that `serve` leaves it with when the token of `Shutdown` wakes it.
  unfoldable pub exit_after : Option GoError → Exit
  unfolding exit_of
  exit_after (some e) = Exit.given_up e
  exit_after none = exit_of exit_error (exit_code (wake_error Wake.shutdown_asked))

  -- What the stub's Shutdown comes to, by what gRPC has to say of the call and by the context of the wait.
  unfoldable pub shut_down :
      Option GoError → Option GoError → Server S → Harness → Harness × Option GoError
  unfolding call_error exit_after
  shut_down lost late_context s h = shutdown (call_error lost s) (exit_after late_context) h

  -- A module that was not started, or that stops, is shut down; the Stop of another one fails.
  abbrev pub ShutsDown : S → List Event → List Event → Harness → Type 0
  ShutsDown t es late h =
      let s = run m (new_server m t) es in
      let asked = (Handlers.shutdown m s).0 in
      ((s.state ≢ State.started) ⊎ ((m.stop none s.module_state).1 ≡ none))
        × (shut_down none none s h ≡ (taken_down h, none))
        × ((x : GoError) → shut_down none (some x) s h ≡ (taken_down h, some x))
        × Leaves Wake.shutdown_asked (run m asked late)
            (hang_up Wake.shutdown_asked (run m asked late)) 0
      ⊎ (e : GoError) × (s.state ≡ State.started)
        × ((m.stop none s.module_state).1 ≡ some e)
        × ((late_context : Option GoError)
            → shut_down none late_context s h ≡ (h, some (handed (Refusal.stop_failed e))))
        × (asked.state ≡ State.started)
