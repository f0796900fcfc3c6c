-- ===== src/Serve/End.antt =====
-- modulesdk/serve.go with modulesdk/lifecycle.go: the server, and the exit code, when `serve` returns.
use mathlib.Core.Option
use weaveplatform_sdk.Base.{ℕ, ◌≡◌, refl, Bool, true, false, List, Option, none, some, arith}
use weaveplatform_sdk.HostClient.{HostClient, close, stop_jobs}
use weaveplatform_sdk.Lifecycle.{Module, Server, State}
use weaveplatform_sdk.Lifecycle.Handlers.{on_host, new_server}
use weaveplatform_sdk.Lifecycle.Order.{Event, IsOrdered, run}
use weaveplatform_sdk.Lifecycle.Order.Steps.{run-IsOrdered, run-new_server-IsOrdered}
use weaveplatform_sdk.Lifecycle.Hosted.Client.{IsIdle, HostFits, jobs_up, stop_jobs-IsIdle}
use weaveplatform_sdk.Lifecycle.Hosted.{IsHosted, run-IsHosted, run-new_server-IsHosted}
use weaveplatform_sdk.Lifecycle.Tokens.{
  HasHost, IsTokened, new_server-IsTokened, run-IsTokened, run-shutdown, run-host_lost,
}
use weaveplatform_sdk.Serve.{Wake, wake_error, hang_up, exit_code}

-- No goroutine is left, and the connection is closed, if there ever was one.
abbrev pub IsDown : Option HostClient → Type 0
IsDown none = Unit {0}
IsDown (some h) = IsIdle h × (h.closed ≡ true)

close-IsIdle : (h : HostClient) → IsIdle h → IsDown (some (close h))
unfolding close
close-IsIdle h i = ground arith

HostFits-stop :
    (t : State) (up : Bool) (h : HostClient)
    → HostFits t up (some h)
    → IsDown (some (close (stop_jobs h)))
HostFits-stop State.created up h f = ground arith
HostFits-stop State.inited up h f = close-IsIdle (stop_jobs h) (stop_jobs-IsIdle false h f.0).0
HostFits-stop State.started up h f = close-IsIdle (stop_jobs h) (stop_jobs-IsIdle up h f.0).0
HostFits-stop State.stopped up h f = close-IsIdle (stop_jobs h) (stop_jobs-IsIdle false h f).0

down :
    (t : State) (up : Bool) (o : Option HostClient)
    → HostFits t up o
    → IsDown (Option.map (λ h. close (stop_jobs h)) o)
down t up none f = tt
down t up (some h) f = HostFits-stop t up h f

on_host-IsDown :
    {S : Type 0} (s : Server S) → IsHosted s → IsDown (on_host (λ h. close (stop_jobs h)) s).host
on_host-IsDown s h = down s.state (jobs_up false s.calls) s.host h

-- What is there to wake `serve`: a token in one of its two channels; a signal, or the end of the
-- server, may come at any time.
abbrev pub CanWake : {S : Type 0} → Wake → Server S → Type 0
CanWake Wake.shutdown_asked s = s.shutdown ≡ true
CanWake Wake.host_gone s = s.host_lost ≡ true
CanWake Wake.signalled s = Unit {0}
CanWake (Wake.server_ended e) s = Unit {0}

-- How the process is left, with its exit code; `before` is the server when it had stopped.
abbrev pub Leaves : {S : Type 0} → Wake → Server S → Server S → ℕ → Type 0
Leaves Wake.shutdown_asked before s code =
    (code ≡ 0) × IsDown s.host × (s.state ≡ State.stopped) × IsOrdered s
Leaves Wake.host_gone before s code = (code ≡ 0) × IsDown s.host × HasHost s.host
Leaves Wake.signalled before s code = (code ≡ 0) × IsDown s.host
Leaves (Wake.server_ended e) before s code = (code ≡ 1) × (s ≡ before)

HasHost-map :
    (f : HostClient → HostClient) (o : Option HostClient) → HasHost o → HasHost (Option.map f o)
HasHost-map f none h = h
HasHost-map f (some x) h = h

module _ {S : Type 0} (m : Module S) (t : S) (es late : List Event) where
  abbrev awake : Server S
  awake = run m (new_server m t) es

  -- The RPCs that were on their way, and those that came until the server had stopped.
  abbrev ended : Server S
  ended = run m awake late

  awake-IsTokened : IsTokened awake
  awake-IsTokened = run-IsTokened m (new_server m t) es (new_server-IsTokened m t)

  ended-IsTokened : IsTokened ended
  ended-IsTokened = run-IsTokened m awake late awake-IsTokened

  ended-IsHosted : IsHosted ended
  ended-IsHosted = run-IsHosted m awake late (run-new_server-IsHosted m t es)

  -- Whatever RPCs core made, in whatever order, whatever the module did in them, and whatever came
  -- until the server had stopped: when a shutdown, a signal or the loss of the host woke `serve`, the
  -- process ends with 0, no goroutine of a job or of the watchdog is left, and the connection to the
  -- host is closed, if there is one. After a shutdown the server is stopped, and the module has had
  -- its calls in order, so that Stop has succeeded if Start has. The loss of the host wakes `serve`
  -- only if there is a host client. When the gRPC server ended by itself, the process ends with 1, and
  -- the host client is as the RPCs left it.
  pub serve_ends :
      (w : Wake) → CanWake w awake → Leaves w ended (hang_up w ended) (exit_code (wake_error w))
  unfolding hang_up exit_code wake_error
  serve_ends Wake.shutdown_asked can = (
    refl,
    on_host-IsDown ended ended-IsHosted,
    ended-IsTokened.stopped (run-shutdown m awake late can),
    run-IsOrdered m awake late (run-new_server-IsOrdered m t es),
  )
  serve_ends Wake.host_gone can = (
    refl,
    on_host-IsDown ended ended-IsHosted,
    HasHost-map (λ h. close (stop_jobs h)) ended.host
        (ended-IsTokened.hosted (ended-IsTokened.watched (run-host_lost m awake late can))).1,
  )
  serve_ends Wake.signalled can = (refl, on_host-IsDown ended ended-IsHosted)
  serve_ends (Wake.server_ended e) can = (refl, refl)
