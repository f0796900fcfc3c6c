-- ===== src/StubCore/Harness/Cleanup.antt =====
-- modulesdk/testkit/stubcore.go: what a launch leaves behind.
use weaveplatform_sdk.Base.{◌≡◌, ◌≢◌, refl, ◌⊎◌, inl, inr, true, false, Option, none, some}
use weaveplatform_sdk.Errors.{GoError}
use weaveplatform_sdk.Handshake.{Line, Window}
use weaveplatform_sdk.StubCore.{Answer, LaunchError, launch}
use weaveplatform_sdk.StubCore.Harness.{
  Setup, Process, Harness, checked, nothing, with_dir, serving, stop_host, spawn, take_down, settle,
  once_spawned, launch_stub, Exit, wait_exit, kill,
}

-- No process runs, and neither the host services nor a connection are left.
pub record IsDown (h : Harness) : Type 0 where
  pub host_stopped : h.host_serving ≡ false
  pub not_running : h.process ≢ Process.running
  pub conn_closed : h.conn_open ≡ false

pub record IsUp (h : Harness) : Type 0 where
  pub host_serves : h.host_serving ≡ true
  pub is_running : h.process ≡ Process.running
  pub is_connected : h.conn_open ≡ true

-- The start of the process, with all before it.
abbrev pub Spawned : (LaunchError ⊎ Unit {0}) × Harness → Type 0
Spawned (inl e, h) = IsDown h
Spawned (inr u, h) = h ≡ record serving { process = Process.running }

abbrev pub Launched : (LaunchError ⊎ Line) × Harness → Type 0
Launched (inl e, h) = IsDown h
Launched (inr l, h) = IsUp h

module _ (why : GoError → LaunchError) (left : Harness) (down : IsDown left) where
  checked-Spawned :
      (e : Option GoError) (next : (LaunchError ⊎ Unit {0}) × Harness)
      → Spawned next
      → Spawned (checked e why left next)
  checked-Spawned none next h = h
  checked-Spawned (some e) next h = down

nothing-IsDown : IsDown nothing
nothing-IsDown = record { host_stopped = refl; not_running = λ e. cc; conn_closed = refl }

with_dir-IsDown : IsDown with_dir
with_dir-IsDown = record { host_stopped = refl; not_running = λ e. cc; conn_closed = refl }

serving-IsDown : IsDown (stop_host serving)
serving-IsDown = record { host_stopped = refl; not_running = λ e. cc; conn_closed = refl }

spawn-Spawned : (s : Setup) → Spawned (spawn s)
unfolding spawn
spawn-Spawned s =
    let left = λ (h : Harness) (down : IsDown h). checked-Spawned LaunchError.setup_failed h down in
    left nothing nothing-IsDown s.nonce _ (
      left nothing nothing-IsDown s.sock_dir _ (
        left with_dir with_dir-IsDown s.listen _ (
          left (stop_host serving) serving-IsDown s.stdout_pipe _ (
            left (stop_host serving) serving-IsDown s.stderr_pipe _ (
              checked-Spawned LaunchError.start_failed (stop_host serving) serving-IsDown s.start _
                refl)))))

take_down-IsDown :
    (answer : Answer) (h : Harness) → h.conn_open ≡ false → IsDown (take_down answer h)
unfolding take_down
take_down-IsDown (Answer.printed raw) h e = record {
  host_stopped = refl;
  not_running = λ k. cc;
  conn_closed = e;
}
take_down-IsDown (Answer.exited code) h e = record {
  host_stopped = refl;
  not_running = λ k. cc;
  conn_closed = e;
}
take_down-IsDown Answer.timed_out h e = record {
  host_stopped = refl;
  not_running = λ k. cc;
  conn_closed = e;
}
take_down-IsDown (Answer.context_done x) h e = record {
  host_stopped = refl;
  not_running = λ k. cc;
  conn_closed = e;
}

settle-Launched :
    (answer : Answer) (result : LaunchError ⊎ Line)
    → Launched (settle answer result (record serving { process = Process.running }))
settle-Launched answer (inl e) =
    unfold settle in take_down-IsDown answer (record serving { process = Process.running }) refl
settle-Launched answer (inr l) =
    unfold settle in record { host_serves = refl; is_running = refl; is_connected = refl }

once_spawned-Launched :
    (w : Window) (dial : Line → Option GoError) (answer : Answer)
    (p : (LaunchError ⊎ Unit {0}) × Harness)
    → Spawned p
    → Launched (once_spawned w dial answer p)
unfolding once_spawned
once_spawned-Launched w dial answer (inl e, h) down = down
once_spawned-Launched w dial answer (inr u, h) up =
    rw up (settle-Launched answer (launch w dial answer))

wait_exit-IsDown : (x : Exit) (h : Harness) → IsDown (wait_exit x h).0 × IsDown (kill h)
unfolding wait_exit kill
wait_exit-IsDown (Exit.ended e) h = (
  record { host_stopped = refl; not_running = λ k. cc; conn_closed = refl },
  record { host_stopped = refl; not_running = λ k. cc; conn_closed = refl },
)
wait_exit-IsDown (Exit.given_up e) h = (
  record { host_stopped = refl; not_running = λ k. cc; conn_closed = refl },
  record { host_stopped = refl; not_running = λ k. cc; conn_closed = refl },
)

-- A launch that fails, at whatever call or answer, leaves no running process, no host services and no
-- connection. One that succeeds leaves all three; and then `WaitExit`, however the wait goes, and
-- `Kill` take them down.
pub launch_stub_cleanup :
    (s : Setup) (w : Window) (dial : Line → Option GoError) (answer : Answer) (x : Exit)
    → let h = (launch_stub s w dial answer).1 in
      Launched (launch_stub s w dial answer) × IsDown (wait_exit x h).0 × IsDown (kill h)
launch_stub_cleanup s w dial answer x =
    let (waited, killed) = wait_exit-IsDown x (launch_stub s w dial answer).1 in
    (
      unfold launch_stub in once_spawned-Launched w dial answer (spawn s) (spawn-Spawned s),
      waited,
      killed,
    )
