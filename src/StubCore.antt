-- ===== src/StubCore.antt =====
-- modulesdk/testkit/stubcore.go: what the stub of core decides in `Launch`: the environment of the
-- module, and what it makes of the module's answer. How the process answers is an `Answer`: its first
-- line, its exit before one, the timeout, or the end of the caller's context. `dial` is the error of
-- `ipc.GRPCClient`, or nil. Spawning, killing and listening are I/O.
pub mod Launch
pub mod Harness
pub mod Session
pub mod Ending
pub mod Scanner
pub mod Claimed
use weaveplatform_sdk.Base.{
  ℕ, Bool, true, false, not, ◌&&◌, ◌==◌, List, [], ◌∷◌, Option, none, some, ◌⊎◌, inl, inr, Bytes,
  if◌then◌else◌,
}
use weaveplatform_sdk.Base.Decimal.{format_uint}
use weaveplatform_sdk.Errors.{GoError}
use weaveplatform_sdk.Handshake.{
  Line, Window, HandshakeError, ok, err, parse, contains, exit_protocol_unsupported,
}
use weaveplatform_sdk.Serve.{Env}

pub data Answer : Type 0 where
  printed : Bytes → Answer
  exited : ℕ → Answer
  timed_out : Answer
  context_done : GoError → Answer

-- The errors of `Launch`, with what their messages quote; `setup_failed` stands for the errors that it
-- passes on as they are.
pub data LaunchError : Type 0 where
  protocol_refused timeout : LaunchError
  exited_early : ℕ → LaunchError
  setup_failed start_failed cancelled no_connection : GoError → LaunchError
  bad_line : HandshakeError → LaunchError
  outside_window : ℕ → Window → LaunchError

-- The zero value means [1, 1].
unfoldable pub advertised : Window → Window
advertised w = if w.min == 0 && w.max == 0 then record { min = 1; max = 1 } else w

unfoldable pub launch_env : Window → Bytes → Bytes → Bytes → Env
launch_env w token host_addr sock_dir = record {
  protocol_min = format_uint w.min;
  protocol_max = format_uint w.max;
  token = token;
  host_addr = host_addr;
  socket_dir = sock_dir;
}

-- The module's line.
unfoldable pub read_line : Window → (Line → Option GoError) → Bytes → LaunchError ⊎ Line
read_line w dial raw = elim (parse raw) [
  | err e ↦ inl (LaunchError.bad_line e)
  | ok l ↦
      if not (contains w l.protocol)
      then inl (LaunchError.outside_window l.protocol w)
      else elim (dial l) [ none ↦ inr l | some e ↦ inl (LaunchError.no_connection e) ]
]

unfoldable pub launch : Window → (Line → Option GoError) → Answer → LaunchError ⊎ Line
unfolding read_line
launch w dial (Answer.printed raw) = read_line (advertised w) dial raw
launch w dial (Answer.exited code) =
    if code == exit_protocol_unsupported
    then inl LaunchError.protocol_refused
    else inl (LaunchError.exited_early code)
launch w dial Answer.timed_out = inl LaunchError.timeout
launch w dial (Answer.context_done e) = inl (LaunchError.cancelled e)
