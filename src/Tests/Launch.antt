-- ===== src/Tests/Launch.antt =====
-- The launch of a module at concrete inputs.
use weaveplatform_sdk.Base.{
  ◌≡◌, ◌<◌, length, ◌≢◌, ◌↔◌, inl, inr, refl, true, false, [], ◌∷◌, none, arith, Bytes, codes, map,
  same, ◌∙◌, ℕ, Option, some, if◌then◌else◌, split,
}
use weaveplatform_sdk.Base.Decimal.{format_uint}
use weaveplatform_sdk.Base.Space.{back_width}
use weaveplatform_sdk.Errors.{GoError}
use weaveplatform_sdk.Handshake.{Window, contains, format, exit_protocol_unsupported}
use weaveplatform_sdk.Lifecycle.{
  Module, HealthStatus, InitResponse, Refusal, Reply, protocol_version, refusal_code,
}
use weaveplatform_sdk.Lifecycle.Handlers.{new_server, configure, init}
use weaveplatform_sdk.Serve.{Env, System, Wake, network, module_addr, serve, exit_code}
use weaveplatform_sdk.Serve.Paths.{clean, join_path}
use weaveplatform_sdk.Serve.Exit.{Advertises, announce, reported, serve_exit_iff, serve_announces}
use weaveplatform_sdk.StubCore.{Answer, LaunchError, advertised, launch_env, launch}
use weaveplatform_sdk.StubCore.Scanner.{max_token}
use weaveplatform_sdk.StubCore.Launch.{IsReady, answer_of, connected, line_at, launch-serve}
use weaveplatform_sdk.StubCore.Harness.{
  Setup, Exit, StubCore, launch_stub, wait_exit, kill, init_request,
}
use weaveplatform_sdk.StubCore.Harness.Cleanup.{Launched, IsDown, launch_stub_cleanup}
use weaveplatform_sdk.StubCore.Session.{init-launch_iff}

clean_up : clean (codes "/../a//./b/../c.sock") ≡ codes "/a/c.sock"
unfolding clean split same
clean_up = refl

clean_above : clean (codes "../x/../../y/") ≡ codes "../../y"
unfolding clean split same
clean_above = refl

clean_nothing : clean (codes "a/..") ≡ codes "."
unfolding clean split same
clean_nothing = refl

abbrev linux : System
linux = record { is_windows = false; nonce = []; nonce_error = none; listen = λ addr. none }

abbrev windows : System
windows = record {
  is_windows = true;
  nonce = 1 ∷ 171 ∷ [];
  nonce_error = none;
  listen = λ addr. none;
}

abbrev by_hand : Env
by_hand = record {
  protocol_min = [];
  protocol_max = [];
  token = [];
  host_addr = [];
  socket_dir = [];
}

pipe_addr : module_addr windows by_hand (codes "toy") ≡ inr (codes "\\\\.\\pipe\\weave-toy-01ab")
unfolding module_addr
pipe_addr = refl

abbrev next_protocols : Env
next_protocols = record {
  protocol_min = codes "2";
  protocol_max = codes "3";
  token = codes "t";
  host_addr = codes "/tmp/h.sock";
  socket_dir = codes "/tmp/w/";
}

serve_exit_iff_example :
    (exit_code (serve (codes "toy") linux next_protocols Wake.signalled).failure
      ≡ exit_protocol_unsupported)
    ↔ Advertises next_protocols false
serve_exit_iff_example = serve_exit_iff (codes "toy") linux next_protocols Wake.signalled

abbrev this_protocol : Env
this_protocol = record next_protocols { protocol_min = codes "1" }

abbrev toy_addr : Bytes
toy_addr = codes "/tmp/w/toy.sock"

serve_announces_example :
    ((serve (codes "toy") linux this_protocol Wake.signalled).stdout
      ≡ map (announce linux) (serve (codes "toy") linux this_protocol Wake.signalled).listening)
    × ((serve (codes "toy") linux this_protocol Wake.signalled).healthy
        ≡ reported (codes "toy") (serve (codes "toy") linux this_protocol Wake.signalled).listening)
    × (((serve (codes "toy") linux this_protocol Wake.signalled).listening ≡ toy_addr ∷ []) ↔ (
        Advertises this_protocol true
        × (this_protocol.token ≢ [])
        × (this_protocol.host_addr ≢ [])
        × (module_addr linux this_protocol (codes "toy") ≡ inr toy_addr)
        × (linux.listen toy_addr ≡ none)))
serve_announces_example = serve_announces (codes "toy") linux this_protocol Wake.signalled toy_addr

-- The zero window stands for [1, 1].
abbrev zero_window : Window
zero_window = record { min = 0; max = 0 }

ready :
    IsReady
      (codes "t")
      (codes "/tmp/h.sock")
      (codes "/tmp/w")
      (codes "toy")
      linux
      Wake.shutdown_asked
      (advertised zero_window)
      toy_addr
unfolding advertised module_addr launch_env back_width split same clean join_path format format_uint
    network
ready = record {
  is_window = omega arith;
  has_token = ground arith;
  has_host = ground arith;
  has_addr = refl;
  listens = refl;
  addressed = ground arith;
  addr_lacks_bar = omega arith;
  ends_visible = refl;
}

toy_fits : length (format (line_at linux toy_addr)) < max_token
unfolding format format_uint network
toy_fits = omega arith

launch-serve_example :
    launch zero_window
      (λ l. none)
      (answer_of (
        serve
          (codes "toy")
          linux
          (launch_env (advertised zero_window) (codes "t") (codes "/tmp/h.sock") (codes "/tmp/w"))
          Wake.shutdown_asked))
    ≡ (if contains (advertised zero_window) protocol_version
        then connected (λ l. none) (line_at linux toy_addr)
        else inl LaunchError.protocol_refused)
launch-serve_example =
    launch-serve (codes "t") (codes "/tmp/h.sock") (codes "/tmp/w") (codes "toy") linux
      Wake.shutdown_asked (λ l. none) zero_window toy_addr ready (omega arith) toy_fits

abbrev launched_toy : Answer
launched_toy = answer_of (
    serve (codes "toy") linux
      (launch_env (advertised zero_window) (codes "t") (codes "/tmp/h.sock") (codes "/tmp/w"))
      Wake.shutdown_asked)

abbrev all_set_up : Setup
all_set_up = record {
  nonce = none;
  sock_dir = none;
  listen = none;
  stdout_pipe = none;
  stderr_pipe = none;
  start = none;
}

launch_stub_cleanup_example :
    Launched (launch_stub all_set_up zero_window (λ l. none) launched_toy)
    × IsDown
        (wait_exit
          (Exit.ended none)
          (launch_stub all_set_up zero_window (λ l. none) launched_toy).1).0
    × IsDown (kill (launch_stub all_set_up zero_window (λ l. none) launched_toy).1)
launch_stub_cleanup_example =
    launch_stub_cleanup all_set_up zero_window (λ l. none) launched_toy (Exit.ended none)

-- A module without state or configuration.
abbrev quiet : Module (Unit {0})
quiet = record {
  id = codes "toy";
  requires = λ t. [];
  set_config = none;
  init = λ t. (t, [], none);
  start = λ t. (t, [], none);
  stop = λ deadline t. (t, none);
  health = λ t. record { status = HealthStatus.healthy; reason = []; details = [] };
  jobs = none;
}

abbrev no_error : Option GoError
no_error = none

abbrev stub : StubCore
stub = record { window = zero_window; module_id = codes "toy"; config = [] }

in_window :
    (if contains (advertised zero_window) protocol_version
      then connected (λ l. none) (line_at linux toy_addr)
      else inl LaunchError.protocol_refused)
    ≡ inr (line_at linux toy_addr)
unfolding contains advertised
in_window = refl

launched : launch zero_window (λ l. none) launched_toy ≡ inr (line_at linux toy_addr)
launched =
    launch-serve (codes "t") (codes "/tmp/h.sock") (codes "/tmp/w") (codes "toy") linux
      Wake.shutdown_asked (λ l. none) zero_window toy_addr ready (omega arith) toy_fits
    ∙ in_window

init-launch_iff_example :
    ((r : InitResponse) × ((init quiet
          (init_request stub (line_at linux toy_addr))
          none
          (new_server quiet tt)).1
        ≡ Reply.ok r))
    ↔ ((codes "toy" ≡ codes "toy")
        × ((configure quiet (init_request stub (line_at linux toy_addr)) (new_server quiet tt)).1
            ≡ none)
        × (no_error ≡ none)
        × ((quiet.init
              (configure quiet
                (init_request stub (line_at linux toy_addr))
                (new_server quiet tt)).0.module_state).2
            ≡ none))
init-launch_iff_example =
    init-launch_iff (codes "t") (codes "/tmp/h.sock") (codes "/tmp/w") linux Wake.shutdown_asked
      quiet stub (λ l. none) toy_addr (line_at linux toy_addr) tt none ready launched

abbrev refused_rpc : Refusal → GoError
refused_rpc e = GoError.status (record { code = refusal_code e; message = [] })

abbrev exit_status : ℕ → GoError
exit_status n = GoError.plain (codes "exit status")

-- The stub starts a module that never stops, and the launch is left as it is.
abbrev stubborn : Module (Unit {0})
stubborn = record quiet { stop = λ deadline t. (t, some (GoError.plain (codes "busy"))) }
