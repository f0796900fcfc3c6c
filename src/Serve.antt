-- ===== src/Serve.antt =====
-- modulesdk/serve.go: what a module does from its launch to its exit. The environment is a record,
-- where an unset variable is empty. `System` has what the operating system answers: the random bytes
-- of the nonce, or an error, and whether the listening fails. How the server's run ends is a `Wake`;
-- the run itself is in `Lifecycle`. The signals and the gRPC server are not of this repository.
pub mod Paths
pub mod Exit
pub mod End
use weaveplatform_sdk.Base.{
  ℕ, ◌+◌, ◌/◌, ◌%◌, Bool, true, false, not, ◌||◌, List, [], ◌∷◌, ◌++◌, Option, none, some, ◌⊎◌, inl,
  inr, Bytes, codes, same, ltb, if◌then◌else◌,
}
use weaveplatform_sdk.Errors.{GoError}
use weaveplatform_sdk.Handshake.{
  Line, Window, HandshakeError, ok, err, format, contains, parse_window, network_unix, network_pipe,
  exit_protocol_unsupported,
}
use weaveplatform_sdk.HostClient.{close, stop_jobs}
use weaveplatform_sdk.Lifecycle.{Server, protocol_version}
use weaveplatform_sdk.Lifecycle.Handlers.{on_host}
use weaveplatform_sdk.Serve.Paths.{join_path}

pub record Env : Type 0 where
  pub protocol_min : Bytes
  pub protocol_max : Bytes
  pub token : Bytes
  pub host_addr : Bytes
  pub socket_dir : Bytes

pub record System : Type 0 where
  pub is_windows : Bool
  pub nonce : List ℕ
  pub nonce_error : Option GoError
  pub listen : Bytes → Option GoError

-- What ends the wait: a token from `Shutdown`, the loss of the host, a signal, or the server's error.
pub data Wake : Type 0 where
  shutdown_asked host_gone signalled : Wake
  server_ended : GoError → Wake

-- The errors of `serve`, with what their messages quote.
pub data ServeError : Type 0 where
  bad_window : HandshakeError → ServeError
  protocol_unsupported : Window → ServeError
  env_incomplete socket_dir_unset : ServeError
  no_nonce listen_failed server_failed : GoError → ServeError

-- The lines on stdout, the addresses that were listened on, the services that gRPC's health service
-- was told are serving, and the error.
pub record Served : Type 0 where
  pub stdout : List Bytes
  pub listening : List Bytes
  pub healthy : List Bytes
  pub failure : Option ServeError

-- `ipc.Network()`.
unfoldable pub network : System → Bytes
network sys = if sys.is_windows then network_pipe else network_unix

-- `hex.EncodeToString`.
unfoldable pub hex_digit : ℕ → ℕ
hex_digit n = if ltb n 10 then b'0' + n else 87 + n

unfoldable pub hex : List ℕ → Bytes
unfolding hex_digit
hex [] = []
hex (b ∷ bs) = hex_digit (b / 16) ∷ hex_digit (b % 16) ∷ hex bs

unfoldable pub module_addr : System → Env → Bytes → ServeError ⊎ Bytes
unfolding hex
module_addr sys env id =
    if sys.is_windows
    then elim sys.nonce_error [
      | some e ↦ inl (ServeError.no_nonce e)
      | none ↦ inr (codes "\\\\.\\pipe\\weave-" ++ (id ++ (codes "-" ++ hex sys.nonce)))
    ]
    else if same env.socket_dir []
    then inl ServeError.socket_dir_unset
    else inr (join_path env.socket_dir (id ++ codes ".sock"))

-- The checks in front of the listening.
unfoldable pub negotiate : Env → Option ServeError
negotiate env = elim (parse_window env.protocol_min env.protocol_max) [
  | err e ↦ some (ServeError.bad_window e)
  | ok w ↦
      if not (contains w protocol_version)
      then some (ServeError.protocol_unsupported w)
      else if same env.token [] || same env.host_addr []
      then some ServeError.env_incomplete
      else none
]

unfoldable pub wake_error : Wake → Option ServeError
wake_error Wake.shutdown_asked = none
wake_error Wake.host_gone = none
wake_error Wake.signalled = none
wake_error (Wake.server_ended e) = some (ServeError.server_failed e)

abbrev pub gives_up : ServeError → Served
gives_up e = record { stdout = []; listening = []; healthy = []; failure = some e }

unfoldable pub serve : Bytes → System → Env → Wake → Served
unfolding negotiate module_addr wake_error network
serve id sys env wake = elim (negotiate env) [
  | some e ↦ gives_up e
  | none ↦ elim (module_addr sys env id) [
    | inl e ↦ gives_up e
    | inr addr ↦ elim (sys.listen addr) [
      | some e ↦ gives_up (ServeError.listen_failed e)
      | none ↦ record {
        stdout =
            format (record { protocol = protocol_version; network = network sys; addr = addr })
            ∷ [];
        listening = addr ∷ [];
        healthy = [] ∷ id ∷ [];
        failure = wake_error wake;
      }
    ]
  ]
]

-- What `serve` does with the lifecycle server behind the wait.
unfoldable pub hang_up : {S : Type 0} → Wake → Server S → Server S
hang_up (Wake.server_ended e) s = s
hang_up Wake.shutdown_asked s = on_host (λ h. close (stop_jobs h)) s
hang_up Wake.host_gone s = on_host (λ h. close (stop_jobs h)) s
hang_up Wake.signalled s = on_host (λ h. close (stop_jobs h)) s

-- `Serve`: the exit code for what `serve` returns.
unfoldable pub exit_code : Option ServeError → ℕ
exit_code none = 0
exit_code (some (ServeError.protocol_unsupported w)) = exit_protocol_unsupported
exit_code (some (ServeError.bad_window e)) = 1
exit_code (some ServeError.env_incomplete) = 1
exit_code (some ServeError.socket_dir_unset) = 1
exit_code (some (ServeError.no_nonce e)) = 1
exit_code (some (ServeError.listen_failed e)) = 1
exit_code (some (ServeError.server_failed e)) = 1
