-- ===== src/Ipc/Sockets.antt =====
-- ipc/ipc.go, ipc/ipc_unix.go and ipc/ipc_windows.go: the listener of a socket or a pipe, and the dial
-- of one. What the system answers to a call is an argument: an error, or nil; `dialer` is the system's
-- own dial, and `is_not_exist` is `os.IsNotExist`. `windows` says which of the two files is built.
pub mod Access
use weaveplatform_sdk.Base.{
  ◌≡◌, ◌≢◌, ◌↔◌, ◌⊎◌, inl, inr, refl, Bool, true, false, not, List, [], ◌∷◌, ◌++◌, Option, none,
  some, arith, Bytes, codes, same, same_iff, ℕ, if◌then◌else◌,
}
use weaveplatform_sdk.Errors.{GoError}
use weaveplatform_sdk.Handshake.{Line, ok, parse, network_unix, network_pipe}
use weaveplatform_sdk.Handshake.Accepts.{Spells, NetworkReads, parse_iff}
use weaveplatform_sdk.Ipc.{Authorizer}

-- What `listen` asks of the system, in order.
pub data Syscall : Type 0 where
  remove bind close : Bytes → Syscall
  chmod : Bytes → ℕ → Syscall
  -- the pipe's security descriptor
  listen_pipe : Bytes → Bytes → Syscall

-- What the system answers.
pub record Answers : Type 0 where
  pub remove : Option GoError
  pub bind : Option GoError
  pub chmod : Option GoError
  pub pipe : Option GoError

-- 0o600
abbrev pub owner_only : ℕ
owner_only = 384

abbrev pub pipe_sddl : Bytes
pipe_sddl = codes "D:(A;;GA;;;SY)(A;;GA;;;BA)"

abbrev pub clearing_stale : GoError → GoError
clearing_stale e = GoError.wrap (codes "ipc: clearing stale socket") e

-- The bind on unix, with what the file's removal asked before.
unfoldable pub bind_socket : Answers → Bytes → List Syscall × Option GoError
bind_socket a addr = elim a.bind [
  | some e ↦ (Syscall.remove addr ∷ Syscall.bind addr ∷ [], some e)
  | none ↦ elim a.chmod [
    | some e ↦ (
      Syscall.remove addr
          ∷ Syscall.bind addr
          ∷ Syscall.chmod addr owner_only
          ∷ Syscall.close addr
          ∷ [],
      some e,
    )
    | none ↦ (Syscall.remove addr ∷ Syscall.bind addr ∷ Syscall.chmod addr owner_only ∷ [], none)
  ]
]

-- `listen` on Windows, and `ListenPipeSDDL`.
unfoldable pub listen_windows : Answers → Bytes → List Syscall × Option GoError
listen_windows a addr = (Syscall.listen_pipe addr pipe_sddl ∷ [], a.pipe)

unfoldable pub listen_pipe_sddl : Answers → Bytes → Bytes → List Syscall × Option GoError
listen_pipe_sddl a addr sddl = (Syscall.listen_pipe addr sddl ∷ [], a.pipe)

module _ (windows : Bool) where
  unfoldable pub listen : (GoError → Bool) → Answers → Bytes → List Syscall × Option GoError
  unfolding bind_socket listen_windows
  listen is_not_exist a addr = if windows then listen_windows a addr else elim a.remove [
    | none ↦ bind_socket a addr
    | some e ↦
        if is_not_exist e
        then bind_socket a addr
        else (Syscall.remove addr ∷ [], some (clearing_stale e))
  ]

  -- `Network`.
  unfoldable pub network : Bytes
  network = if windows then network_pipe else network_unix

-- The errors of `dial`.
pub data DialError : Type 0 where
  not_supported : Bytes → DialError
  failed : GoError → DialError

abbrev pub answered : {C : Type 0} → GoError ⊎ C → DialError ⊎ C
answered (inl e) = inl (DialError.failed e)
answered (inr c) = inr c

-- `dial` of the one file and of the other.
unfoldable pub dial_socket : {C : Type 0} → (Bytes → GoError ⊎ C) → Bytes → Bytes → DialError ⊎ C
dial_socket dialer netw addr =
    if not (same netw network_unix)
    then inl (DialError.not_supported netw)
    else answered (dialer addr)

unfoldable pub dial_windows : {C : Type 0} → (Bytes → GoError ⊎ C) → Bytes → Bytes → DialError ⊎ C
dial_windows dialer netw addr =
    if not (same netw network_pipe)
    then inl (DialError.not_supported netw)
    else answered (dialer addr)

-- `Dial`.
unfoldable pub dial : {C : Type 0} → Bool → (Bytes → GoError ⊎ C) → Bytes → Bytes → DialError ⊎ C
unfolding dial_socket dial_windows
dial windows dialer netw addr =
    if windows then dial_windows dialer netw addr else dial_socket dialer netw addr

-- `GRPCClient`: the target, and the dialer that gRPC calls with an address of its own.
pub record ClientConn (C : Type 0) : Type 0 where
  pub target : Bytes
  pub context_dialer : Bytes → DialError ⊎ C

unfoldable pub grpc_client :
    {C : Type 0} → Bool → (Bytes → GoError ⊎ C) → Bytes → Bytes → ClientConn C
grpc_client windows dialer netw addr = record {
  target = codes "passthrough:///" ++ addr;
  context_dialer = λ given. dial windows dialer netw addr;
}

-- `ListenAuthorized`: the error of `Listen`, or a listener behind the authorizer.
unfoldable pub listen_authorized :
    Bool
    → (GoError → Bool)
    → Answers
    → Bytes
    → Option Authorizer
    → List Syscall × (GoError ⊎ Option Authorizer)
unfolding listen
listen_authorized windows is_not_exist a addr authorize =
    let (calls, e) = listen windows is_not_exist a addr in
    (calls, elim e [ some e ↦ inl e | none ↦ inr authorize ])
