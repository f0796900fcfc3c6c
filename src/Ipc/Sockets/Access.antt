-- ===== src/Ipc/Sockets/Access.antt =====
-- ipc/ipc.go, ipc/ipc_unix.go, ipc/ipc_windows.go and ipc/peercred.go: who can reach a listener, and
-- which lines of a module can be dialed.
use weaveplatform_sdk.Base.{
  ◌≡◌, ◌⊎◌, inl, inr, refl, Bool, true, false, List, [], ◌∷◌, Option, none, some, Bytes, same,
  same_iff, ◌==◌, ℕ, ◌%◌, ◌/◌, ◌&&◌, ◌++◌, codes, if◌then◌else◌,
}
use weaveplatform_sdk.Errors.{GoError}
use weaveplatform_sdk.Handshake.{Line, ok, parse, network_unix, network_pipe}
use weaveplatform_sdk.Handshake.Accepts.{parse_iff}
use weaveplatform_sdk.Ipc.{Authorizer}
use weaveplatform_sdk.Ipc.Sockets.{
  Syscall, Answers, pipe_sddl, bind_socket, listen, DialError, answered, dial_socket, dial_windows,
  dial, grpc_client, listen_authorized,
}

-- What a caller is to rely on: whether something listens, and whether only its owner, or on Windows
-- the system and the administrators, may connect.
pub record Access : Type 0 where
  pub listening : Bool
  pub restricted : Bool

abbrev pub closed : Access
closed = record { listening = false; restricted = false }

abbrev pub guarded : Access
guarded = record { listening = true; restricted = true }

-- Of a file's mode, nothing for the group and the others, and the right to write, which a connect needs,
-- for the owner.
abbrev pub is_private : ℕ → Bool
is_private mode = (mode % 64 == 0) && (mode / 128 % 2 == 1)

-- Entries of a descriptor that allow all to each of the trustees.
abbrev pub allows : List Bytes → Bytes
allows [] = []
allows (who ∷ more) = codes "(A;;GA;;;" ++ who ++ codes ")" ++ allows more

-- The descriptor for the local system and the built-in administrators, and nobody else.
abbrev pub for_admins : Bytes
for_admins = codes "D:" ++ allows (codes "SY" ∷ codes "BA" ∷ [])

-- The effect of a call that the system answers: one that fails has none.
abbrev pub effect : Answers → Syscall → Access → Access
effect a (Syscall.remove addr) s = s
effect a (Syscall.bind addr) s = elim a.bind [
  | some e ↦ s
  | none ↦ record { listening = true; restricted = false }
]
effect a (Syscall.chmod addr mode) s = elim a.chmod [
  | some e ↦ s
  | none ↦ record s { restricted = is_private mode }
]
effect a (Syscall.close addr) s = record s { listening = false }
effect a (Syscall.listen_pipe addr sddl) s = elim a.pipe [
  | some e ↦ s
  | none ↦ record { listening = true; restricted = same sddl for_admins }
]

pub effects : Answers → List Syscall → Access → Access
effects a [] s = s
effects a (c ∷ cs) s = effects a cs (effect a c s)

-- An error leaves nothing that listens; a listener is restricted, and has the caller's authorizer.
abbrev pub IsOpened : Option Authorizer → GoError ⊎ Option Authorizer → Access → Type 0
IsOpened authorize (inl e) s = s.listening ≡ false
IsOpened authorize (inr f) s = (s ≡ guarded) × (f ≡ authorize)

abbrev as_listener : Option Authorizer → Option GoError → GoError ⊎ Option Authorizer
as_listener authorize e = elim e [ some e ↦ inl e | none ↦ inr authorize ]

abbrev with_answers : Option GoError → Option GoError → Option GoError → Option GoError → Answers
with_answers removed bound modes piped = record {
  remove = removed;
  bind = bound;
  chmod = modes;
  pipe = piped;
}

module _ (authorize : Option Authorizer) (is_not_exist : GoError → Bool) (addr : Bytes) where
  abbrev Opens : Answers → List Syscall × Option GoError → Type 0
  Opens a p = IsOpened authorize (as_listener authorize p.1) (effects a p.0 closed)

  bind_socket-Opens :
      (removed bound modes piped : Option GoError)
      → let a = with_answers removed bound modes piped in Opens a (bind_socket a addr)
  unfolding bind_socket effects
  bind_socket-Opens removed (some e) modes piped = refl
  bind_socket-Opens removed none (some e) piped = refl
  bind_socket-Opens removed none none piped = (refl, refl)

  pipe-Opens :
      (removed bound modes piped : Option GoError)
      → let a = with_answers removed bound modes piped in Opens a (listen true is_not_exist a addr)
  unfolding listen effects
  pipe-Opens removed bound modes (some e) = refl
  pipe-Opens removed bound modes none = (rw ((same_iff pipe_sddl for_admins).1 refl) refl, refl)

  clear-Opens :
      (b : Bool) (removed bound modes piped : Option GoError)
      → let a = with_answers removed bound modes piped in
        (e : GoError)
        → Opens a (if b then bind_socket a addr else (Syscall.remove addr ∷ [], some e))
  unfolding effects
  clear-Opens true removed bound modes piped e = bind_socket-Opens removed bound modes piped
  clear-Opens false removed bound modes piped e = refl

  listen-Opens :
      (windows : Bool) (removed bound modes piped : Option GoError)
      → let a = with_answers removed bound modes piped in
        Opens a (listen windows is_not_exist a addr)
  listen-Opens true removed bound modes piped = pipe-Opens removed bound modes piped
  listen-Opens false none bound modes piped =
      unfold listen in bind_socket-Opens none bound modes piped
  listen-Opens false (some e) bound modes piped =
      unfold listen in clear-Opens (is_not_exist e) (some e) bound modes piped _

  -- Whatever the system answers, on either platform: if `ListenAuthorized` fails, nothing is left that
  -- listens; and if it succeeds, there is a listener, it has the caller's authorizer, and only the
  -- socket's owner, or the system and the administrators on Windows, may connect: the file's mode has
  -- the owner's right to write and nothing for the group and the others, or the pipe's descriptor allows
  -- these two and nobody else.
  pub listen_authorized-IsOpened :
      (windows : Bool) (a : Answers)
      → let (calls, l) = listen_authorized windows is_not_exist a addr authorize in
        IsOpened authorize l (effects a calls closed)
  unfolding listen_authorized
  listen_authorized-IsOpened windows a = listen-Opens windows a.remove a.bind a.chmod a.pipe

module _ {C : Type 0} (dialer : Bytes → GoError ⊎ C) (addr : Bytes) where
  dial_unix :
      (netw : Bytes)
      → netw ≡ network_unix
      → (dial false dialer netw addr ≡ answered (dialer addr))
        × (dial true dialer netw addr ≡ inl (DialError.not_supported netw))
  unfolding dial dial_socket dial_windows same
  dial_unix netw e = rw e (refl, refl)

  dial_pipe :
      (netw : Bytes)
      → netw ≡ network_pipe
      → (dial true dialer netw addr ≡ answered (dialer addr))
        × (dial false dialer netw addr ≡ inl (DialError.not_supported netw))
  unfolding dial dial_socket dial_windows same
  dial_pipe netw e = rw e (refl, refl)

-- A line that `Parse` accepts, from whatever text, can be dialed on exactly one platform, unix or
-- Windows: there the dialer of `GRPCClient` answers as the system does at the line's address, whatever
-- address gRPC hands it, and on the other it refuses the line's network without a call.
pub grpc_client-parse :
    {C : Type 0} (dialer : Bytes → GoError ⊎ C) (s : Bytes) (l : Line) (given : Bytes)
    → parse s ≡ ok l
    → let dials =
        λ (windows : Bool). (grpc_client windows dialer l.network l.addr).context_dialer given in
      ((dials false ≡ answered (dialer l.addr))
        × (dials true ≡ inl (DialError.not_supported l.network)))
      ⊎ ((dials true ≡ answered (dialer l.addr))
          × (dials false ≡ inl (DialError.not_supported l.network)))
unfolding grpc_client
grpc_client-parse dialer s l given accepted =
    elim ((parse_iff s l).0 accepted).fields.network_reads [
      | inl (spelled, unix) ↦ inl (dial_unix dialer l.addr l.network unix)
      | inr (spelled, pipe) ↦ inr (dial_pipe dialer l.addr l.network pipe)
    ]
