-- ===== src/Tests/Sockets.antt =====
-- The sockets at concrete inputs.
use weaveplatform_sdk.Base.{
  ◌≡◌, ◌⊎◌, inl, inr, refl, Bool, true, false, ◌&&◌, List, [], ◌∷◌, map, none, some, arith, Bytes,
  codes, same, split, leb, if◌then◌else◌,
}
use weaveplatform_sdk.Base.Decimal.{parse_uint32}
use weaveplatform_sdk.Base.Space.{trim_space}
use weaveplatform_sdk.Errors.{GoError}
use weaveplatform_sdk.Handshake.{Line, ok, parse}
use weaveplatform_sdk.Ipc.{Authorizer, PeerCred, IsRefused, IsGated, accept}
use weaveplatform_sdk.Ipc.Peers.{Os, Ucred, Arriving, identify, IsIdentified, accept-IsIdentified}
use weaveplatform_sdk.Ipc.Sockets.{
  Answers, DialError, Syscall, listen, listen_authorized, grpc_client,
}
use weaveplatform_sdk.Ipc.Sockets.Access.{
  IsOpened, closed, effects, listen_authorized-IsOpened, grpc_client-parse,
}

abbrev absent : GoError
absent = GoError.plain (codes "remove /tmp/h.sock: no such file or directory")

abbrev denied : GoError
denied = GoError.plain (codes "chmod /tmp/h.sock: operation not permitted")

-- There is no stale file, and the mode cannot be set.
abbrev chmod_fails : Answers
chmod_fails = record { remove = some absent; bind = none; chmod = some denied; pipe = none }

abbrev addr : Bytes
addr = codes "/tmp/h.sock"

closed_again : listen false (λ e. true) chmod_fails addr ≡ (
  Syscall.remove addr ∷ Syscall.bind addr ∷ Syscall.chmod addr 384 ∷ Syscall.close addr ∷ [],
  some denied,
)
unfolding listen
closed_again = refl

listen_authorized-IsOpened_example :
    let (calls, l) = listen_authorized false (λ e. true) chmod_fails addr none in
    IsOpened none l (effects chmod_fails calls closed)
listen_authorized-IsOpened_example =
    listen_authorized-IsOpened none (λ e. true) addr false chmod_fails

abbrev pipe_line : Line
pipe_line = record { protocol = 1; network = codes "npipe"; addr = codes "\\\\.\\pipe\\toy" }

-- A line with the old name of the pipe network.
abbrev printed : Bytes
printed = codes "WEAVE|1|1|winpipe|\\\\.\\pipe\\toy"

printed_reads : parse printed ≡ ok pipe_line
unfolding parse trim_space parse_uint32 same split
printed_reads = refl

-- A connection is the address that it was made to.
abbrev connects : Bytes → GoError ⊎ Bytes
connects to = inr to

abbrev dials : Bool → DialError ⊎ Bytes
dials windows = (grpc_client windows connects pipe_line.network pipe_line.addr).context_dialer []

grpc_client-parse_example :
    ((dials false ≡ inr pipe_line.addr)
      × (dials true ≡ inl (DialError.not_supported (codes "npipe"))))
    ⊎ ((dials true ≡ inr pipe_line.addr)
        × (dials false ≡ inl (DialError.not_supported (codes "npipe"))))
grpc_client-parse_example = grpc_client-parse connects printed pipe_line [] printed_reads

-- Only root may connect, and who is not known is turned away.
abbrev known_root : Authorizer
known_root c = if c.has_uid && leb c.uid 0 then none else some (GoError.plain (codes "peer uid"))

known_root_strict : (c : PeerCred) → c.has_uid ≡ false → IsRefused known_root c
known_root_strict c h = (GoError.plain (codes "peer uid"), ground arith)

abbrev over_unix : GoError ⊎ Ucred → Arriving
over_unix answer =
    Arriving.socket (record { is_unix = true; raw_error = none; option = some answer })

-- The first peer's option cannot be read, the second is another user, and the third is root.
abbrev knocking : List Arriving
knocking =
    over_unix (inl (GoError.plain (codes "bad descriptor")))
    ∷ over_unix (inr (record { uid = 501; pid = 8 }))
    ∷ over_unix (inr (record { uid = 0; pid = 7 }))
    ∷ []

accept-IsIdentified_example :
    IsGated known_root
      (map (identify Os.linux) knocking)
      (accept (some known_root) (map (identify Os.linux) knocking))
    × IsIdentified Os.linux knocking
        (accept (some known_root) (map (identify Os.linux) knocking)).outcome
accept-IsIdentified_example = accept-IsIdentified Os.linux known_root known_root_strict knocking
