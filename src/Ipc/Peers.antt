-- ===== src/Ipc/Peers.antt =====
-- ipc/peercred_linux.go, ipc/peercred_darwin.go and ipc/peercred_windows.go: whom the system says is at
-- the other end of a connection. What the system answers is in `Socket`; the kernel's socket options
-- are not of this repository.
use weaveplatform_sdk.Base.{
  ℕ, ◌≡◌, ◌⊎◌, inl, inr, refl, ap, ◌∙◌, Bool, true, false, List, [], ◌∷◌, ◌++◌, map, Option, none,
  some, arith, subst, Bool-cases, if◌then◌else◌,
}
use weaveplatform_sdk.Errors.{GoError}
use weaveplatform_sdk.Ipc.{
  PeerCred, Incoming, Outcome, Accepting, Authorizer, IsRefused, IsGated, Ends, accept,
  accept-IsGated,
}

-- Which file is built.
pub data Os : Type 0 where
  linux darwin windows : Os

-- The answer of `GetsockoptUcred`, and the part of `GetsockoptXucred` that is read.
pub record Ucred : Type 0 where
  pub uid : ℕ
  pub pid : ℕ

-- A connection: whether it is a `*net.UnixConn`, the error of `SyscallConn`, and what the socket's
-- option was, where `Control` called its function.
pub record Socket : Type 0 where
  pub is_unix : Bool
  pub raw_error : Option GoError
  pub option : Option (GoError ⊎ Ucred)

-- `PeerCred{}`
abbrev pub unknown : PeerCred
unknown = record { uid = 0; has_uid = false; pid = 0; has_pid = false }

unfoldable pub peer_linux : Ucred → PeerCred
peer_linux u = record { uid = u.uid; has_uid = true; pid = u.pid; has_pid = true }

unfoldable pub peer_darwin : Ucred → PeerCred
peer_darwin u = record { uid = u.uid; has_uid = true; pid = 0; has_pid = false }

-- The body that Linux and macOS share but for the last assignment.
unfoldable pub peer_unix : (Ucred → PeerCred) → Socket → PeerCred
peer_unix read c =
    if c.is_unix
    then elim c.raw_error [
      | some e ↦ unknown
      | none ↦ elim c.option [ none ↦ unknown | some (inl e) ↦ unknown | some (inr u) ↦ read u ]
    ]
    else unknown

-- `peerCred` of the two, and of all three.
unfoldable pub peer_cred_linux : Socket → PeerCred
unfolding peer_unix peer_linux
peer_cred_linux c = peer_unix peer_linux c

unfoldable pub peer_cred_darwin : Socket → PeerCred
unfolding peer_unix peer_darwin
peer_cred_darwin c = peer_unix peer_darwin c

unfoldable pub peer_cred : Os → Socket → PeerCred
unfolding peer_cred_linux peer_cred_darwin
peer_cred Os.linux c = peer_cred_linux c
peer_cred Os.darwin c = peer_cred_darwin c
peer_cred Os.windows c = unknown

-- What the underlying listener gives.
pub data Arriving : Type 0 where
  socket : Socket → Arriving
  failure : GoError → Arriving

unfoldable pub identify : Os → Arriving → Incoming
identify os (Arriving.socket c) = Incoming.conn (peer_cred os c)
identify os (Arriving.failure e) = Incoming.failure e

-- The kernel has told the uid of a unix connection's peer, and this is it; on Linux also the pid.
abbrev pub HasPid : Os → Ucred → PeerCred → Type 0
HasPid Os.linux u c = (c.has_pid ≡ true) × (c.pid ≡ u.pid)
HasPid Os.darwin u c = c.has_pid ≡ false
HasPid Os.windows u c = ⊥

abbrev pub IsReported : Os → Socket → PeerCred → Type 0
IsReported os s c =
    (u : Ucred) × (s.is_unix ≡ true) × (s.option ≡ some (inr u)) × (c.uid ≡ u.uid) × HasPid os u c

peer_unix_cases :
    (read : Ucred → PeerCred) (s : Socket)
    → (peer_unix read s ≡ unknown)
      ⊎ ((u : Ucred) × (s.is_unix ≡ true) × (s.option ≡ some (inr u)) × (peer_unix read s ≡ read u))
unfolding peer_unix
peer_unix_cases read s = ground arith

-- A peer has a uid only if the kernel reported it.
pub peer_cred-IsReported :
    (os : Os) (s : Socket) → (peer_cred os s).has_uid ≡ true → IsReported os s (peer_cred os s)
unfolding peer_cred peer_cred_linux peer_cred_darwin peer_linux peer_darwin
peer_cred-IsReported Os.linux s h = elim (peer_unix_cases peer_linux s) [
  | inl e ↦ ground (arith, e)
  | inr (u, unix, told, e) ↦
      (u, unix, told, ground (arith, e), (ground (arith, e), ground (arith, e)))
]
peer_cred-IsReported Os.darwin s h = elim (peer_unix_cases peer_darwin s) [
  | inl e ↦ ground (arith, e)
  | inr (u, unix, told, e) ↦ (u, unix, told, ground (arith, e), ground (arith, e))
]
peer_cred-IsReported Os.windows s h = cc

-- An item of a list's image is the image of an item.
map-split :
    {A B : Type 0} (f : A → B) (xs : List A) (ys zs : List B) (y : B)
    → map f xs ≡ ys ++ y ∷ zs
    → (front : List A) × (x : A) × (back : List A) × (xs ≡ front ++ x ∷ back) × (f x ≡ y)
map-split f [] [] zs y e = cc
map-split f [] (w ∷ ys) zs y e = cc
map-split f (x ∷ xs) [] zs y e = ([], x, xs, refl, cc)
map-split f (x ∷ xs) (w ∷ ys) zs y e =
    let rest : map f xs ≡ ys ++ y ∷ zs = cc in
    let (front, v, back, split, image) = map-split f xs ys zs y rest in
    (x ∷ front, v, back, ap (◌∷◌ x) split, image)

-- Who got through is a connection that arrived, and the system has told who it is.
abbrev pub IsIdentified : Os → List Arriving → Outcome → Type 0
IsIdentified os as' (Outcome.accepted c) =
    (front : List Arriving) × (s : Socket) × (back : List Arriving) × (as'
      ≡ front ++ Arriving.socket s ∷ back)
    × IsReported os s c
IsIdentified os as' (Outcome.failed e) = Unit {0}
IsIdentified os as' Outcome.still_waiting = Unit {0}

identify-conn :
    (os : Os) (a : Arriving) (c : PeerCred)
    → identify os a ≡ Incoming.conn c
    → (s : Socket) × (a ≡ Arriving.socket s) × (peer_cred os s ≡ c)
unfolding identify
identify-conn os (Arriving.socket s) c e = (s, refl, cc)
identify-conn os (Arriving.failure x) c e = cc

module _ (os : Os) (f : Authorizer)
    (strict : (c : PeerCred) → c.has_uid ≡ false → IsRefused f c) where
  has_uid : (c : PeerCred) → f c ≡ none → c.has_uid ≡ true
  has_uid c taken = elim (Bool-cases c.has_uid) [
    | inl known ↦ known
    | inr unknown_uid ↦ let (e, refused) = strict c unknown_uid in cc
  ]

  Ends-IsIdentified :
      (as' : List Arriving) (a : Accepting) (o : Outcome)
      → Ends f (map (identify os) as') a o
      → IsIdentified os as' o
  Ends-IsIdentified as' a (Outcome.accepted c) (taken, split) =
      let (front, x, back, at, image) =
        map-split (identify os) as' (map Incoming.conn a.closed) a.rest (Incoming.conn c) split in
      let (s, is_socket, known) = identify-conn os x c image in
      (
        front,
        s,
        back,
        at ∙ ap (λ v. front ++ v ∷ back) is_socket,
        subst (IsReported os s) known
            (peer_cred-IsReported os s (ap (λ v. v.has_uid) known ∙ has_uid c taken)),
      )
  Ends-IsIdentified as' a (Outcome.failed e) h = tt
  Ends-IsIdentified as' a Outcome.still_waiting h = tt

  -- With an authorizer that refuses who has no uid: `Accept` closes exactly the connections that the
  -- authorizer refuses, in front of the first that it accepts; and who gets through came over a unix
  -- socket, with the uid that the kernel reported, and on Linux its pid. A connection that the system
  -- tells nothing of, and any on Windows, does not get through.
  pub accept-IsIdentified :
      (as' : List Arriving)
      → IsGated f (map (identify os) as') (accept (some f) (map (identify os) as'))
        × IsIdentified os as' (accept (some f) (map (identify os) as')).outcome
  accept-IsIdentified as' =
      let gated = accept-IsGated f (map (identify os) as') in
      (
        gated,
        Ends-IsIdentified as' (accept (some f) (map (identify os) as'))
            (accept (some f) (map (identify os) as')).outcome gated.1,
      )
