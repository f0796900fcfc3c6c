-- ===== src/Ipc.antt =====
-- ipc/peercred.go: the listener that lets in only peers whom its authorizer accepts. What the
-- underlying listener gives is a list: connections, each with the identity that the system reports,
-- and failures. `authorize` is nil or the caller's function; its error is all that is read of it.
pub mod Sockets
pub mod Peers
use weaveplatform_sdk.Base.{
  ℕ, ◌≡◌, inl, inr, refl, ap, Bool, List, [], ◌∷◌, ◌++◌, map, Option, none, some, All, Option-cases,
}
use weaveplatform_sdk.Errors.{GoError}

pub record PeerCred : Type 0 where
  pub uid : ℕ
  pub has_uid : Bool
  pub pid : ℕ
  pub has_pid : Bool

pub data Incoming : Type 0 where
  conn : PeerCred → Incoming
  failure : GoError → Incoming

-- What `Accept` returns, the connections that it closed, and what it left to come. It still waits
-- where the underlying listener has nothing more.
pub data Outcome : Type 0 where
  accepted : PeerCred → Outcome
  failed : GoError → Outcome
  still_waiting : Outcome

pub record Accepting : Type 0 where
  pub outcome : Outcome
  pub closed : List PeerCred
  pub rest : List Incoming

abbrev pub Authorizer : Type 0
Authorizer = PeerCred → Option GoError

-- One accepted connection is closed, and the loop goes on.
abbrev close_first : PeerCred → Accepting → Accepting
close_first c a = record a { closed = c ∷ a.closed }

unfoldable pub accept : Option Authorizer → List Incoming → Accepting
accept authorize [] = record { outcome = Outcome.still_waiting; closed = []; rest = [] }
accept authorize (Incoming.failure e ∷ cs) = record {
  outcome = Outcome.failed e;
  closed = [];
  rest = cs;
}
accept authorize (Incoming.conn c ∷ cs) =
    let next = accept authorize cs in
    let taken : Accepting = record { outcome = Outcome.accepted c; closed = []; rest = cs } in
    elim authorize [
      | none ↦ taken
      | some f ↦ elim (f c) [ none ↦ taken | some e ↦ close_first c next ]
    ]

-- The authorizer turns the peer away.
abbrev pub IsRefused : Authorizer → PeerCred → Type 0
IsRefused f c = (e : GoError) × (f c ≡ some e)

abbrev pub conns : List PeerCred → List Incoming
conns = map Incoming.conn

-- How it ended, by its outcome.
abbrev pub Ends : Authorizer → List Incoming → Accepting → Outcome → Type 0
Ends f cs a (Outcome.accepted c) = (f c ≡ none) × (cs ≡ conns a.closed ++ Incoming.conn c ∷ a.rest)
Ends f cs a (Outcome.failed e) = cs ≡ conns a.closed ++ Incoming.failure e ∷ a.rest
Ends f cs a Outcome.still_waiting = cs ≡ conns a.closed

-- What an `Accept` has done is right for what came in: it closed exactly the connections in front of
-- the one that it returned, or of the failure, and the authorizer refuses each of these; the one
-- returned it accepts.
abbrev pub IsGated : Authorizer → List Incoming → Accepting → Type 0
IsGated f cs a = All (IsRefused f) a.closed × Ends f cs a a.outcome

Ends-close :
    (f : Authorizer) (cs : List Incoming) (c : PeerCred) (a : Accepting) (o : Outcome)
    → Ends f cs a o
    → Ends f (Incoming.conn c ∷ cs) (close_first c a) o
Ends-close f cs c a (Outcome.accepted d) h = (h.0, ap (◌∷◌ (Incoming.conn c)) h.1)
Ends-close f cs c a (Outcome.failed e) h = ap (◌∷◌ (Incoming.conn c)) h
Ends-close f cs c a Outcome.still_waiting h = ap (◌∷◌ (Incoming.conn c)) h

module _ (f : Authorizer) where
  accept_taken :
      (c : PeerCred) (cs : List Incoming)
      → f c ≡ none
      → accept (some f) (Incoming.conn c ∷ cs)
        ≡ record { outcome = Outcome.accepted c; closed = []; rest = cs }
  unfolding accept
  accept_taken c cs e = rw e refl

  accept_refused :
      (c : PeerCred) (cs : List Incoming) (x : GoError)
      → f c ≡ some x
      → accept (some f) (Incoming.conn c ∷ cs) ≡ close_first c (accept (some f) cs)
  unfolding accept
  accept_refused c cs x e = rw e refl

  -- With an authorizer, `Accept` closes each connection that the authorizer refuses and returns the
  -- first that it accepts, unless the listener fails before; so no peer that it refuses gets through,
  -- and none that it accepts is turned away.
  pub accept-IsGated : (cs : List Incoming) → IsGated f cs (accept (some f) cs)
  accept-IsGated [] = unfold accept in (tt, refl)
  accept-IsGated (Incoming.failure e ∷ cs) = unfold accept in (tt, refl)
  accept-IsGated (Incoming.conn c ∷ cs) = elim (Option-cases (f c)) [
    | inl e ↦ rw (accept_taken c cs e) (tt, (e, refl))
    | inr (x, e) ↦
        let (refused, ends) = accept-IsGated cs in
        rw (accept_refused c cs x e) (
          ((x, e), refused),
          Ends-close f cs c (accept (some f) cs) (accept (some f) cs).outcome ends,
        )
  ]
