-- ===== src/Relay.antt =====
-- modulesdk/hostclient.go: the goroutine behind the channels of `Receive`, `Watch` and `Subscribe`.
-- The three are one loop, over the conversion of a message: it receives from the gRPC stream, and
-- offers what it got on an unbuffered channel, or ends with its context. What core and the network do
-- to the stream, and the module at the other end of the channel, are steps between.
pub mod Delivery
pub mod Ending
pub mod Draining
use weaveplatform_sdk.Base.{
  ℕ, ◌≡◌, ◌⊎◌, inl, inr, Bool, true, false, List, [], ◌∷◌, ◌++◌, Option, none, some, Bytes,
}
use weaveplatform_sdk.Errors.{GoError}

-- Where the goroutine stands: in `Recv`, in the select with a message, or behind `close(out)`.
pub data Place (A : Type 0) : Type 0 where
  receiving closed : Place A
  offering : A → Place A

-- `sent` is all that core has sent on the stream, `wire` what of it has not been received; `received`
-- is what the module has taken from the channel. `broken` says that the stream has ended or failed.
pub record Relay (A B : Type 0) : Type 0 where
  pub place : Place A
  pub sent : List A
  pub wire : List A
  pub received : List B
  pub broken : Bool
  pub context_done : Bool

-- A step of the others. Core sends only on a stream that is whole.
pub data Env {A B : Type 0} (r : Relay A B) : Relay A B → Type 0 where
  send :
      (a : A)
      → r.broken ≡ false
      → Env r (record r { sent = r.sent ++ a ∷ []; wire = r.wire ++ a ∷ [] })
  break : Env r (record r { broken = true })
  cancel : Env r (record r { context_done = true })

module _ {A B : Type 0} (convert : A → B) where
  -- The stream is open: the goroutine has begun.
  abbrev pub opened : Relay A B
  opened = record {
    place = Place.receiving;
    sent = [];
    wire = [];
    received = [];
    broken = false;
    context_done = false;
  }

  -- A step of the goroutine, with the module at the channel. `Recv` fails where the stream has ended,
  -- and where the context is done; then it may also still give a message.
  pub data Run (r : Relay A B) : Relay A B → Type 0 where
    recv :
        {a : A} {rest : List A}
        → r.place ≡ Place.receiving
        → r.wire ≡ a ∷ rest
        → Run r (record r { place = Place.offering a; wire = rest })
    recv_fails :
        r.place ≡ Place.receiving
        → (r.broken ≡ true) ⊎ (r.context_done ≡ true)
        → Run r (record r { place = Place.closed })
    hand_over :
        {a : A}
        → r.place ≡ Place.offering a
        → Run r (record r { place = Place.receiving; received = r.received ++ convert a ∷ [] })
    give_up :
        {a : A}
        → r.place ≡ Place.offering a
        → r.context_done ≡ true
        → Run r (record r { place = Place.closed })

  pub data Reach : Relay A B → Type 0 where
    start : Reach opened
    ran : {r s : Relay A B} → Reach r → Run r s → Reach s
    met : {r s : Relay A B} → Reach r → Env r s → Reach s

-- The three calls: an error of the call itself, or the goroutine.
unfoldable pub open_stream : {A B : Type 0} → (A → B) → Option GoError → GoError ⊎ Relay A B
open_stream convert (some e) = inl e
open_stream convert none = inr (opened convert)
