-- ===== src/HostClient/Disconnect.antt =====
-- modulesdk/hostclient.go: `awaitDisconnect`, which waits for the loss of the connection to core. What
-- `GetState` answers from round to round is a list, each entry unlike the one before, as
-- `WaitForStateChange` returns only then; its context is never done. At the list's end it still waits.
use weaveplatform_sdk.Base.{
  ℕ, ◌+◌, ◌≡◌, refl, ap, ◌⊎◌, inl, inr, Bool, true, false, List, [], ◌∷◌, ◌++◌, arith, length, All,
  if◌then◌else◌,
}

-- `connectivity.State`.
pub data Connectivity : Type 0 where
  idle connecting ready transient_failure shut_down : Connectivity

-- The calls of `Connect`, and whether `onLost` was called.
pub record Awaiting : Type 0 where
  pub nudges : ℕ
  pub lost : Bool

unfoldable pub is_gone : Connectivity → Bool
is_gone Connectivity.idle = false
is_gone Connectivity.connecting = false
is_gone Connectivity.ready = false
is_gone Connectivity.transient_failure = true
is_gone Connectivity.shut_down = true

unfoldable pub await_disconnect : List Connectivity → Awaiting
unfolding is_gone
await_disconnect [] = record { nudges = 0; lost = false }
await_disconnect (s ∷ ss) =
    let next = await_disconnect ss in
    if is_gone s
    then record { nudges = 0; lost = true }
    else record { nudges = next.nudges + 1; lost = next.lost }

-- The states of a connection that is there or comes, and those of one that has failed or is closed.
abbrev pub IsAlive : Connectivity → Type 0
IsAlive s = (s ≡ Connectivity.idle) ⊎ (s ≡ Connectivity.connecting) ⊎ (s ≡ Connectivity.ready)

abbrev pub IsLost : Connectivity → Type 0
IsLost s = (s ≡ Connectivity.transient_failure) ⊎ (s ≡ Connectivity.shut_down)

is_gone_cases :
    (s : Connectivity) → ((is_gone s ≡ true) × IsLost s) ⊎ ((is_gone s ≡ false) × IsAlive s)
unfolding is_gone
is_gone_cases Connectivity.idle = inr (refl, inl refl)
is_gone_cases Connectivity.connecting = inr (refl, inr (inl refl))
is_gone_cases Connectivity.ready = inr (refl, inr (inr refl))
is_gone_cases Connectivity.transient_failure = inl (refl, inl refl)
is_gone_cases Connectivity.shut_down = inl (refl, inr refl)

-- How the connection was lost: the states before, and the first that is gone.
pub record Loss (ss : List Connectivity) (a : Awaiting) : Type 0 where
  pub before : List Connectivity
  pub first : Connectivity
  pub after : List Connectivity
  pub all : ss ≡ before ++ first ∷ after
  pub alive : All IsAlive before
  pub gone : IsLost first
  pub called : a ≡ record { nudges = length before; lost = true }

module _ (s : Connectivity) (ss : List Connectivity) where
  await_gone : is_gone s ≡ true → await_disconnect (s ∷ ss) ≡ record { nudges = 0; lost = true }
  unfolding await_disconnect
  await_gone e = rw e refl

  await_alive :
      is_gone s ≡ false
      → await_disconnect (s ∷ ss)
        ≡ record { nudges = (await_disconnect ss).nudges + 1; lost = (await_disconnect ss).lost }
  unfolding await_disconnect
  await_alive e = rw e refl

-- Either each state of the connection is Idle, Connecting or Ready, and then `onLost` has not been called
-- and each was answered with a `Connect`; or some first one is TransientFailure or Shutdown, and then `onLost` is called at it,
-- whatever state follows, after a `Connect` for each state before.
pub await_disconnect_lem :
    (ss : List Connectivity)
    → (All IsAlive ss × (await_disconnect ss ≡ record { nudges = length ss; lost = false }))
      ⊎ Loss ss (await_disconnect ss)
await_disconnect_lem [] = inl (tt, unfold await_disconnect in refl)
await_disconnect_lem (s ∷ ss) = elim (is_gone_cases s) [
  | inl (gone, lost) ↦ inr (record {
    before = [];
    first = s;
    after = ss;
    all = refl;
    alive = tt;
    gone = lost;
    called = await_gone s ss gone;
  })
  | inr (alive, stays) ↦ elim (await_disconnect_lem ss) [
    | inl (rest, waits) ↦ inl ((stays, rest), rw (await_alive s ss alive, waits) (ground arith))
    | inr loss ↦ inr (record {
      before = s ∷ loss.before;
      first = loss.first;
      after = loss.after;
      all = ap (◌∷◌ s) loss.all;
      alive = (stays, loss.alive);
      gone = loss.gone;
      called = rw (await_alive s ss alive, loss.called) (ground arith);
    })
  ]
]
