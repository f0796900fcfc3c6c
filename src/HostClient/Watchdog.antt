-- ===== src/HostClient/Watchdog.antt =====
-- modulesdk/hostclient.go: the goroutine of the watchdog (`launchWatchdogLocked`), from tick to tick
-- until its context is done. A `Tick` has the answers of `Notify`, if it is asked, and of `Send`.
use weaveplatform_sdk.Base.{
  ℕ, ◌+◌, ◌%◌, ◌^◌, ◌<◌, ◌≡◌, refl, ap, ◌∙◌, Bool, true, false, List, [], ◌∷◌, arith, length, All,
  if◌then◌else◌, inl, inr, ◌⊎◌, subst, map,
}

pub record Tick : Type 0 where
  pub opens : Bool
  pub sends : Bool

pub record Watchdog : Type 0 where
  -- the stream is not nil
  pub is_open : Bool
  pub seq : ℕ

-- A ping by its sequence number, and whether `Send` took it.
pub record Ping : Type 0 where
  pub sequence : ℕ
  pub delivered : Bool

abbrev pub idle : Watchdog
idle = record { is_open = false; seq = 0 }

-- The ticks up to the end of the context.
unfoldable pub ping_loop : Watchdog → List Tick → List Ping
ping_loop w [] = []
ping_loop w (t ∷ ts) =
    let skipped = ping_loop w ts in
    let seq = (w.seq + 1) % 2 ^ 64 in
    let sent =
      record { sequence = seq; delivered = t.sends }
      ∷ ping_loop (record { is_open = t.sends; seq = seq }) ts in
    if w.is_open then sent else if t.opens then sent else skipped

-- The numbers of the pings are `n`, `n + 1`, and so on.
abbrev pub CountsFrom : ℕ → List Ping → Type 0
CountsFrom n [] = Unit {0}
CountsFrom n (p ∷ ps) = (p.sequence ≡ n) × CountsFrom (n + 1) ps

-- A tick at which the stream is open, or opens, sends; another does nothing.
module _ (w : Watchdog) (t : Tick) (ts : List Tick) where
  after_send : Watchdog
  after_send = record { is_open = t.sends; seq = (w.seq + 1) % 2 ^ 64 }

  ping_loop_sends :
      (w.is_open ≡ true) ⊎ (t.opens ≡ true)
      → ping_loop w (t ∷ ts)
        ≡ record { sequence = (w.seq + 1) % 2 ^ 64; delivered = t.sends } ∷ ping_loop after_send ts
  unfolding ping_loop after_send
  ping_loop_sends h = ground arith

  ping_loop_skips : w.is_open ≡ false → t.opens ≡ false → ping_loop w (t ∷ ts) ≡ ping_loop w ts
  unfolding ping_loop
  ping_loop_skips h k = ground arith

  sends_or_skips :
      ((w.is_open ≡ true) ⊎ (t.opens ≡ true)) ⊎ ((w.is_open ≡ false) × (t.opens ≡ false))
  sends_or_skips = ground arith

ping_loop-CountsFrom :
    (ts : List Tick) (w : Watchdog)
    → w.seq + length ts < 2 ^ 64
    → CountsFrom (w.seq + 1) (ping_loop w ts)
unfolding after_send
ping_loop-CountsFrom [] w h = unfold ping_loop in tt
ping_loop-CountsFrom (t ∷ ts) w h = elim (sends_or_skips w t ts) [
  | inr (closed, fails) ↦
      rw (ping_loop_skips w t ts closed fails) (ping_loop-CountsFrom ts w (omega arith))
  | inl sends ↦
      let e : (w.seq + 1) % 2 ^ 64 ≡ w.seq + 1 = omega arith in
      rw (ping_loop_sends w t ts sends) (
        e,
        subst (λ n. CountsFrom (n + 1) (ping_loop (after_send w t ts) ts)) e
            (ping_loop-CountsFrom ts (after_send w t ts) (omega (arith, e))),
      )
]

each_tick :
    (ts : List Tick) (w : Watchdog)
    → All (λ t. t.opens ≡ true) ts
    → map (λ p. p.delivered) (ping_loop w ts) ≡ map (λ t. t.sends) ts
each_tick [] w h = unfold ping_loop in refl
each_tick (t ∷ ts) w (opens, rest) =
    ap (map (λ p. p.delivered)) (ping_loop_sends w t ts (inr opens))
    ∙ ap (◌∷◌ t.sends) (each_tick ts (after_send w t ts) rest)

-- For fewer than 2^64 ticks, the pings that the watchdog sends are numbered 1, 2, 3 and so on, also
-- across streams that break and are opened anew.
pub ping_loop_numbers : (ts : List Tick) → length ts < 2 ^ 64 → CountsFrom 1 (ping_loop idle ts)
ping_loop_numbers ts h =
    subst (λ n. CountsFrom n (ping_loop idle ts)) (omega arith)
      (ping_loop-CountsFrom ts idle (omega arith))

-- If the stream can be opened at every tick, each tick sends one ping, whether or not those before it
-- were taken.
ping_loop_each_tick :
    (ts : List Tick)
    → All (λ t. t.opens ≡ true) ts
    → map (λ p. p.delivered) (ping_loop idle ts) ≡ map (λ t. t.sends) ts
ping_loop_each_tick ts opens = each_tick ts idle opens
