-- ===== src/LogHandler/Delivery.antt =====
-- modulesdk/loghandler.go: where the records of a handler go, over any sequence of log calls.
use weaveplatform_sdk.Base.{
  ℕ, ◌≡◌, refl, Bool, true, false, List, [], ◌∷◌, ◌++◌, map, Option, none, some, arith, Bool-cases,
  Option-cases, inl, inr, ◌⊎◌, ◌∙◌, ap,
}
use weaveplatform_sdk.LogHandler.{Record, StreamHandler, Sink, wire, handle}

-- A log call with the answers that the service would give it.
pub record LogCall : Type 0 where
  pub entry : Record
  pub opens : Option ℕ
  pub sends : Bool

unfoldable pub handle_all : List LogCall → StreamHandler → List Sink
handle_all [] h = []
handle_all (c ∷ cs) h = let (h', sink) = handle c.opens c.sends c.entry h in sink ∷ handle_all cs h'

unfoldable pub fallen : StreamHandler → List LogCall → List Sink
fallen h cs = map (λ c. Sink.fell_back h.fallback c.entry) cs

unfoldable pub on_stream : StreamHandler → ℕ → List LogCall → List Sink
on_stream h id cs = map (λ c. Sink.streamed id (wire h c.entry)) cs

-- A handler that does not try the stream.
abbrev IsDead : StreamHandler → Type 0
IsDead h = (h.broken ≡ true) ⊎ (h.has_client ≡ false)

handle_dead :
    (c : LogCall) (h : StreamHandler)
    → IsDead h
    → handle c.opens c.sends c.entry h ≡ (h, Sink.fell_back h.fallback c.entry)
unfolding handle
handle_dead c h d = ground arith

handle_all_dead : (cs : List LogCall) (h : StreamHandler) → IsDead h → handle_all cs h ≡ fallen h cs
unfolding handle_all fallen
handle_all_dead [] h d = refl
handle_all_dead (c ∷ cs) h d =
    ap (λ r. r.1 ∷ handle_all cs r.0) (handle_dead c h d)
    ∙ ap (◌∷◌ (Sink.fell_back h.fallback c.entry)) (handle_all_dead cs h d)

-- The calls split in two: what comes before went to the stream `id` as wire records, what comes
-- behind went to the fallback as it was, and the order is kept.
pub record Splits (h : StreamHandler) (id : ℕ) (cs : List LogCall) : Type 0 where
  pub before : List LogCall
  pub behind : List LogCall
  pub all_calls : cs ≡ before ++ behind
  pub all_sinks : handle_all cs h ≡ on_stream h id before ++ fallen h behind

module _ (h : StreamHandler) (alive : h.broken ≡ false) (client : h.has_client ≡ true) where
  abbrev streaming : ℕ → StreamHandler
  streaming id = record h { stream = some id }

  handle_sent :
      (id : ℕ) (c : LogCall)
      → (h.stream ≡ some id) ⊎ ((h.stream ≡ none) × (c.opens ≡ some id))
      → c.sends ≡ true
      → handle c.opens c.sends c.entry h ≡ (streaming id, Sink.streamed id (wire h c.entry))
  unfolding handle
  handle_sent id c e s = ground arith

  handle_refused :
      (c : LogCall)
      → c.sends ≡ false
      → handle c.opens c.sends c.entry h
        ≡ (record h { broken = true; stream = none }, Sink.fell_back h.fallback c.entry)
  unfolding handle
  handle_refused c s = ground arith

  handle_unopened :
      (c : LogCall)
      → h.stream ≡ none
      → c.opens ≡ none
      → handle c.opens c.sends c.entry h
        ≡ (record h { broken = true; stream = none }, Sink.fell_back h.fallback c.entry)
  unfolding handle
  handle_unopened c e o = ground arith

  -- From a call that breaks the stream on, all goes to the fallback.
  Splits-broken :
      (id : ℕ) (c : LogCall) (cs : List LogCall)
      → handle c.opens c.sends c.entry h
        ≡ (record h { broken = true; stream = none }, Sink.fell_back h.fallback c.entry)
      → Splits h id (c ∷ cs)
  unfolding handle_all fallen on_stream
  Splits-broken id c cs e = record {
    before = [];
    behind = c ∷ cs;
    all_calls = refl;
    all_sinks =
        ap (λ r. r.1 ∷ handle_all cs r.0) e
        ∙ ap (◌∷◌ (Sink.fell_back h.fallback c.entry))
            (handle_all_dead cs (record h { broken = true; stream = none }) (inl refl));
  }

  Splits-sent :
      (id : ℕ) (c : LogCall) (cs : List LogCall)
      → handle c.opens c.sends c.entry h ≡ (streaming id, Sink.streamed id (wire h c.entry))
      → Splits (streaming id) id cs
      → Splits h id (c ∷ cs)
  unfolding handle_all fallen on_stream wire
  Splits-sent id c cs e w = record {
    before = c ∷ w.before;
    behind = w.behind;
    all_calls = ap (◌∷◌ c) w.all_calls;
    all_sinks =
        ap (λ r. r.1 ∷ handle_all cs r.0) e
        ∙ ap (◌∷◌ (Sink.streamed id (wire h c.entry))) w.all_sinks;
  }

Splits-streaming :
    (cs : List LogCall) (h : StreamHandler) (id : ℕ)
    → h.broken ≡ false
    → h.has_client ≡ true
    → h.stream ≡ some id
    → Splits h id cs
Splits-streaming [] h id alive client e = record {
  before = [];
  behind = [];
  all_calls = refl;
  all_sinks = unfold handle_all fallen on_stream in refl;
}
Splits-streaming (c ∷ cs) h id alive client e = elim (Bool-cases c.sends) [
  | inl s ↦
      Splits-sent h alive client id c cs (handle_sent h alive client id c (inl e) s)
        (Splits-streaming cs (record h { stream = some id }) id alive client refl)
  | inr s ↦ Splits-broken h alive client id c cs (handle_refused h alive client c s)
]

Splits-unopened :
    (c : LogCall) (cs : List LogCall) (h : StreamHandler)
    → h.broken ≡ false
    → h.has_client ≡ true
    → h.stream ≡ none
    → (id : ℕ) × Splits h id (c ∷ cs)
Splits-unopened c cs h alive client e = elim (Bool-cases c.sends) [
  | inr s ↦ (0, Splits-broken h alive client 0 c cs (handle_refused h alive client c s))
  | inl s ↦ elim (Option-cases c.opens) [
    | inl o ↦ (0, Splits-broken h alive client 0 c cs (handle_unopened h alive client c e o))
    | inr (id, o) ↦ (
      id,
      Splits-sent h alive client id c cs (handle_sent h alive client id c (inr (e, o)) s)
          (Splits-streaming cs (record h { stream = some id }) id alive client refl),
    )
  ]
]

Splits-dead : (cs : List LogCall) (h : StreamHandler) → IsDead h → (id : ℕ) × Splits h id cs
unfolding on_stream
Splits-dead cs h d =
    (0, record { before = []; behind = cs; all_calls = refl; all_sinks = handle_all_dead cs h d })

-- Over any log calls, and however the service answers, every record goes to exactly one place, in
-- order: up to some call to one stream of core, from there on to the local handler. So the stream
-- is not tried again once it has failed, and no record is lost.
pub handle_all-Splits : (cs : List LogCall) (h : StreamHandler) → (id : ℕ) × Splits h id cs
handle_all-Splits cs h = elim (Bool-cases h.broken) [
  | inl b ↦ Splits-dead cs h (inl b)
  | inr alive ↦ elim (Bool-cases h.has_client) [
    | inr c ↦ Splits-dead cs h (inr c)
    | inl client ↦ elim (Option-cases h.stream) [
      | inr (id, e) ↦ (id, Splits-streaming cs h id alive client e)
      | inl e ↦ fresh cs e alive client
    ]
  ]
]
  where
    fresh :
        (cs : List LogCall)
        → h.stream ≡ none
        → h.broken ≡ false
        → h.has_client ≡ true
        → (id : ℕ) × Splits h id cs
    fresh [] e alive client = (
      0,
      record {
        before = [];
        behind = [];
        all_calls = refl;
        all_sinks = unfold handle_all fallen on_stream in refl;
      },
    )
    fresh (c ∷ cs) e alive client = Splits-unopened c cs h alive client e
