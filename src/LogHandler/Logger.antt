-- ===== src/LogHandler/Logger.antt =====
-- wlog/wlog.go, with modulesdk/hostclient.go (`dialHost`, `Log`) and modulesdk/loghandler.go (`Enabled`):
-- the loggers that a module has, before Init and after. A logger of slog asks its handler whether the
-- level is enabled, and gives it the record only then; the JSON handler of slog enables its level and
-- those above, and keeps the `WithAttrs` and `WithGroup` calls that made it.
use weaveplatform_sdk.Base.{
  ℕ, ◌≡◌, refl, ap, ◌∙◌, Bool, true, List, [], ◌∷◌, ◌++◌, Option, none, some, Bytes, codes,
  Bool-cases, inl, inr, if◌then◌else◌,
}
use weaveplatform_sdk.Base.Int.{ℤ, leb_int}
use weaveplatform_sdk.Wlog.{Level, level_from_env}
use weaveplatform_sdk.LogHandler.{
  Attr, Record, Derivation, StreamHandler, Sink, new_stream_handler, wire, handle,
}
use weaveplatform_sdk.Base.Dict.{lookup}
use weaveplatform_sdk.LogHandler.Attributes.{last_value, lookup-wire, or_else-none}
use weaveplatform_sdk.LogHandler.Delivery.{
  LogCall, handle_all, handle_all-Splits, fallen, on_stream,
}

-- slog's numbers.
unfoldable pub level_number : Level → ℤ
level_number Level.debug = ℤ.negsuc 3
level_number Level.info = ℤ.pos 0
level_number Level.warn = ℤ.pos 4
level_number Level.error = ℤ.pos 8

-- `slog.NewJSONHandler` at a level, with what was derived from it.
pub record LocalHandler : Type 0 where
  pub minimum : ℤ
  pub derived : List Derivation

pub data Logger : Type 0 where
  local : LocalHandler → Logger
  -- the handler that streams, with its fallback
  streamed : LocalHandler → StreamHandler → Logger

unfoldable pub local_enabled : LocalHandler → ℤ → Bool
local_enabled h l = leb_int h.minimum l

-- `Enabled`
unfoldable pub enabled : Logger → ℤ → Bool
unfolding local_enabled
enabled (Logger.local h) l = local_enabled h l
enabled (Logger.streamed fallback h) l = local_enabled fallback l

abbrev pub component_attr : Bytes → Attr
component_attr component = record { key = codes "component"; value = component }

-- `New`
unfoldable pub new_logger : ℤ → Bytes → Logger
new_logger level component =
    Logger.local (record {
      minimum = level;
      derived = Derivation.by_attrs (component_attr component ∷ []) ∷ [];
    })

-- `Default`
unfoldable pub default_logger : Bytes → Bytes → Logger
unfolding new_logger level_number
default_logger env component = new_logger (level_number (level_from_env env)) component

-- What `dialHost` does with the logger that it is given.
unfoldable pub streamed_log : Logger → Logger
unfolding new_stream_handler
streamed_log (Logger.local h) = Logger.streamed h (new_stream_handler h.derived true)
streamed_log (Logger.streamed fallback h) =
    Logger.streamed fallback (new_stream_handler h.fallback true)

-- `Log`
unfoldable pub log : Option Logger → Logger → Logger
log (some streaming) own = streaming
log none own = own

-- One call of a logger: the logger after it, and where the record went.
unfoldable pub log_call : LogCall → Logger → Logger × List Sink
unfolding enabled
log_call c l =
    if enabled l c.entry.level
    then elim l [
      | Logger.local h ↦ (Logger.local h, Sink.fell_back h.derived c.entry ∷ [])
      | Logger.streamed fallback h ↦
          let (h', sink) = handle c.opens c.sends c.entry h in
          (Logger.streamed fallback h', sink ∷ [])
    ]
    else (l, [])

unfoldable pub log_all : List LogCall → Logger → List Sink
unfolding log_call
log_all [] l = []
log_all (c ∷ cs) l = let (l', sinks) = log_call c l in sinks ++ log_all cs l'

-- The calls that are at the level or above.
unfoldable pub at_least : ℤ → List LogCall → List LogCall
at_least m [] = []
at_least m (c ∷ cs) = let rest = at_least m cs in if leb_int m c.entry.level then c ∷ rest else rest

log_all-streamed :
    (cs : List LogCall) (fallback : LocalHandler) (h : StreamHandler)
    → log_all cs (Logger.streamed fallback h) ≡ handle_all (at_least fallback.minimum cs) h
unfolding log_all log_call enabled local_enabled at_least handle_all
log_all-streamed [] fallback h = refl
log_all-streamed (c ∷ cs) fallback h = elim (Bool-cases (leb_int fallback.minimum c.entry.level)) [
  | inl kept ↦
      rw (log_all, kept)
        (ap (◌∷◌ (handle c.opens c.sends c.entry h).1)
          (log_all-streamed cs fallback (handle c.opens c.sends c.entry h).0))
  | inr dropped ↦ rw (log_all, dropped) (log_all-streamed cs fallback h)
]

log_all-local :
    (cs : List LogCall) (h : LocalHandler) (k : StreamHandler)
    → h.derived ≡ k.fallback
    → log_all cs (Logger.local h) ≡ fallen k (at_least h.minimum cs)
unfolding log_all log_call enabled local_enabled at_least fallen
log_all-local [] h k e = refl
log_all-local (c ∷ cs) h k e = elim (Bool-cases (leb_int h.minimum c.entry.level)) [
  | inl kept ↦
      rw (log_all, at_least, kept)
        (ap (λ d. Sink.fell_back d c.entry ∷ log_all cs (Logger.local h)) e
          ∙ ap (◌∷◌ (Sink.fell_back k.fallback c.entry)) (log_all-local cs h k e))
  | inr dropped ↦ rw (log_all, at_least, dropped) (log_all-local cs h k e)
]

module _ (env component : Bytes) where
  -- The logger that `Serve` makes, and the one that `Host.Log` gives.
  abbrev pub own_logger : Logger
  own_logger = default_logger env component

  abbrev pub host_logger : Logger
  host_logger = log (some (streamed_log own_logger)) own_logger

  abbrev pub minimum : ℤ
  minimum = level_number (level_from_env env)

  abbrev pub host_handler : StreamHandler
  host_handler = new_stream_handler (Derivation.by_attrs (component_attr component ∷ []) ∷ []) true

  -- A module's log calls, first to the logger of its own and then to the one of its host: those below
  -- the level of WEAVE_LOG_LEVEL go nowhere, and of the others each goes to one place, in order. The
  -- first are all written locally. Of the second, those up to some call go to one stream of core and
  -- those behind are written locally. The component is in all that is written locally; what goes to
  -- core has such an attribute only if the call itself gives it.
  pub module_logs_lem :
      (early late : List LogCall)
      → (log_all early own_logger ≡ fallen host_handler (at_least minimum early))
        × ((id : ℕ) × (before : List LogCall) × (behind : List LogCall) × (at_least minimum late
              ≡ before ++ behind)
            × (log_all late host_logger
                ≡ on_stream host_handler id before ++ fallen host_handler behind))
        × ((r : Record)
            → lookup (codes "component") (wire host_handler r).attrs
              ≡ last_value [] (codes "component") r.attrs)
  unfolding log streamed_log new_logger default_logger new_stream_handler last_value
  module_logs_lem early late =
      let (id, parts) = handle_all-Splits (at_least minimum late) host_handler in
      (
        log_all-local early _ host_handler refl,
        (
          id,
          parts.before,
          parts.behind,
          parts.all_calls,
          log_all-streamed late _ host_handler ∙ parts.all_sinks,
        ),
        λ r.
            lookup-wire host_handler r (codes "component")
            ∙ or_else-none (last_value [] (codes "component") r.attrs),
      )
