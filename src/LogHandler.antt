-- ===== src/LogHandler.antt =====
-- modulesdk/loghandler.go: the slog handler that streams records to core and falls back to the
-- local handler. An attribute is its key and what `Value.String()` gives. The fallback, an
-- `slog.Handler`, is kept as the `WithAttrs` and `WithGroup` calls that made it. The answers of the
-- log service are arguments: `opens` is the stream that `Write` gives, or nothing if it fails, and
-- `sends` says whether `Send` succeeds. The mutex makes each call one step.
pub mod Delivery
pub mod Attributes
pub mod Logger
use weaveplatform_sdk.Base.{
  ℕ, Bool, true, false, not, ◌||◌, List, [], ◌∷◌, ◌++◌, Option, none, some, Bytes, codes, same,
  if◌then◌else◌,
}
use weaveplatform_sdk.Base.Dict.{assign}
use weaveplatform_sdk.Base.Int.{ℤ, to_int32}

pub record Attr : Type 0 where
  pub key : Bytes
  pub value : Bytes

pub record Record : Type 0 where
  pub level : ℤ
  pub message : Bytes
  pub time_ms : ℤ
  pub attrs : List Attr

-- `agentv1.LogRecord`; the map is a list with one entry for each key.
pub record WireRecord : Type 0 where
  pub level : ℤ
  pub message : Bytes
  pub time_ms : ℤ
  pub attrs : List (Bytes × Bytes)

pub data Derivation : Type 0 where
  by_attrs : List Attr → Derivation
  by_group : Bytes → Derivation

pub record StreamHandler : Type 0 where
  pub fallback : List Derivation
  pub has_client : Bool
  pub stream : Option ℕ
  pub broken : Bool
  pub attrs : List Attr
  pub group : Bytes

-- Where a record went: to a stream as a wire record, or to the fallback as it was.
pub data Sink : Type 0 where
  streamed : ℕ → WireRecord → Sink
  fell_back : List Derivation → Record → Sink

unfoldable pub new_stream_handler : List Derivation → Bool → StreamHandler
new_stream_handler fallback has_client = record {
  fallback = fallback;
  has_client = has_client;
  stream = none;
  broken = false;
  attrs = [];
  group = [];
}

-- The key under the group, as in `Handle` and in `WithGroup`.
unfoldable pub qualify : Bytes → Bytes → Bytes
qualify [] key = key
qualify (g ∷ gs) key = (g ∷ gs) ++ (b'.' ∷ key)

-- `for _, a := range attrs { rec.Attrs[key] = a.Value.String() }`, the key under a group.
unfoldable pub put_attrs : Bytes → List Attr → List (Bytes × Bytes) → List (Bytes × Bytes)
unfolding qualify assign
put_attrs group [] m = m
put_attrs group (a ∷ as') m = put_attrs group as' (assign (qualify group a.key) a.value m)

-- The record that `Handle` builds; the handler's own attributes are put under their bare keys.
unfoldable pub wire : StreamHandler → Record → WireRecord
unfolding put_attrs
wire h r = record {
  level = to_int32 r.level;
  message = r.message;
  time_ms = r.time_ms;
  attrs = put_attrs h.group r.attrs (put_attrs [] h.attrs []);
}

-- The call of `Send` on the open stream.
unfoldable pub send_on : ℕ → Bool → StreamHandler → StreamHandler × Option ℕ
send_on id true h = (h, some id)
send_on id false h = (record h { broken = true; stream = none }, none)

-- `send`: the handler after it, and the stream that took the record.
unfoldable pub send : Option ℕ → Bool → StreamHandler → StreamHandler × Option ℕ
unfolding send_on
send opens sends h = if h.broken || not h.has_client then (h, none) else elim h.stream [
  | some id ↦ send_on id sends h
  | none ↦ elim opens [
    | none ↦ (record h { broken = true }, none)
    | some id ↦ send_on id sends (record h { stream = some id })
  ]
]

unfoldable pub handle : Option ℕ → Bool → Record → StreamHandler → StreamHandler × Sink
unfolding send send_on wire
handle opens sends r h =
    let (h', taken) = send opens sends h in
    elim taken [
      | some id ↦ (h', Sink.streamed id (wire h r))
      | none ↦ (h', Sink.fell_back h.fallback r)
    ]

unfoldable pub with_attrs : List Attr → StreamHandler → StreamHandler
with_attrs attrs h = record {
  fallback = h.fallback ++ Derivation.by_attrs attrs ∷ [];
  has_client = h.has_client;
  stream = h.stream;
  broken = false;
  attrs = h.attrs ++ attrs;
  group = h.group;
}

unfoldable pub with_group : Bytes → StreamHandler → StreamHandler
unfolding qualify
with_group name h = record {
  fallback = h.fallback ++ Derivation.by_group name ∷ [];
  has_client = h.has_client;
  stream = h.stream;
  broken = false;
  attrs = h.attrs;
  group = qualify h.group name;
}
