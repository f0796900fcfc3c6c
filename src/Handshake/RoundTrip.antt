-- ===== src/Handshake/RoundTrip.antt =====
-- handshake/handshake.go: what `Format` writes, `Parse` reads.
use mathlib.Core.List.{append_assoc}
use weaveplatform_sdk.Base.{
  ◌≤◌, ◌≡◌, ◌≢◌, ◌⊎◌, inl, inr, [], ◌∷◌, ◌++◌, arith, Bytes, codes, same, split, split-Lacks,
  split_at_sep, Lacks, same_iff, same_refl,
}
use weaveplatform_sdk.Base.Decimal.{
  format_uint, max_uint32, All-IsDigit-Lacks, format_uint-All-IsDigit, parse_uint32-format_uint,
}
use weaveplatform_sdk.Base.Space.{
  trim_space, EndsVisible, trim_space_still, EndsVisible-append, front_width,
}
use weaveplatform_sdk.Handshake.{
  Line, format, parse, parse_parts, parse_fields, network_unix, network_pipe, line_version, bar, ok,
  normalise,
}

-- A line that a module may print: a protocol above 0, a network of `ipc`, and an address that is
-- not empty, holds no bar and does not end in white space.
pub record IsPrintable (l : Line) : Type 0 where
  pub positive : 1 ≤ l.protocol
  pub in_range : l.protocol ≤ max_uint32
  pub known_network : (l.network ≡ network_unix) ⊎ (l.network ≡ network_pipe)
  pub addressed : l.addr ≢ []
  pub addr_lacks_bar : Lacks bar l.addr
  pub ends_visible : EndsVisible l.addr

network-Lacks-bar : (n : Bytes) → (n ≡ network_unix) ⊎ (n ≡ network_pipe) → Lacks bar n
network-Lacks-bar n (inl e) = rw e (omega arith)
network-Lacks-bar n (inr e) = rw e (omega arith)

-- What a printed line holds in front of its address.
before_addr : Line → Bytes
before_addr l =
    codes "WEAVE"
    ++ (bar ∷ (format_uint line_version ++ (bar ∷ (format_uint l.protocol ++ (bar ∷ l.network)))))

format-before_addr : (l : Line) → format l ≡ before_addr l ++ (bar ∷ l.addr)
unfolding format before_addr
format-before_addr l = simp append_assoc

-- The address is the end of the line.
pub EndsVisible-format : (l : Line) → l.addr ≢ [] → EndsVisible l.addr → EndsVisible (format l)
EndsVisible-format l h e =
    rw (format-before_addr l) (EndsVisible-append (before_addr l) bar l.addr h (omega arith) e)

trim_space-format : (l : Line) → l.addr ≢ [] → EndsVisible l.addr → trim_space (format l) ≡ format l
unfolding format front_width
trim_space-format l h e = trim_space_still (format l) (ground arith) (EndsVisible-format l h e)

pub split-format :
    (l : Line)
    → Lacks bar l.network
    → split bar (format l)
      ≡ codes "WEAVE"
        ∷ format_uint line_version
        ∷ format_uint l.protocol
        ∷ l.network
        ∷ split bar l.addr
unfolding format
split-format l hn = rw (
  split_at_sep bar (codes "WEAVE") _ (omega arith),
  split_at_sep bar (format_uint line_version) _
      (All-IsDigit-Lacks bar _ (omega arith) (format_uint-All-IsDigit line_version)),
  split_at_sep bar (format_uint l.protocol) _
      (All-IsDigit-Lacks bar _ (omega arith) (format_uint-All-IsDigit l.protocol)),
  split_at_sep bar l.network _ hn,
)

normalise_known : (n : Bytes) → (n ≡ network_unix) ⊎ (n ≡ network_pipe) → normalise n ≡ n
unfolding normalise same
normalise_known n (inl e) = rw e
normalise_known n (inr e) = rw e

pub parse_fields_printable :
    (s : Bytes) (l : Line)
    → IsPrintable l
    → parse_fields s
        (codes "WEAVE")
        (format_uint line_version)
        (format_uint l.protocol)
        l.network
        l.addr
      ≡ ok l
unfolding parse_fields
parse_fields_printable s l p = ground (
  arith,
  parse_uint32-format_uint line_version (omega arith),
  parse_uint32-format_uint l.protocol p.in_range,
  same_refl (codes "WEAVE"),
  same_iff l.network network_unix,
  same_iff l.network network_pipe,
  same_iff l.addr [],
  normalise_known l.network p.known_network,
)

-- A printed line is read back, whatever stands in it within `IsPrintable`.
pub parse-format : (l : Line) → IsPrintable l → parse (format l) ≡ ok l
unfolding parse parse_parts
parse-format l p =
    rw
      (
        trim_space-format l p.addressed p.ends_visible,
        split-format l (network-Lacks-bar l.network p.known_network),
        split-Lacks bar l.addr p.addr_lacks_bar,
      )
      (parse_fields_printable (format l) l p)
