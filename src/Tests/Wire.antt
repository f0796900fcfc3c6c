-- ===== src/Tests/Wire.antt =====
-- The handshake, the errors and the log handler at concrete inputs.
use weaveplatform_sdk.Base.{◌≡◌, ◌↔◌, refl, true, [], ◌∷◌, some, arith, codes, same, split, inl}
use weaveplatform_sdk.Base.Decimal.{format_uint, parse_uint32}
use weaveplatform_sdk.Base.Space.{EndsVisible, back_width, trim_space}
use weaveplatform_sdk.Handshake.{Line, ok, format, parse, network_unix, network_pipe}
use weaveplatform_sdk.Handshake.RoundTrip.{IsPrintable, parse-format}
use weaveplatform_sdk.Handshake.Accepts.{Spells, parse_iff}
use weaveplatform_sdk.Errors.{Sentinel, Code, Status, GoError, is, as_status, sentinel_err}
use weaveplatform_sdk.Errors.Branching.{is?, ops, sentinel_code, branch_iff}

abbrev toy_line : Line
toy_line = record { protocol = 1; network = network_unix; addr = codes "/run/weave/toy.sock" }

format-toy_line : format toy_line ≡ codes "WEAVE|1|1|unix|/run/weave/toy.sock"
unfolding format format_uint
format-toy_line = refl

toy_line-EndsVisible : EndsVisible toy_line.addr
unfolding back_width
toy_line-EndsVisible = refl

toy_line-IsPrintable : IsPrintable toy_line
toy_line-IsPrintable = record {
  positive = omega arith;
  in_range = omega arith;
  known_network = inl refl;
  addressed = ground arith;
  addr_lacks_bar = omega arith;
  ends_visible = toy_line-EndsVisible;
}

parse-format_example : parse (format toy_line) ≡ ok toy_line
parse-format_example = parse-format toy_line toy_line-IsPrintable

abbrev old_pipe_line : Line
old_pipe_line = record { protocol = 1; network = network_pipe; addr = codes "p" }

-- The old network name, between white space.
parse_old_pipe : parse (codes " WEAVE|1|1|winpipe|p\t") ≡ ok old_pipe_line
unfolding parse trim_space parse_uint32 same split
parse_old_pipe = refl

parse_iff_example :
    (parse (codes " WEAVE|1|1|winpipe|p\t") ≡ ok old_pipe_line)
    ↔ Spells (codes " WEAVE|1|1|winpipe|p\t") old_pipe_line
parse_iff_example = parse_iff (codes " WEAVE|1|1|winpipe|p\t") old_pipe_line

abbrev missing_key : Status
missing_key = record { code = Code.not_found; message = codes "no such key" }

branch_iff_example :
    (is?
        (ops (codes "store.get" ∷ []) (sentinel_err as_status (some (GoError.status missing_key))))
        Sentinel.not_found
      ≡ true)
    ↔ (Code.not_found ≡ sentinel_code Sentinel.not_found)
unfolding as_status is
branch_iff_example =
    branch_iff as_status (codes "store.get" ∷ []) (GoError.status missing_key) missing_key
      Sentinel.not_found refl refl
