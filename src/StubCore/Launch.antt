-- ===== src/StubCore/Launch.antt =====
-- modulesdk/testkit/stubcore.go with modulesdk/serve.go: the stub of core launches a module that runs
-- `serve`, and reads the line that it prints through a `bufio.Scanner`.
use weaveplatform_sdk.Base.{
  ◌≤◌, ◌<◌, ◌≡◌, ◌≢◌, ◌++◌, length, codes, All-append, ◌⊎◌, inl, inr, refl, sym, ap, ◌∙◌, true,
  false, [], ◌∷◌, Option, none, some, arith, Bytes, same_iff, Bool-cases, Lacks, if◌then◌else◌,
}
use weaveplatform_sdk.Base.Decimal.{max_uint32, format_uint, parse_uint32-format_uint}
use weaveplatform_sdk.Base.Space.{EndsVisible}
use weaveplatform_sdk.Errors.{GoError}
use weaveplatform_sdk.Handshake.{
  Line, Window, ok, format, parse, contains, parse_window, network_unix, network_pipe, bar,
  exit_protocol_unsupported,
}
use weaveplatform_sdk.Handshake.RoundTrip.{IsPrintable, parse-format, EndsVisible-format}
use weaveplatform_sdk.Lifecycle.{protocol_version}
use weaveplatform_sdk.Serve.{
  System, Wake, Served, network, module_addr, negotiate, serve, exit_code,
}
use weaveplatform_sdk.StubCore.Scanner.{
  newline, max_token, scan_text, scan_text-printed, scan_text-append,
}
use weaveplatform_sdk.StubCore.Claimed.{claimed_protocol}
use weaveplatform_sdk.StubCore.{Answer, LaunchError, advertised, launch_env, read_line, launch}

-- What comes of the scanner. For a line that does not fit its buffer, `Launch` waits for the process, that
-- is for its own timeout.
abbrev pub scanned : Option Bytes → Answer
scanned (some text) = Answer.printed text
scanned none = Answer.timed_out

-- How a process that runs `serve` answers: with its first line, which `Println` ends with a newline, or by
-- its exit.
unfoldable pub answer_of : Served → Answer
unfolding scan_text
answer_of served = elim served.stdout [
  | [] ↦ Answer.exited (exit_code served.failure)
  | line ∷ lines ↦ scanned (scan_text (line ++ newline ∷ []))
]

abbrev pub IsWindow : Window → Type 0
IsWindow w = (1 ≤ w.min) × (w.min ≤ w.max) × (w.max ≤ max_uint32)

abbrev pub line_at : System → Bytes → Line
line_at sys addr = record { protocol = protocol_version; network = network sys; addr = addr }

parse_window-format_uint :
    (w : Window) → IsWindow w → parse_window (format_uint w.min) (format_uint w.max) ≡ ok w
unfolding parse_window
parse_window-format_uint w (pos, ordered, fits) =
    rw (parse_uint32-format_uint w.min (omega arith), parse_uint32-format_uint w.max fits)
      (ground arith)

network_known : (sys : System) → (network sys ≡ network_unix) ⊎ (network sys ≡ network_pipe)
unfolding network
network_known sys = elim (Bool-cases sys.is_windows) [
  | inl windows ↦ inr (rw windows refl)
  | inr unix ↦ inl (rw unix refl)
]

line_at-IsPrintable :
    (sys : System) (addr : Bytes)
    → addr ≢ []
    → Lacks bar addr
    → EndsVisible addr
    → IsPrintable (line_at sys addr)
line_at-IsPrintable sys addr addressed no_bar visible = record {
  positive = omega arith;
  in_range = omega arith;
  known_network = network_known sys;
  addressed = addressed;
  addr_lacks_bar = no_bar;
  ends_visible = visible;
}

line_at-Lacks-newline :
    (sys : System) (addr : Bytes) → Lacks newline addr → Lacks newline (format (line_at sys addr))
unfolding format format_uint
line_at-Lacks-newline sys addr h = elim (network_known sys) [
  | inl unix ↦
      rw unix (All-append (λ c. c ≢ newline) (codes "WEAVE|1|1|unix|") addr (omega arith) h)
  | inr pipe ↦
      rw pipe (All-append (λ c. c ≢ newline) (codes "WEAVE|1|1|npipe|") addr (omega arith) h)
]

abbrev pub connected : (Line → Option GoError) → Line → LaunchError ⊎ Line
connected dial l = elim (dial l) [ none ↦ inr l | some e ↦ inl (LaunchError.no_connection e) ]

read_line_printed :
    (w : Window) (dial : Line → Option GoError) (l : Line)
    → IsPrintable l
    → contains w l.protocol ≡ true
    → read_line w dial (format l) ≡ connected dial l
unfolding read_line
read_line_printed w dial l p inside = rw (parse-format l p, read_line, inside) refl

line_at-begins :
    (sys : System) (addr rest : Bytes)
    → (tail : Bytes) × (format (line_at sys addr) ++ rest ≡ codes "WEAVE|1|1|" ++ tail)
unfolding format format_uint
line_at-begins sys addr rest = ((network sys ++ bar ∷ addr) ++ rest, refl)

read_line_parses :
    (w : Window) (dial : Line → Option GoError) (text : Bytes) (l : Line)
    → read_line w dial text ≡ inr l
    → parse text ≡ ok l
unfolding read_line
read_line_parses w dial text l h = ground (arith, h)

module _ (dial : Line → Option GoError) (w : Window) (sys : System) (addr : Bytes) (l : Line) where
  printed_protocol :
      (o : Option Bytes)
      → scan_text (format (line_at sys addr) ++ newline ∷ []) ≡ o
      → launch w dial (scanned o) ≡ inr l
      → l.protocol ≡ 1
  unfolding launch
  printed_protocol none scan taken = ground (arith, taken)
  printed_protocol (some t) scan taken =
      let (rest, cut) = scan_text-append (format (line_at sys addr) ++ newline ∷ []) t scan in
      let (tail, begins) = line_at-begins sys addr (newline ∷ []) in
      claimed_protocol t rest tail l (read_line_parses (advertised w) dial t l taken)
        (sym cut ∙ begins)

module _ (token host_addr sock_dir id : Bytes) (sys : System) (wake : Wake) where
  -- Core advertises a window, gives a token and its address, and the module can listen at an address
  -- that fits the line.
  pub record IsReady (w : Window) (addr : Bytes) : Type 0 where
    pub is_window : IsWindow w
    pub has_token : token ≢ []
    pub has_host : host_addr ≢ []
    pub has_addr : module_addr sys (launch_env w token host_addr sock_dir) id ≡ inr addr
    pub listens : sys.listen addr ≡ none
    pub addressed : addr ≢ []
    pub addr_lacks_bar : Lacks bar addr
    pub ends_visible : EndsVisible addr

  module _ (w : Window) (addr : Bytes) (r : IsReady w addr) where
    answer_scanned :
        contains w protocol_version ≡ true
        → answer_of (serve id sys (launch_env w token host_addr sock_dir) wake)
          ≡ scanned (scan_text (format (line_at sys addr) ++ newline ∷ []))
    unfolding answer_of serve negotiate launch_env
    answer_scanned inside =
        let window = parse_window-format_uint w r.is_window in
        let no_token = same_iff token [] in let no_host = same_iff host_addr [] in ground arith

    answer_taken :
        Lacks newline addr
        → length (format (line_at sys addr)) < max_token
        → contains w protocol_version ≡ true
        → answer_of (serve id sys (launch_env w token host_addr sock_dir) wake)
          ≡ Answer.printed (format (line_at sys addr))
    answer_taken one_line fits inside =
        answer_scanned inside
        ∙ ap scanned (
            scan_text-printed (format (line_at sys addr)) (line_at-Lacks-newline sys addr one_line)
              (EndsVisible-format (line_at sys addr) r.addressed r.ends_visible) fits)

    answer_refused :
        contains w protocol_version ≡ false
        → answer_of (serve id sys (launch_env w token host_addr sock_dir) wake)
          ≡ Answer.exited exit_protocol_unsupported
    unfolding answer_of serve negotiate launch_env exit_code
    answer_refused outside = let window = parse_window-format_uint w r.is_window in ground arith

  -- Let the stub of core launch a module that runs `serve`, where core's window is a window, the token
  -- and the addresses are set, and the module can listen at an address that fits the line,
  -- which has no newline and fits the scanner's 64 KiB. If the window takes the module's protocol,
  -- `Launch` connects at the module's own network and address, with the module's protocol, or fails with
  -- the error of the connection. If not, `Launch` gives `ErrProtocolRefused`.
  pub launch-serve :
      (dial : Line → Option GoError) (w : Window) (addr : Bytes)
      → IsReady (advertised w) addr
      → Lacks newline addr
      → length (format (line_at sys addr)) < max_token
      → launch w dial
          (answer_of (serve id sys (launch_env (advertised w) token host_addr sock_dir) wake))
        ≡ (if contains (advertised w) protocol_version
            then connected dial (line_at sys addr)
            else inl LaunchError.protocol_refused)
  unfolding launch
  launch-serve dial w addr r one_line fits =
      elim (Bool-cases (contains (advertised w) protocol_version)) [
        | inl inside ↦
            rw (answer_taken (advertised w) addr r one_line fits inside, inside)
              (read_line_printed (advertised w) dial (line_at sys addr)
                (line_at-IsPrintable sys addr r.addressed r.addr_lacks_bar r.ends_visible) inside)
        | inr outside ↦ rw (answer_refused (advertised w) addr r outside, outside) refl
      ]

  -- The protocol of a line that `Launch` takes, also where the scanner has cut it.
  pub launched_protocol :
      (dial : Line → Option GoError) (w : Window) (addr : Bytes) (l : Line)
      → IsReady (advertised w) addr
      → launch w dial
          (answer_of (serve id sys (launch_env (advertised w) token host_addr sock_dir) wake))
        ≡ inr l
      → l.protocol ≡ protocol_version
  unfolding launch
  launched_protocol dial w addr l r launched =
      elim (Bool-cases (contains (advertised w) protocol_version)) [
        | inl inside ↦
            printed_protocol dial w sys addr l
              (scan_text (format (line_at sys addr) ++ newline ∷ [])) refl
              (ap (launch w dial) (sym (answer_scanned (advertised w) addr r inside)) ∙ launched)
        | inr outside ↦
            let refused = answer_refused (advertised w) addr r outside in
            ground (arith, refused, launched)
      ]
