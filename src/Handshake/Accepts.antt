-- ===== src/Handshake/Accepts.antt =====
-- handshake/handshake.go: exactly which lines and windows are accepted, and as what.
use weaveplatform_sdk.Base.{
  ◌≤◌, ◌≡◌, ◌≢◌, ◌⊎◌, ◌↔◌, inl, inr, refl, sym, ap, ◌∙◌, List, [], ◌∷◌, some, arith, Bytes, codes,
  same, split, join, split-Lacks, split_at_sep, Lacks, All, same_iff, same_refl, join-split,
  split-All-Lacks,
}
use mathlib.Core.Path.{subst}
use weaveplatform_sdk.Base.Decimal.{parse_uint32, Reads, parse_uint32_iff, All-IsDigit-Lacks}
use weaveplatform_sdk.Base.Space.{trim_space}
use weaveplatform_sdk.Handshake.{
  Line, parse, parse_parts, parse_fields, network_unix, network_pipe, legacy_network_pipe,
  line_version, bar, ok, normalise, Window, parse_window,
}

-- How a network is spelled: the old name of the pipe network is still read.
abbrev pub NetworkReads : Bytes → Bytes → Type 0
NetworkReads n network =
    ((n ≡ network_unix) × (network ≡ network_unix))
    ⊎ (((n ≡ network_pipe) ⊎ (n ≡ legacy_network_pipe)) × (network ≡ network_pipe))

-- The three fields behind the first, and what they say of the line.
pub record Fields (version protocol network : Bytes) (l : Line) : Type 0 where
  pub version_one : Reads version line_version
  pub protocol_reads : Reads protocol l.protocol
  pub positive : 1 ≤ l.protocol
  pub network_reads : NetworkReads network l.network
  pub addressed : l.addr ≢ []

unfoldable pub spelled : Bytes → Bytes → Bytes → Bytes → List Bytes
spelled version protocol network addr = codes "WEAVE" ∷ version ∷ protocol ∷ network ∷ addr ∷ []

-- The tests of `parse_fields`, before they are read as facts.
parse_fields_tests :
    (s word version protocol network addr : Bytes) (l : Line)
    → parse_fields s word version protocol network addr ≡ ok l
    → (word ≡ codes "WEAVE")
      × (addr ≡ l.addr)
      × (parse_uint32 version ≡ some line_version)
      × (parse_uint32 protocol ≡ some l.protocol)
      × (1 ≤ l.protocol)
      × NetworkReads network l.network
      × (l.addr ≢ [])
unfolding parse_fields normalise
parse_fields_tests s word version protocol network addr l h = ground (
  arith,
  same_iff word (codes "WEAVE"),
  same_iff network legacy_network_pipe,
  same_iff network network_unix,
  same_iff network network_pipe,
  same_iff network_pipe network_pipe,
  same_iff addr [],
)

parse_fields_sound :
    (s word version protocol network addr : Bytes) (l : Line)
    → parse_fields s word version protocol network addr ≡ ok l
    → (word ≡ codes "WEAVE") × (addr ≡ l.addr) × Fields version protocol network l
parse_fields_sound s word version protocol network addr l h =
    let (w, a, v, p, pos, n, ne) = parse_fields_tests s word version protocol network addr l h in
    (
      w,
      a,
      record {
        version_one = (parse_uint32_iff version line_version).0 v;
        protocol_reads = (parse_uint32_iff protocol l.protocol).0 p;
        positive = pos;
        network_reads = n;
        addressed = ne;
      },
    )

NetworkReads-normalise :
    (n network : Bytes)
    → NetworkReads n network
    → (normalise n ≡ network) × ((network ≡ network_unix) ⊎ (network ≡ network_pipe))
unfolding normalise same
NetworkReads-normalise n network (inl (e, e')) = (rw (e, e') refl, inl e')
NetworkReads-normalise n network (inr (inl e, e')) = (rw (e, e') refl, inr e')
NetworkReads-normalise n network (inr (inr e, e')) = (rw (e, e') refl, inr e')

parse_fields_accepts :
    (s version protocol network : Bytes) (l : Line)
    → parse_uint32 version ≡ some line_version
    → parse_uint32 protocol ≡ some l.protocol
    → 1 ≤ l.protocol
    → (normalise network ≡ l.network) × ((l.network ≡ network_unix) ⊎ (l.network ≡ network_pipe))
    → l.addr ≢ []
    → parse_fields s (codes "WEAVE") version protocol network l.addr ≡ ok l
unfolding parse_fields
parse_fields_accepts s version protocol network l v p pos n ne = ground (
  arith,
  same_refl (codes "WEAVE"),
  same_iff l.network network_unix,
  same_iff l.network network_pipe,
  same_iff l.addr [],
)

parse_fields_complete :
    (s version protocol network : Bytes) (l : Line)
    → Fields version protocol network l
    → parse_fields s (codes "WEAVE") version protocol network l.addr ≡ ok l
parse_fields_complete s version protocol network l f =
    parse_fields_accepts s version protocol network l
      ((parse_uint32_iff version line_version).1 f.version_one)
      ((parse_uint32_iff protocol l.protocol).1 f.protocol_reads) f.positive
      (NetworkReads-normalise network l.network f.network_reads) f.addressed

parts_sound :
    (s : Bytes) (ps : List Bytes) (l : Line)
    → parse_parts s ps ≡ ok l
    → (v p n : Bytes) × (ps ≡ spelled v p n l.addr) × Fields v p n l
unfolding parse_parts spelled
parts_sound s [] l h = cc
parts_sound s (a ∷ []) l h = cc
parts_sound s (a ∷ b ∷ []) l h = cc
parts_sound s (a ∷ b ∷ c ∷ []) l h = cc
parts_sound s (a ∷ b ∷ c ∷ d ∷ []) l h = cc
parts_sound s (a ∷ b ∷ c ∷ d ∷ e ∷ []) l h =
    let (w, x, f) = parse_fields_sound s a b c d e l h in (b, c, d, cc, f)
parts_sound s (a ∷ b ∷ c ∷ d ∷ e ∷ g ∷ r) l h = cc

-- A text in which, between white space, five fields stand that spell the line.
pub record Spells (s : Bytes) (l : Line) : Type 0 where
  pub version : Bytes
  pub protocol : Bytes
  pub network : Bytes
  pub text : trim_space s ≡ join bar (spelled version protocol network l.addr)
  pub addr_lacks_bar : Lacks bar l.addr
  pub fields : Fields version protocol network l

parse_sound : (s : Bytes) (l : Line) → parse s ≡ ok l → Spells s l
unfolding parse spelled
parse_sound s l h =
    let (v, p, n, e, f) = parts_sound s (split bar (trim_space s)) l h in
    record {
      version = v;
      protocol = p;
      network = n;
      text = sym (join-split bar (trim_space s)) ∙ ap (join bar) e;
      addr_lacks_bar = (subst (All (Lacks bar)) e (split-All-Lacks bar (trim_space s))).1.1.1.1.0;
      fields = f;
    }

NetworkReads-Lacks-bar : (n network : Bytes) → NetworkReads n network → Lacks bar n
NetworkReads-Lacks-bar n network (inl (e, _)) = rw e (omega arith)
NetworkReads-Lacks-bar n network (inr (inl e, _)) = rw e (omega arith)
NetworkReads-Lacks-bar n network (inr (inr e, _)) = rw e (omega arith)

split-spelled :
    (v p n addr : Bytes)
    → Lacks bar v
    → Lacks bar p
    → Lacks bar n
    → Lacks bar addr
    → split bar (join bar (spelled v p n addr)) ≡ spelled v p n addr
unfolding spelled join
split-spelled v p n addr hv hp hn ha = rw (
  split_at_sep bar (codes "WEAVE") _ (omega arith),
  split_at_sep bar v _ hv,
  split_at_sep bar p _ hp,
  split_at_sep bar n _ hn,
  split-Lacks bar addr ha,
)

parse_complete : (s : Bytes) (l : Line) → Spells s l → parse s ≡ ok l
unfolding parse parse_parts spelled
parse_complete s l w =
    let f = w.fields in
    rw
      (
        w.text,
        split-spelled w.version w.protocol w.network l.addr
            (All-IsDigit-Lacks bar w.version (omega arith) f.version_one.1)
            (All-IsDigit-Lacks bar w.protocol (omega arith) f.protocol_reads.1)
            (NetworkReads-Lacks-bar w.network l.network f.network_reads) w.addr_lacks_bar,
      )
      (parse_fields_complete s w.version w.protocol w.network l f)

-- `Parse` accepts a text as a line exactly when its text between white space is "WEAVE", a decimal
-- numeral of the line version, one of the protocol, which is above 0 and fits 32 bits, a name of
-- the network, the old one included, and an address that is not empty and holds no bar, with bars
-- between them; and these are the line's fields, the old network name replaced.
pub parse_iff : (s : Bytes) (l : Line) → (parse s ≡ ok l) ↔ Spells s l
parse_iff s l = (parse_sound s l, parse_complete s l)

parse_window_tests :
    (min max : Bytes) (w : Window)
    → (parse_window min max ≡ ok w) ↔ (
        (parse_uint32 min ≡ some w.min)
        × (parse_uint32 max ≡ some w.max)
        × (1 ≤ w.min)
        × (w.min ≤ w.max))
unfolding parse_window
parse_window_tests min max w = (λ h. ground arith, λ h. ground arith)

-- `ParseWindow` accepts exactly two decimal numerals that fit 32 bits, the first above 0 and not
-- above the second, and gives their values.
parse_window_iff :
    (min max : Bytes) (w : Window)
    → (parse_window min max ≡ ok w)
      ↔ (Reads min w.min × Reads max w.max × (1 ≤ w.min) × (w.min ≤ w.max))
parse_window_iff min max w = (
  λ h.
      let (a, b, c, d) = (parse_window_tests min max w).0 h in
      ((parse_uint32_iff min w.min).0 a, (parse_uint32_iff max w.max).0 b, c, d),
  λ h.
      (parse_window_tests min max w).1
        ((parse_uint32_iff min w.min).1 h.0, (parse_uint32_iff max w.max).1 h.1, h.2, h.3),
)
