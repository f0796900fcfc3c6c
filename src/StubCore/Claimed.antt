-- ===== src/StubCore/Claimed.antt =====
-- modulesdk/testkit/stubcore.go with handshake/handshake.go: the protocol of a line that `Parse` takes
-- from the beginning of what a module prints, wherever the scanner has cut it.
use mathlib.Core.List.{append_assoc}
use weaveplatform_sdk.Base.{
  ◌≡◌, refl, sym, ap, ◌∙◌, [], ◌∷◌, ◌++◌, arith, Bytes, codes, List, join, split, split_at_sep,
  Lacks,
}
use weaveplatform_sdk.Base.Decimal.{value, All-IsDigit-Lacks}
use weaveplatform_sdk.Base.Space.{
  trim_space-append, trim_space, front_width, is_space, is_space2, is_space3,
}
use weaveplatform_sdk.Handshake.{Line, parse, ok, bar}
use weaveplatform_sdk.Handshake.Accepts.{parse_iff, spelled}

-- The fields of a text that a line's own text begins.
split-joined :
    (v p n a rest : Bytes)
    → Lacks bar v
    → Lacks bar p
    → split bar (join bar (spelled v p n a) ++ rest)
      ≡ codes "WEAVE" ∷ v ∷ p ∷ split bar (n ++ bar ∷ (a ++ rest))
unfolding join spelled
split-joined v p n a rest hv hp =
    let regroup : join bar (spelled v p n a) ++ rest
        ≡ codes "WEAVE" ++ bar ∷ (v ++ bar ∷ (p ++ bar ∷ (n ++ bar ∷ (a ++ rest)))) =
      simp append_assoc in
    rw (
      regroup,
      split_at_sep bar (codes "WEAVE") _ (omega arith),
      split_at_sep bar v _ hv,
      split_at_sep bar p _ hp,
    )

visible_first : (t rest tail : Bytes) → t ++ rest ≡ codes "W" ++ tail → front_width t ≡ 0
unfolding front_width is_space is_space2 is_space3
visible_first [] rest tail e = refl
visible_first (a ∷ []) rest tail e = ground (arith, e)
visible_first (a ∷ b ∷ []) rest tail e = ground (arith, e)
visible_first (a ∷ b ∷ c ∷ t) rest tail e = ground (arith, e)

third : List Bytes → Bytes
third (a ∷ b ∷ c ∷ ps) = c
third ps = []

pub claimed_protocol :
    (t rest tail : Bytes) (l : Line)
    → parse t ≡ ok l
    → t ++ rest ≡ codes "WEAVE|1|1|" ++ tail
    → l.protocol ≡ 1
unfolding third
claimed_protocol t rest tail l taken e =
    let w = (parse_iff t l).0 taken in
    let (d, trimmed) = trim_space-append t (visible_first t rest (codes "EAVE|1|1|" ++ tail) e) in
    let whole : join bar (spelled w.version w.protocol w.network l.addr) ++ (d ++ rest)
        ≡ codes "WEAVE|1|1|" ++ tail =
      ap (λ x. x ++ (d ++ rest)) (sym w.text)
      ∙ sym (append_assoc (trim_space t) d rest)
      ∙ ap (λ x. x ++ rest) (sym trimmed)
      ∙ e in
    let fields =
      split-joined w.version w.protocol w.network l.addr (d ++ rest)
        (All-IsDigit-Lacks bar w.version (omega arith) w.fields.version_one.1)
        (All-IsDigit-Lacks bar w.protocol (omega arith) w.fields.protocol_reads.1) in
    let printed =
      split_at_sep bar (codes "WEAVE") (codes "1|1|" ++ tail) (omega arith)
      ∙ ap (λ x. codes "WEAVE" ∷ x)
          (split_at_sep bar (codes "1") (codes "1|" ++ tail) (omega arith)
            ∙ ap (λ x. codes "1" ∷ x) (split_at_sep bar (codes "1") tail (omega arith))) in
    let one : w.protocol ≡ codes "1" = ap third (sym fields ∙ ap (split bar) whole ∙ printed) in
    w.fields.protocol_reads.2 ∙ ap (value 0) one
