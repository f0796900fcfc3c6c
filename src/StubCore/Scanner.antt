-- ===== src/StubCore/Scanner.antt =====
-- modulesdk/testkit/stubcore.go: the first line of a module's output, as `bufio.Scanner` gives it to
-- `Launch`: up to a newline, without a carriage return at its end, and only if it fits the scanner's
-- buffer of 64 KiB.
use weaveplatform_sdk.Base.{
  ℕ, ◌<◌, ◌≡◌, refl, ap, ◌∙◌, [], ◌∷◌, ◌++◌, Option, none, some, arith, Bytes, Lacks, ltb, ◌==◌,
  Bool-cases, inl, inr, length, reverse, if◌then◌else◌,
}
use mathlib.Core.List.{reverse-reverse, append_assoc}
use weaveplatform_sdk.Base.Space.{EndsVisible, back_width, is_space, reversed_append}

abbrev pub newline : ℕ
newline = 10

abbrev pub max_token : ℕ
max_token = 65536

unfoldable pub first_line : Bytes → Bytes
first_line [] = []
first_line (c ∷ cs) = let rest = first_line cs in if c == newline then [] else c ∷ rest

-- Of a text from its end.
unfoldable pub without_cr : Bytes → Bytes
without_cr [] = []
without_cr (c ∷ cs) = if c == 13 then cs else c ∷ cs

unfoldable pub drop_cr : Bytes → Bytes
unfolding without_cr
drop_cr s = reverse (without_cr (reverse s))

-- `sc.Scan()`, and `sc.Text()` if it is true.
unfoldable pub scan_text : Bytes → Option Bytes
unfolding first_line drop_cr
scan_text [] = none
scan_text (c ∷ cs) =
    let line = first_line (c ∷ cs) in
    if ltb (length line) max_token then some (drop_cr line) else none

first_line-append : (s rest : Bytes) → Lacks newline s → first_line (s ++ newline ∷ rest) ≡ s
unfolding first_line
first_line-append [] rest h = refl
first_line-append (c ∷ s) rest h = ground (arith, h.0, first_line-append s rest h.1)

without_cr_still : (s : Bytes) → back_width s ≡ 0 → without_cr s ≡ s
unfolding without_cr back_width is_space
without_cr_still [] h = refl
without_cr_still (a ∷ []) h = ground (arith, h)
without_cr_still (a ∷ b ∷ []) h = ground (arith, h)
without_cr_still (a ∷ b ∷ c ∷ s) h = ground (arith, h)

drop_cr_still : (s : Bytes) → EndsVisible s → drop_cr s ≡ s
unfolding drop_cr
drop_cr_still s h = ap reverse (without_cr_still (reverse s) h) ∙ reverse-reverse s

-- A line that is printed with `Println` comes as it is.
pub scan_text-printed :
    (s : Bytes)
    → Lacks newline s
    → EndsVisible s
    → length s < max_token
    → scan_text (s ++ newline ∷ []) ≡ some s
unfolding scan_text first_line
scan_text-printed [] one visible fits = unfold drop_cr in unfold without_cr in refl
scan_text-printed (c ∷ s) one visible fits =
    ground (arith, one.0, fits, first_line-append s [] one.1, drop_cr_still (c ∷ s) visible)

first_line-append_rest : (s : Bytes) → (d : Bytes) × (s ≡ first_line s ++ d)
unfolding first_line
first_line-append_rest [] = ([], refl)
first_line-append_rest (c ∷ s) = elim (Bool-cases (c == newline)) [
  | inl ends ↦ (c ∷ s, rw ends refl)
  | inr goes ↦ let (d, e) = first_line-append_rest s in (d, rw goes (ap (◌∷◌ c) e))
]

without_cr-append : (s : Bytes) → (d : Bytes) × (s ≡ d ++ without_cr s)
unfolding without_cr
without_cr-append [] = ([], refl)
without_cr-append (c ∷ s) = elim (Bool-cases (c == 13)) [
  | inl cr ↦ (c ∷ [], rw cr refl)
  | inr other ↦ ([], rw other refl)
]

drop_cr-append : (s : Bytes) → (d : Bytes) × (s ≡ drop_cr s ++ d)
unfolding drop_cr
drop_cr-append s =
    let (d, e) = without_cr-append (reverse s) in (reverse d, reversed_append s _ d e)

-- What is scanned is the beginning of the text.
pub scan_text-append : (s t : Bytes) → scan_text s ≡ some t → (d : Bytes) × (s ≡ t ++ d)
unfolding scan_text
scan_text-append [] t h = cc
scan_text-append (c ∷ s) t h =
    let (d, e) = first_line-append_rest (c ∷ s) in
    let (d', e') = drop_cr-append (first_line (c ∷ s)) in
    let kept : drop_cr (first_line (c ∷ s)) ≡ t = ground (arith, h) in
    (d' ++ d, e ∙ ap (λ x. x ++ d) (e' ∙ ap (λ x. x ++ d') kept) ∙ append_assoc t d' d)
