-- ===== src/Base/Space.antt =====
-- `strings.TrimSpace` on the bytes of a UTF-8 text. White space is that of `unicode.IsSpace`:
-- six ASCII bytes, U+0085 and U+00A0 in two bytes, and U+1680, U+2000 to U+200A, U+2028, U+2029,
-- U+202F, U+205F and U+3000 in three.
use Prim.Native.Nat.{ℕ, zero, suc, ◌≤◌}
use mathlib.Core.Path.{◌≡◌, refl, sym, ap, ◌∙◌}
use mathlib.Core.Logic.{◌≢◌}
use mathlib.Core.Bool.{Bool, ◌&&◌, ◌||◌}
use mathlib.Core.List.{
  [], ◌∷◌, ◌++◌, reverse, reverse-append, reverse-cons, reverse-reverse, append_assoc,
}
use native.Mathlib.Omega.{arith}
use weaveplatform_sdk.Base.Lists.{length, drop}
use weaveplatform_sdk.Base.Tests.{leb, ◌==◌, if◌then◌else◌}
use weaveplatform_sdk.Base.Text.{Bytes}

unfoldable pub is_space : ℕ → Bool
is_space a = (leb 9 a && leb a 13) || a == 32

unfoldable pub is_space2 : ℕ → ℕ → Bool
is_space2 a b = a == 0xc2 && (b == 0x85 || b == 0xa0)

unfoldable pub is_space3 : ℕ → ℕ → ℕ → Bool
is_space3 a b c =
    (a == 0xe1 && b == 0x9a && c == 0x80)
    || (a == 0xe2
        && b == 0x80
        && ((leb 0x80 c && leb c 0x8a) || c == 0xa8 || c == 0xa9 || c == 0xaf))
    || (a == 0xe2 && b == 0x81 && c == 0x9f)
    || (a == 0xe3 && b == 0x80 && c == 0x80)

-- The bytes of the white space that the text begins with; 0 if it begins otherwise.
unfoldable pub front_width : Bytes → ℕ
unfolding is_space is_space2 is_space3
front_width [] = 0
front_width (a ∷ []) = if is_space a then 1 else 0
front_width (a ∷ b ∷ []) = if is_space a then 1 else if is_space2 a b then 2 else 0
front_width (a ∷ b ∷ c ∷ s) =
    if is_space a then 1 else if is_space2 a b then 2 else if is_space3 a b c then 3 else 0

-- The same at the end of a text, which is given reversed.
unfoldable pub back_width : Bytes → ℕ
unfolding is_space is_space2 is_space3
back_width [] = 0
back_width (a ∷ []) = if is_space a then 1 else 0
back_width (a ∷ b ∷ []) = if is_space a then 1 else if is_space2 b a then 2 else 0
back_width (a ∷ b ∷ c ∷ s) =
    if is_space a then 1 else if is_space2 b a then 2 else if is_space3 c b a then 3 else 0

-- Drop white space as long as there is some; the text's length is fuel enough.
unfoldable pub strip : (Bytes → ℕ) → ℕ → Bytes → Bytes
strip width zero s = s
strip width (suc fuel) s = elim (width s) [ zero ↦ s | suc k ↦ strip width fuel (drop (suc k) s) ]

unfoldable pub trim_space : Bytes → Bytes
unfolding strip front_width back_width
trim_space s =
    let front = strip front_width (length s) s in
    reverse (strip back_width (length front) (reverse front))

-- No white space at the end.
abbrev pub EndsVisible : Bytes → Type 0
EndsVisible s = back_width (reverse s) ≡ 0

strip_still : (width : Bytes → ℕ) (fuel : ℕ) (s : Bytes) → width s ≡ 0 → strip width fuel s ≡ s
unfolding strip
strip_still width zero s h = refl
strip_still width (suc fuel) s h = rw (h, strip)

pub trim_space_still : (s : Bytes) → front_width s ≡ 0 → EndsVisible s → trim_space s ≡ s
unfolding trim_space
trim_space_still s h e =
    rw (strip_still front_width (length s) s h, strip_still back_width (length s) (reverse s) e)
      (reverse-reverse s)

back_width-append :
    (r : Bytes) (c : ℕ) (s : Bytes)
    → r ≢ []
    → c ≤ 127
    → back_width r ≡ 0
    → back_width (r ++ c ∷ s) ≡ 0
unfolding back_width
back_width-append [] c s h _ _ = absurd (h refl)
back_width-append (x ∷ []) c [] h small e = ground arith
back_width-append (x ∷ []) c (d ∷ s) h small e = ground arith
back_width-append (x ∷ y ∷ []) c s h small e = ground arith
back_width-append (x ∷ y ∷ z ∷ r) c s h small e = e

reverse-ne-nil : (t : Bytes) → t ≢ [] → reverse t ≢ []
reverse-ne-nil t h e = h (sym (reverse-reverse t) ∙ ap reverse e)

-- A visible text behind an ASCII byte keeps the end visible.
pub EndsVisible-append :
    (s : Bytes) (c : ℕ) (t : Bytes) → t ≢ [] → c ≤ 127 → EndsVisible t → EndsVisible (s ++ c ∷ t)
EndsVisible-append s c t h small e =
    rw (reverse-append s (c ∷ t), reverse-cons c t, append_assoc (reverse t) (c ∷ []) (reverse s))
      (back_width-append (reverse t) c (reverse s) (reverse-ne-nil t h) small e)

append-drop : (n : ℕ) (s : Bytes) → (d : Bytes) × (s ≡ d ++ drop n s)
append-drop zero s = ([], refl)
append-drop (suc n) [] = ([], refl)
append-drop (suc n) (c ∷ s) = let (d, e) = append-drop n s in (c ∷ d, ap (◌∷◌ c) e)

strip-append :
    (width : Bytes → ℕ) (fuel : ℕ) (s : Bytes) → (d : Bytes) × (s ≡ d ++ strip width fuel s)
unfolding strip
strip-append width zero s = ([], refl)
strip-append width (suc fuel) s = go (λ x. strip-append width fuel x) (width s) refl
  where
    go :
        ((x : Bytes) → (d : Bytes) × (x ≡ d ++ strip width fuel x))
        → (k : ℕ) → width s ≡ k
        → (d : Bytes) × (s ≡ d ++ strip width (suc fuel) s)
    go more zero e = ([], rw (strip, e) refl)
    go more (suc k) e =
        let (d, at) = append-drop (suc k) s in
        let (d', rest) = more (drop (suc k) s) in
        (d ++ d', rw (strip, e) (at ∙ ap (λ x. d ++ x) rest ∙ sym (append_assoc d d' _)))

pub reversed_append : (s w d : Bytes) → reverse s ≡ d ++ w → s ≡ reverse w ++ reverse d
reversed_append s w d e = sym (reverse-reverse s) ∙ ap reverse e ∙ reverse-append d w

-- What does not begin with white space begins as it did.
pub trim_space-append : (s : Bytes) → front_width s ≡ 0 → (d : Bytes) × (s ≡ trim_space s ++ d)
unfolding trim_space
trim_space-append s h =
    let front = strip_still front_width (length s) s h in
    let (d, e) = strip-append back_width (length s) (reverse s) in
    (reverse d, rw front (reversed_append s _ d e))
