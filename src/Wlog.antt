-- ===== src/Wlog.antt =====
-- wlog/wlog.go: `LevelFromEnv`, on the value of WEAVE_LOG_LEVEL. `strings.ToLower` is written for ASCII:
-- no letter beyond is lowered to one of the words' letters.
use mathlib.Core.List.{cons-ne-nil}
use weaveplatform_sdk.Base.{
  ℕ, ◌+◌, ◌≤◌, ◌≡◌, ◌↔◌, ◌⊎◌, refl, sym, ap₂, ◌&&◌, [], ◌∷◌, map, arith, Bytes, codes, same,
  same_iff, leb, All, if◌then◌else◌,
}

-- The levels of slog that it answers with.
pub data Level : Type 0 where
  debug info warn error : Level

unfoldable pub lower : ℕ → ℕ
lower c = if leb b'A' c && leb c b'Z' then c + 32 else c

unfoldable pub to_lower : Bytes → Bytes
unfolding lower
to_lower s = map lower s

-- The switch.
unfoldable pub level_of : Bytes → Level
level_of t =
    if same t (codes "debug")
    then Level.debug
    else if same t (codes "warn")
    then Level.warn
    else if same t (codes "error")
    then Level.error
    else Level.info

unfoldable pub level_from_env : Bytes → Level
unfolding to_lower level_of
level_from_env s = level_of (to_lower s)

-- The text is the word, up to capitals.
abbrev Spells : Bytes → Bytes → Type 0
Spells [] [] = Unit {0}
Spells [] (d ∷ w) = ⊥
Spells (c ∷ s) [] = ⊥
Spells (c ∷ s) (d ∷ w) = ((c ≡ d) ⊎ (c + 32 ≡ d)) × Spells s w

-- Small letters only.
abbrev IsSmall : Bytes → Type 0
IsSmall = All (λ c. (b'a' ≤ c) × (c ≤ b'z'))

lower_iff : (c d : ℕ) → b'a' ≤ d → d ≤ b'z' → (lower c ≡ d) ↔ ((c ≡ d) ⊎ (c + 32 ≡ d))
unfolding lower
lower_iff c d above below = (λ h. ground arith, λ h. ground arith)

to_lower_iff : (s w : Bytes) → IsSmall w → (to_lower s ≡ w) ↔ Spells s w
unfolding to_lower
to_lower_iff [] [] small = (λ h. tt, λ h. refl)
to_lower_iff [] (d ∷ w) small = (λ h. absurd (cons-ne-nil d w (sym h)), λ h. absurd h)
to_lower_iff (c ∷ s) [] small = (λ h. absurd (cons-ne-nil (lower c) (map lower s) h), λ h. absurd h)
to_lower_iff (c ∷ s) (d ∷ w) ((above, below), small) =
    let first = lower_iff c d above below in
    let rest = to_lower_iff s w small in
    (λ h. (first.0 (cc), rest.0 (cc)), λ h. ap₂ (λ x xs. x ∷ xs) (first.1 h.0) (rest.1 h.1))

module _ (t : Bytes) where
  level_of_word :
      ((level_of t ≡ Level.debug) ↔ (t ≡ codes "debug"))
      × ((level_of t ≡ Level.warn) ↔ (t ≡ codes "warn"))
      × ((level_of t ≡ Level.error) ↔ (t ≡ codes "error"))
  unfolding level_of
  level_of_word =
      let e = same_iff t (codes "debug") in
      let f = same_iff t (codes "warn") in
      let g = same_iff t (codes "error") in
      (
        (λ h. ground arith, λ h. ground arith),
        (λ h. ground arith, λ h. ground arith),
        (λ h. ground arith, λ h. ground arith),
      )

-- The level is debug, warn or error exactly when the variable spells that word, in whatever mix of
-- small and capital letters; so any other value is for info.
level_from_env_iff :
    (s : Bytes)
    → ((level_from_env s ≡ Level.debug) ↔ Spells s (codes "debug"))
      × ((level_from_env s ≡ Level.warn) ↔ Spells s (codes "warn"))
      × ((level_from_env s ≡ Level.error) ↔ Spells s (codes "error"))
unfolding level_from_env
level_from_env_iff s =
    let (is_debug, is_warn, is_error) = level_of_word (to_lower s) in
    let d = to_lower_iff s (codes "debug") (omega arith) in
    let w = to_lower_iff s (codes "warn") (omega arith) in
    let e = to_lower_iff s (codes "error") (omega arith) in
    (
      (λ h. d.0 (is_debug.0 h), λ h. is_debug.1 (d.1 h)),
      (λ h. w.0 (is_warn.0 h), λ h. is_warn.1 (w.1 h)),
      (λ h. e.0 (is_error.0 h), λ h. is_error.1 (e.1 h)),
    )
