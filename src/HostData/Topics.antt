-- ===== src/HostData/Topics.antt =====
-- modulesdk/testkit/hostdata.go and hostserver.go: which topics a subscription matches, and what a
-- stamped topic says of its publisher.
use mathlib.Core.List.{append_assoc, concat-ne-nil}
use mathlib.Core.Path.{subst}
use weaveplatform_sdk.Base.{
  ap₂, ℕ, ◌≡◌, ◌≢◌, ◌↔◌, ◌⊎◌, inl, inr, refl, sym, ap, ◌∙◌, true, not, ◌==◌, ◌&&◌, ◌||◌, List, [],
  ◌∷◌, ◌++◌, none, some, arith, Bytes, before_sep, same, same_iff, Lacks, cut_prefix,
  cut_prefix-append, cut_prefix_sound, Bool-cases, Option-cases,
}
use weaveplatform_sdk.Base.Dict.{In, has_prefix}
use weaveplatform_sdk.HostData.{unsnoc, glob_matches, topic_matches, stamp}

-- A pattern is the topic itself, or a part of it, not empty, that it begins with, and a star.
abbrev pub Matches : Bytes → Bytes → Type 0
Matches p topic =
    (p ≡ topic) ⊎ ((q rest : Bytes) × (q ≢ []) × (p ≡ q ++ (b'*' ∷ [])) × (topic ≡ q ++ rest))

unsnoc-none : (s : Bytes) → unsnoc s ≡ none → s ≡ []
unfolding unsnoc
unsnoc-none [] h = refl
unsnoc-none (d ∷ s) h = ground arith

unsnoc_sound : (s q : Bytes) (c : ℕ) → unsnoc s ≡ some (q, c) → s ≡ q ++ c ∷ []
unfolding unsnoc
unsnoc_sound [] q c h = cc
unsnoc_sound (d ∷ s) q c h = elim (Option-cases (unsnoc s)) [
  | inl e ↦ ground (arith, unsnoc-none s e)
  | inr ((r, x), e) ↦ ground (arith, unsnoc_sound s r x e)
]

unsnoc-snoc : (q : Bytes) (c : ℕ) → unsnoc (q ++ c ∷ []) ≡ some (q, c)
unfolding unsnoc
unsnoc-snoc [] c = refl
unsnoc-snoc (d ∷ q) c = rw (unsnoc-snoc q c, unsnoc) refl

star_tests :
    (q : Bytes) (c : ℕ) (topic : Bytes)
    → (not (same q []) && c == b'*' && has_prefix q topic) ≡ true
    → (rest : Bytes) × (q ≢ []) × (c ≡ b'*') × (topic ≡ q ++ rest)
unfolding has_prefix
star_tests q c topic h = elim (Option-cases (cut_prefix q topic)) [
  | inl e ↦ absurd (ground arith)
  | inr (rest, e) ↦ (rest, ground (arith, same_iff q []), ground arith, cut_prefix_sound q topic e)
]

glob_sound :
    (p topic : Bytes)
    → glob_matches p topic ≡ true
    → (q rest : Bytes) × (q ≢ []) × (p ≡ q ++ (b'*' ∷ [])) × (topic ≡ q ++ rest)
unfolding glob_matches
glob_sound p topic h = elim (Option-cases (unsnoc p)) [
  | inl e ↦ let impossible = rw (e, glob_matches) at h in cc
  | inr ((q, c), e) ↦
      let (rest, ne, star, split) = star_tests q c topic (rw (e, glob_matches) at h) in
      (q, rest, ne, unsnoc_sound p q c e ∙ ap (λ x. q ++ x ∷ []) star, split)
]

glob_complete : (q rest : Bytes) → q ≢ [] → glob_matches (q ++ (b'*' ∷ [])) (q ++ rest) ≡ true
unfolding glob_matches has_prefix
glob_complete q rest ne =
    rw (unsnoc-snoc q b'*', glob_matches) (ground (arith, same_iff q [], cut_prefix-append q rest))

Matches-glob : (p topic : Bytes) → Matches p topic → (same p topic || glob_matches p topic) ≡ true
Matches-glob p topic (inl e) = ground (arith, same_iff p topic)
Matches-glob p topic (inr (q, rest, ne, e, e')) =
    rw (e, e') (ground (arith, glob_complete q rest ne))

glob-Matches : (p topic : Bytes) → (same p topic || glob_matches p topic) ≡ true → Matches p topic
glob-Matches p topic h = elim (Bool-cases (same p topic)) [
  | inl e ↦ inl ((same_iff p topic).0 e)
  | inr e ↦ inr (glob_sound p topic (ground arith))
]

-- A subscription matches a topic exactly when one of its patterns is the topic or is a part of it,
-- not empty, that it begins with, followed by a star.
pub topic_matches_iff :
    (ps : List Bytes) (topic : Bytes)
    → (topic_matches ps topic ≡ true) ↔ ((p : Bytes) × In p ps × Matches p topic)
unfolding topic_matches
topic_matches_iff [] topic = (λ h. cc, λ w. absurd w.1)
topic_matches_iff (p ∷ ps) topic = (
  λ h. elim (Bool-cases (same p topic || glob_matches p topic)) [
    | inl e ↦ (p, inl refl, glob-Matches p topic e)
    | inr e ↦ let (q, i, m) = (topic_matches_iff ps topic).0 (ground arith) in (q, inr i, m)
  ],
  matched p ps topic ((topic_matches_iff ps topic).1),
)
  where
    matched :
        (p : Bytes) (ps : List Bytes) (topic : Bytes)
        → (((p : Bytes) × In p ps × Matches p topic) → topic_matches ps topic ≡ true)
        → ((q : Bytes) × In q (p ∷ ps) × Matches q topic)
        → (same p topic || glob_matches p topic || topic_matches ps topic) ≡ true
    matched p ps topic rest (q, inl e, m) =
        let here = Matches-glob p topic (subst (λ x. Matches x topic) e m) in ground arith
    matched p ps topic rest (q, inr i, m) = let there = rest (q, i, m) in ground arith

before_dot :
    (p q s t : Bytes) → Lacks b'.' p → Lacks b'.' q → stamp p s ≡ stamp q t → (p ≡ q) × (s ≡ t)
unfolding stamp
before_dot p q s t hp hq e = before_sep b'.' p q s t hp hq e

-- The pattern for all topics of a module.
abbrev pub all_of : Bytes → Bytes
all_of id = id ++ (b'.' ∷ b'*' ∷ [])

all_of-snoc : (id : Bytes) → all_of id ≡ (id ++ b'.' ∷ []) ++ b'*' ∷ []
all_of-snoc id = sym (append_assoc id (b'.' ∷ []) (b'*' ∷ []))

star-injective : (q r : Bytes) → q ++ b'*' ∷ [] ≡ r ++ b'*' ∷ [] → q ≡ r
star-injective q r e = cc (ap unsnoc e, unsnoc-snoc q b'*', unsnoc-snoc r b'*')

all_of-Matches :
    (id id' topic : Bytes)
    → Lacks b'.' id
    → Lacks b'.' id'
    → Matches (all_of id) (stamp id' topic)
    → id ≡ id'
unfolding stamp
all_of-Matches id id' topic h h' (inl e) = (before_sep b'.' id id' (b'*' ∷ []) topic h h' e).0
all_of-Matches id id' topic h h' (inr (q, rest, ne, e, e')) =
    let q_lem = star-injective q (id ++ b'.' ∷ []) (sym e ∙ all_of-snoc id) in
    (before_sep b'.' id id' rest topic h h'
      (sym (e' ∙ ap (λ x. x ++ rest) q_lem ∙ append_assoc id (b'.' ∷ []) rest))).0

Matches-all_of : (id topic : Bytes) → Matches (all_of id) (stamp id topic)
unfolding stamp
Matches-all_of id topic = inr (
  id ++ b'.' ∷ [],
  topic,
  concat-ne-nil b'.' id,
  all_of-snoc id,
  sym (append_assoc id (b'.' ∷ []) topic),
)

-- The stub's stamp tells the publisher: two modules whose ids hold no dot never publish under one
-- topic; and the subscription to a module's id with ".*" gets what that module publishes, and
-- nothing that another publishes.
stamp_origin :
    (id id' topic topic' : Bytes)
    → Lacks b'.' id
    → Lacks b'.' id'
    → ((stamp id topic ≡ stamp id' topic') ↔ ((id ≡ id') × (topic ≡ topic')))
      × ((topic_matches (all_of id ∷ []) (stamp id' topic') ≡ true) ↔ (id ≡ id'))
stamp_origin id id' topic topic' h h' = (
  (before_dot id id' topic topic' h h', λ e. ap₂ stamp e.0 e.1),
  (
    λ m. matched ((topic_matches_iff (all_of id ∷ []) (stamp id' topic')).0 m),
    λ e. (topic_matches_iff (all_of id ∷ []) (stamp id' topic')).1 (
      all_of id,
      inl refl,
      subst (λ x. Matches (all_of id) (stamp x topic')) e (Matches-all_of id topic'),
    ),
  ),
)
  where
    matched : ((p : Bytes) × In p (all_of id ∷ []) × Matches p (stamp id' topic')) → id ≡ id'
    matched (p, inl e, m) =
        all_of-Matches id id' topic' h h' (subst (λ x. Matches x (stamp id' topic')) e m)
    matched (p, inr i, m) = absurd i
