-- ===== src/Config.antt =====
-- config/config.go: a module's configuration. `unmarshal` is `json.Unmarshal` into a value of the
-- module's own, and `lookup` is `os.LookupEnv`.
use weaveplatform_sdk.Base.{
  ◌≡◌, ◌≢◌, ◌⊎◌, inl, inr, refl, ap, ◌∙◌, [], ◌∷◌, Option, none, some, arith, Bytes, codes,
  Option-cases,
}
use weaveplatform_sdk.Errors.{GoError}

-- `Load`: what is in `dst` then, and the error.
unfoldable pub load :
    {D : Type 0} → (Bytes → D → D × Option GoError) → Bytes → D → D × Option GoError
load unmarshal [] dst = (dst, none)
load unmarshal (c ∷ doc) dst =
    let (dst', e) = unmarshal (c ∷ doc) dst in
    elim e [ none ↦ (dst', none) | some e ↦ (dst', some (GoError.wrap (codes "config") e)) ]

-- `Env`
unfoldable pub env : (Bytes → Option Bytes) → Bytes → Bytes → Bytes
env lookup key fallback = elim (lookup key) [ some v ↦ v | none ↦ fallback ]

abbrev pub or_else : Option Bytes → Bytes → Bytes
or_else (some v) d = v
or_else none d = d

-- The value is a struct of strings, by the names of their fields. The documentation of
-- `json.Unmarshal` says that a document sets the fields that it has, and leaves the others.
pub record IsDecoder (unmarshal : Bytes → (Bytes → Bytes) → (Bytes → Bytes) × Option GoError)
    : Type 0 where
  pub member : Bytes → Bytes → Option Bytes
  pub sets :
      (doc field : Bytes) (dst : Bytes → Bytes)
      → (unmarshal doc dst).1 ≡ none
      → (unmarshal doc dst).0 field ≡ or_else (member doc field) (dst field)

-- The fields of a document; none is delivered if it is empty.
abbrev pub delivered : (Bytes → Bytes → Option Bytes) → Bytes → Bytes → Option Bytes
delivered member [] field = none
delivered member (c ∷ doc) field = member (c ∷ doc) field

module _ (lookup : Bytes → Option Bytes) (key fallback : Bytes → Bytes) where
  -- What a module loads into: for each field the variable of its key, or its default.
  abbrev pub prefilled : Bytes → Bytes
  prefilled field = env lookup (key field) (fallback field)

  env_lem : (k d : Bytes) → env lookup k d ≡ or_else (lookup k) d
  unfolding env
  env_lem k d = ground arith

  module _ (unmarshal : Bytes → (Bytes → Bytes) → (Bytes → Bytes) × Option GoError)
      (decodes : IsDecoder unmarshal) where
    -- Where `json.Unmarshal` sets the fields that a document has and leaves the others, and a module
    -- loads the document that core delivered into what the environment gave over its defaults: if that
    -- succeeds, each field has the document's value, else the variable's, if it is set, even to nothing,
    -- and else its default. It always succeeds without a document; and it fails only with the decoder's
    -- error, labelled.
    pub load-env :
        (doc : Bytes)
        → (((load unmarshal doc prefilled).1 ≡ none)
            × ((field : Bytes)
                → (load unmarshal doc prefilled).0 field
                  ≡ or_else
                      (delivered decodes.member doc field)
                      (or_else (lookup (key field)) (fallback field))))
          ⊎ (doc ≢ [])
            × (e : GoError) × ((unmarshal doc prefilled).1 ≡ some e)
            × ((load unmarshal doc prefilled).1 ≡ some (GoError.wrap (codes "config") e))
    unfolding load
    load-env [] = inl (refl, λ field. env_lem (key field) (fallback field))
    load-env (c ∷ doc) = elim (Option-cases (unmarshal (c ∷ doc) prefilled).1) [
      | inl done ↦
          let loaded : load unmarshal (c ∷ doc) prefilled
              ≡ ((unmarshal (c ∷ doc) prefilled).0, none) =
            rw (load, done) refl in
          inl (
            ap (λ r. r.1) loaded,
            λ field.
                ap (λ r. r.0 field) loaded
                ∙ decodes.sets (c ∷ doc) field prefilled done
                ∙ ap (or_else (decodes.member (c ∷ doc) field))
                    (env_lem (key field) (fallback field)),
          )
      | inr (e, failed) ↦ inr (λ h. cc, e, failed, ground (arith, failed))
    ]
