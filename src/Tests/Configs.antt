-- ===== src/Tests/Configs.antt =====
-- A configuration at concrete inputs.
use weaveplatform_sdk.Base.{
  ◌≡◌, ◌≢◌, ◌⊎◌, [], Option, none, some, arith, Bytes, codes, same, if◌then◌else◌,
}
use weaveplatform_sdk.Errors.{GoError}
use weaveplatform_sdk.Config.{IsDecoder, delivered, load, load-env, or_else, prefilled}

-- Documents of one field, whose value is the whole document.
abbrev decode : Bytes → (Bytes → Bytes) → (Bytes → Bytes) × Option GoError
decode doc dst =
    if same doc (codes "{")
    then (dst, some (GoError.plain (codes "unexpected end of JSON input")))
    else (λ field. if same field (codes "speed") then doc else dst field, none)

decode-IsDecoder : IsDecoder decode
decode-IsDecoder = record {
  member = λ doc field. if same field (codes "speed") then some doc else none;
  sets = λ doc field dst h. ground arith;
}

abbrev variables : Bytes → Option Bytes
variables key = if same key (codes "mode") then some [] else none

abbrev own_name : Bytes → Bytes
own_name field = field

abbrev defaults : Bytes → Bytes
defaults field = codes "none"

load-env_example :
    (((load decode (codes "fast") (prefilled variables own_name defaults)).1 ≡ none)
      × ((field : Bytes)
          → (load decode (codes "fast") (prefilled variables own_name defaults)).0 field
            ≡ or_else
                (delivered decode-IsDecoder.member (codes "fast") field)
                (or_else (variables field) (codes "none"))))
    ⊎ (codes "fast" ≢ [])
      × (e : GoError) × ((decode (codes "fast") (prefilled variables own_name defaults)).1 ≡ some e)
      × ((load decode (codes "fast") (prefilled variables own_name defaults)).1
          ≡ some (GoError.wrap (codes "config") e))
load-env_example = load-env variables own_name defaults decode decode-IsDecoder (codes "fast")
