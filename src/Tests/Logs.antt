-- ===== src/Tests/Logs.antt =====
-- A module's log calls at concrete inputs.
use weaveplatform_sdk.Base.{ℕ, ◌≡◌, refl, true, List, [], ◌∷◌, ◌++◌, some, codes, same}
use weaveplatform_sdk.Base.Dict.{lookup}
use weaveplatform_sdk.Base.Int.{ℤ}
use weaveplatform_sdk.Wlog.{level_from_env, to_lower, lower, level_of}
use weaveplatform_sdk.LogHandler.{Record, wire}
use weaveplatform_sdk.LogHandler.Attributes.{last_value}
use weaveplatform_sdk.LogHandler.Delivery.{LogCall, fallen, on_stream}
use weaveplatform_sdk.LogHandler.Logger.{
  at_least, host_handler, host_logger, log_all, minimum, module_logs_lem, own_logger, level_number,
}

abbrev at_level : ℤ → LogCall
at_level l = record {
  entry = record { level = l; message = codes "tick"; time_ms = ℤ.pos 7; attrs = [] };
  opens = some 5;
  sends = true;
}

abbrev calls : List LogCall
calls = at_level (ℤ.negsuc 3) ∷ at_level (ℤ.pos 4) ∷ at_level (ℤ.pos 8) ∷ []

-- A warning and an error are left of the three.
two_kept :
    at_least (minimum (codes "WARN") (codes "toy")) calls
    ≡ at_level (ℤ.pos 4) ∷ at_level (ℤ.pos 8) ∷ []
unfolding at_least level_number level_from_env to_lower lower level_of same
two_kept = refl

module_logs_lem_example :
    (log_all calls (own_logger (codes "WARN") (codes "toy"))
      ≡ fallen
          (host_handler (codes "WARN") (codes "toy"))
          (at_least (minimum (codes "WARN") (codes "toy")) calls))
    × ((id : ℕ) × (before : List LogCall) × (behind : List LogCall) × (at_least
            (minimum (codes "WARN") (codes "toy"))
            calls
          ≡ before ++ behind)
        × (log_all calls (host_logger (codes "WARN") (codes "toy"))
            ≡ on_stream (host_handler (codes "WARN") (codes "toy")) id before
              ++ fallen (host_handler (codes "WARN") (codes "toy")) behind))
    × ((r : Record)
        → lookup (codes "component") (wire (host_handler (codes "WARN") (codes "toy")) r).attrs
          ≡ last_value [] (codes "component") r.attrs)
module_logs_lem_example = module_logs_lem (codes "WARN") (codes "toy") calls calls
