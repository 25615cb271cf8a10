-- ===== src/Errors/Codes.antt =====
-- s2/error.go: the table of canonical server error codes.
pub mod Table
use Prim.Native.String.{String}
use text.Mathlib.Text.{◌==◌ as str_eq}
use s2_sdk_go.Prelude.{ℕ, Bool, true, false, Option, none, some, List, [], ◌∷◌, if◌then◌else◌}

pub record ErrorCodeInfo : Type 0 where
  pub status : ℕ
  pub retryable : Bool
  pub no_side_effects : Bool

abbrev info : ℕ → Bool → Bool → ErrorCodeInfo
info status retryable no_side_effects = record {
  status = status;
  retryable = retryable;
  no_side_effects = no_side_effects;
}

unfoldable pub error_codes : List (String × ErrorCodeInfo)
error_codes =
    ("access_token_not_found", info 404 false true)
    ∷ ("authn", info 401 false true)
    ∷ ("bad_frame", info 400 false true)
    ∷ ("bad_header", info 400 false true)
    ∷ ("bad_json", info 400 false true)
    ∷ ("bad_path", info 400 false true)
    ∷ ("bad_proto", info 400 false true)
    ∷ ("bad_query", info 400 false true)
    ∷ ("basin_deletion_pending", info 409 false true)
    ∷ ("basin_not_found", info 404 false true)
    ∷ ("client_hangup", info 499 false false)
    ∷ ("decryption_failed", info 400 false true)
    ∷ ("hot_server", info 502 true true)
    ∷ ("invalid", info 422 false true)
    ∷ ("not_implemented", info 501 false true)
    ∷ ("other", info 500 true false)
    ∷ ("permission_denied", info 403 false true)
    ∷ ("quota_exhausted", info 403 false true)
    ∷ ("rate_limited", info 429 true true)
    ∷ ("request_timeout", info 408 true false)
    ∷ ("resource_already_exists", info 409 false true)
    ∷ ("server_draining", info 503 true true)
    ∷ ("storage", info 500 true false)
    ∷ ("stream_deletion_pending", info 409 false true)
    ∷ ("stream_not_found", info 404 false true)
    ∷ ("transaction_conflict", info 409 true true)
    ∷ ("unavailable", info 503 true false)
    ∷ ("upstream_timeout", info 504 true false)
    ∷ ("APPEND_CONDITION_FAILED", info 412 false true)
    ∷ []

unfoldable pub lookup_in : String → List (String × ErrorCodeInfo) → Option ErrorCodeInfo
lookup_in code [] = none
lookup_in code ((c, i) ∷ table) = if str_eq c code then some i else lookup_in code table

-- `errorCodes[code]`
unfoldable pub lookup_code : String → Option ErrorCodeInfo
lookup_code code = lookup_in code error_codes
