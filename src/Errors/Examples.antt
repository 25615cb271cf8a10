-- ===== src/Errors/Examples.antt =====
-- Concrete errors and error responses.
use s2_sdk_go.Prelude.{◌≡◌, refl, true, false, none, some}
use s2_sdk_go.Errors.{
  S2Error, s2_error, as_s2_error, has_no_side_effects, with_prior_uncertainty, is_retryable,
  s2_has_no_side_effects,
}
use s2_sdk_go.Errors.Codes.{ErrorCodeInfo, lookup_code, lookup_in, error_codes}
use s2_sdk_go.Errors.Decode.{Library, number, decode_api_error}
use s2_sdk_go.Errors.Decode.Laws.{
  IsServerError, decode_api_error-IsServerError, IsDefinite, decode_api_error-precondition,
}
use s2_sdk_go.Errors.Uncertainty.{with_prior_uncertainty_lem, s2_has_no_side_effects_known}

abbrev draining : S2Error
draining = record { message = "drain"; code = "server_draining"; status = 503; origin = "server" }

with_prior_uncertainty_lem_example :
    (as_s2_error (with_prior_uncertainty (s2_error draining) true)
      ≡ as_s2_error (s2_error draining))
    × (has_no_side_effects (with_prior_uncertainty (s2_error draining) true) ≡ false)
    × (with_prior_uncertainty (s2_error draining) false ≡ s2_error draining)
    × (with_prior_uncertainty (with_prior_uncertainty (s2_error draining) true) true
        ≡ with_prior_uncertainty (s2_error draining) true)
with_prior_uncertainty_lem_example = with_prior_uncertainty_lem (s2_error draining) true

draining_retryable : is_retryable draining ≡ true
unfolding is_retryable lookup_code lookup_in error_codes
draining_retryable = refl

draining_harmless : s2_has_no_side_effects draining ≡ true
unfolding s2_has_no_side_effects lookup_code lookup_in error_codes
draining_harmless = refl

s2_has_no_side_effects_known_example :
    (draining.origin ≡ "server")
    × ((i : ErrorCodeInfo) × (lookup_code draining.code ≡ some i)
        × (i.status ≡ draining.status)
        × (i.no_side_effects ≡ true))
s2_has_no_side_effects_known_example = s2_has_no_side_effects_known draining draining_harmless

-- A library in which every body is the report of an expected sequence number.
abbrev toy : Library
toy = record {
  trim_space = λ s. s;
  parse_object = λ s. some (λ k. some (number 7));
  parse_error_info = λ s. none;
  parse_tail = λ s. none;
  status_text = λ n. "text";
  http_status = λ n. "HTTP";
}

decode_api_error-IsServerError_example : IsServerError 500 (decode_api_error toy 500 "oops")
decode_api_error-IsServerError_example = decode_api_error-IsServerError toy 500 "oops"

decode_api_error-precondition_example : IsDefinite (decode_api_error toy 412 "{}")
decode_api_error-precondition_example = decode_api_error-precondition toy "{}"
