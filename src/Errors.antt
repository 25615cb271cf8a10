-- ===== src/Errors.antt =====
-- s2/error.go: the SDK's errors and what they say of a mutation. An error value is a tree of
-- the types that `errors.As` meets on the way down its `Unwrap` chain.
pub mod Codes
pub mod Decode
pub mod Uncertainty
mod Examples
use Prim.Native.String.{String}
use text.Mathlib.Text.{◌==◌ as str_eq}
use s2_sdk_go.Prelude.{
  ℕ, Bool, true, false, not, ◌&&◌, ◌||◌, Option, none, some, List, if◌then◌else◌, ◌==◌,
}
use s2_sdk_go.Context.{ContextError}
use s2_sdk_go.Errors.Codes.{ErrorCodeInfo, lookup_code}

pub record S2Error : Type 0 where
  pub message : String
  pub code : String
  pub status : ℕ
  pub origin : String

pub record StreamPosition : Type 0 where
  pub seq_num : ℕ
  pub timestamp : ℕ

-- `plain` is `errors.New` and `fmt.Errorf` without `%w`, `wrapped` is `fmt.Errorf` with it. An
-- error of another package is known by whether it is a `net.Error` or a `*net.OpError`; a
-- `*url.Error`, itself a `net.Error`, holds another error.
pub data Err : Type 0 where
  s2_error : S2Error → Err
  seq_num_mismatch : S2Error → ℕ → Err
  fencing_token_mismatch : S2Error → String → Err
  range_not_satisfiable : S2Error → Option StreamPosition → Err
  append_indefinite_failure : Err → Err
  context_error : ContextError → Err
  session_closed timeout max_attempts_exhausted : Err
  plain : String → Err
  wrapped : String → Err → Err
  foreign : Bool → Bool → Err
  url_error : Err → Err

unfoldable pub is_retryable_status : ℕ → Bool
is_retryable_status status =
    status == 408
    || (status == 429 || (status == 500 || (status == 502 || (status == 503 || status == 504))))

pub new_validation_error : String → Err
new_validation_error message =
    s2_error (record { message = message; code = "VALIDATION"; status = 0; origin = "sdk" })

abbrev known_retryable : S2Error → Option ErrorCodeInfo → Bool
known_retryable e (some i) = (i.status == e.status) && i.retryable
known_retryable e none = is_retryable_status e.status

-- The method on a non-nil receiver; on nil both methods answer false.
unfoldable pub is_retryable : S2Error → Bool
is_retryable e =
    if e.status == 0
    then false
    else if str_eq e.origin "server"
    then known_retryable e (lookup_code e.code)
    else is_retryable_status e.status

abbrev known_harmless : S2Error → Option ErrorCodeInfo → Bool
known_harmless e (some i) = (i.status == e.status) && i.no_side_effects
known_harmless e none = false

unfoldable pub s2_has_no_side_effects : S2Error → Bool
s2_has_no_side_effects e =
    if not (str_eq e.origin "server") then false else known_harmless e (lookup_code e.code)

-- `errors.As` with a `*S2Error` target.
unfoldable pub as_s2_error : Err → Option S2Error
as_s2_error (s2_error e) = some e
as_s2_error (seq_num_mismatch e n) = some e
as_s2_error (fencing_token_mismatch e t) = some e
as_s2_error (range_not_satisfiable e t) = some e
as_s2_error (append_indefinite_failure e) = as_s2_error e
as_s2_error (wrapped m e) = as_s2_error e
as_s2_error (url_error e) = as_s2_error e
as_s2_error _ = none

-- `errors.As` with an `*AppendIndefiniteFailureError` target, as a test.
unfoldable pub is_indefinite : Err → Bool
is_indefinite (append_indefinite_failure e) = true
is_indefinite (wrapped m e) = is_indefinite e
is_indefinite (url_error e) = is_indefinite e
is_indefinite _ = false

abbrev s2_harmless : Option S2Error → Bool
s2_harmless (some e) = s2_has_no_side_effects e
s2_harmless none = false

unfoldable pub has_no_side_effects : Err → Bool
has_no_side_effects e = if is_indefinite e then false else s2_harmless (as_s2_error e)

-- The error of an operation one of whose earlier attempts may have taken effect.
unfoldable pub with_prior_uncertainty : Err → Bool → Err
with_prior_uncertainty e prior =
    if not prior || not (has_no_side_effects e) then e else append_indefinite_failure e
