-- ===== src/Errors/Decode/Laws.antt =====
-- What every decoded error response keeps, and what a failed append condition means.
use Prim.Native.String.{String}
use text.Mathlib.Text.{◌==◌ as str_eq}
use s2_sdk_go.Prelude.{ℕ, true, false, ◌≡◌, refl, Option, none, some, if◌then◌else◌, ◌==◌, if_ind}
use s2_sdk_go.Errors.{
  Err, S2Error, StreamPosition, s2_error, as_s2_error, is_indefinite, has_no_side_effects,
  is_retryable, is_retryable_status, s2_has_no_side_effects,
}
use s2_sdk_go.Errors.Codes.{lookup_code, lookup_in, error_codes}
use s2_sdk_go.Errors.Decode.{
  JsonValue, number, string, structure, ErrorInfo, Library, server_error,
  new_seq_num_mismatch_error, new_fencing_token_mismatch_error, append_condition_failed,
  fencing_or_other, seq_num_or_other, make_append_precondition_error, range_body,
  new_range_not_satisfiable_error, precondition_body, plain_body, decode_api_error,
}

-- The error comes from the server, under the status of the response, and is final.
abbrev pub IsServerError : ℕ → Err → Type 0
IsServerError status e =
    (s : S2Error) × (as_s2_error e ≡ some s)
    × (s.status ≡ status)
    × (s.origin ≡ "server")
    × (is_indefinite e ≡ false)

fencing-IsServerError :
    (status : ℕ) (fields : String → Option JsonValue) (v : Option JsonValue)
    → IsServerError status (fencing_or_other status fields v)
unfolding fencing_or_other new_fencing_token_mismatch_error append_condition_failed as_s2_error
    is_indefinite server_error
fencing-IsServerError status fields (some (string t)) = (_, refl, refl, refl, refl)
fencing-IsServerError status fields (some (number n)) = (_, refl, refl, refl, refl)
fencing-IsServerError status fields (some structure) = (_, refl, refl, refl, refl)
fencing-IsServerError status fields none = (_, refl, refl, refl, refl)

seq_num-IsServerError :
    (status : ℕ) (fields : String → Option JsonValue) (v : Option JsonValue)
    → IsServerError status (seq_num_or_other status fields v)
unfolding seq_num_or_other new_seq_num_mismatch_error as_s2_error is_indefinite server_error
seq_num-IsServerError status fields (some (string t)) = fencing-IsServerError status fields _
seq_num-IsServerError status fields (some (number n)) = (_, refl, refl, refl, refl)
seq_num-IsServerError status fields (some structure) = fencing-IsServerError status fields _
seq_num-IsServerError status fields none = fencing-IsServerError status fields _

module _ (lib : Library) where
  range-IsServerError :
      (status : ℕ) (body : String) (v : Option StreamPosition)
      → IsServerError status (range_body lib status body v)
  unfolding range_body as_s2_error is_indefinite server_error
  range-IsServerError status body (some t) = (_, refl, refl, refl, refl)
  range-IsServerError status body none = (_, refl, refl, refl, refl)

  precondition-IsServerError :
      (status : ℕ) (v : Option (String → Option JsonValue))
      → IsServerError status (precondition_body lib status v)
  unfolding precondition_body make_append_precondition_error as_s2_error is_indefinite server_error
  precondition-IsServerError status (some f) = seq_num-IsServerError status f _
  precondition-IsServerError status none = (_, refl, refl, refl, refl)

  plain-IsServerError :
      (status : ℕ) (body : String) (v : Option ErrorInfo)
      → IsServerError status (plain_body lib status body v)
  unfolding plain_body as_s2_error is_indefinite server_error
  plain-IsServerError status body (some i) =
      if_ind (λ (s : S2Error). IsServerError status (s2_error s)) (str_eq i.message "")
        (λ _. (_, refl, refl, refl, refl)) (λ _. (_, refl, refl, refl, refl))
  plain-IsServerError status body none = (_, refl, refl, refl, refl)

  -- Every error response decodes to an S2 error of origin server with the status of the response,
  -- and never to an indefinite failure.
  pub decode_api_error-IsServerError :
      (status : ℕ) (body : String) → IsServerError status (decode_api_error lib status body)
  unfolding decode_api_error new_range_not_satisfiable_error as_s2_error is_indefinite server_error
  decode_api_error-IsServerError status body =
      if_ind (IsServerError status) (status == 412) (λ _. precondition-IsServerError status _)
        (λ _.
          if_ind (IsServerError status) (status == 416)
            (λ _.
              if_ind (IsServerError status) (str_eq (lib.trim_space body) "")
                (λ _. (_, refl, refl, refl, refl)) (λ _. range-IsServerError status _ _))
            (λ _.
              if_ind (IsServerError status) (str_eq (lib.trim_space body) "")
                (λ _. (_, refl, refl, refl, refl)) (λ _. plain-IsServerError status _ _)))

-- An append condition that fails is never retried; if the response says which one failed, nothing was appended.
abbrev pub IsDefinite : Err → Type 0
IsDefinite e = (s : S2Error) × (as_s2_error e ≡ some s) × (is_retryable s ≡ false)

fencing-IsDefinite :
    (fields : String → Option JsonValue) (v : Option JsonValue)
    → IsDefinite (fencing_or_other 412 fields v)
unfolding fencing_or_other new_fencing_token_mismatch_error append_condition_failed as_s2_error
    server_error is_retryable is_retryable_status lookup_code lookup_in error_codes
fencing-IsDefinite fields (some (string t)) = (_, refl, refl)
fencing-IsDefinite fields (some (number n)) = (_, refl, refl)
fencing-IsDefinite fields (some structure) = (_, refl, refl)
fencing-IsDefinite fields none = (_, refl, refl)

seq_num-IsDefinite :
    (fields : String → Option JsonValue) (v : Option JsonValue)
    → IsDefinite (seq_num_or_other 412 fields v)
unfolding seq_num_or_other new_seq_num_mismatch_error as_s2_error server_error is_retryable
    is_retryable_status lookup_code lookup_in error_codes
seq_num-IsDefinite fields (some (string t)) = fencing-IsDefinite fields _
seq_num-IsDefinite fields (some (number n)) = (_, refl, refl)
seq_num-IsDefinite fields (some structure) = fencing-IsDefinite fields _
seq_num-IsDefinite fields none = fencing-IsDefinite fields _

module _ (lib : Library) where
  -- A failed append condition (status 412) decodes to an S2 error that is not retryable, whatever
  -- the body holds.
  pub decode_api_error-precondition : (body : String) → IsDefinite (decode_api_error lib 412 body)
  unfolding decode_api_error precondition_body make_append_precondition_error as_s2_error
      server_error is_retryable is_retryable_status lookup_code lookup_in error_codes
  decode_api_error-precondition body =
      go (if str_eq (lib.trim_space body) "" then none else lib.parse_object (lib.trim_space body))
    where
      go : (v : Option (String → Option JsonValue)) → IsDefinite (precondition_body lib 412 v)
      go none = (_, refl, refl)
      go (some f) = seq_num-IsDefinite f _

-- either reported mismatch guarantees that nothing was appended
mismatch-has_no_side_effects :
    (n : ℕ) (token : String)
    → (has_no_side_effects (new_seq_num_mismatch_error 412 n) ≡ true)
      × (has_no_side_effects (new_fencing_token_mismatch_error 412 token) ≡ true)
unfolding has_no_side_effects is_indefinite s2_has_no_side_effects new_seq_num_mismatch_error
    new_fencing_token_mismatch_error as_s2_error server_error lookup_code lookup_in error_codes
mismatch-has_no_side_effects n token = (refl, refl)
