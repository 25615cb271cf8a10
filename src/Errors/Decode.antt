-- ===== src/Errors/Decode.antt =====
-- s2/error.go: the error that an HTTP error response stands for. JSON, the trimming of white
-- space and the texts of statuses belong to Go's library and are a parameter. A JSON number is
-- given by the uint64 that the source converts it to.
pub mod Laws
use Prim.Native.String.{String}
use text.Mathlib.Text.{◌==◌ as str_eq}
use s2_sdk_go.Prelude.{
  ℕ, Bool, true, false, not, ◌≡◌, refl, Option, none, some, if◌then◌else◌, ◌==◌, arith, if_ind,
}
use s2_sdk_go.Errors.{
  Err, S2Error, StreamPosition, s2_error, seq_num_mismatch, fencing_token_mismatch,
  range_not_satisfiable, as_s2_error, is_retryable, is_retryable_status, has_no_side_effects,
  s2_has_no_side_effects, is_indefinite,
}
use s2_sdk_go.Errors.Codes.{lookup_code, lookup_in, error_codes}

pub data JsonValue : Type 0 where
  number : ℕ → JsonValue
  string : String → JsonValue
  structure : JsonValue

pub record ErrorInfo : Type 0 where
  pub code : String
  pub message : String

pub record Library : Type 0 where
  pub trim_space : String → String
  pub parse_object : String → Option (String → Option JsonValue)
  pub parse_error_info : String → Option ErrorInfo
  pub parse_tail : String → Option StreamPosition
  pub status_text : ℕ → String
  pub http_status : ℕ → String

server_error : String → String → ℕ → S2Error
server_error message code status = record {
  message = message;
  code = code;
  status = status;
  origin = "server";
}

pub new_seq_num_mismatch_error : ℕ → ℕ → Err
new_seq_num_mismatch_error status expected =
    seq_num_mismatch
      (server_error "Append condition failed: sequence number mismatch" "APPEND_CONDITION_FAILED"
        status)
      expected

pub new_fencing_token_mismatch_error : ℕ → String → Err
new_fencing_token_mismatch_error status expected =
    fencing_token_mismatch
      (server_error "Append condition failed: fencing token mismatch" "APPEND_CONDITION_FAILED"
        status)
      expected

message_or : String → Option JsonValue → String
message_or m (some (string t)) = t
message_or m (some (number n)) = m
message_or m (some structure) = m
message_or m none = m

append_condition_failed : ℕ → (String → Option JsonValue) → Err
append_condition_failed status fields =
    s2_error (server_error (message_or "Append condition failed" (fields "message")) "" status)

fencing_or_other : ℕ → (String → Option JsonValue) → Option JsonValue → Err
fencing_or_other status fields (some (string t)) = new_fencing_token_mismatch_error status t
fencing_or_other status fields (some (number n)) = append_condition_failed status fields
fencing_or_other status fields (some structure) = append_condition_failed status fields
fencing_or_other status fields none = append_condition_failed status fields

seq_num_or_other : ℕ → (String → Option JsonValue) → Option JsonValue → Err
seq_num_or_other status fields (some (number n)) = new_seq_num_mismatch_error status n
seq_num_or_other status fields (some (string t)) =
    fencing_or_other status fields (fields "fencing_token_mismatch")
seq_num_or_other status fields (some structure) =
    fencing_or_other status fields (fields "fencing_token_mismatch")
seq_num_or_other status fields none =
    fencing_or_other status fields (fields "fencing_token_mismatch")

pub make_append_precondition_error : ℕ → (String → Option JsonValue) → Err
make_append_precondition_error status fields =
    seq_num_or_other status fields (fields "seq_num_mismatch")

module _ (lib : Library) where
  range_body : ℕ → String → Option StreamPosition → Err
  range_body status body (some tail) =
      range_not_satisfiable (server_error (lib.status_text status) "RANGE_NOT_SATISFIABLE" status)
        (some tail)
  range_body status body none =
      range_not_satisfiable (server_error body "RANGE_NOT_SATISFIABLE" status) none

  pub new_range_not_satisfiable_error : ℕ → String → Err
  new_range_not_satisfiable_error status body =
      if str_eq body ""
      then range_not_satisfiable
          (server_error (lib.status_text status) "RANGE_NOT_SATISFIABLE" status) none
      else range_body status body (lib.parse_tail body)

  precondition_body : ℕ → Option (String → Option JsonValue) → Err
  precondition_body status (some fields) = make_append_precondition_error status fields
  precondition_body status none = s2_error (server_error (lib.http_status status) "" status)

  plain_body : ℕ → String → Option ErrorInfo → Err
  plain_body status body (some i) = s2_error (
      if str_eq i.message ""
      then server_error body "" status
      else server_error i.message i.code status)
  plain_body status body none = s2_error (server_error body "" status)

  pub decode_api_error : ℕ → String → Err
  decode_api_error status body =
      let trimmed = lib.trim_space body in
      let empty = str_eq trimmed "" in
      if status == 412
      then precondition_body status (if empty then none else lib.parse_object trimmed)
      else if status == 416
      then new_range_not_satisfiable_error status trimmed
      else if empty
      then s2_error (server_error (lib.status_text status) "" status)
      else plain_body status trimmed (lib.parse_error_info trimmed)
