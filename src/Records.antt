-- ===== src/Records.antt =====
-- s2/append_utils.go and the inputs of s2/stream.go: records, their metered size, validation.
-- Sizes are sums of slice lengths and do not wrap. `C` stands for the stream configuration,
-- which an input only carries along.
pub mod Sizes
pub mod Commands
mod Examples
use s2_sdk_go.Prelude.{
  ◌⊎◌, inl, inr, ℕ, zero, suc, ◌+◌, ◌*◌, ◌/◌, ◌%◌, ◌^◌, Bool, true, false, ◌&&◌, Option, none, some,
  List, [], ◌∷◌, if◌then◌else◌, ◌==◌, ltb, length,
}

pub record Header : Type 0 where
  pub name : List ℕ
  pub value : List ℕ

pub record AppendRecord : Type 0 where
  pub timestamp : Option ℕ
  pub headers : List Header
  pub body : List ℕ

pub record AppendInput (C : Type 0) : Type 0 where
  pub records : List AppendRecord
  pub match_seq_num : Option ℕ
  pub fencing_token : Option (List ℕ)
  pub stream_config : Option C

abbrev pub max_batch_records : ℕ
max_batch_records = 1000

abbrev pub max_batch_metered_bytes : ℕ
max_batch_metered_bytes = 1 * 1024 * 1024

abbrev pub max_fencing_token_length : ℕ
max_fencing_token_length = 36

unfoldable pub headers_size : List Header → ℕ
headers_size [] = 0
headers_size (h ∷ hs) = length h.name + length h.value + headers_size hs

unfoldable pub metered_payload_bytes : AppendRecord → ℕ
metered_payload_bytes r = 8 + 2 * length r.headers + headers_size r.headers + length r.body

pub record SequencedRecord : Type 0 where
  pub body : List ℕ
  pub headers : List Header
  pub seq_num : ℕ
  pub timestamp : ℕ

unfoldable pub metered_sequenced_record_bytes : SequencedRecord → ℕ
metered_sequenced_record_bytes r = 8 + 2 * length r.headers + headers_size r.headers + length r.body

unfoldable pub metered_batch_bytes : List AppendRecord → ℕ
metered_batch_bytes [] = 0
metered_batch_bytes (r ∷ rs) = metered_payload_bytes r + metered_batch_bytes rs

pub data ValidationError : Type 0 where
  nil_input no_records : ValidationError
  too_many_records token_too_long batch_too_large : ValidationError

pub data Validated : Type 0 where
  valid : ℕ → Validated
  invalid : ValidationError → Validated

abbrev pub token_length : Option (List ℕ) → ℕ
token_length none = 0
token_length (some t) = length t

abbrev validate_some : {C : Type 0} → AppendInput C → Validated
validate_some i =
    if length i.records == 0
    then invalid no_records
    else if ltb max_batch_records (length i.records)
    then invalid too_many_records
    else if ltb max_fencing_token_length (token_length i.fencing_token)
    then invalid token_too_long
    else if ltb max_batch_metered_bytes (metered_batch_bytes i.records)
    then invalid batch_too_large
    else valid (metered_batch_bytes i.records)

pub validate_append_input : {C : Type 0} → Option (AppendInput C) → Validated
validate_append_input none = invalid nil_input
validate_append_input (some i) = validate_some i

-- Copies of the slices: `append([]byte(nil), s...)`, and `make` with `copy` unless it is empty.
unfoldable pub clone_bytes : List ℕ → List ℕ
clone_bytes [] = []
clone_bytes (b ∷ bs) = b ∷ clone_bytes bs

unfoldable pub clone_headers : List Header → List Header
clone_headers [] = []
clone_headers (h ∷ hs) =
    record { name = clone_bytes h.name; value = clone_bytes h.value } ∷ clone_headers hs

unfoldable pub clone_append_records : List AppendRecord → List AppendRecord
clone_append_records [] = []
clone_append_records (r ∷ rs) =
    record { timestamp = r.timestamp; headers = clone_headers r.headers; body = clone_bytes r.body }
    ∷ clone_append_records rs

-- `cloneUint64Ptr` and its like: a pointer to a copy.
pub clone_ptr : {A : Type 0} → Option A → Option A
clone_ptr none = none
clone_ptr (some a) = some a

pub clone_append_input : {C : Type 0} → AppendInput C → AppendInput C
clone_append_input i = record {
  records = clone_append_records i.records;
  match_seq_num = clone_ptr i.match_seq_num;
  fencing_token = clone_ptr i.fencing_token;
  stream_config = clone_ptr i.stream_config;
}

prepared : {C : Type 0} → AppendInput C → Validated → ValidationError ⊎ (AppendInput C × ℕ)
prepared i (invalid e) = inl e
prepared i (valid n) = inr (clone_append_input i, n)

pub prepare_append_input :
    {C : Type 0} → Option (AppendInput C) → ValidationError ⊎ (AppendInput C × ℕ)
prepare_append_input none = inl nil_input
prepare_append_input (some i) = prepared i (validate_append_input (some i))

-- The text of a command is its ASCII bytes.
pub new_fence_command_record : List ℕ → Option ℕ → AppendRecord
new_fence_command_record token timestamp = record {
  timestamp = timestamp;
  headers = record { name = []; value = b'f' ∷ b'e' ∷ b'n' ∷ b'c' ∷ b'e' ∷ [] } ∷ [];
  body = token;
}

-- `binary.BigEndian.PutUint64`: the k lowest bytes of a number, the highest first.
pub big_endian : ℕ → ℕ → List ℕ
big_endian zero n = []
big_endian (suc k) n = (n / 2 ^ (8 * k) % 256) ∷ big_endian k n

pub new_trim_command_record : ℕ → Option ℕ → AppendRecord
new_trim_command_record seq_num timestamp = record {
  timestamp = timestamp;
  headers = record { name = []; value = b't' ∷ b'r' ∷ b'i' ∷ b'm' ∷ [] } ∷ [];
  body = big_endian 8 seq_num;
}
