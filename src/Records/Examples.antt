-- ===== src/Records/Examples.antt =====
-- The theorems on records at concrete inputs.
use s2_sdk_go.Prelude.{inr, ℕ, ◌≡◌, refl, none, some, [], ◌∷◌, arith}
use s2_sdk_go.Records.{
  prepare_append_input, prepared, clone_append_input, clone_ptr, clone_headers, clone_bytes,
  AppendRecord, AppendInput, headers_size, metered_payload_bytes, metered_batch_bytes,
  validate_append_input, clone_append_records,
}
use s2_sdk_go.Records.Sizes.{IsBatch, prepare_append_input-IsBatch}

abbrev sample : AppendRecord
sample = record {
  timestamp = some 5;
  headers = record { name = 1 ∷ 2 ∷ []; value = 3 ∷ [] } ∷ [];
  body = 9 ∷ 9 ∷ [];
}

abbrev input : AppendInput ℕ
input = record {
  records = sample ∷ sample ∷ [];
  match_seq_num = some 3;
  fencing_token = some (7 ∷ []);
  stream_config = none;
}

input-IsBatch : IsBatch input
unfolding metered_batch_bytes metered_payload_bytes headers_size
input-IsBatch = record {
  some_record = omega arith;
  few_records = omega arith;
  short_token = omega arith;
  few_bytes = omega arith;
}

prepared_input : prepare_append_input (some input) ≡ inr (input, 30)
unfolding prepare_append_input prepared clone_append_input clone_ptr clone_append_records
    clone_headers clone_bytes validate_append_input metered_batch_bytes metered_payload_bytes
    headers_size
prepared_input = refl

prepare_append_input-IsBatch_example :
    IsBatch input × (input ≡ input) × (30 ≡ metered_batch_bytes (input.records))
prepare_append_input-IsBatch_example = prepare_append_input-IsBatch input input 30 prepared_input
