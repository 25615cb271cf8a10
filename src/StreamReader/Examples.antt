-- ===== src/StreamReader/Examples.antt =====
-- A read of five records from a timestamp on, cut off behind two of them.
use s2_sdk_go.Prelude.{ℕ, ◌≡◌, ◌<◌, ◌^◌, false, none, some, [], ◌∷◌, pos, arith}
use s2_sdk_go.Records.{SequencedRecord, metered_sequenced_record_bytes, headers_size}
use s2_sdk_go.StreamReader.{
  ReadOptions, new_stream_reader, build_attempt_options, unless_empty, read_batches,
}
use s2_sdk_go.StreamReader.Budget.{
  Batches, bytes_in, IsContinuation, build_attempt_options-IsContinuation,
}

abbrev five_records : ReadOptions ℕ
five_records = record {
  seq_num = none;
  timestamp = some 1000;
  tail_offset = none;
  count = some 5;
  bytes = none;
  wait = some (pos 30);
  until = none;
  clamp = none;
  ignore_command_records = false;
  stream_config = none;
}

abbrev numbered : ℕ → SequencedRecord
numbered n = record { body = 1 ∷ []; headers = []; seq_num = n; timestamp = 1000 }

abbrev two_batches : Batches
two_batches = (numbered 70 ∷ [], none) ∷ (numbered 71 ∷ [], some 9) ∷ []

few_bytes : bytes_in two_batches < 2 ^ 64
unfolding metered_sequenced_record_bytes headers_size
few_bytes = omega arith

build_attempt_options-IsContinuation_example :
    (q : ReadOptions ℕ) × (build_attempt_options
        (read_batches (new_stream_reader (some five_records)) two_batches)
        4
      ≡ unless_empty q)
    × IsContinuation five_records two_batches q
build_attempt_options-IsContinuation_example =
    build_attempt_options-IsContinuation five_records two_batches 4 (omega arith) few_bytes
