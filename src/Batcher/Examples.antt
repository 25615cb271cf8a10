-- ===== src/Batcher/Examples.antt =====
-- The theorems on batchers at a short run: two records fill a batch of two, a third one waits.
use s2_sdk_go.Prelude.{
  count, ℕ, ◌≡◌, refl, true, false, none, some, List, [], ◌∷◌, ◌++◌, pos, arith,
}
use s2_sdk_go.Records.{
  valid, validate_append_input, metered_batch_bytes, AppendRecord, headers_size,
  metered_payload_bytes, clone_bytes, clone_headers, clone_append_records,
}
use s2_sdk_go.Batching.{BatchingOptions, defaults_of, apply_batching_defaults, is_zero}
use s2_sdk_go.Batcher.Submit.{input_of, Reach-validate_append_input}
use s2_sdk_go.Batcher.{
  BatchOutput, new_batcher, advance, output, emit, flush_locked, insert, make_room, settle,
  add_with_permit, close,
}
use s2_sdk_go.Batcher.Steps.{World, after_add, adds, closes, Reach, here, next, fresh}
use s2_sdk_go.Batcher.Valid.{IsValid}
use s2_sdk_go.Batcher.Invariant.{Reach-fresh-IsValid}
use s2_sdk_go.Batcher.Order.{sent_records, Reach-sent_records, IsDrained, close-sent_records}
use s2_sdk_go.Batcher.Numbers.{Numbered, Reach-Numbered}
use s2_sdk_go.Batcher.Delivery.{holds, Reach-holds}
use s2_sdk_go.Batcher.Quiet.{IsQuiet, Reach-IsQuiet}

abbrev options : BatchingOptions
options = record {
  linger = pos 0;
  max_records = pos 2;
  max_metered_bytes = 100;
  match_seq_num = some 7;
  fencing_token = none;
  channel_buffer = pos 0;
}

abbrev text : List ℕ → AppendRecord
text bs = record { timestamp = none; headers = []; body = bs }

abbrev add : World → AppendRecord → ℕ → World
add w r ch = after_add w r (some ch) (add_with_permit w.batcher r (some ch) none none none)

abbrev start : World
start = fresh (some options)

abbrev run : World
run = add (add (add start (text (1 ∷ [])) 10) (text (2 ∷ [])) 11) (text (3 ∷ [])) 12

run_reached : Reach start run
run_reached =
    next
      (next (next here (adds (text (1 ∷ [])) (some 10) none none none))
        (adds (text (2 ∷ [])) (some 11) none none none))
      (adds (text (3 ∷ [])) (some 12) none none none)

abbrev closed_run : World
closed_run = record run { batcher = (close run.batcher none).0 }

closed_run_reached : Reach start closed_run
closed_run_reached = next run_reached (closes none)

run_open : (run.batcher.closed ≡ false) × (run.batcher.close_err ≡ none)
unfolding new_batcher apply_batching_defaults defaults_of add_with_permit clone_append_records
    clone_headers clone_bytes metered_payload_bytes headers_size make_room insert settle
    flush_locked emit output advance is_zero
run_open = (refl, refl)

run_closed : closed_run.batcher.closed ≡ true
unfolding new_batcher apply_batching_defaults defaults_of add_with_permit clone_append_records
    clone_headers clone_bytes metered_payload_bytes headers_size make_room insert settle
    flush_locked emit output advance close is_zero
run_closed = refl

Reach-fresh-IsValid_example : IsValid run.batcher
Reach-fresh-IsValid_example = Reach-fresh-IsValid (some options) run_reached

Reach-sent_records_example : sent_records run.batcher.sent ++ run.batcher.buffer ≡ run.accepted
Reach-sent_records_example = Reach-sent_records (some options) run_reached run_open.1

close-sent_records_example : IsDrained run (close run.batcher none)
close-sent_records_example = close-sent_records (some options) run_reached run_open.0 run_open.1

Reach-Numbered_example :
    Numbered (apply_batching_defaults (some options)).match_seq_num 0 run.batcher.sent
unfolding apply_batching_defaults defaults_of
Reach-Numbered_example = Reach-Numbered (some options) run_reached (omega arith)

Reach-holds_example : holds 11 run.batcher ≡ count 11 run.waiting
Reach-holds_example = Reach-holds (some options) run_reached 11

Reach-IsQuiet_example : IsQuiet closed_run (add closed_run (text (4 ∷ [])) 13)
Reach-IsQuiet_example =
    Reach-IsQuiet (some options) closed_run_reached run_closed
      (next here (adds (text (4 ∷ [])) (some 13) none none none))

abbrev first_batch : BatchOutput
first_batch = record {
  records = text (1 ∷ []) ∷ text (2 ∷ []) ∷ [];
  match_seq_num = some 7;
  fencing_token = none;
  record_meta =
      record { index = 0; result_ch = 10; permit = none }
      ∷ record { index = 1; result_ch = 11; permit = none }
      ∷ [];
  barrier = none;
}

run_sent_first : run.batcher.sent ≡ [] ++ (first_batch ∷ [])
unfolding new_batcher apply_batching_defaults defaults_of add_with_permit clone_append_records
    clone_headers clone_bytes metered_payload_bytes headers_size make_room insert settle
    flush_locked emit output advance is_zero
run_sent_first = refl

Reach-validate_append_input_example :
    validate_append_input (some (input_of ℕ first_batch))
    ≡ valid (metered_batch_bytes first_batch.records)
Reach-validate_append_input_example =
    Reach-validate_append_input ℕ (some options) [] [] first_batch run_reached run_sent_first refl
      (omega arith)
