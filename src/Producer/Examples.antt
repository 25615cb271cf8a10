-- ===== src/Producer/Examples.antt =====
-- A record and the barrier of a flush behind it: the consumer takes both, and the ack comes between.
use s2_sdk_go.Prelude.{◌≡◌, refl, none, some, [], ◌∷◌, inr, pos, arith}
use s2_sdk_go.Transport.{AppendAck}
use s2_sdk_go.Batching.{BatchingOptions}
use s2_sdk_go.Batcher.{Batcher, BatchOutput, new_batcher}
use s2_sdk_go.Producer.{
  Producer, taken, settled, flushed, durable, new_producer, take_batch, process_batch, await_ack,
  finish_batch, resolve_batch_ack, release_producer_permits, release_bytes, take_all, take_permit,
  durable_events, answer_barrier,
}
use s2_sdk_go.Records.{metered_batch_bytes, metered_payload_bytes, headers_size}
use s2_sdk_go.Batcher.Valid.{IsSendable}
use s2_sdk_go.Producer.Acks.{Ascending, durable_events-Ascending}
use s2_sdk_go.Producer.Steps.{Reach, here, next, takes, finishes, answers}
use s2_sdk_go.Producer.Sound.{IsSound}
use s2_sdk_go.Producer.Flush.{Reach-IsSound}

abbrev one_record : BatchOutput
one_record = record {
  records = record { timestamp = none; headers = []; body = 7 ∷ [] } ∷ [];
  match_seq_num = none;
  fencing_token = none;
  record_meta = record { index = 0; result_ch = 5; permit = none } ∷ [];
  barrier = none;
}

abbrev one_barrier : BatchOutput
one_barrier = record {
  records = [];
  match_seq_num = none;
  fencing_token = none;
  record_meta = [];
  barrier = some 9;
}

abbrev busy_batcher : Batcher
busy_batcher = record (new_batcher none) { sent = one_record ∷ one_barrier ∷ [] }

abbrev written : AppendAck
written = record {
  start = record { seq_num = 20; timestamp = 3 };
  end = record { seq_num = 21; timestamp = 3 };
  tail = record { seq_num = 21; timestamp = 3 };
}

abbrev p0 : Producer
p0 = new_producer busy_batcher (pos 1000)

abbrev p1 : Producer
p1 = take_batch p0 one_record none

abbrev p2 : Producer
p2 = finish_batch (record p1 { pending = [] }) one_record.record_meta (inr written)

abbrev p3 : Producer
p3 = answer_barrier p2 9

fresh_stall : p0.stalled ≡ none
unfolding new_producer
fresh_stall = refl

first_received : p0.batcher.sent ≡ one_record ∷ one_barrier ∷ []
unfolding new_producer
first_received = refl

flushed_run : Reach p0 p3
unfolding new_producer take_batch process_batch await_ack finish_batch resolve_batch_ack
    release_producer_permits release_bytes take_all take_permit
flushed_run =
    next
      (next (next here (takes one_record none ([], one_barrier ∷ [], refl, refl) refl refl))
        (finishes [] one_record [] (inr written) refl))
      (answers one_barrier 9 (one_record ∷ [], [], refl, refl) refl refl refl)

flush_answered :
    p3.log
    ≡ taken one_record
      ∷ settled 5 (durable (record { batch_ack = written; index = 0 }))
      ∷ flushed 9 none
      ∷ []
unfolding new_producer take_batch process_batch await_ack finish_batch resolve_batch_ack
    release_producer_permits release_bytes take_all take_permit durable_events answer_barrier
flush_answered = refl

Reach-IsSound_example : IsSound 5 p3
Reach-IsSound_example = Reach-IsSound 5 busy_batcher (pos 1000) flushed_run

abbrev roomy : BatchingOptions
roomy = record {
  max_records = pos 10;
  max_metered_bytes = 100;
  linger = pos 0;
  match_seq_num = none;
  fencing_token = none;
  channel_buffer = pos 0;
}

one_record-IsSendable : IsSendable roomy one_record
unfolding metered_batch_bytes metered_payload_bytes headers_size
one_record-IsSendable = record {
  some_record = omega arith;
  few_records = omega arith;
  few_bytes = omega arith;
  placed = (omega arith, omega arith);
}

durable_events-Ascending_example :
    Ascending 20 one_record.record_meta (durable_events one_record.record_meta written) 21
durable_events-Ascending_example =
    durable_events-Ascending roomy one_record written one_record-IsSendable (omega arith, refl)
      (omega arith)
