-- ===== src/Producer.antt =====
-- s2/producer.go: records one by one over a batcher and an append session. Each function is what
-- runs between two waits: `submitMu` is held by one submission at a time, and `ackWG` counts the
-- batches in `pending`. What the consumer takes, and what it and the others send on the channels of
-- results and barriers, is kept in `log`, the latest last. Permits and channels are known by numbers.
pub mod Submission
pub mod Steps
pub mod Kept
pub mod Sound
pub mod Flush
pub mod Acks
mod Examples
use s2_sdk_go.Prelude.{
  ℕ, ◌+◌, ◌%◌, ◌^◌, Bool, true, false, Option, none, some, List, [], ◌∷◌, ◌++◌, ◌⊎◌, inl, inr,
  if◌then◌else◌, ◌==◌, ltb, ℤ, pos,
}
use s2_sdk_go.Context.{ContextError}
use s2_sdk_go.Errors.{
  Err, append_indefinite_failure, context_error, session_closed, wrapped, url_error,
}
use s2_sdk_go.Capacity.{CapacityTracker, new_capacity_tracker}
use s2_sdk_go.Capacity
use s2_sdk_go.Transport.{AppendAck}
use s2_sdk_go.AppendSession.State.{keep_cancel}
use s2_sdk_go.Batcher.{Batcher, BatchOutput, RecordMeta}

pub record IndexedAppendAck : Type 0 where
  pub batch_ack : AppendAck
  pub index : ℕ

-- `SeqNum`
unfoldable pub seq_num : IndexedAppendAck → ℕ
seq_num a = (a.batch_ack.start.seq_num + a.index) % 2 ^ 64

pub data ProducerOutcome : Type 0 where
  durable : IndexedAppendAck → ProducerOutcome
  lost : Err → ProducerOutcome

pub data Event : Type 0 where
  taken : BatchOutput → Event
  settled : ℕ → ProducerOutcome → Event
  flushed : ℕ → Option Err → Event

-- `received` counts what the consumer took from the channel of batches. `ctx` is `p.ctx.Err()`, `submit_cause` is `context.Cause(p.submitCtx)`. `stalled` is the batch,
-- and its error, with which the consumer waits for the others.
pub record Producer : Type 0 where
  pub batcher : Batcher
  pub capacity : CapacityTracker
  pub permits : ℕ → ℕ
  pub next_permit : ℕ
  pub ctx : Option ContextError
  pub submit_cause : Option Err
  pub terminal_err : Option Err
  pub append_err : Option Err
  pub closing : Bool
  pub closes_batcher : Bool
  pub received : ℕ
  pub pending : List BatchOutput
  pub stalled : Option (List RecordMeta × Err)
  pub log : List Event

unfoldable pub new_producer : Batcher → ℤ → Producer
new_producer b max_inflight_bytes = record {
  batcher = b;
  capacity = new_capacity_tracker max_inflight_bytes (pos 0);
  permits = λ k. 0;
  next_permit = 0;
  ctx = none;
  submit_cause = none;
  terminal_err = none;
  append_err = none;
  closing = false;
  closes_batcher = false;
  received = 0;
  pending = [];
  stalled = none;
  log = [];
}

unfoldable pub put : (ℕ → ℕ) → ℕ → ℕ → ℕ → ℕ
put f k v i = if k == i then v else f i

-- `take` of one permit before the rest, and of all the permits of a batch.
unfoldable pub take_permit : Option ℕ → ((ℕ → ℕ) → ℕ × (ℕ → ℕ)) → (ℕ → ℕ) → ℕ × (ℕ → ℕ)
take_permit none rest f = rest f
take_permit (some k) rest f = let (n, g) = rest (put f k 0) in (f k + n, g)

unfoldable pub take_all : List RecordMeta → (ℕ → ℕ) → ℕ × (ℕ → ℕ)
take_all [] f = (0, f)
take_all (m ∷ ms) f = take_permit m.permit (take_all ms) f

unfoldable pub release_bytes : Producer → ℕ × (ℕ → ℕ) → Producer
release_bytes p (n, g) = record p {
  permits = g;
  capacity = if ltb 0 n then Capacity.release p.capacity n else p.capacity;
}

-- All permits are of one tracker, the producer's.
unfoldable pub release_producer_permits : Producer → List RecordMeta → Producer
release_producer_permits p ms = release_bytes p (take_all ms p.permits)

unfoldable pub keep_cause : Option Err → Err → Option Err
keep_cause (some old) e = some old
keep_cause none e = some e

-- The producer, and the terminal error that holds.
unfoldable pub set_terminal : Option Err → Producer → Err → Producer × Err
set_terminal (some old) p e = (p, old)
set_terminal none p e = (
  record p {
    terminal_err = some e;
    closing = true;
    submit_cause = keep_cause p.submit_cause e;
    capacity = Capacity.close p.capacity;
    ctx = keep_cancel p.ctx;
    closes_batcher = true;
  },
  e,
)

unfoldable pub record_terminal_error : Producer → Err → Producer × Err
record_terminal_error p e = set_terminal p.terminal_err p e

unfoldable pub durable_events : List RecordMeta → AppendAck → List Event
durable_events [] ack = []
durable_events (m ∷ ms) ack =
    settled m.result_ch (durable (record { batch_ack = ack; index = m.index }))
    ∷ durable_events ms ack

unfoldable pub lost_events : List RecordMeta → Err → List Event
lost_events [] e = []
lost_events (m ∷ ms) e = settled m.result_ch (lost e) ∷ lost_events ms e

unfoldable pub resolve_batch_ack : Producer → List RecordMeta → AppendAck → Producer
resolve_batch_ack p ms ack =
    let q = release_producer_permits p ms in record q { log = q.log ++ durable_events ms ack }

unfoldable pub dispatch_batch_error : Producer → List RecordMeta → Err → Producer
dispatch_batch_error p ms e =
    let q = release_producer_permits p ms in
    record q { append_err = keep_cause q.append_err e; log = q.log ++ lost_events ms e }

-- After `submitOwned` or `Submit` and the wait for its ticket: an error, or a goroutine that waits.
unfoldable pub await_ack : Producer → BatchOutput → Option Err → Producer
await_ack p x none = record p { pending = p.pending ++ (x ∷ []) }
await_ack p x (some e) =
    let (q, t) = record_terminal_error p e in record q { stalled = some (x.record_meta, t) }

unfoldable pub process_batch : Producer → BatchOutput → Option Err → Producer
process_batch p x submitted = elim p.terminal_err [
  | some e ↦ dispatch_batch_error p x.record_meta e
  | none ↦ await_ack p x submitted
]

-- `resolveSynchronousBatchError` behind its wait.
unfoldable pub resume : Producer → List RecordMeta → Err → Producer
resume p ms e = dispatch_batch_error (record p { stalled = none }) ms e

-- What the goroutine of a batch does with the ack or the error it gets.
unfoldable pub finish_batch : Producer → List RecordMeta → Err ⊎ AppendAck → Producer
finish_batch p ms (inl e) = let (q, t) = record_terminal_error p e in dispatch_batch_error q ms t
finish_batch p ms (inr ack) = resolve_batch_ack p ms ack

-- The consumer takes a batch; a barrier, which has no input, it answers behind the wait.
unfoldable pub take_batch : Producer → BatchOutput → Option Err → Producer
take_batch p x submitted =
    process_batch (record p { received = p.received + 1; log = p.log ++ (taken x ∷ []) }) x
      submitted

unfoldable pub answer_barrier : Producer → ℕ → Producer
answer_barrier p b = record p {
  received = p.received + 1;
  log = p.log ++ (flushed b p.append_err ∷ []);
}

-- `errors.Is` for `ErrSessionClosed`.
unfoldable pub is_session_closed : Err → Bool
is_session_closed session_closed = true
is_session_closed (append_indefinite_failure e) = is_session_closed e
is_session_closed (wrapped t e) = is_session_closed e
is_session_closed (url_error e) = is_session_closed e
is_session_closed _ = false

-- Behind the end of the batcher's context, whose cause is given, and of the producer's own.
unfoldable pub on_batcher_done : Producer → Err → Producer
on_batcher_done p cause =
    let q = record p { submit_cause = keep_cause p.submit_cause cause } in
    if is_session_closed cause then q else (record_terminal_error q cause).0

unfoldable pub on_ctx_done : Producer → ContextError → Producer
on_ctx_done p x = if p.closing then p else (record_terminal_error p (context_error x)).0
