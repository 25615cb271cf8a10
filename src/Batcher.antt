-- ===== src/Batcher.antt =====
-- s2/batcher.go: accumulating records into batches. Each function is what runs under the mutex.
-- A flush waits in a select for room in the channel or for the end of the context: `Select` says
-- which came. Result channels and permits are known by numbers; what is sent to the channel of
-- batches, resolved and released is kept in lists, the latest
-- last. `Flush` is `flush_locked` and `Add` is `add_with_permit` without a permit.
pub mod Steps
pub mod Moves
pub mod Valid
pub mod Add
pub mod Invariant
pub mod Order
pub mod Delivery
pub mod Numbers
pub mod Quiet
pub mod Submit
mod Examples
use s2_sdk_go.Prelude.{
  ℕ, ◌+◌, ◌%◌, ◌^◌, Bool, true, false, not, ◌&&◌, ◌||◌, Option, none, some, List, [], ◌∷◌, ◌++◌,
  if◌then◌else◌, ◌==◌, ltb, leb, length, ℤ, pos, pos_part, is_positive,
}
use s2_sdk_go.Context.{ContextError}
use s2_sdk_go.Errors.{Err, context_error, session_closed, s2_error}
use s2_sdk_go.Batching.{BatchingOptions, apply_batching_defaults}
use s2_sdk_go.Records.{
  AppendRecord, max_batch_records, max_batch_metered_bytes, metered_payload_bytes,
  clone_append_records,
}

-- A record that someone waits for: its place in the batch, its channel, its permit.
pub record RecordMeta : Type 0 where
  pub index : ℕ
  pub result_ch : ℕ
  pub permit : Option ℕ

-- The fields of its `Input` stand in the output itself. A barrier has no input.
pub record BatchOutput : Type 0 where
  pub records : List AppendRecord
  pub match_seq_num : Option ℕ
  pub fencing_token : Option (List ℕ)
  pub record_meta : List RecordMeta
  pub barrier : Option ℕ

pub record Batcher : Type 0 where
  pub opts : BatchingOptions
  pub buffer : List AppendRecord
  pub buffer_bytes : ℕ
  pub record_meta : List RecordMeta
  pub timer : Bool
  pub timer_seq : ℕ
  pub closed : Bool
  pub close_err : Option Err
  pub next_match_seq_num : Option ℕ
  pub sent : List BatchOutput
  pub resolved : List (ℕ × Err)
  pub released : List (Option ℕ)

pub new_batcher : Option BatchingOptions → Batcher
new_batcher o =
    let opts = apply_batching_defaults o in
    record {
      opts = opts;
      buffer = [];
      buffer_bytes = 0;
      record_meta = [];
      timer = false;
      timer_seq = 0;
      closed = false;
      close_err = none;
      next_match_seq_num = opts.match_seq_num;
      sent = [];
      resolved = [];
      released = [];
    }

-- `ctx` is `b.ctx.Err()`.
pub shutdown_cause : Batcher → Option ContextError → Err
shutdown_cause b ctx = elim b.close_err [
  | some e ↦ e
  | none ↦
      if b.closed
      then session_closed
      else elim ctx [ some x ↦ context_error x | none ↦ session_closed ]
]

-- The context's error, if the select ended by it.
abbrev pub Select : Type 0
Select = Option ContextError

-- `*b.nextMatchSeqNum += uint64(len(records))`
pub advance : Option ℕ → ℕ → Option ℕ
advance none n = none
advance (some v) n = some ((v + n) % 2 ^ 64)

resolve_all : List RecordMeta → Err → List (ℕ × Err)
resolve_all [] e = []
resolve_all (m ∷ ms) e = (m.result_ch, e) ∷ resolve_all ms e

release_all : List RecordMeta → List (Option ℕ)
release_all [] = []
release_all (m ∷ ms) = m.permit ∷ release_all ms

keep_first : Option Err → Err → Option Err
keep_first (some old) e = some old
keep_first none e = some e

pub output : Batcher → BatchOutput
output b = record {
  records = b.buffer;
  match_seq_num = b.next_match_seq_num;
  fencing_token = b.opts.fencing_token;
  record_meta = b.record_meta;
  barrier = none;
}

abbrev pub clear : Batcher → Batcher
clear b = record b { buffer = []; buffer_bytes = 0; record_meta = []; timer = false }

-- The two ways in which the select of a flush ends.
pub emit : Batcher → Select → Batcher × Option Err
emit b none = (
  record (clear b) {
    next_match_seq_num = advance b.next_match_seq_num (length b.buffer);
    sent = b.sent ++ (output b ∷ []);
  },
  none,
)
emit b (some x) = (
  record (clear b) {
    close_err = keep_first b.close_err (context_error x);
    released = b.released ++ release_all b.record_meta;
    resolved = b.resolved ++ resolve_all b.record_meta (context_error x);
  },
  some (context_error x),
)

pub flush_locked : Batcher → Select → Batcher × Option Err
flush_locked b s = if length b.buffer == 0 then (b, none) else emit b s

-- The middle of `addWithPermit`: the record joins the buffer.
abbrev pub meta_of : ℕ → Option ℕ → Option ℕ → List RecordMeta
meta_of index none permit = []
meta_of index (some ch) permit = record { index = index; result_ch = ch; permit = permit } ∷ []

pub insert : Batcher → List AppendRecord → ℕ → Option ℕ → Option ℕ → Batcher
insert b recs size ch permit = record b {
  buffer = b.buffer ++ recs;
  buffer_bytes = b.buffer_bytes + size;
  record_meta = b.record_meta ++ meta_of (length b.buffer) ch permit;
}

-- Its first half: a record that does not fit starts a new batch.
pub make_room : Batcher → ℕ → Select → Batcher
make_room b size s =
    if not (length b.buffer == 0)
      && (ltb (pos_part b.opts.max_records) (length b.buffer + 1)
          || ltb b.opts.max_metered_bytes (b.buffer_bytes + size))
    then (flush_locked b s).0
    else b

-- Its last half: a full batch goes out, another one waits for its timer.
pub settle : Batcher → Select → Batcher
settle b s =
    if leb (pos_part b.opts.max_records) (length b.buffer)
      || leb b.opts.max_metered_bytes b.buffer_bytes
    then (flush_locked b s).0
    else if is_positive b.opts.linger && not b.timer
    then record b { timer = true; timer_seq = (b.timer_seq + 1) % 2 ^ 64 }
    else b

pub record_too_large : Err
record_too_large =
    s2_error
      (record { message = "record exceeds max batch bytes"; code = ""; status = 0; origin = "" })

-- `first` and `last` are the selects of the two flushes.
pub add_with_permit :
    Batcher → AppendRecord → Option ℕ → Option ℕ → Select → Select → Batcher × Option Err
add_with_permit b r ch permit first last =
    let recs = clone_append_records (r ∷ []) in
    let size = metered_payload_bytes r in
    if b.closed
    then (b, some session_closed)
    else if ltb b.opts.max_metered_bytes size
    then (b, some record_too_large)
    else (settle (insert (make_room b size first) recs size ch permit) last, none)

pub flush_for_backpressure : Batcher → Select → Batcher × Option Err
flush_for_backpressure b s = if b.closed then (b, some session_closed) else flush_locked b s

-- After the flush, `ctx` is `b.ctx.Err()` and `last` the select that sends the barrier.
send_barrier : Batcher × Option Err → ℕ → Option ContextError → Select → Batcher × Option Err
send_barrier (b, some e) barrier ctx last = (b, some e)
send_barrier (b, none) barrier (some x) last = (b, some (context_error x))
send_barrier (b, none) barrier none (some x) = (b, some (context_error x))
send_barrier (b, none) barrier none none = (
  record b {
    sent =
        b.sent
        ++ (record {
          records = [];
          match_seq_num = none;
          fencing_token = none;
          record_meta = [];
          barrier = some barrier;
        }
            ∷ []);
  },
  none,
)

pub flush_barrier : Batcher → ℕ → Select → Option ContextError → Select → Batcher × Option Err
flush_barrier b barrier first ctx last =
    if b.closed
    then (b, some session_closed)
    else send_barrier (flush_locked b first) barrier ctx last

pub flush_from_timer : Batcher → ℕ → Select → Batcher
flush_from_timer b seq s =
    if not b.timer || not (b.timer_seq == seq)
    then b
    else if b.closed
    then record b { timer = false }
    else (flush_locked (record b { timer = false }) s).0

pub close : Batcher → Select → Batcher × Option Err
close b s =
    if b.closed
    then (b, b.close_err)
    else (let c = (flush_locked (record b { closed = true }) s).0 in
        (record c { timer = false }, c.close_err))
