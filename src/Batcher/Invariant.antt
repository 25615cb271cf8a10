-- ===== src/Batcher/Invariant.antt =====
-- Every operation keeps the batcher valid: its counts exact, what it holds below the limits, what
-- it sent within them.
use s2_sdk_go.Prelude.{
  not, ◌||◌, ℕ, refl, Bool, true, false, Option, none, some, ◌==◌, arith, if_ind,
}
use s2_sdk_go.Context.{ContextError}
use s2_sdk_go.Errors.{Err}
use s2_sdk_go.Records.{AppendRecord, metered_batch_bytes}
use s2_sdk_go.Batching.{BatchingOptions}
use s2_sdk_go.Batcher.{
  Batcher, Select, new_batcher, flush_locked, flush_for_backpressure, send_barrier, flush_barrier,
  flush_from_timer, close,
}
use s2_sdk_go.Batcher.Steps.{
  World, after_add, Step, adds, flushes, makes_way, bars, expires, closes, Reach, here, next, fresh,
}
use s2_sdk_go.Batcher.Valid.{
  AllSendable-append, apply_batching_defaults-HasLimits, IsLoaded, IsValid, emptied,
  flush_locked-IsValid,
}
use s2_sdk_go.Batcher.Add.{add_with_permit-IsValid}

flush_for_backpressure-IsValid :
    (b : Batcher) (s : Select) → IsValid b → IsValid (flush_for_backpressure b s).0
unfolding flush_for_backpressure
flush_for_backpressure-IsValid b s v =
    if_ind (λ (p : Batcher × Option Err). IsValid p.0) b.closed (λ _. v)
      (λ _. flush_locked-IsValid b s v.loaded)

send_barrier-IsValid :
    (p : Batcher × Option Err) (barrier : ℕ) (ctx : Option ContextError) (last : Select)
    → IsValid p.0
    → IsValid (send_barrier p barrier ctx last).0
unfolding send_barrier metered_batch_bytes
send_barrier-IsValid (b, some e) barrier ctx last v = v
send_barrier-IsValid (b, none) barrier (some x) last v = v
send_barrier-IsValid (b, none) barrier none (some x) v = v
send_barrier-IsValid (b, none) barrier none none v =
    let l = v.loaded in
    record {
      loaded = record {
        limits = l.limits;
        exact = l.exact;
        few_records = l.few_records;
        few_bytes = l.few_bytes;
        placed = l.placed;
        sendable = AllSendable-append b.opts b.sent _ l.sendable (record {
          some_record = omega arith;
          few_records = omega arith;
          few_bytes = omega arith;
          placed = omega arith;
        });
      };
      records_below = v.records_below;
      bytes_below = v.bytes_below;
      closed_empty = v.closed_empty;
    }

flush_barrier-IsValid :
    (b : Batcher) (barrier : ℕ) (first : Select) (ctx : Option ContextError) (last : Select)
    → IsValid b
    → IsValid (flush_barrier b barrier first ctx last).0
unfolding flush_barrier
flush_barrier-IsValid b barrier first ctx last v =
    if_ind (λ (p : Batcher × Option Err). IsValid p.0) b.closed (λ _. v)
      (λ _.
        send_barrier-IsValid (flush_locked b first) barrier ctx last
          (flush_locked-IsValid b first v.loaded))

-- Neither the timer nor the closing flag is part of what a loaded batcher holds.
mark :
    (b : Batcher) (timer closed : Bool)
    → IsLoaded b
    → IsLoaded (record b { timer = timer; closed = closed })
mark b timer closed l = record {
  limits = l.limits;
  exact = l.exact;
  few_records = l.few_records;
  few_bytes = l.few_bytes;
  placed = l.placed;
  sendable = l.sendable;
}

remark : (b : Batcher) (timer : Bool) → IsValid b → IsValid (record b { timer = timer })
remark b timer v = record {
  loaded = mark b timer b.closed v.loaded;
  records_below = v.records_below;
  bytes_below = v.bytes_below;
  closed_empty = v.closed_empty;
}

flush_from_timer-IsValid :
    (b : Batcher) (seq : ℕ) (s : Select) → IsValid b → IsValid (flush_from_timer b seq s)
unfolding flush_from_timer
flush_from_timer-IsValid b seq s v =
    if_ind IsValid (not b.timer || not (b.timer_seq == seq)) (λ _. v)
      (λ _.
        if_ind IsValid b.closed (λ _. remark b false v)
          (λ _.
            flush_locked-IsValid (record b { timer = false }) s (mark b false b.closed v.loaded)))

close-IsValid : (b : Batcher) (s : Select) → IsValid b → IsValid (close b s).0
unfolding close
close-IsValid b s v =
    if_ind (λ (p : Batcher × Option Err). IsValid p.0) b.closed (λ _. v)
      (λ _.
        remark (flush_locked (record b { closed = true }) s).0 false
          (flush_locked-IsValid (record b { closed = true }) s (mark b b.timer true v.loaded)))

new_batcher-IsValid : (o : Option BatchingOptions) → IsValid (new_batcher o)
unfolding new_batcher metered_batch_bytes
new_batcher-IsValid o =
    emptied (new_batcher o)
      (record {
        limits = apply_batching_defaults-HasLimits o;
        exact = refl;
        few_records = omega arith;
        few_bytes = omega arith;
        placed = omega arith;
        sendable = tt;
      })
      refl

after_add-IsValid :
    (w : World) (r : AppendRecord) (ch : Option ℕ) (p : Batcher × Option Err)
    → IsValid p.0
    → IsValid (after_add w r ch p).batcher
after_add-IsValid w r ch (b, none) v = v
after_add-IsValid w r ch (b, some e) v = v

pub Step-IsValid : {v w : World} → Step v w → IsValid v.batcher → IsValid w.batcher
Step-IsValid {v} (adds r ch permit first last) i =
    after_add-IsValid v r ch _ (add_with_permit-IsValid v.batcher r ch permit first last i)
Step-IsValid {v} (flushes s) i = flush_locked-IsValid v.batcher s i.loaded
Step-IsValid {v} (makes_way s) i = flush_for_backpressure-IsValid v.batcher s i
Step-IsValid {v} (bars barrier first ctx last) i =
    flush_barrier-IsValid v.batcher barrier first ctx last i
Step-IsValid {v} (expires seq s) i = flush_from_timer-IsValid v.batcher seq s i
Step-IsValid {v} (closes s) i = close-IsValid v.batcher s i

Reach-IsValid : {v w : World} → Reach v w → IsValid v.batcher → IsValid w.batcher
Reach-IsValid here i = i
Reach-IsValid (next r s) i = Step-IsValid s (Reach-IsValid r i)

-- After any calls on a new batcher with any options, its byte count is the metered size of its
-- buffer, the buffer is below both limits and empty once it is closed, the places of the waiting
-- records ascend within the buffer, and whatever was sent is a barrier or holds a record at least
-- and is within both limits, which are within the protocol's.
pub Reach-fresh-IsValid :
    (o : Option BatchingOptions) {w : World} → Reach (fresh o) w → IsValid w.batcher
Reach-fresh-IsValid o r = Reach-IsValid r (new_batcher-IsValid o)
