-- ===== src/Producer/Submission.antt =====
-- s2/producer.go: how records come in, and how a producer flushes and closes.
use s2_sdk_go.Prelude.{ℕ, ◌+◌, true, Option, none, some, if◌then◌else◌, ltb}
use s2_sdk_go.Context.{ContextError}
use s2_sdk_go.Errors.{Err, context_error, session_closed}
use s2_sdk_go.Records.{AppendRecord, metered_payload_bytes}
use s2_sdk_go.Capacity
use s2_sdk_go.AppendSession.State.{keep_cancel}
use s2_sdk_go.Batcher.{Batcher, Select, add_with_permit, flush_barrier, record_too_large}
use s2_sdk_go.Batcher
use s2_sdk_go.Producer.{
  Producer, put, release_bytes, keep_cause, record_terminal_error, is_session_closed,
}

unfoldable pub refused_with : Producer × Err → Producer × Option Err
refused_with (p, e) = (p, some e)

-- The guards before a reservation and behind it.
unfoldable pub refusal : Producer → Producer × Option Err
refusal p = elim p.terminal_err [
  | some e ↦ (p, some e)
  | none ↦ if p.closing then (p, some session_closed) else elim p.ctx [
    | none ↦ (p, none)
    | some x ↦ refused_with (record_terminal_error p (context_error x))
  ]
]

unfoldable pub within_batch : AppendRecord → Producer × Option Err → Producer × Option Err
within_batch r (p, some e) = (p, some e)
within_batch r (p, none) =
    if ltb p.batcher.opts.max_metered_bytes (metered_payload_bytes r)
    then (p, some record_too_large)
    else (p, none)

-- `Submit` up to the reservation.
unfoldable pub begin_submit : Producer → AppendRecord → Producer × Option Err
begin_submit p r = within_batch r (refusal p)

unfoldable pub map_cause : Producer → Option Err → Err → Producer × Err
map_cause p none e = (p, e)
map_cause p (some cause) e =
    if is_session_closed cause then (p, session_closed) else record_terminal_error p cause

unfoldable pub map_submit_error : Producer → Err → Producer × Err
map_submit_error p e = elim p.terminal_err [
  | some old ↦ (p, old)
  | none ↦ if p.closing then (p, session_closed) else map_cause p p.submit_cause e
]

-- `release` of one permit.
unfoldable pub release_permit : Producer → ℕ → Producer
release_permit p k = release_bytes p (p.permits k, put p.permits k 0)

unfoldable pub terminal_for : Option Err → Err → Err
terminal_for none e = e
terminal_for (some old) e = if is_session_closed e then old else e

-- The record is with the batcher, or its permit is released.
unfoldable pub after_add : Producer → ℕ → Batcher × Option Err → Producer × Option Err
after_add p k (b, none) = (record p { batcher = b }, none)
after_add p k (b, some e) =
    let q = release_permit (record p { batcher = b }) k in (q, some (terminal_for q.terminal_err e))

unfoldable pub unless_refused :
    Producer × Option Err → AppendRecord → ℕ → ℕ → Select → Select → Producer × Option Err
unless_refused (p, some e) r ch k first last = (release_permit p k, some e)
unless_refused (p, none) r ch k first last =
    after_add p k (add_with_permit p.batcher r (some ch) (some k) first last)

-- `Submit` behind the reservation, for which it makes a permit; `ch` is the new result channel.
unfoldable pub submit_reserved :
    Producer → AppendRecord → ℕ → Select → Select → Producer × Option Err
submit_reserved p r ch first last =
    let k = p.next_permit in
    unless_refused
      (refusal
        (record p { permits = put p.permits k (metered_payload_bytes r); next_permit = k + 1 }))
      r ch k first last

-- `Flush`: whether it goes on to order a barrier.
unfoldable pub begin_flush : Producer → Producer × Option Err
begin_flush p = refusal p

unfoldable pub ordered : Producer → Option Err → Producer × Option Err
ordered p none = (p, none)
ordered p (some e) =
    if is_session_closed e
    then (p, some (terminal_for p.terminal_err e))
    else refused_with (record_terminal_error p e)

unfoldable pub order_barrier :
    Producer → ℕ → Select → Option ContextError → Select → Producer × Option Err
order_barrier p barrier first ctx last =
    let (b, e) = flush_barrier p.batcher barrier first ctx last in
    ordered (record p { batcher = b }) e

unfoldable pub closed_batcher : Producer → Batcher × Option Err → Producer
closed_batcher p (b, none) = record p { batcher = b }
closed_batcher p (b, some e) = (record_terminal_error (record p { batcher = b }) e).0

-- `Close` up to its wait for the consumer, and behind it.
unfoldable pub begin_close : Producer → Select → Producer
begin_close p s =
    let q = record p {
      closing = true;
      submit_cause = keep_cause p.submit_cause session_closed;
      capacity = Capacity.close p.capacity;
    } in
    closed_batcher q (Batcher.close q.batcher s)

unfoldable pub end_ctx : Producer → Option ContextError → Producer
end_ctx p none = p
end_ctx p (some x) = (record_terminal_error p (context_error x)).0

unfoldable pub end_close : Producer → Producer × Option Err
end_close p = let q = end_ctx p p.ctx in (record q { ctx = keep_cancel q.ctx }, q.terminal_err)
