-- ===== src/AppendSession/Pump.antt =====
-- s2/append_session.go: the pump, which opens transport sessions and submits what is in flight. The
-- loop over the queue runs as one step, with the outcome of each write given by `writes` under the
-- entry's result channel; `create` is what opening a transport session gives.
use s2_sdk_go.Prelude.{
  ℕ, ◌+◌, Bool, true, false, not, ◌&&◌, ◌||◌, Option, none, some, List, [], ◌∷◌, ◌++◌,
  if◌then◌else◌, ◌==◌, ltb, ◌⊎◌, inl, inr, is_positive, pos_part, is_empty,
}
use s2_sdk_go.Context.{ContextError}
use s2_sdk_go.Errors.{Err, S2Error, session_closed, as_s2_error, is_retryable}
use s2_sdk_go.Framing.Types.{Codec, CompressionType}
use s2_sdk_go.Records.{AppendInput}
use s2_sdk_go.Transport.{Transport, WriteFailure, append_input, hold_inputs_for_reconnect}
use s2_sdk_go.AppendSession.State.{
  InflightEntry, AppendSession, update, refs_of, set_refs, was_sent_on_session, fail_all_inflight,
}
use s2_sdk_go.AppendSession.Failures.{handle_session_error, handle_session_start_error}

abbrev pub s2_retryable : Option S2Error → Bool
s2_retryable none = false
s2_retryable (some e) = is_retryable e

-- `pumpCtx.Err() != nil`, and that `pumpCtx.Done()` is closed.
abbrev pub is_done : Option ContextError → Bool
is_done none = false
is_done (some e) = true

-- What the loop over the queue leaves: the entries, the counts, the transport, and the error that
-- stopped it.
pub record Submitted (C : Type 0) : Type 0 where
  pub queue : List (InflightEntry C)
  pub refs : List (ℕ × ℕ)
  pub transport : Transport
  pub err : Option Err

unfoldable pub earlier : ℕ → ℕ → ℕ
earlier deadline at = if (deadline == 0) || ltb at deadline then at else deadline

module _ {C : Type 0} where
  unfoldable pub head_deadline : List (InflightEntry C) → ℕ → ℕ
  head_deadline [] deadline = deadline
  head_deadline (e ∷ es) deadline =
      if is_positive e.request_timeout && not (e.attempt_start == 0)
      then earlier deadline (e.attempt_start + pos_part e.request_timeout)
      else deadline

  unfoldable pub next_pump_deadline : AppendSession C → ℕ
  next_pump_deadline r = head_deadline r.inflight_queue r.retry_at

  -- `getSession`.
  unfoldable pub open_session : AppendSession C → Err ⊎ Transport → AppendSession C × Option Err
  open_session r (inl err) = (r, some err)
  open_session r (inr t) = (
    record r {
      current_session = some r.next_session;
      transports = update r.transports r.next_session t;
      next_session = r.next_session + 1;
    },
    none,
  )

  unfoldable pub session_or :
      AppendSession C → Option ℕ → Err ⊎ Transport → AppendSession C × Option Err
  session_or r (some s) create = (r, none)
  session_or r none create =
      if ltb 0 r.failures_pending || is_done r.pump_ctx then (r, none) else open_session r create

  unfoldable pub get_session : AppendSession C → Err ⊎ Transport → AppendSession C × Option Err
  get_session r create = session_or r r.current_session create

  -- An entry on its way: it is counted before it is written.
  unfoldable pub mark_sent : InflightEntry C → ℕ → ℕ → InflightEntry C
  mark_sent e s now = record e {
    sent_on_sessions = e.sent_on_sessions ++ (s ∷ []);
    attempt_start = if e.attempt_start == 0 then now else e.attempt_start;
  }

  unfoldable pub keep_entry : InflightEntry C → Submitted C → Submitted C
  keep_entry e d = record d { queue = e ∷ d.queue }

  -- After a write: an error ends the loop.
  unfoldable pub after_write :
      (Transport → Submitted C)
      → List (InflightEntry C)
      → List (ℕ × ℕ)
      → Transport × Option Err
      → Submitted C
  after_write rest es refs (t, none) = rest t
  after_write rest es refs (t, some err) = record {
    queue = es;
    refs = refs;
    transport = t;
    err = some err;
  }

module _ {C : Type 0} (codec : Codec) (marshal : AppendInput C → Option (List ℕ))
    (compression : CompressionType) (writes : ℕ → Option WriteFailure) where
  unfoldable pub submit_loop :
      ℕ → ℕ → List (InflightEntry C) → List (ℕ × ℕ) → Transport → Submitted C
  submit_loop s now [] refs t = record { queue = []; refs = refs; transport = t; err = none }
  submit_loop s now (e ∷ es) refs t =
      let rest = submit_loop s now es in
      let refs' = set_refs refs s (refs_of refs s + 1) in
      if e.completed || was_sent_on_session e s
      then keep_entry e (rest refs t)
      else keep_entry (mark_sent e s now) (
          after_write (rest refs') es refs'
            (append_input codec marshal compression t e.input (writes e.result_ch)))

module _ {C : Type 0} (codec : Codec) (marshal : AppendInput C → Option (List ℕ))
    (compression : CompressionType) (writes : ℕ → Option WriteFailure) (int63n : ℕ → ℕ) where
  unfoldable pub after_submit : AppendSession C → ℕ → Submitted C → ℕ → AppendSession C
  after_submit r s d now =
      let r' = record r {
        inflight_queue = d.queue;
        session_refs = d.refs;
        transports = update r.transports s d.transport;
      } in
      elim d.err [ none ↦ r' | some err ↦ handle_session_error int63n r' s err now ]

  unfoldable pub submit_on_session : AppendSession C → Option ℕ → ℕ → AppendSession C
  submit_on_session r none now = r
  submit_on_session r (some s) now =
      if hold_inputs_for_reconnect (r.transports s)
      then r
      else after_submit r s
          (submit_loop codec marshal compression writes s now r.inflight_queue r.session_refs
            (r.transports s))
          now

  unfoldable pub submit_inflight_batches : AppendSession C → ℕ → AppendSession C
  submit_inflight_batches r now = submit_on_session r r.current_session now

  unfoldable pub after_get : AppendSession C × Option Err → ℕ → AppendSession C
  after_get (r, none) now = submit_inflight_batches r now
  after_get (r, some err) now =
      if s2_retryable (as_s2_error err)
      then handle_session_start_error int63n r err now
      else fail_all_inflight r err

  -- Behind the wait for the time of a retry.
  unfoldable pub process_ready : AppendSession C → Err ⊎ Transport → ℕ → AppendSession C
  process_ready r create now =
      if is_empty r.inflight_queue then r else after_get (get_session r create) now

  unfoldable pub process_inflight_queue : AppendSession C → Err ⊎ Transport → ℕ → AppendSession C
  process_inflight_queue r create now =
      if is_done r.pump_ctx
      then r
      else if not (r.retry_at == 0) && ltb now r.retry_at
      then r
      else process_ready (record r { retry_at = 0 }) create now

module _ {C : Type 0} where
  -- `shouldStopPump`, which also signals that the queue is drained.
  unfoldable pub should_stop_pump : AppendSession C → AppendSession C × Bool
  should_stop_pump r =
      if r.closing && is_empty r.inflight_queue
      then (record r { close_done = true }, true)
      else (r, false)

  -- The pump's context is done.
  unfoldable pub pump_done : AppendSession C → AppendSession C
  pump_done r = fail_all_inflight r session_closed
