-- ===== src/AppendSession/Moves.antt =====
-- The handlers of an append session taken apart into moves: each changes one part of the state.
use s2_sdk_go.Prelude.{
  length, ℕ, ◌≡◌, ◌≢◌, ◌+◌, ◌-◌, ◌<◌, Bool, true, false, none, some, List, [], ◌∷◌, ◌++◌, ℤ,
  is_empty,
}
use s2_sdk_go.Context.{ContextError}
use s2_sdk_go.Errors.{Err}
use s2_sdk_go.Records.{AppendInput}
use s2_sdk_go.Retry.{attempts_of}
use s2_sdk_go.Capacity.{attempt, reserved}
use s2_sdk_go.Capacity
use s2_sdk_go.Reconnect.{AdvisedReconnects}
use s2_sdk_go.Transport.{Transport, AppendAck}
use s2_sdk_go.AppendSession.State.{
  InflightEntry, AppendSession, update, refs_of, set_refs, was_sent_on_session,
  close_session_if_unused, fail_all_inflight, has_unacked,
}
use s2_sdk_go.AppendSession.Acks.{validate_ack, pop_acked}
use s2_sdk_go.AppendSession.Pump.{mark_sent}
use s2_sdk_go.AppendSession.Submission.{new_entry, begin_close, cancel_pump, finish_close}
use s2_sdk_go.AppendSession.Steps.{World, on}

-- No closed transport is open again.
abbrev pub StayClosed : (ℕ → Transport) → (ℕ → Transport) → Type 0
StayClosed f g = (i : ℕ) → (f i).closed ≡ true → (g i).closed ≡ true

module _ {C : Type 0} where
  -- Entries that differ at most in when their attempt started and in the mark of uncertainty.
  pub data Edited : List (InflightEntry C) → List (InflightEntry C) → Type 0 where
    none_left : Edited [] []
    edit :
        (e : InflightEntry C) (start : ℕ) (prior : Bool) {es fs : List (InflightEntry C)}
        → (e.prior_uncertainty ≡ true → prior ≡ true)
        → Edited es fs
        → Edited (e ∷ es) (record e { attempt_start = start; prior_uncertainty = prior } ∷ fs)

  -- What a move that leaves the queue alone may set.
  abbrev pub notes_of : AppendSession C → ℕ → AdvisedReconnects → Bool → AppendSession C
  notes_of r retry_at advised wakeup = record r {
    retry_at = retry_at;
    advised_reconnects = advised;
    wakeup = wakeup;
  }

  pub data Move (w : World C) : World C → Type 0 where
    fails : (err : Err) → Move w (on w (fail_all_inflight w.session err))
    pops :
        (e : InflightEntry C) (rest : List (InflightEntry C)) (s : ℕ) (ack : AppendAck)
        → w.session.inflight_queue ≡ e ∷ rest
        → was_sent_on_session e s ≡ true
        → validate_ack w.session e (some ack) ≡ none
        → Move w (on w (pop_acked w.session e rest s ack))
    joins :
        (before after : List ℕ) (input : AppendInput C) (size : ℕ) (timeout : ℤ) (ch : ℕ)
        → w.session.closing ≡ false
        → w.held ≡ before ++ (size ∷ after)
        → Move w (record {
          session = record (w.session) {
            inflight_queue = w.session.inflight_queue ++ (new_entry input size timeout ch ∷ []);
            wakeup = true;
          };
          held = before ++ after;
          enqueued = w.enqueued ++ ((ch, length input.records) ∷ []);
          failures = w.failures;
        })
    gives_back :
        (before after : List ℕ) (size : ℕ)
        → w.held ≡ before ++ (size ∷ after)
        → Move w (record w {
          session = record (w.session) { capacity = Capacity.release w.session.capacity size };
          held = before ++ after;
        })
    reserves :
        (size : ℕ)
        → (attempt w.session.capacity w.session.pump_ctx size).1 ≡ reserved
        → Move w (record w {
          session = record (w.session) {
            capacity = (attempt w.session.capacity w.session.pump_ctx size).0;
          };
          held = size ∷ w.held;
        })
    edits :
        (queue : List (InflightEntry C))
        → Edited w.session.inflight_queue queue
        → Move w (on w (record (w.session) { inflight_queue = queue }))
    sends :
        (before after : List (InflightEntry C)) (e : InflightEntry C) (s now : ℕ)
        (ts : ℕ → Transport)
        → w.session.inflight_queue ≡ before ++ (e ∷ after)
        → w.session.current_session ≡ some s
        → was_sent_on_session e s ≡ false
        → StayClosed w.session.transports ts
        → Move w (
            on w (record (w.session) {
              inflight_queue = before ++ (mark_sent e s now ∷ after);
              session_refs =
                  set_refs w.session.session_refs s (refs_of w.session.session_refs s + 1);
              transports = ts;
            }))
    opens :
        (t : Transport)
        → w.session.current_session ≡ none
        → w.session.failures_pending ≡ 0
        → Move w (
            on w (record (w.session) {
              current_session = some w.session.next_session;
              transports = update w.session.transports w.session.next_session t;
              next_session = w.session.next_session + 1;
            }))
    claims :
        (s : ℕ) (err : Err)
        → w.session.current_session ≡ some s
        → Move w (record w {
          session = record (w.session) {
            current_session = none;
            failures_pending = w.session.failures_pending + 1;
          };
          failures = (s, err) ∷ w.failures;
        })
    settles :
        (before after : List (ℕ × Err)) (s : ℕ) (err : Err)
        → w.failures ≡ before ++ ((s, err) ∷ after)
        → Move w (record w {
          session = record (w.session) { failures_pending = w.session.failures_pending - 1 };
          failures = before ++ after;
        })
    leaves :
        (s : ℕ)
        → w.session.current_session ≡ some s
        → has_unacked s w.session.inflight_queue ≡ false
        → Move w (on w (record (w.session) { current_session = none }))
    tidies :
        (s : ℕ)
        → w.session.current_session ≢ some s
        → Move w (on w (close_session_if_unused w.session s))
    counts :
        w.session.current_attempt < attempts_of w.session.retry_config - 1
        → Move w (on w (record (w.session) { current_attempt = w.session.current_attempt + 1 }))
    notes :
        (retry_at : ℕ) (advised : AdvisedReconnects) (wakeup : Bool)
        → Move w (on w (notes_of w.session retry_at advised wakeup))
    changes :
        (ts : ℕ → Transport)
        → StayClosed w.session.transports ts
        → Move w (on w (record (w.session) { transports = ts }))
    stops :
        w.session.closing ≡ true
        → is_empty w.session.inflight_queue ≡ true
        → Move w (on w (record (w.session) { close_done = true }))
    expires : (e : ContextError) → Move w (on w (record (w.session) { pump_ctx = some e }))
    closes : Move w (on w (begin_close w.session))
    cancels : w.session.close_done ≡ true → Move w (on w (cancel_pump w.session))
    finishes : w.session.close_done ≡ true → Move w (on w (finish_close w.session))

  pub data Moves (v : World C) : World C → Type 0 where
    still : Moves v v
    move : {u w : World C} → Moves v u → Move u w → Moves v w
