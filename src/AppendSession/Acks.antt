-- ===== src/AppendSession/Acks.antt =====
-- s2/append_session.go: what an acknowledgement does.
use s2_sdk_go.Prelude.{
  ℕ, ◌-◌, Bool, true, false, not, ◌&&◌, Option, none, some, List, [], ◌∷◌, ◌++◌, if◌then◌else◌,
  ◌==◌, ltb, leb,
}
use s2_sdk_go.Errors.{Err, plain}
use s2_sdk_go.Capacity
use s2_sdk_go.Reconnect.{should_reconnect}
use s2_sdk_go.Transport.{Transport, AppendAck}
use s2_sdk_go.Transport
use s2_sdk_go.AppendSession.State.{
  InflightEntry, acked, AppendSession, update, was_sent_on_session, release_entry_sessions,
  close_stale_sessions, fail_all_inflight, wakeup_pump,
}

abbrev pub end_of : AppendAck → ℕ
end_of a = a.end.seq_num

-- Whether an ack ends at or before the last one's end.
unfoldable pub ends_by : AppendAck → Option AppendAck → Bool
ends_by ack none = false
ends_by ack (some last) = leb (end_of ack) (end_of last)

unfoldable pub is_stale : Option AppendAck → Option AppendAck → Bool
is_stale none last = false
is_stale (some ack) last = ends_by ack last

-- What the reader of a session keeps while it reads: whether it has met the server's advice, and
-- whether it took it.
pub record Reader : Type 0 where
  pub advice_handled : Bool
  pub reconnect_accepted : Bool

module _ {C : Type 0} where
  -- The check of `validateAckLocked` that fails, if any. The texts name the numbers too.
  unfoldable pub validate_ack : AppendSession C → InflightEntry C → Option AppendAck → Option Err
  validate_ack r e none = some (plain "append ack invariant violated: received nil ack")
  validate_ack r e (some ack) =
      if ltb (end_of ack) ack.start.seq_num
      then some (plain "append ack invariant violated: end seq is less than start seq")
      else if not (end_of ack - ack.start.seq_num == e.expected_count)
      then some (plain "append ack invariant violated: unexpected number of records")
      else if ends_by ack r.last_acked_position
      then some (plain "append ack invariant violated: end seq is not greater than previous end")
      else none

  -- The head leaves the queue, and its channel gets the ack.
  unfoldable pub pop_acked :
      AppendSession C → InflightEntry C → List (InflightEntry C) → ℕ → AppendAck → AppendSession C
  pop_acked r e rest s ack =
      let (refs, unused) = release_entry_sessions e.sent_on_sessions r.session_refs in
      let marked = update r.transports s (Transport.mark_ack_received (r.transports s)) in
      record r {
        inflight_queue = rest;
        session_refs = refs;
        last_acked_position = some ack;
        current_attempt = 0;
        capacity = Capacity.release r.capacity e.metered_bytes;
        results = r.results ++ ((e.result_ch, acked ack) ∷ []);
        transports = close_stale_sessions unused r.current_session marked;
        wakeup = true;
      }

  unfoldable pub complete :
      AppendSession C
      → InflightEntry C
      → List (InflightEntry C)
      → ℕ
      → Option AppendAck
      → AppendSession C
  complete r e rest s none = r
  complete r e rest s (some ack) = if e.completed then r else pop_acked r e rest s ack

  unfoldable pub on_validated :
      AppendSession C
      → InflightEntry C
      → List (InflightEntry C)
      → ℕ
      → Option AppendAck
      → Option Err
      → AppendSession C
  on_validated r e rest s ack (some err) = fail_all_inflight r err
  on_validated r e rest s ack none = complete r e rest s ack

  unfoldable pub handle_head :
      AppendSession C → List (InflightEntry C) → ℕ → Option AppendAck → AppendSession C
  handle_head r [] s ack = r
  handle_head r (e ∷ rest) s ack =
      if not (was_sent_on_session e s)
      then r
      else if is_stale ack r.last_acked_position
      then r
      else on_validated r e rest s ack (validate_ack r e ack)

  -- An ack is nil only if the channel says so.
  unfoldable pub handle_ack : AppendSession C → ℕ → Option AppendAck → AppendSession C
  handle_ack r s ack = handle_head r r.inflight_queue s ack

  unfoldable pub set_transport : AppendSession C → ℕ → Transport → AppendSession C
  set_transport r s t = record r { transports = update r.transports s t }

  -- `processAck` of `readAcks`.
  unfoldable pub on_advice : AppendSession C → Reader → ℕ → ℕ → AppendSession C × Reader
  on_advice r rd s now =
      if (r.transports s).reconnect_advised && not rd.advice_handled
      then if should_reconnect r.advised_reconnects now
        then (
          set_transport r s (Transport.half_close (r.transports s)),
          record rd { advice_handled = true; reconnect_accepted = true },
        )
        else (
          wakeup_pump (set_transport r s (Transport.decline_reconnect (r.transports s))),
          record rd { advice_handled = true },
        )
      else (r, rd)

  unfoldable pub process_ack :
      AppendSession C → Reader → ℕ → Option AppendAck → ℕ → AppendSession C × Reader
  process_ack r rd s ack now = on_advice (handle_ack r s ack) rd s now
