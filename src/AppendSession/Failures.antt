-- ===== src/AppendSession/Failures.antt =====
-- s2/append_session.go: what the failure of a transport session does. A failure is first claimed,
-- by which the session stops being the current one, and then resolved into a retry or an error.
use text.Mathlib.Text.{◌==◌ as str_eq}
use s2_sdk_go.Prelude.{
  ℕ, ◌+◌, ◌-◌, ◌^◌, Bool, true, false, not, ◌&&◌, ◌||◌, Option, none, some, List, [], ◌∷◌,
  if◌then◌else◌, ◌==◌, ltb, leb, pos_part, is_positive,
}
use s2_sdk_go.Errors.{
  Err, S2Error, s2_error, plain, wrapped, as_s2_error, is_retryable, s2_has_no_side_effects,
}
use s2_sdk_go.Retry.{attempts_of, append_retry_policy_no_side_effects, calculate_retry_backoff}
use s2_sdk_go.Reconnect.{record_at, is_server_draining}
use s2_sdk_go.Transport
use s2_sdk_go.AppendSession.State.{
  InflightEntry, AppendSession, is_session, close_session_if_unused, fail_all_inflight, wakeup_pump,
  reset_attempt_starts, mark_uncertain, has_unacked, has_non_idempotent_sent_pipelined,
}

abbrev pub s2_harmless : Option S2Error → Bool
s2_harmless none = false
s2_harmless (some e) = s2_has_no_side_effects e

unfoldable pub is_no_side_effects_error : Err → Bool
is_no_side_effects_error err = s2_harmless (as_s2_error err)

-- The error of a session whose attempts are used up. Both its parts are wrapped: `errors.As` and
-- `errors.Is` look into the last error first.
unfoldable pub exhausted : Err → Err
exhausted err = wrapped "max attempts exhausted" err

abbrev pub definite : Option S2Error → Bool
definite none = false
definite (some e) = not (is_retryable e)

-- The text names the elapsed time and the attempt.
unfoldable pub request_timed_out : Err
request_timed_out = s2_error (record {
  message = "append request timed out";
  code = "REQUEST_TIMEOUT";
  status = 408;
  origin = "sdk";
})

module _ {C : Type 0} where
  unfoldable pub requires_no_side_effects_retries : AppendSession C → Bool
  requires_no_side_effects_retries r =
      str_eq r.retry_config.append_retry_policy append_retry_policy_no_side_effects

  unfoldable pub can_retry_under_no_side_effects : AppendSession C → ℕ → Err → Bool
  can_retry_under_no_side_effects r s err =
      is_no_side_effects_error err || not (Transport.effect_signalled (r.transports s))

  unfoldable pub mark_inflight_uncertainty : AppendSession C → ℕ → Err → AppendSession C
  mark_inflight_uncertainty r s err =
      if is_no_side_effects_error err
      then r
      else record r { inflight_queue = mark_uncertain s r.inflight_queue }

  unfoldable pub reset_inflight_attempt_starts : AppendSession C → AppendSession C
  reset_inflight_attempt_starts r = record r {
    inflight_queue = reset_attempt_starts r.inflight_queue;
  }

  -- `delay > 0` of an int64.
  unfoldable pub schedule_retry : (ℕ → ℕ) → AppendSession C → ℕ → AppendSession C
  schedule_retry int63n r now =
      let delay = calculate_retry_backoff int63n r.retry_config r.current_attempt in
      wakeup_pump (
        if ltb 0 delay && ltb delay (2 ^ 63)
        then record r { retry_at = if r.retry_at == 0 then now + delay else r.retry_at }
        else r)

  -- The claim of `handleSessionError`, and whether it was won.
  unfoldable pub claim : AppendSession C → ℕ → AppendSession C × Bool
  claim r s =
      if r.closed
      then (r, false)
      else if is_session r.current_session s
      then (
        close_session_if_unused
            (record r { current_session = none; failures_pending = r.failures_pending + 1 }) s,
        true,
      )
      else (close_session_if_unused r s, false)

  unfoldable pub on_draining : AppendSession C → ℕ → AppendSession C
  on_draining r now =
      reset_inflight_attempt_starts
        (record r { advised_reconnects = record_at r.advised_reconnects now })

  unfoldable pub retry : (ℕ → ℕ) → AppendSession C → ℕ → Err → ℕ → AppendSession C
  retry int63n r s err now =
      schedule_retry int63n
        (reset_inflight_attempt_starts
          (mark_inflight_uncertainty (record r { current_attempt = r.current_attempt + 1 }) s err))
        now

  -- The policy and the budget: an error fails everything, or the appends are retried.
  unfoldable pub decide : (ℕ → ℕ) → AppendSession C → ℕ → Err → ℕ → AppendSession C
  decide int63n r s err now =
      if requires_no_side_effects_retries r && not (can_retry_under_no_side_effects r s err)
      then fail_all_inflight r err
      else if requires_no_side_effects_retries r
          && has_non_idempotent_sent_pipelined r.inflight_queue
      then fail_all_inflight r err
      else if definite (as_s2_error err)
      then fail_all_inflight r err
      else if leb (attempts_of r.retry_config - 1) r.current_attempt
      then fail_all_inflight r (exhausted err)
      else retry int63n r s err now

  unfoldable pub handle_claimed_session_error :
      (ℕ → ℕ) → AppendSession C → ℕ → Err → ℕ → AppendSession C
  handle_claimed_session_error int63n r s err now =
      let r' = if is_server_draining err then on_draining r now else decide int63n r s err now in
      wakeup_pump (record r' { failures_pending = r'.failures_pending - 1 })

  unfoldable pub on_claimed : (ℕ → ℕ) → AppendSession C × Bool → ℕ → Err → ℕ → AppendSession C
  on_claimed int63n (r, true) s err now = handle_claimed_session_error int63n r s err now
  on_claimed int63n (r, false) s err now = r

  -- Both halves, with nothing in between.
  unfoldable pub handle_session_error : (ℕ → ℕ) → AppendSession C → ℕ → Err → ℕ → AppendSession C
  handle_session_error int63n r s err now = on_claimed int63n (claim r s) s err now

  -- The clean end of a session whose reader took the server's advice.
  unfoldable pub handle_reconnect_advice : (ℕ → ℕ) → AppendSession C → ℕ → ℕ → AppendSession C
  handle_reconnect_advice int63n r s now =
      if r.closed
      then r
      else if has_unacked s r.inflight_queue
      then handle_session_error int63n r s
          (plain "append session ended before acknowledging all appends") now
      else if not (is_session r.current_session s)
      then close_session_if_unused r s
      else (let r' = close_session_if_unused (record r { current_session = none }) s in
          wakeup_pump (record r' { advised_reconnects = record_at r'.advised_reconnects now }))

  unfoldable pub handle_session_start_error : (ℕ → ℕ) → AppendSession C → Err → ℕ → AppendSession C
  handle_session_start_error int63n r err now =
      if leb (attempts_of r.retry_config - 1) r.current_attempt
      then fail_all_inflight r (exhausted err)
      else schedule_retry int63n (record r { current_attempt = r.current_attempt + 1 }) now

  -- The head's deadline has passed, by its start and a timeout that is set.
  unfoldable pub overdue : InflightEntry C → ℕ → Bool
  overdue e now =
      is_positive e.request_timeout
      && (not (e.attempt_start == 0) && leb (e.attempt_start + pos_part e.request_timeout) now)

  unfoldable pub head_overdue : List (InflightEntry C) → ℕ → Bool
  head_overdue [] now = false
  head_overdue (e ∷ es) now = overdue e now

  unfoldable pub claim_current : AppendSession C → Option ℕ → AppendSession C × Option ℕ
  claim_current r none = (r, none)
  claim_current r (some s) = (
    close_session_if_unused
        (record r { current_session = none; failures_pending = r.failures_pending + 1 }) s,
    some s,
  )

  -- The claim of `checkTimeouts`: the session that timed out, if there is one.
  unfoldable pub claim_overdue : AppendSession C → ℕ → AppendSession C × Option ℕ
  claim_overdue r now =
      if r.closed || not (head_overdue r.inflight_queue now)
      then (r, none)
      else claim_current r r.current_session

  unfoldable pub on_overdue : (ℕ → ℕ) → AppendSession C × Option ℕ → ℕ → AppendSession C
  on_overdue int63n (r, none) now = r
  on_overdue int63n (r, some s) now = handle_claimed_session_error int63n r s request_timed_out now

  unfoldable pub check_timeouts : (ℕ → ℕ) → AppendSession C → ℕ → AppendSession C
  check_timeouts int63n r now = elim r.pump_ctx [
    | some e ↦ r
    | none ↦ on_overdue int63n (claim_overdue r now) now
  ]
