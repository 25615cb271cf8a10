-- ===== src/AppendSession/FailureWalk.antt =====
-- The handlers of failures are sequences of moves.
use s2_sdk_go.Prelude.{
  if◌then◌else◌, ℕ, ◌≡◌, refl, ◌+◌, ◌-◌, ◌^◌, Bool, true, false, not, ◌&&◌, none, some, List, [],
  ◌∷◌, ◌++◌, if_ind, ◌==◌, ltb, leb, arith,
}
use s2_sdk_go.Errors.{Err, as_s2_error}
use s2_sdk_go.Retry.{attempts_of, calculate_retry_backoff}
use s2_sdk_go.Reconnect.{record_at, is_server_draining}
use s2_sdk_go.AppendSession.State.{
  AppendSession, is_session, close_session_if_unused, has_unacked, wakeup_pump,
  has_non_idempotent_sent_pipelined,
}
use s2_sdk_go.AppendSession.Failures.{
  claim, on_claimed, definite, exhausted, is_no_side_effects_error,
  requires_no_side_effects_retries, can_retry_under_no_side_effects, mark_inflight_uncertainty,
  reset_inflight_attempt_starts, schedule_retry, on_draining, retry, decide,
  handle_claimed_session_error, handle_session_error, handle_reconnect_advice,
  handle_session_start_error,
}
use s2_sdk_go.AppendSession.Steps.{World, on, after_claim}
use s2_sdk_go.AppendSession.Moves.{
  fails, edits, claims, settles, leaves, tidies, counts, notes, Moves, move,
}
use s2_sdk_go.AppendSession.Walk.{
  is_session-eq, is_session-ne, mark_uncertain-Edited, reset_attempt_starts-Edited, wakeup-Moves,
}

module _ {C : Type 0} {v : World C} (int63n : ℕ → ℕ) where
  mark-Moves :
      (w : World C) (s : ℕ) (err : Err)
      → Moves v w
      → Moves v (on w (mark_inflight_uncertainty w.session s err))
  unfolding mark_inflight_uncertainty
  mark-Moves w s err m =
      if_ind (λ (r : AppendSession C). Moves v (on w r)) (is_no_side_effects_error err) (λ _. m)
        (λ _. move m (edits _ (mark_uncertain-Edited s w.session.inflight_queue)))

  reset-Moves : (w : World C) → Moves v w → Moves v (on w (reset_inflight_attempt_starts w.session))
  unfolding reset_inflight_attempt_starts
  reset-Moves w m = move m (edits _ (reset_attempt_starts-Edited w.session.inflight_queue))

  schedule_retry-Moves :
      (w : World C) (now : ℕ) → Moves v w → Moves v (on w (schedule_retry int63n w.session now))
  unfolding schedule_retry
  schedule_retry-Moves w now m =
      let r = w.session in
      let delay = calculate_retry_backoff int63n r.retry_config r.current_attempt in
      if_ind (λ (q : AppendSession C). Moves v (on w (wakeup_pump q)))
        (ltb 0 delay && ltb delay (2 ^ 63))
        (λ _. wakeup-Moves _ (
          move m (
            notes (if r.retry_at == 0 then now + delay else r.retry_at) r.advised_reconnects
              r.wakeup)))
        (λ _. wakeup-Moves w m)

  count-Moves :
      (w : World C)
      → leb (attempts_of w.session.retry_config - 1) w.session.current_attempt ≡ false
      → Moves v w
      → Moves v (on w (record (w.session) { current_attempt = w.session.current_attempt + 1 }))
  count-Moves w h m = move m (counts (ground arith))

  retry-Moves :
      (w : World C) (s : ℕ) (err : Err) (now : ℕ)
      → leb (attempts_of w.session.retry_config - 1) w.session.current_attempt ≡ false
      → Moves v w
      → Moves v (on w (retry int63n w.session s err now))
  unfolding retry
  retry-Moves w s err now h m =
      schedule_retry-Moves _ now (reset-Moves _ (mark-Moves _ s err (count-Moves w h m)))

  decide-Moves :
      (w : World C) (s : ℕ) (err : Err) (now : ℕ)
      → Moves v w
      → Moves v (on w (decide int63n w.session s err now))
  unfolding decide
  decide-Moves w s err now m =
      let r = w.session in
      let P : AppendSession C → Type 0 = (λ q. Moves v (on w q)) in
      if_ind P (requires_no_side_effects_retries r && not (can_retry_under_no_side_effects r s err))
        (λ _. move m (fails err))
        (λ _.
          if_ind P
            (requires_no_side_effects_retries r
              && has_non_idempotent_sent_pipelined r.inflight_queue)
            (λ _. move m (fails err))
            (λ _.
              if_ind P (definite (as_s2_error err)) (λ _. move m (fails err))
                (λ _.
                  if_ind P (leb (attempts_of r.retry_config - 1) r.current_attempt)
                    (λ _. move m (fails (exhausted err))) (λ h. retry-Moves w s err now h m))))

  settle-Moves :
      (w : World C) (before after : List (ℕ × Err)) (s : ℕ) (err : Err)
      → w.failures ≡ before ++ ((s, err) ∷ after)
      → Moves v w
      → Moves v (record w {
        session =
            wakeup_pump (record (w.session) { failures_pending = w.session.failures_pending - 1 });
        failures = before ++ after;
      })
  settle-Moves w before after s err h m = wakeup-Moves _ (move m (settles before after s err h))

  pub handle_claimed-Moves :
      (w : World C) (before after : List (ℕ × Err)) (s : ℕ) (err : Err) (now : ℕ)
      → w.failures ≡ before ++ ((s, err) ∷ after)
      → Moves v w
      → Moves v (record w {
        session = handle_claimed_session_error int63n w.session s err now;
        failures = before ++ after;
      })
  unfolding handle_claimed_session_error on_draining
  handle_claimed-Moves w before after s err now h m =
      let P : AppendSession C → Type 0 = (λ q. Moves v (record w {
        session = wakeup_pump (record q { failures_pending = q.failures_pending - 1 });
        failures = before ++ after;
      })) in
      if_ind P (is_server_draining err)
        (λ _. settle-Moves _ before after s err h (
          reset-Moves _ (
            move m (
              notes w.session.retry_at (record_at w.session.advised_reconnects now)
                w.session.wakeup))))
        (λ _.
          settle-Moves (on w (decide int63n w.session s err now)) before after s err h
            (decide-Moves w s err now m))

  pub claimed-Moves :
      (w : World C) (s : ℕ) (err : Err)
      → w.session.current_session ≡ some s
      → Moves v w
      → Moves v (record w {
        session =
            close_session_if_unused
              (record (w.session) {
                current_session = none;
                failures_pending = w.session.failures_pending + 1;
              })
              s;
        failures = (s, err) ∷ w.failures;
      })
  claimed-Moves w s err h m = move (move m (claims s err h)) (tidies s (λ e. cc))

  pub claim-Moves :
      (w : World C) (s : ℕ) (err : Err)
      → Moves v w
      → Moves v (after_claim w s err (claim w.session s))
  unfolding claim
  claim-Moves w s err m =
      let P : AppendSession C × Bool → Type 0 = (λ p. Moves v (after_claim w s err p)) in
      if_ind P w.session.closed (λ _. m)
        (λ _.
          if_ind P (is_session w.session.current_session s)
            (λ h. claimed-Moves w s err (is_session-eq w.session.current_session s h) m)
            (λ h. move m (tidies s (is_session-ne w.session.current_session s h))))

  on_claimed-Moves :
      (w : World C) (p : AppendSession C × Bool) (s : ℕ) (err : Err) (now : ℕ)
      → Moves v (after_claim w s err p)
      → Moves v (on w (on_claimed int63n p s err now))
  unfolding on_claimed
  on_claimed-Moves w (r, true) s err now m =
      handle_claimed-Moves (after_claim w s err (r, true)) [] w.failures s err now refl m
  on_claimed-Moves w (r, false) s err now m = m

  pub handle_session_error-Moves :
      (w : World C) (s : ℕ) (err : Err) (now : ℕ)
      → Moves v w
      → Moves v (on w (handle_session_error int63n w.session s err now))
  unfolding handle_session_error
  handle_session_error-Moves w s err now m =
      on_claimed-Moves w (claim w.session s) s err now (claim-Moves w s err m)

  leave-Moves :
      (w : World C) (s now : ℕ)
      → w.session.current_session ≡ some s
      → has_unacked s w.session.inflight_queue ≡ false
      → Moves v w
      → Moves v (
          on w (
            let r' = close_session_if_unused (record (w.session) { current_session = none }) s in
            wakeup_pump (record r' { advised_reconnects = record_at r'.advised_reconnects now })))
  leave-Moves w s now h u m =
      wakeup-Moves _
        (move (move (move m (leaves s h u)) (tidies s (λ e. cc))) (notes _ (record_at _ now) _))

  pub handle_reconnect_advice-Moves :
      (w : World C) (s now : ℕ)
      → Moves v w
      → Moves v (on w (handle_reconnect_advice int63n w.session s now))
  unfolding handle_reconnect_advice
  handle_reconnect_advice-Moves w s now m =
      let r = w.session in
      let P : AppendSession C → Type 0 = (λ q. Moves v (on w q)) in
      if_ind P r.closed (λ _. m)
        (λ _.
          if_ind P (has_unacked s r.inflight_queue) (λ _. handle_session_error-Moves w s _ now m)
            (λ u.
              if_ind P (not (is_session r.current_session s))
                (λ h. move m (tidies s (is_session-ne r.current_session s (ground (arith, h)))))
                (λ h.
                  leave-Moves w s now (is_session-eq r.current_session s (ground (arith, h))) u m)))

  pub handle_session_start_error-Moves :
      (w : World C) (err : Err) (now : ℕ)
      → Moves v w
      → Moves v (on w (handle_session_start_error int63n w.session err now))
  unfolding handle_session_start_error
  handle_session_start_error-Moves w err now m =
      if_ind (λ (q : AppendSession C). Moves v (on w q))
        (leb (attempts_of w.session.retry_config - 1) w.session.current_attempt)
        (λ _. move m (fails (exhausted err))) (λ h. schedule_retry-Moves _ now (count-Moves w h m))
