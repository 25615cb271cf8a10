-- ===== src/AppendSession/StepWalk.antt =====
-- The pump, and with it every step, is a sequence of moves.
use s2_sdk_go.Prelude.{
  length, ◌⊎◌, ℤ, is_empty, ℕ, ◌≡◌, refl, Bool, not, ◌&&◌, ◌||◌, Option, none, some, List, ◌∷◌,
  ◌++◌, if_ind, ◌==◌, ltb, arith, inl, inr,
}
use s2_sdk_go.Errors.{Err, session_closed, as_s2_error}
use s2_sdk_go.Transport.{Transport, WriteFailure}
use s2_sdk_go.AppendSession.State.{AppendSession, wakeup_pump}
use s2_sdk_go.AppendSession.Steps.{
  World, on, Client, after_enqueue, Step, reserves, enqueues, acks, breaks, runs_late, resolves,
  ends, pumps, checks, stops, expires, gives_up, closes, cancels, finishes, Reach, here, next,
}
use s2_sdk_go.AppendSession.Moves.{fails, notes, changes, Moves, still, move, Move}
use s2_sdk_go.Records.{AppendInput}
use s2_sdk_go.AppendSession.Pump.{
  s2_retryable, open_session, get_session, session_or, is_done, after_get, process_ready,
  process_inflight_queue, should_stop_pump, pump_done,
}
use s2_sdk_go.AppendSession.Submission.{enqueue_reserved_entry}
use s2_sdk_go.AppendSession.Walk.{update-StayClosed, process_ack-Moves}
use s2_sdk_go.AppendSession.FailureWalk.{
  handle_claimed-Moves, claim-Moves, handle_reconnect_advice-Moves,
  handle_session_start_error-Moves,
}
use s2_sdk_go.AppendSession.TimeoutWalk.{claim_overdue-Moves, check_timeouts-Moves}
use s2_sdk_go.AppendSession.PumpWalk.{submit_inflight_batches-Moves}

module _ {C : Type 0} {v : World C} where
  open_session-Moves :
      (w : World C) (create : Err ⊎ Transport)
      → w.session.current_session ≡ none
      → w.session.failures_pending ≡ 0
      → Moves v w
      → Moves v (on w (open_session w.session create).0)
  unfolding open_session
  open_session-Moves w (inl err) c f m = m
  open_session-Moves w (inr t) c f m = move m (Move.opens t c f)

  get_session-Moves :
      (w : World C) (o : Option ℕ) (create : Err ⊎ Transport)
      → w.session.current_session ≡ o
      → Moves v w
      → Moves v (on w (session_or w.session o create).0)
  unfolding session_or
  get_session-Moves w (some s) create h m = m
  get_session-Moves w none create h m =
      if_ind (λ (p : AppendSession C × Option Err). Moves v (on w p.0))
        (ltb 0 w.session.failures_pending || is_done w.session.pump_ctx) (λ _. m)
        (λ n. open_session-Moves w create h (ground (arith, n)) m)

  enqueue-Moves :
      (w : World C) (before after : List ℕ) (input : AppendInput C) (size : ℕ) (timeout : ℤ)
      (ch : ℕ)
      → w.held ≡ before ++ (size ∷ after)
      → Moves v w
      → Moves v (
          after_enqueue w
            (before ++ after)
            (ch, length input.records)
            (enqueue_reserved_entry w.session input size timeout ch))
  unfolding enqueue_reserved_entry wakeup_pump
  enqueue-Moves w before after input size timeout ch h m =
      if_ind
        (λ (p : AppendSession C × Bool).
          Moves v (after_enqueue w (before ++ after) (ch, length input.records) p))
        w.session.closing (λ _. move m (Move.gives_back before after size h))
        (λ c. move m (Move.joins before after input size timeout ch c h))

  stop-Moves : (w : World C) → Moves v w → Moves v (on w (should_stop_pump w.session).0)
  unfolding should_stop_pump
  stop-Moves w m =
      if_ind (λ (p : AppendSession C × Bool). Moves v (on w p.0))
        (w.session.closing && is_empty w.session.inflight_queue)
        (λ h. move m (Move.stops (ground (arith, h)) (ground (arith, h)))) (λ _. m)

module _ {C : Type 0} {v : World C} (client : Client C) (writes : ℕ → Option WriteFailure) where
  got-Moves :
      (w : World C) (p : AppendSession C × Option Err) (now : ℕ)
      → Moves v (on w p.0)
      → Moves v (
          on w
            (after_get client.codec client.marshal client.compression writes client.int63n p now))
  unfolding after_get
  got-Moves w (r, none) now m =
      submit_inflight_batches-Moves client.codec client.marshal client.compression writes
        client.int63n (on w r) now m
  got-Moves w (r, some err) now m =
      if_ind (λ (q : AppendSession C). Moves v (on w q)) (s2_retryable (as_s2_error err))
        (λ _. handle_session_start_error-Moves client.int63n (on w r) err now m)
        (λ _. move m (fails err))

  ready-Moves :
      (w : World C) (create : Err ⊎ Transport) (now : ℕ)
      → Moves v w
      → Moves v (
          on w (
            process_ready client.codec client.marshal client.compression writes client.int63n
              w.session create now))
  unfolding process_ready get_session
  ready-Moves w create now m =
      if_ind (λ (q : AppendSession C). Moves v (on w q)) (is_empty w.session.inflight_queue)
        (λ _. m)
        (λ _.
          got-Moves w (session_or w.session w.session.current_session create) now
            (get_session-Moves w w.session.current_session create refl m))

  pump-Moves :
      (w : World C) (create : Err ⊎ Transport) (now : ℕ)
      → Moves v w
      → Moves v (
          on w (
            process_inflight_queue client.codec client.marshal client.compression writes
              client.int63n w.session create now))
  unfolding process_inflight_queue
  pump-Moves w create now m =
      if_ind (λ (q : AppendSession C). Moves v (on w q)) (is_done w.session.pump_ctx) (λ _. m)
        (λ _.
          if_ind (λ (q : AppendSession C). Moves v (on w q))
            (not (w.session.retry_at == 0) && ltb now w.session.retry_at) (λ _. m)
            (λ _.
              ready-Moves _ create now
                (move m (notes 0 w.session.advised_reconnects w.session.wakeup))))

module _ {C : Type 0} (client : Client C) {v : World C} where
  Step-Moves : (u : World C) {w : World C} → Step client u w → Moves v u → Moves v w
  unfolding pump_done
  Step-Moves u (reserves size h) m = move m (Move.reserves size h)
  Step-Moves u (enqueues before after input size timeout ch h) m =
      enqueue-Moves u before after input size timeout ch h m
  Step-Moves u (acks rd s ack now) m = process_ack-Moves u rd s ack now m
  Step-Moves u (breaks s err) m = claim-Moves client.int63n u s err m
  Step-Moves u (runs_late now) m = claim_overdue-Moves client.int63n u now m
  Step-Moves u (resolves before after s err now h) m =
      handle_claimed-Moves client.int63n u before after s err now h m
  Step-Moves u (ends s now) m = handle_reconnect_advice-Moves client.int63n u s now m
  Step-Moves u (pumps writes create now) m = pump-Moves client writes u create now m
  Step-Moves u stops m = stop-Moves u m
  Step-Moves u (expires e h) m = move m (Move.expires e)
  Step-Moves u (gives_up h) m = move m (fails session_closed)
  Step-Moves u closes m = move m Move.closes
  Step-Moves u (cancels h) m = move m (Move.cancels h)
  Step-Moves u (finishes h k) m = move m (Move.finishes h)
  Step-Moves u (Step.changes s t h) m =
      move m (changes _ (update-StayClosed u.session.transports s t h))
  Step-Moves u (checks now) m = check_timeouts-Moves client.int63n u now m

pub Reach-Moves : {C : Type 0} (client : Client C) {v w : World C} → Reach client v w → Moves v w
Reach-Moves client here = still
Reach-Moves client (next r s) = Step-Moves client _ s (Reach-Moves client r)
