-- ===== src/AppendSession/Walk.antt =====
-- The handlers of acks are sequences of moves.
use s2_sdk_go.Prelude.{
  ℕ, ◌≡◌, ◌≢◌, refl, sym, subst, true, false, not, ◌&&◌, Option, none, some, List, [], ◌∷◌, if_ind,
  ◌==◌, arith,
}
use s2_sdk_go.Errors.{Err}
use s2_sdk_go.Reconnect.{should_reconnect}
use s2_sdk_go.Transport.{Transport, AppendAck}
use s2_sdk_go.Transport
use s2_sdk_go.Transport.Laws.{half_close-closed}
use s2_sdk_go.AppendSession.State.{
  InflightEntry, AppendSession, update, is_session, was_sent_on_session, wakeup_pump,
  reset_attempt_starts, mark_uncertain,
}
use s2_sdk_go.AppendSession.Acks.{
  Reader, validate_ack, is_stale, complete, on_validated, handle_head, handle_ack, set_transport,
  on_advice, process_ack,
}
use s2_sdk_go.AppendSession.Steps.{World, on}
use s2_sdk_go.AppendSession.Moves.{
  Edited, none_left, edit, StayClosed, fails, pops, notes, changes, Moves, move,
}

pub is_session-eq : (o : Option ℕ) (s : ℕ) → is_session o s ≡ true → o ≡ some s
is_session-eq none s h = cc
is_session-eq (some t) s h = ground arith

pub is_session-ne : (o : Option ℕ) (s : ℕ) → is_session o s ≡ false → o ≢ some s
is_session-ne none s h = λ e. cc
is_session-ne (some t) s h = λ e. ground arith

pub update-StayClosed :
    (f : ℕ → Transport) (s : ℕ) (t : Transport)
    → ((f s).closed ≡ true → t.closed ≡ true)
    → StayClosed f (update f s t)
unfolding update
update-StayClosed f s t h i c =
    if_ind (λ (x : Transport). x.closed ≡ true) (s == i)
      (λ e. let q : s ≡ i = ground arith in h (subst (λ j. (f j).closed ≡ true) (sym q) c)) (λ _. c)

module _ {C : Type 0} where
  pub mark_uncertain-Edited : (s : ℕ) (q : List (InflightEntry C)) → Edited q (mark_uncertain s q)
  unfolding mark_uncertain
  mark_uncertain-Edited s [] = none_left
  mark_uncertain-Edited s (e ∷ es) =
      let rest = mark_uncertain-Edited s es in
      if_ind (λ (x : InflightEntry C). Edited (e ∷ es) (x ∷ mark_uncertain s es))
        (was_sent_on_session e s) (λ _. edit e e.attempt_start true (λ h. refl) rest)
        (λ _. edit e e.attempt_start e.prior_uncertainty (λ h. h) rest)

  pub reset_attempt_starts-Edited : (q : List (InflightEntry C)) → Edited q (reset_attempt_starts q)
  unfolding reset_attempt_starts
  reset_attempt_starts-Edited [] = none_left
  reset_attempt_starts-Edited (e ∷ es) =
      edit e 0 e.prior_uncertainty (λ h. h) (reset_attempt_starts-Edited es)

module _ {C : Type 0} {v : World C} where
  pub wakeup-Moves : (w : World C) → Moves v w → Moves v (on w (wakeup_pump w.session))
  unfolding wakeup_pump
  wakeup-Moves w m = move m (notes w.session.retry_at w.session.advised_reconnects true)

  complete-Moves :
      (w : World C) (e : InflightEntry C) (rest : List (InflightEntry C)) (s : ℕ)
      (ack : Option AppendAck)
      → w.session.inflight_queue ≡ e ∷ rest
      → was_sent_on_session e s ≡ true
      → validate_ack w.session e ack ≡ none
      → Moves v w
      → Moves v (on w (complete w.session e rest s ack))
  unfolding complete
  complete-Moves w e rest s none q h g m = m
  complete-Moves w e rest s (some ack) q h g m =
      if_ind (λ (r : AppendSession C). Moves v (on w r)) e.completed (λ _. m)
        (λ _. move m (pops e rest s ack q h g))

  on_validated-Moves :
      (w : World C) (e : InflightEntry C) (rest : List (InflightEntry C)) (s : ℕ)
      (ack : Option AppendAck) (x : Option Err)
      → w.session.inflight_queue ≡ e ∷ rest
      → was_sent_on_session e s ≡ true
      → validate_ack w.session e ack ≡ x
      → Moves v w
      → Moves v (on w (on_validated w.session e rest s ack x))
  unfolding on_validated
  on_validated-Moves w e rest s ack (some err) q h g m = move m (fails err)
  on_validated-Moves w e rest s ack none q h g m = complete-Moves w e rest s ack q h g m

  handle_head-Moves :
      (w : World C) (queue : List (InflightEntry C)) (s : ℕ) (ack : Option AppendAck)
      → w.session.inflight_queue ≡ queue
      → Moves v w
      → Moves v (on w (handle_head w.session queue s ack))
  unfolding handle_head
  handle_head-Moves w [] s ack q m = m
  handle_head-Moves w (e ∷ rest) s ack q m =
      let P : AppendSession C → Type 0 = (λ r. Moves v (on w r)) in
      if_ind P (not (was_sent_on_session e s)) (λ _. m)
        (λ h.
          if_ind P (is_stale ack w.session.last_acked_position) (λ _. m)
            (λ _. on_validated-Moves w e rest s ack _ q (ground (arith, h)) refl m))

  handle_ack-Moves :
      (w : World C) (s : ℕ) (ack : Option AppendAck)
      → Moves v w
      → Moves v (on w (handle_ack w.session s ack))
  unfolding handle_ack
  handle_ack-Moves w s ack m = handle_head-Moves w w.session.inflight_queue s ack refl m

  on_advice-Moves :
      (w : World C) (rd : Reader) (s now : ℕ)
      → Moves v w
      → Moves v (on w (on_advice w.session rd s now).0)
  unfolding on_advice set_transport
  on_advice-Moves w rd s now m =
      let t = w.session.transports s in
      let P : AppendSession C × Reader → Type 0 = (λ p. Moves v (on w p.0)) in
      let c = λ (x : Transport) (h : t.closed ≡ true → x.closed ≡ true). move m (
        changes (update w.session.transports s x) (update-StayClosed w.session.transports s x h)) in
      if_ind P (t.reconnect_advised && not rd.advice_handled)
        (λ _.
          if_ind P (should_reconnect w.session.advised_reconnects now)
            (λ _. c (Transport.half_close t) (half_close-closed t))
            (λ _.
              wakeup-Moves _
                (c (Transport.decline_reconnect t) (unfold Transport.decline_reconnect in λ h. h))))
        (λ _. m)

  pub process_ack-Moves :
      (w : World C) (rd : Reader) (s : ℕ) (ack : Option AppendAck) (now : ℕ)
      → Moves v w
      → Moves v (on w (process_ack w.session rd s ack now).0)
  unfolding process_ack
  process_ack-Moves w rd s ack now m = on_advice-Moves _ rd s now (handle_ack-Moves w s ack m)
