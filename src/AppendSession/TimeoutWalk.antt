-- ===== src/AppendSession/TimeoutWalk.antt =====
-- The handlers of timeouts are sequences of moves.
use s2_sdk_go.Prelude.{ℕ, ◌≡◌, refl, not, ◌||◌, Option, none, some, [], if_ind}
use s2_sdk_go.AppendSession.State.{AppendSession}
use s2_sdk_go.AppendSession.Failures.{
  head_overdue, claim_current, claim_overdue, on_overdue, check_timeouts, request_timed_out,
}
use s2_sdk_go.AppendSession.Steps.{World, on, after_overdue}
use s2_sdk_go.AppendSession.Moves.{Moves}
use s2_sdk_go.AppendSession.FailureWalk.{claimed-Moves, handle_claimed-Moves}

module _ {C : Type 0} {v : World C} (int63n : ℕ → ℕ) where
  overdue_of :
      (w : World C) (o : Option ℕ)
      → w.session.current_session ≡ o
      → Moves v w
      → Moves v (after_overdue w (claim_current w.session o))
  unfolding claim_current
  overdue_of w none h m = m
  overdue_of w (some s) h m = claimed-Moves int63n w s request_timed_out h m

  pub claim_overdue-Moves :
      (w : World C) (now : ℕ) → Moves v w → Moves v (after_overdue w (claim_overdue w.session now))
  unfolding claim_overdue
  claim_overdue-Moves w now m =
      if_ind (λ (p : AppendSession C × Option ℕ). Moves v (after_overdue w p))
        (w.session.closed || not (head_overdue w.session.inflight_queue now)) (λ _. m)
        (λ _. overdue_of w w.session.current_session refl m)

  on_overdue-Moves :
      (w : World C) (p : AppendSession C × Option ℕ) (now : ℕ)
      → Moves v (after_overdue w p)
      → Moves v (on w (on_overdue int63n p now))
  unfolding on_overdue
  on_overdue-Moves w (r, none) now m = m
  on_overdue-Moves w (r, some s) now m =
      handle_claimed-Moves int63n (after_overdue w (r, some s)) [] w.failures s request_timed_out
        now refl m

  pub check_timeouts-Moves :
      (w : World C) (now : ℕ) → Moves v w → Moves v (on w (check_timeouts int63n w.session now))
  unfolding check_timeouts
  check_timeouts-Moves w now m =
      elim w.session.pump_ctx
        as (λ o. Moves v (
          on w (elim o [
            | some e ↦ w.session
            | none ↦ on_overdue int63n (claim_overdue w.session now) now
          ]))) [
            | some e ↦ m
            | none ↦
                on_overdue-Moves w (claim_overdue w.session now) now (claim_overdue-Moves w now m)
          ]
