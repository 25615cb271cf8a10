-- ===== src/AppendSession/Policy.antt =====
-- s2/append_session.go: which failures are retried and which fail what is in flight.
use text.Mathlib.Text.{◌==◌ as str_eq}
use s2_sdk_go.Prelude.{
  ℕ, ◌≡◌, ◌<◌, ◌-◌, ◌+◌, ◌^◌, refl, ap, ◌∙◌, Bool, true, false, not, ◌&&◌, if◌then◌else◌, if_ind,
  leb, ltb, ◌⊎◌, inl, inr, subst, sym, [],
}
use s2_sdk_go.Errors.{Err, as_s2_error}
use s2_sdk_go.Retry.{attempts_of, append_retry_policy_no_side_effects, calculate_retry_backoff}
use s2_sdk_go.Reconnect.{is_server_draining}
use s2_sdk_go.Transport
use s2_sdk_go.AppendSession.State.{
  AppendSession, fail_all_inflight, wakeup_pump, reset_attempt_starts, mark_uncertain,
  has_non_idempotent_sent_pipelined,
}
use s2_sdk_go.AppendSession.Cause.{
  IsHarmless, IsIndefinite, BehindHead, AllIdempotent, Requeued, requeue, forbidden, allowed,
  strict_only, risk-Forbids, pipelined-Forbids, definite-Forbids, attempts-Forbids,
}
use s2_sdk_go.AppendSession.Failures.{
  exhausted, is_no_side_effects_error, definite, requires_no_side_effects_retries,
  can_retry_under_no_side_effects, mark_inflight_uncertainty, reset_inflight_attempt_starts,
  schedule_retry, retry, decide, handle_claimed_session_error,
}

module _ {C : Type 0} where
  abbrev is_strict : AppendSession C → Bool
  is_strict r = str_eq r.retry_config.append_retry_policy append_retry_policy_no_side_effects

  -- What a failure `err` of session `s` must meet for its appends to be retried. The policy
  -- noSideEffects adds the first two conditions.
  pub record HasCause (r : AppendSession C) (s : ℕ) (err : Err) : Type 0 where
    pub harmless :
        (is_strict r ≡ false)
        ⊎ (IsHarmless (as_s2_error err) ⊎ ((r.transports s).pending_writes ≡ 0))
    pub idempotent : (is_strict r ≡ false) ⊎ BehindHead AllIdempotent r.inflight_queue
    pub indefinite : IsIndefinite (as_s2_error err)
    pub within_attempts : r.current_attempt + 1 < attempts_of r.retry_config

  -- The appends are retried: the attempt is counted, and the entries wait for a new start.
  pub record IsRetried (r : AppendSession C) (s : ℕ) (err : Err) (q : AppendSession C)
      : Type 0 where
    pub flag : q.closed ≡ r.closed
    pub counted : q.current_attempt ≡ r.current_attempt + 1
    pub requeued : Requeued s (IsHarmless (as_s2_error err)) r.inflight_queue q.inflight_queue

  pub record IsFailed (q : AppendSession C) : Type 0 where
    pub shut : q.closed ≡ true
    pub emptied : q.inflight_queue ≡ []

  abbrev pub IsResolved : AppendSession C → ℕ → Err → AppendSession C → Type 0
  IsResolved r s err q =
      (HasCause r s err × IsRetried r s err q) ⊎ ((¬ HasCause r s err) × IsFailed q)

  schedule_retry-inflight_queue :
      (int63n : ℕ → ℕ) (r : AppendSession C) (now : ℕ)
      → ((schedule_retry int63n r now).inflight_queue ≡ r.inflight_queue)
        × ((schedule_retry int63n r now).current_attempt ≡ r.current_attempt)
  unfolding schedule_retry wakeup_pump
  schedule_retry-inflight_queue int63n r now =
      let delay = calculate_retry_backoff int63n r.retry_config r.current_attempt in
      if_ind
        (λ (x : AppendSession C).
          (x.inflight_queue ≡ r.inflight_queue) × (x.current_attempt ≡ r.current_attempt))
        (ltb 0 delay && ltb delay (2 ^ 63)) (λ _. (refl, refl)) (λ _. (refl, refl))

  pub schedule_retry-closed :
      (int63n : ℕ → ℕ) (r : AppendSession C) (now : ℕ)
      → (schedule_retry int63n r now).closed ≡ r.closed
  unfolding schedule_retry wakeup_pump
  schedule_retry-closed int63n r now =
      let delay = calculate_retry_backoff int63n r.retry_config r.current_attempt in
      if_ind (λ (x : AppendSession C). x.closed ≡ r.closed) (ltb 0 delay && ltb delay (2 ^ 63))
        (λ _. refl) (λ _. refl)

  queue_of_either :
      (b : Bool) (x y : AppendSession C)
      → (if b then x else y).inflight_queue ≡ (if b then x.inflight_queue else y.inflight_queue)
  queue_of_either true x y = refl
  queue_of_either false x y = refl

  mark_inflight_uncertainty_lem :
      (r : AppendSession C) (s : ℕ) (err : Err)
      → ((mark_inflight_uncertainty r s err).inflight_queue ≡ (
          if is_no_side_effects_error err
          then r.inflight_queue
          else mark_uncertain s r.inflight_queue))
        × ((mark_inflight_uncertainty r s err).current_attempt ≡ r.current_attempt)
  unfolding mark_inflight_uncertainty
  mark_inflight_uncertainty_lem r s err = (
    queue_of_either (is_no_side_effects_error err) _ _,
    if_ind (λ (x : AppendSession C). x.current_attempt ≡ r.current_attempt)
        (is_no_side_effects_error err) (λ _. refl) (λ _. refl),
  )

  -- The attempt that a failure costs, the marks, and the new starts.
  retry_lem :
      (int63n : ℕ → ℕ) (r : AppendSession C) (s : ℕ) (err : Err) (now : ℕ)
      → ((retry int63n r s err now).inflight_queue
          ≡ reset_attempt_starts (
              if is_no_side_effects_error err
              then r.inflight_queue
              else mark_uncertain s r.inflight_queue))
        × ((retry int63n r s err now).current_attempt ≡ r.current_attempt + 1)
  unfolding retry reset_inflight_attempt_starts
  retry_lem int63n r s err now =
      let m =
        mark_inflight_uncertainty_lem (record r { current_attempt = r.current_attempt + 1 }) s
          err in
      let k =
        schedule_retry-inflight_queue int63n
          (reset_inflight_attempt_starts (
            mark_inflight_uncertainty (record r { current_attempt = r.current_attempt + 1 }) s err))
          now in
      (k.0 ∙ ap reset_attempt_starts m.0, k.1 ∙ m.1)

  retry-IsRetried :
      (int63n : ℕ → ℕ) (r : AppendSession C) (s : ℕ) (err : Err) (now : ℕ)
      → IsRetried r s err (retry int63n r s err now)
  unfolding retry mark_inflight_uncertainty reset_inflight_attempt_starts
  retry-IsRetried int63n r s err now =
      let (m, k) = retry_lem int63n r s err now in
      record {
        flag =
            schedule_retry-closed int63n _ now
            ∙ if_ind (λ (x : AppendSession C). x.closed ≡ r.closed) (is_no_side_effects_error err)
                (λ _. refl) (λ _. refl);
        counted = k;
        requeued =
            subst (Requeued s (IsHarmless (as_s2_error err)) r.inflight_queue) (sym m)
              (requeue s err r.inflight_queue);
      }

  fail_all-IsFailed : (r : AppendSession C) (err : Err) → IsFailed (fail_all_inflight r err)
  unfolding fail_all_inflight
  fail_all-IsFailed r err = record { shut = refl; emptied = refl }

  decide-IsResolved :
      (int63n : ℕ → ℕ) (r : AppendSession C) (s : ℕ) (err : Err) (now : ℕ)
      → IsResolved r s err (decide int63n r s err now)
  unfolding decide can_retry_under_no_side_effects is_no_side_effects_error
      requires_no_side_effects_retries Transport.effect_signalled
  decide-IsResolved int63n r s err now =
      let P : AppendSession C → Type 0 = λ q. IsResolved r s err q in
      let strict = is_strict r in
      let o = as_s2_error err in
      let n = (r.transports s).pending_writes in
      let q = r.inflight_queue in
      let Harm : Type 0 = IsHarmless o ⊎ (n ≡ 0) in
      let f1 =
        strict_only Harm strict (not (can_retry_under_no_side_effects r s err))
          (risk-Forbids o n) in
      let f2 =
        strict_only (BehindHead AllIdempotent q) strict (has_non_idempotent_sent_pipelined q)
          (pipelined-Forbids q) in
      let f3 = definite-Forbids o in
      let f4 = attempts-Forbids (attempts_of r.retry_config) r.current_attempt in
      if_ind P (strict && not (can_retry_under_no_side_effects r s err))
        (λ t. inr (λ c. forbidden _ _ f1 t c.harmless, fail_all-IsFailed r err))
        (λ a.
          if_ind P (strict && has_non_idempotent_sent_pipelined q)
            (λ t. inr (λ c. forbidden _ _ f2 t c.idempotent, fail_all-IsFailed r err))
            (λ b.
              if_ind P (definite o)
                (λ t. inr (λ c. forbidden _ _ f3 t c.indefinite, fail_all-IsFailed r err))
                (λ d.
                  if_ind P (leb (attempts_of r.retry_config - 1) r.current_attempt)
                    (λ t. inr (
                      λ c. forbidden _ _ f4 t c.within_attempts,
                      fail_all-IsFailed r (exhausted err),
                    ))
                    (λ e. inl (
                      record {
                        harmless = allowed _ _ f1 a;
                        idempotent = allowed _ _ f2 b;
                        indefinite = allowed _ _ f3 d;
                        within_attempts = allowed _ _ f4 e;
                      },
                      retry-IsRetried int63n r s err now,
                    )))))

  repacked :
      {r q : AppendSession C} {s : ℕ} {err : Err} (n : ℕ)
      → IsResolved r s err q
      → IsResolved r s err (wakeup_pump (record q { failures_pending = n }))
  unfolding wakeup_pump
  repacked n (inl (c, i)) =
      inl (c, record { flag = i.flag; counted = i.counted; requeued = i.requeued })
  repacked n (inr (c, i)) = inr (c, record { shut = i.shut; emptied = i.emptied })

  -- Handling the claimed failure of a transport session, other than that its server drains,
  -- retries the inflight appends exactly when it has cause to, and else fails them all. It has
  -- cause if the failure is no S2 error or a retryable one, attempts are left, and, under the
  -- policy noSideEffects, the failure guarantees that it had no side effects or no write awaits
  -- its ack on the session, and every entry behind the head matches a sequence number or was never
  -- sent. A retry leaves the session as open as it was, counts an attempt, and makes of each entry
  -- the same with its start reset, and marked as uncertain exactly if it was sent on that session
  -- and the failure gives no such guarantee. Otherwise the session is closed and its queue is
  -- empty.
  pub handle_claimed-IsResolved :
      (int63n : ℕ → ℕ) (r : AppendSession C) (s : ℕ) (err : Err) (now : ℕ)
      → is_server_draining err ≡ false
      → IsResolved r s err (handle_claimed_session_error int63n r s err now)
  unfolding handle_claimed_session_error wakeup_pump
  handle_claimed-IsResolved int63n r s err now h =
      if_ind
        (λ (q : AppendSession C).
          IsResolved r s err (wakeup_pump (record q { failures_pending = q.failures_pending - 1 })))
        (is_server_draining err) (λ t. absurd cc)
        (λ _. repacked _ (decide-IsResolved int63n r s err now))
