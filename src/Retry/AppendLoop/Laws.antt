-- ===== src/Retry/AppendLoop/Laws.antt =====
-- What the caller of an append may conclude from its error: about every attempt, not the last.
use text.Mathlib.TextEquality.{eq_iff}
use mathlib.Core.Bool.{false≢true}
use s2_sdk_go.Prelude.{
  ℕ, ◌≤◌, ◌<◌, ◌≡◌, refl, inl, inr, true, false, Option, none, some, arith, subst,
}
use s2_sdk_go.Context.{ContextError}
use s2_sdk_go.Errors.{Err, has_no_side_effects, as_s2_error, S2Error, s2_has_no_side_effects}
use s2_sdk_go.Retry.{
  RetryConfig, config_or_default, attempts_of, should_retry_network_error, should_retry_error,
  append_retry_policy_no_side_effects, retry_s2_error,
}
use s2_sdk_go.Retry.Loop.{returned, failed, Round, value, error}
use s2_sdk_go.Retry.AppendLoop.{with_append_retries}
use s2_sdk_go.Retry.AppendLoop.Runs.{Harmless, Retried, IsRun, with_append_retries-IsRun}

module _ {T : Type 0} (env : ℕ → Round T) (ctx_end : Option ContextError)
    (config : Option RetryConfig) where
  -- If the append loop returns an error that claims to be without side effects after a number of
  -- calls, then every one of those calls, not only the last, failed with an error that claims it:
  -- no attempt may have taken effect. The context, the operation and the timers are arbitrary.
  pub with_append_retries-Harmless :
      (calls : ℕ) (e : Err)
      → with_append_retries env ctx_end config ≡ (calls, error e)
      → has_no_side_effects e ≡ true
      → (i : ℕ) → 1 ≤ i
      → i ≤ calls
      → Harmless env (config_or_default config) i
  with_append_retries-Harmless calls e h k =
      (subst (IsRun env (config_or_default config) 1 false) h
          (with_append_retries-IsRun env ctx_end config)).claims
        k

  -- If the append loop returns a value after a number of calls, the last of them returned it, and
  -- there were no more calls than configured.
  pub with_append_retries_value :
      (calls : ℕ) (v : T)
      → with_append_retries env ctx_end config ≡ (calls, value v)
      → (calls ≤ attempts_of (config_or_default config)) × ((env calls).result ≡ returned v)
  with_append_retries_value calls v h =
      let r =
        subst (IsRun env (config_or_default config) 1 false) h
          (with_append_retries-IsRun env ctx_end config) in
      (r.bounded, r.claims)

  -- Every attempt of the append loop that was followed by another one came before the last one
  -- allowed, and failed on the network under a policy that retries that, or with an error that the
  -- policy retries.
  pub with_append_retries-Retried :
      (i : ℕ)
      → 1 ≤ i
      → i < (with_append_retries env ctx_end config).0
      → (i < attempts_of (config_or_default config)) × Retried env (config_or_default config) i
  with_append_retries-Retried i a b =
      let r = with_append_retries-IsRun env ctx_end config in
      (omega (arith, r.bounded), r.retried i a b)

retry_s2_error-policy :
    (c : RetryConfig) (o : Option S2Error)
    → c.append_retry_policy ≡ append_retry_policy_no_side_effects
    → retry_s2_error c o ≡ true
    → (s : S2Error) × (o ≡ some s) × (s2_has_no_side_effects s ≡ true)
unfolding retry_s2_error
retry_s2_error-policy c none p h = absurd (false≢true h)
retry_s2_error-policy c (some s) p h =
    (s, refl, ground (arith, eq_iff c.append_retry_policy append_retry_policy_no_side_effects))

-- Under the policy noSideEffects, every attempt of the append loop that was followed by another
-- one failed with an S2 error that guarantees that it had no side effects.
pub with_append_retries_policy :
    {T : Type 0} (env : ℕ → Round T) (ctx_end : Option ContextError) (c : RetryConfig)
    → c.append_retry_policy ≡ append_retry_policy_no_side_effects
    → (i : ℕ) → 1 ≤ i
    → i < (with_append_retries env ctx_end (some c)).0
    → (e : Err) × (s : S2Error) × ((env i).result ≡ failed e)
      × (as_s2_error e ≡ some s)
      × (s2_has_no_side_effects s ≡ true)
unfolding config_or_default should_retry_network_error should_retry_error
with_append_retries_policy env w c p i a b = go (with_append_retries-Retried env w (some c) i a b).1
  where
    go :
        Retried env c i
        → (e : Err) × (s : S2Error) × ((env i).result ≡ failed e)
          × (as_s2_error e ≡ some s)
          × (s2_has_no_side_effects s ≡ true)
    go (e, h, inl (t, q)) =
        ground (arith, eq_iff c.append_retry_policy append_retry_policy_no_side_effects)
    go (e, h, inr t) =
        let (s, o, k) = retry_s2_error-policy c (as_s2_error e) p t in (e, s, h, o, k)
