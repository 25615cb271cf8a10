-- ===== src/Retry/AppendLoop.antt =====
-- s2/retry.go: withAppendRetries, which also keeps track of whether an attempt that failed may
-- have taken effect. The rounds are those of `Loop`.
pub mod Runs
pub mod Laws
mod Examples
use s2_sdk_go.Prelude.{
  ℕ, zero, suc, ◌+◌, ◌-◌, Bool, true, false, not, ◌||◌, Option, none, some, if◌then◌else◌, ◌==◌,
}
use s2_sdk_go.Context.{ContextError}
use s2_sdk_go.Errors.{Err, has_no_side_effects, with_prior_uncertainty}
use s2_sdk_go.Retry.{
  RetryConfig, config_or_default, attempts_of, is_network_error, should_retry_network_error,
  should_retry_error,
}
use s2_sdk_go.Retry.Loop.{
  CallResult, returned, failed, Round, Outcome, value, error, nothing, Run, unless_done,
  backoff_wait,
}

module _ {T : Type 0} where
  pub append_error : Option Err → Bool → Outcome T
  append_error (some e) prior = error (with_prior_uncertainty e prior)
  append_error none prior = nothing

module _ {T : Type 0} (env : ℕ → Round T) (ctx_end : Option ContextError) (c : RetryConfig) where
  -- After the loop, by its end or by `break`.
  pub append_finish : ℕ → Option Err → Bool → Run T
  append_finish n last prior = unless_done ctx_end n (n, append_error last prior)

  -- The rest of a round that failed by `e`; `again` is the next round, told what is uncertain.
  pub append_on_error : ℕ → Err → Bool → (Bool → Run T) → Run T
  append_on_error n e prior again =
      if is_network_error (env n).ctx_classify e
      then (if n == attempts_of c || not (should_retry_network_error c)
          then append_finish n (some e) prior
          else unless_done (backoff_wait env c n) n (again true))
      else if not (should_retry_error e c) || n == attempts_of c
      then (n, error (with_prior_uncertainty e prior))
      else unless_done (backoff_wait env c n) n (again (prior || not (has_no_side_effects e)))

  pub append_on_result : ℕ → CallResult T → Bool → (Err → Bool → Run T) → Run T
  append_on_result n (returned v) prior again = (n, value v)
  append_on_result n (failed e) prior again =
      unless_done (env n).ctx_after n (append_on_error n e prior (again e))

  -- Round n, with `left` rounds to go.
  pub append_loop : ℕ → ℕ → Option Err → Bool → Run T
  append_loop zero n last prior = append_finish (n - 1) last prior
  append_loop (suc left) n last prior = unless_done (env n).ctx_before (n - 1) (
      append_on_result n (env n).result prior
        (λ e uncertain. append_loop left (n + 1) (some e) uncertain))

pub with_append_retries :
    {T : Type 0} → (ℕ → Round T) → Option ContextError → Option RetryConfig → Run T
with_append_retries env ctx_end config =
    let c = config_or_default config in append_loop env ctx_end c (attempts_of c) 1 none false
