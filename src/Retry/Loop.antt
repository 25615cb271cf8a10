-- ===== src/Retry/Loop.antt =====
-- s2/retry.go: withRetries. What the operation, the context and the timer do in the n-th round
-- is a parameter, so a run is any interleaving of failures, successes and cancellations.
pub mod Laws
mod Examples
use s2_sdk_go.Prelude.{
  ℕ, zero, suc, ◌+◌, ◌-◌, Bool, true, false, not, Option, none, some, if◌then◌else◌, ◌==◌, ltb,
}
use s2_sdk_go.Context.{ContextError}
use s2_sdk_go.Errors.{Err, S2Error, s2_error, context_error, as_s2_error, is_retryable}
use s2_sdk_go.Retry.{
  RetryConfig, config_or_default, attempts_of, is_network_error, calculate_retry_backoff,
}

pub data CallResult (T : Type 0) : Type 0 where
  returned : T → CallResult T
  failed : Err → CallResult T

-- `ctx.Err()` at the moments at which a round asks, and what `operation()` returns in it.
-- `jitter`
-- is `rand.Int63n`, and `ctx_wait` the result of `waitForRetryBackoff` for a delay.
pub record Round (T : Type 0) : Type 0 where
  pub ctx_before : Option ContextError
  pub result : CallResult T
  pub ctx_after : Option ContextError
  pub ctx_classify : Option ContextError
  pub jitter : ℕ → ℕ
  pub ctx_wait : ℕ → Option ContextError

-- `nothing` is the pair of two zero values, which the code can only return if it makes no call.
pub data Outcome (T : Type 0) : Type 0 where
  value : T → Outcome T
  error : Err → Outcome T
  nothing : Outcome T

-- How often the operation was called, and what the loop returned.
abbrev pub Run : Type 0 → Type 0
Run T = ℕ × Outcome T

module _ {T : Type 0} where
  -- `if ctxErr := ctx.Err(); ctxErr != nil { return zero, ctxErr }`
  unfoldable pub unless_done : Option ContextError → ℕ → Run T → Run T
  unless_done (some x) n run = (n, error (context_error x))
  unless_done none n run = run

  pub last_error : Option Err → Outcome T
  last_error (some e) = error e
  last_error none = nothing

-- `waitForRetryBackoff(ctx, calculateRetryBackoff(config, attemptNo))` in round n.
unfoldable pub backoff_wait : {T : Type 0} → (ℕ → Round T) → RetryConfig → ℕ → Option ContextError
backoff_wait env c n = (env n).ctx_wait (calculate_retry_backoff (env n).jitter c n)

module _ {T : Type 0} (env : ℕ → Round T) (ctx_end : Option ContextError) (c : RetryConfig)
    (max : ℕ) where
  -- After the loop.
  pub finish : ℕ → Option Err → Run T
  finish n last = unless_done ctx_end n (n, last_error last)

  -- The rest of a round that failed by `e`; `again` is the next round.
  pub on_s2_error : ℕ → Err → Option S2Error → Run T → Run T
  on_s2_error n e none again = (n, error e)
  on_s2_error n e (some s) again =
      if n == max
      then finish n (some e)
      else if not (is_retryable s)
      then (n, error (s2_error s))
      else unless_done (backoff_wait env c n) n again

  pub on_error : ℕ → Err → Run T → Run T
  on_error n e again =
      if is_network_error (env n).ctx_classify e
      then (if ltb n max then unless_done (backoff_wait env c n) n again else (n, error e))
      else on_s2_error n e (as_s2_error e) again

  pub on_result : ℕ → CallResult T → (Err → Run T) → Run T
  on_result n (returned v) again = (n, value v)
  on_result n (failed e) again = unless_done (env n).ctx_after n (on_error n e (again e))

  -- Round n, with `left` rounds to go.
  pub attempt_loop : ℕ → ℕ → Option Err → Run T
  attempt_loop zero n last = finish (n - 1) last
  attempt_loop (suc left) n last =
      unless_done (env n).ctx_before (n - 1)
        (on_result n (env n).result (λ e. attempt_loop left (n + 1) (some e)))

pub with_retries : {T : Type 0} → (ℕ → Round T) → Option ContextError → Option RetryConfig → Run T
with_retries env ctx_end config =
    let c = config_or_default config in
    let max = attempts_of c in attempt_loop env ctx_end c max max 1 none
