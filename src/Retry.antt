-- ===== src/Retry.antt =====
-- s2/retry.go: what to retry and how long to wait.
pub mod Backoff
pub mod Sample
pub mod Loop
pub mod AppendLoop
use Prim.Native.String.{String}
use text.Mathlib.Text.{◌==◌ as str_eq}
use s2_sdk_go.Prelude.{
  ℕ, ◌+◌, ◌-◌, ◌*◌, ◌%◌, ◌^◌, Bool, true, false, not, ◌||◌, Option, none, some, if◌then◌else◌, ◌==◌,
  ltb, leb, ℤ, pos, pos_part, is_positive,
}
use s2_sdk_go.Context.{ContextError, deadline_exceeded}
use s2_sdk_go.Errors.{
  Err, S2Error, foreign, url_error, append_indefinite_failure, context_error, wrapped, as_s2_error,
  is_retryable, s2_has_no_side_effects,
}

-- Durations are nanoseconds. Zero and negative settings stand for the defaults.
pub record RetryConfig : Type 0 where
  pub max_attempts : ℤ
  pub min_base_delay : ℤ
  pub max_base_delay : ℤ
  pub append_retry_policy : String

abbrev pub default_max_attempts : ℕ
default_max_attempts = 3

abbrev pub default_min_base_delay : ℕ
default_min_base_delay = 100_000_000

abbrev pub default_max_base_delay : ℕ
default_max_base_delay = 1_000_000_000

abbrev pub append_retry_policy_all : String
append_retry_policy_all = "all"

abbrev pub append_retry_policy_no_side_effects : String
append_retry_policy_no_side_effects = "noSideEffects"

pub default_retry_config : RetryConfig
default_retry_config = record {
  max_attempts = pos default_max_attempts;
  min_base_delay = pos default_min_base_delay;
  max_base_delay = pos default_max_base_delay;
  append_retry_policy = append_retry_policy_all;
}

-- `config == nil` stands for the default, in both retry loops.
unfoldable pub config_or_default : Option RetryConfig → RetryConfig
config_or_default (some c) = c
config_or_default none = default_retry_config

-- `maxAttempts` of both loops.
unfoldable pub attempts_of : RetryConfig → ℕ
attempts_of c = if is_positive c.max_attempts then pos_part c.max_attempts else 1

abbrev pub duration_or : ℤ → ℕ → ℕ
duration_or d default = if is_positive d then pos_part d else default

-- An int64 shift: bits above the 64th are lost, and bit 63 is the sign.
pub base_delay : RetryConfig → ℕ → ℕ
base_delay c attempt =
    let min_base = duration_or c.min_base_delay default_min_base_delay in
    let max_base = duration_or c.max_base_delay default_max_base_delay in
    let shifted = min_base * 2 ^ (attempt - 1) % 2 ^ 64 in
    if leb (2 ^ 63) shifted || (ltb max_base shifted || ltb shifted min_base)
    then max_base
    else shifted

-- `int63n n` is `rand.Int63n(n)`. The sum wraps as an int64.
pub calculate_retry_backoff : (ℕ → ℕ) → RetryConfig → ℕ → ℕ
calculate_retry_backoff int63n c attempt =
    if ltb attempt 1 then 0 else (base_delay c attempt + int63n (base_delay c attempt)) % 2 ^ 64

-- `errors.As` with a `net.Error` target, or a `*net.OpError` one. Of the two errors of a context the
-- one of a deadline is a `net.Error`, and so is every `*url.Error`, whatever it holds.
pub as_net_error : Err → Bool
as_net_error (foreign net op) = net || op
as_net_error (context_error deadline_exceeded) = true
as_net_error (url_error e) = true
as_net_error (wrapped m e) = as_net_error e
as_net_error (append_indefinite_failure e) = as_net_error e
as_net_error _ = false

-- `isNetworkError` of a non-nil error; the first argument is `ctx.Err()`.
pub is_network_error : Option ContextError → Err → Bool
is_network_error (some c) e = false
is_network_error none e = as_net_error e

pub should_retry_network_error : RetryConfig → Bool
should_retry_network_error c =
    not (str_eq c.append_retry_policy append_retry_policy_no_side_effects)

pub retry_s2_error : RetryConfig → Option S2Error → Bool
retry_s2_error c none = false
retry_s2_error c (some e) =
    if not (is_retryable e)
    then false
    else if str_eq c.append_retry_policy append_retry_policy_no_side_effects
    then s2_has_no_side_effects e
    else true

-- s2/stream.go
pub should_retry_error : Err → RetryConfig → Bool
should_retry_error e c = retry_s2_error c (as_s2_error e)
