-- ===== src/AppendSession.antt =====
-- s2/append_utils.go and s2/types.go: the options of an append session. `C` stands for the stream
-- configuration. The source writes the defaults into the options that it was given; the model
-- returns them.
pub mod Options
pub mod State
pub mod Acks
pub mod Failures
pub mod Pump
pub mod Submission
pub mod Steps
pub mod Moves
pub mod Walk
pub mod FailureWalk
pub mod TimeoutWalk
pub mod PumpWalk
pub mod StepWalk
pub mod Tracking
pub mod Order
pub mod Limits
pub mod InFlight
pub mod Coherence
pub mod Closing
pub mod Finality
pub mod Cause
pub mod Policy
mod Examples
mod Scenario
use Prim.Native.String.{String}
use text.Mathlib.Text.{◌==◌ as str_eq}
use s2_sdk_go.Prelude.{
  ℕ, ◌*◌, Bool, true, false, not, Option, none, some, if◌then◌else◌, ◌==◌, ltb, ◌⊎◌, inl, inr, ℤ,
  pos, is_positive,
}
use s2_sdk_go.Errors.{Err, new_validation_error}
use s2_sdk_go.Retry.{
  RetryConfig, default_max_attempts, default_min_base_delay, default_max_base_delay,
  append_retry_policy_all, config_or_default,
}

abbrev pub default_max_inflight_bytes : ℕ
default_max_inflight_bytes = 5 * 1024 * 1024

abbrev pub min_inflight_bytes : ℕ
min_inflight_bytes = 1 * 1024 * 1024

pub record AppendSessionOptions (C : Type 0) : Type 0 where
  pub max_inflight_bytes : ℕ
  pub max_inflight_batches : ℕ
  pub retry_config : Option RetryConfig
  pub stream_config : Option C

-- The settings that the user made, over those of the client.
pub override : RetryConfig → Option RetryConfig → RetryConfig
override c none = c
override c (some u) = record {
  max_attempts = if is_positive u.max_attempts then u.max_attempts else c.max_attempts;
  min_base_delay = if is_positive u.min_base_delay then u.min_base_delay else c.min_base_delay;
  max_base_delay = if is_positive u.max_base_delay then u.max_base_delay else c.max_base_delay;
  append_retry_policy =
      if not (str_eq u.append_retry_policy "")
      then u.append_retry_policy
      else c.append_retry_policy;
}

-- What is still not set.
pub fill : RetryConfig → RetryConfig
fill c = record {
  max_attempts = if is_positive c.max_attempts then c.max_attempts else pos default_max_attempts;
  min_base_delay =
      if is_positive c.min_base_delay then c.min_base_delay else pos default_min_base_delay;
  max_base_delay =
      if is_positive c.max_base_delay then c.max_base_delay else pos default_max_base_delay;
  append_retry_policy =
      if str_eq c.append_retry_policy "" then append_retry_policy_all else c.append_retry_policy;
}

module _ {C : Type 0} where
  abbrev pub with_retry : AppendSessionOptions C → Option RetryConfig → AppendSessionOptions C
  with_retry o base = record o {
    retry_config = some (fill (override (config_or_default base) o.retry_config));
  }

  with_defaults : AppendSessionOptions C → Option RetryConfig → Err ⊎ AppendSessionOptions C
  with_defaults o base =
      if o.max_inflight_bytes == 0
      then inr (with_retry (record o { max_inflight_bytes = default_max_inflight_bytes }) base)
      else if ltb o.max_inflight_bytes min_inflight_bytes
      then inl (new_validation_error "maxInflightBytes must be at least 1048576")
      else inr (with_retry o base)

  pub apply_append_session_defaults :
      Option (AppendSessionOptions C) → Option RetryConfig → Err ⊎ AppendSessionOptions C
  apply_append_session_defaults none base =
      with_defaults
        (record {
          max_inflight_bytes = 0;
          max_inflight_batches = 0;
          retry_config = none;
          stream_config = none;
        })
        base
  apply_append_session_defaults (some o) base = with_defaults o base
