-- ===== src/Retry/AppendLoop/Examples.antt =====
-- Runs of the append loop: a draining server, then a success or another two refusals.
use s2_sdk_go.Prelude.{◌≤◌, ◌<◌, ◌≡◌, refl, some, none, arith, true, ap}
use s2_sdk_go.Errors.{
  Err, S2Error, s2_error, as_s2_error, is_indefinite, is_retryable, has_no_side_effects,
  with_prior_uncertainty, s2_has_no_side_effects,
}
use s2_sdk_go.Errors.Codes.{lookup_code, lookup_in, error_codes}
use s2_sdk_go.Retry.{
  config_or_default, attempts_of, is_network_error, as_net_error, should_retry_error,
  retry_s2_error,
}
use s2_sdk_go.Retry.Sample.{sample_config, draining, second_time, always_draining}
use s2_sdk_go.Retry.Loop.{returned, failed, value, error, unless_done, backoff_wait}
use s2_sdk_go.Retry.AppendLoop.{with_append_retries, append_loop, append_on_result, append_on_error}
use s2_sdk_go.Retry.AppendLoop.Runs.{Harmless, Retried}
use s2_sdk_go.Retry.AppendLoop.Laws.{
  with_append_retries-Harmless, with_append_retries_value, with_append_retries-Retried,
  with_append_retries_policy,
}

runs :
    (with_append_retries second_time none (some sample_config) ≡ (2, value 42))
    × (with_append_retries always_draining none (some sample_config)
        ≡ (3, error (s2_error draining)))
    × (has_no_side_effects (s2_error draining) ≡ true)
unfolding with_append_retries append_loop append_on_result append_on_error unless_done backoff_wait
    config_or_default attempts_of is_network_error as_net_error should_retry_error retry_s2_error
    as_s2_error is_indefinite is_retryable has_no_side_effects with_prior_uncertainty
    s2_has_no_side_effects lookup_code lookup_in error_codes
runs = (refl, refl, refl)

with_append_retries-Harmless_example :
    Harmless always_draining (config_or_default (some sample_config)) 2
with_append_retries-Harmless_example =
    with_append_retries-Harmless always_draining none (some sample_config) 3 (s2_error draining)
      runs.1 runs.2 2 (omega arith) (omega arith)

with_append_retries_value_example :
    (2 ≤ attempts_of (config_or_default (some sample_config)))
    × ((second_time 2).result ≡ returned 42)
with_append_retries_value_example =
    with_append_retries_value second_time none (some sample_config) 2 42 runs.0

with_append_retries-Retried_example :
    (1 < attempts_of (config_or_default (some sample_config)))
    × Retried second_time (config_or_default (some sample_config)) 1
with_append_retries-Retried_example =
    with_append_retries-Retried second_time none (some sample_config) 1 (omega arith)
      (omega (arith, ap (λ r. r.0) runs.0))

with_append_retries_policy_example :
    (e : Err) × (s : S2Error) × ((always_draining 2).result ≡ failed e)
    × (as_s2_error e ≡ some s)
    × (s2_has_no_side_effects s ≡ true)
with_append_retries_policy_example =
    with_append_retries_policy always_draining none sample_config refl 2 (omega arith)
      (rw runs.1 (omega arith))
