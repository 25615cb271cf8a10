-- ===== src/Retry/Loop/Examples.antt =====
-- A run of the retry loop: a draining server, then a success.
use s2_sdk_go.Prelude.{◌≤◌, ◌<◌, ◌≡◌, refl, some, none, arith}
use s2_sdk_go.Errors.{as_s2_error, is_retryable}
use s2_sdk_go.Errors.Codes.{lookup_code, lookup_in, error_codes}
use s2_sdk_go.Retry.{config_or_default, attempts_of, is_network_error, as_net_error}
use s2_sdk_go.Retry.Sample.{sample_config, second_time}
use s2_sdk_go.Retry.Loop.{
  value, with_retries, attempt_loop, on_result, on_error, on_s2_error, unless_done, backoff_wait,
}
use s2_sdk_go.Retry.Loop.Laws.{Retried, Explained, with_retries-Retried, with_retries-Explained}

second_run : with_retries second_time none (some sample_config) ≡ (2, value 42)
unfolding with_retries attempt_loop on_result on_error on_s2_error unless_done backoff_wait
    config_or_default attempts_of is_network_error as_net_error as_s2_error is_retryable lookup_code
    lookup_in error_codes
second_run = refl

with_retries-Retried_example :
    (1 < attempts_of (config_or_default (some sample_config)))
    × Retried second_time (attempts_of (config_or_default (some sample_config))) 1
unfolding with_retries attempt_loop on_result on_error on_s2_error unless_done backoff_wait
    config_or_default attempts_of is_network_error as_net_error as_s2_error is_retryable lookup_code
    lookup_in error_codes
with_retries-Retried_example =
    with_retries-Retried second_time none (some sample_config) 1 (omega arith) (omega arith)

with_retries-Explained_example :
    let run = with_retries second_time none (some sample_config) in
    (run.0 ≤ attempts_of (config_or_default (some sample_config)))
    × Explained second_time
        (attempts_of (config_or_default (some sample_config)))
        none
        (config_or_default (some sample_config))
        run.0
        run.1
with_retries-Explained_example = with_retries-Explained second_time none (some sample_config)
