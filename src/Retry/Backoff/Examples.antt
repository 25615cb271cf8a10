-- ===== src/Retry/Backoff/Examples.antt =====
-- The third backoff of the sample configuration.
use s2_sdk_go.Prelude.{ℕ, ◌-◌, ◌*◌, ◌/◌, ◌^◌, ◌≤◌, ◌<◌, ◌≡◌, min, arith}
use s2_sdk_go.Retry.{base_delay, calculate_retry_backoff}
use s2_sdk_go.Retry.Sample.{sample_config}
use s2_sdk_go.Retry.Backoff.{min_base, max_base, base_delay-min, calculate_retry_backoff_bounds}

base_delay-min_example :
    base_delay sample_config 3 ≡ min (min_base sample_config * 2 ^ (3 - 1)) (max_base sample_config)
base_delay-min_example = base_delay-min sample_config 3 (omega arith) (omega arith)

abbrev half : ℕ → ℕ
half n = n / 2

half-lt : (n : ℕ) → 0 < n → half n < n
half-lt n h = omega arith

calculate_retry_backoff_bounds_example :
    (base_delay sample_config 3 ≤ calculate_retry_backoff half sample_config 3)
    × (calculate_retry_backoff half sample_config 3 < 2 * max_base sample_config)
calculate_retry_backoff_bounds_example =
    calculate_retry_backoff_bounds half sample_config 3 half-lt (omega arith) (omega arith)
