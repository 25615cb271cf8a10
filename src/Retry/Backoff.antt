-- ===== src/Retry/Backoff.antt =====
-- The exponential backoff with jitter stays within its configured window.
mod Examples
use s2_sdk_go.Prelude.{
  ℕ, zero, suc, ◌||◌, ◌+◌, ◌-◌, ◌*◌, ◌%◌, ◌^◌, ◌≤◌, ◌<◌, ◌≡◌, min, Bool, true, arith, ltb, leb,
  is_positive, pos_part, if◌then◌else◌, ltb-eq_false,
}
use native.Mathlib.Nat.{mod-eq_of_lt, pow-suc}
use s2_sdk_go.Retry.{
  RetryConfig, duration_or, default_min_base_delay, default_max_base_delay, base_delay,
  calculate_retry_backoff,
}

abbrev pub min_base : RetryConfig → ℕ
min_base c = duration_or c.min_base_delay default_min_base_delay

abbrev pub max_base : RetryConfig → ℕ
max_base c = duration_or c.max_base_delay default_max_base_delay

-- Durations are int64 values.
pub record IsConfig (c : RetryConfig) : Type 0 where
  pub min_fits : pos_part c.min_base_delay < 2 ^ 63
  pub max_fits : pos_part c.max_base_delay < 2 ^ 63

base_delay_bounds :
    (c : RetryConfig) (attempt : ℕ)
    → (0 < base_delay c attempt) × (base_delay c attempt ≤ max_base c)
unfolding base_delay
base_delay_bounds c attempt = ground arith

pow_pos : (k : ℕ) → 0 < 2 ^ k
pow_pos zero = omega arith
pow_pos (suc k) = rw pow-suc (omega (arith, pow_pos k))

le-shifted : (m k : ℕ) → m ≤ m * 2 ^ k
le-shifted m k = grind (arith, pow_pos k)

clamp_lem :
    (m x hi : ℕ)
    → m ≤ x
    → x < 2 ^ 64
    → hi < 2 ^ 63
    → (if leb (2 ^ 63) (x % 2 ^ 64) || (ltb hi (x % 2 ^ 64) || ltb (x % 2 ^ 64) m)
        then hi
        else x % 2 ^ 64)
      ≡ min x hi
clamp_lem m x hi h k l = ground arith

-- For int64 settings, while doubling the minimum delay attempt by attempt loses no bit of 64, the
-- base delay is the smaller of the doubled minimum and the maximum.
pub base_delay-min :
    (c : RetryConfig) (attempt : ℕ)
    → IsConfig c
    → min_base c * 2 ^ (attempt - 1) < 2 ^ 64
    → base_delay c attempt ≡ min (min_base c * 2 ^ (attempt - 1)) (max_base c)
unfolding base_delay
base_delay-min c attempt f h =
    clamp_lem (min_base c) (min_base c * 2 ^ (attempt - 1)) (max_base c)
      (le-shifted (min_base c) (attempt - 1)) h (ground arith)

-- If the random source keeps its bound and the maximum is at most 2^62 nanoseconds, the delay of
-- every attempt is at least the base delay and below twice the maximum: it does not overflow.
pub calculate_retry_backoff_bounds :
    (int63n : ℕ → ℕ) (c : RetryConfig) (attempt : ℕ)
    → ((n : ℕ) → 0 < n → int63n n < n)
    → 1 ≤ attempt
    → max_base c ≤ 2 ^ 62
    → (base_delay c attempt ≤ calculate_retry_backoff int63n c attempt)
      × (calculate_retry_backoff int63n c attempt < 2 * max_base c)
unfolding calculate_retry_backoff
calculate_retry_backoff_bounds int63n c attempt r h m = ground (
  arith,
  base_delay_bounds c attempt,
  r (base_delay c attempt),
  mod-eq_of_lt {n = base_delay c attempt + int63n (base_delay c attempt)},
)
