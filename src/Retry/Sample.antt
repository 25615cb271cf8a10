-- ===== src/Retry/Sample.antt =====
-- Sample rounds for the runs of both retry loops.
use s2_sdk_go.Prelude.{ℕ, none, pos, if◌then◌else◌, ◌==◌}
use s2_sdk_go.Errors.{S2Error, s2_error}
use s2_sdk_go.Retry.{RetryConfig, append_retry_policy_no_side_effects}
use s2_sdk_go.Retry.Loop.{Round, CallResult, returned, failed}

abbrev pub sample_config : RetryConfig
sample_config = record {
  max_attempts = pos 3;
  min_base_delay = pos 100;
  max_base_delay = pos 1000;
  append_retry_policy = append_retry_policy_no_side_effects;
}

abbrev pub draining : S2Error
draining = record { message = "drain"; code = "server_draining"; status = 503; origin = "server" }

abbrev pub quiet : CallResult ℕ → Round ℕ
quiet r = record {
  ctx_before = none;
  result = r;
  ctx_after = none;
  ctx_classify = none;
  jitter = λ n. 0;
  ctx_wait = λ d. none;
}

-- The first attempt meets a draining server, the others succeed.
abbrev pub second_time : ℕ → Round ℕ
second_time n = quiet (if n == 1 then failed (s2_error draining) else returned 42)

-- Every attempt meets a draining server.
abbrev pub always_draining : ℕ → Round ℕ
always_draining n = quiet (failed (s2_error draining))
