-- ===== src/AppendSession/Examples.antt =====
-- The theorem at concrete options.
use s2_sdk_go.Prelude.{ℕ, ◌*◌, ◌≡◌, refl, false, [], ◌∷◌, none, some, inr, pos}
use s2_sdk_go.Errors.{Err, s2_error, as_s2_error}
use s2_sdk_go.Reconnect.{is_server_draining, draining}
use s2_sdk_go.Transport.{create_append_session}
use s2_sdk_go.AppendSession.State.{InflightEntry, AppendSession}
use s2_sdk_go.AppendSession.Submission.{new_append_session}
use s2_sdk_go.AppendSession.Failures.{handle_claimed_session_error}
use s2_sdk_go.AppendSession.Policy.{IsResolved, handle_claimed-IsResolved}
use s2_sdk_go.Retry.{RetryConfig, config_or_default}
use s2_sdk_go.AppendSession.{
  AppendSessionOptions, override, fill, with_defaults, apply_append_session_defaults,
}
use s2_sdk_go.AppendSession.Options.{IsUsable, apply_append_session_defaults-Stable}

abbrev own_retry : RetryConfig
own_retry = record {
  max_attempts = pos 7;
  min_base_delay = pos 0;
  max_base_delay = pos 0;
  append_retry_policy = "noSideEffects";
}

abbrev client_retry : RetryConfig
client_retry = record {
  max_attempts = pos 2;
  min_base_delay = pos 5;
  max_base_delay = pos 0;
  append_retry_policy = "";
}

abbrev given : AppendSessionOptions ℕ
given = record {
  max_inflight_bytes = 0;
  max_inflight_batches = 4;
  retry_config = some own_retry;
  stream_config = none;
}

abbrev applied : AppendSessionOptions ℕ
applied = record {
  max_inflight_bytes = 5 * 1024 * 1024;
  max_inflight_batches = 4;
  retry_config = some (record {
    max_attempts = pos 7;
    min_base_delay = pos 5;
    max_base_delay = pos 1_000_000_000;
    append_retry_policy = "noSideEffects";
  });
  stream_config = none;
}

given-applied : apply_append_session_defaults (some given) (some client_retry) ≡ inr applied
unfolding apply_append_session_defaults with_defaults fill override config_or_default
given-applied = refl

apply_append_session_defaults-Stable_example :
    IsUsable applied × (apply_append_session_defaults (some applied) none ≡ inr applied)
apply_append_session_defaults-Stable_example =
    apply_append_session_defaults-Stable (some given) (some client_retry) none applied given-applied

abbrev throttled : Err
throttled =
    s2_error
      (record { message = "slow down"; code = "rate_limited"; status = 429; origin = "server" })

abbrev sent_entry : InflightEntry ℕ
sent_entry = record {
  input = record {
    records = record { timestamp = none; headers = []; body = [] } ∷ [];
    match_seq_num = none;
    fencing_token = none;
    stream_config = none;
  };
  expected_count = 1;
  metered_bytes = 8;
  attempt_start = 70;
  request_timeout = pos 0;
  result_ch = 4;
  completed = false;
  sent_on_sessions = 0 ∷ [];
  prior_uncertainty = false;
}

abbrev failing : AppendSession ℕ
failing = record (new_append_session applied (λ n. create_append_session)) {
  inflight_queue = sent_entry ∷ [];
  failures_pending = 1;
  next_session = 1;
}

not_draining : is_server_draining throttled ≡ false
unfolding is_server_draining draining as_s2_error
not_draining = refl

handle_claimed-IsResolved_example :
    IsResolved failing 0 throttled (handle_claimed_session_error (λ n. 0) failing 0 throttled 90)
handle_claimed-IsResolved_example =
    handle_claimed-IsResolved (λ n. 0) failing 0 throttled 90 not_draining
