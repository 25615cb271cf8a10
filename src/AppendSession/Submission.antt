-- ===== src/AppendSession/Submission.antt =====
-- s2/append_session.go: how a batch comes in, and how the session closes. Each function is a part
-- of its Go function between two waits.
use s2_sdk_go.Prelude.{
  ℕ, Bool, true, false, Option, none, some, List, [], ◌∷◌, ◌++◌, if◌then◌else◌, ◌⊎◌, inl, inr, ℤ,
  pos, negsuc, length, ltb, ◌%◌, ◌^◌, ◌-◌,
}
use s2_sdk_go.Errors.{session_closed}
use s2_sdk_go.Records.{
  AppendInput, ValidationError, Validated, valid, invalid, prepare_append_input,
  validate_append_input,
}
use s2_sdk_go.Retry.{config_or_default}
use s2_sdk_go.Capacity.{CapacityTracker, new_capacity_tracker}
use s2_sdk_go.Capacity
use s2_sdk_go.Transport.{Transport}
use s2_sdk_go.AppendSession.{AppendSessionOptions}
use s2_sdk_go.AppendSession.State.{
  InflightEntry, InflightResult, failed, AppendSession, sessions_of, to_list, release_all,
  close_all_sessions, keep_cancel, wakeup_pump,
}

pub data SubmitError : Type 0 where
  closed_session : SubmitError
  bad_input : ValidationError → SubmitError

-- `int64(n)` of a uint64: from 2^63 on it is negative.
abbrev pub as_int64 : ℕ → ℤ
as_int64 n = let m = n % 2 ^ 64 in if ltb m (2 ^ 63) then pos m else negsuc (2 ^ 64 - 1 - m)

module _ {C : Type 0} where
  -- The session that `AppendSession` makes of options with their defaults; `transports` is what
  -- stands for the sessions that are not yet open. An int has 64 bits, and holds every uint32.
  unfoldable pub new_append_session : AppendSessionOptions C → (ℕ → Transport) → AppendSession C
  new_append_session o transports = record {
    retry_config = config_or_default o.retry_config;
    inflight_queue = [];
    session_refs = [];
    capacity = new_capacity_tracker (as_int64 o.max_inflight_bytes) (pos o.max_inflight_batches);
    current_session = none;
    failures_pending = 0;
    pump_ctx = none;
    closing = false;
    close_done = false;
    closed = false;
    last_acked_position = none;
    wakeup = false;
    current_attempt = 0;
    retry_at = 0;
    advised_reconnects = record { count = 0; last = 0 };
    transports = transports;
    next_session = 0;
    results = [];
  }

  unfoldable pub prepared_or :
      ValidationError ⊎ (AppendInput C × ℕ) → SubmitError ⊎ (AppendInput C × ℕ)
  prepared_or (inl e) = inl (bad_input e)
  prepared_or (inr p) = inr p

  -- What is reserved and enqueued for a call: an input with its size.
  unfoldable pub submit :
      AppendSession C → Option (AppendInput C) → SubmitError ⊎ (AppendInput C × ℕ)
  submit r input =
      if r.closing then inl closed_session else prepared_or (prepare_append_input input)

  unfoldable pub owned_or : AppendInput C → Validated → SubmitError ⊎ (AppendInput C × ℕ)
  owned_or i (invalid e) = inl (bad_input e)
  owned_or i (valid n) = inr (i, n)

  unfoldable pub submit_owned : AppendSession C → AppendInput C → SubmitError ⊎ (AppendInput C × ℕ)
  submit_owned r i =
      if r.closing then inl closed_session else owned_or i (validate_append_input (some i))

  -- `ch` is the new result channel.
  unfoldable pub new_entry : AppendInput C → ℕ → ℤ → ℕ → InflightEntry C
  new_entry input size request_timeout ch = record {
    input = input;
    expected_count = length input.records;
    metered_bytes = size;
    attempt_start = 0;
    request_timeout = request_timeout;
    result_ch = ch;
    completed = false;
    sent_on_sessions = [];
    prior_uncertainty = false;
  }

  -- `enqueueReservedEntry`, with the release of the reservation if the session is closing.
  unfoldable pub enqueue_reserved_entry :
      AppendSession C → AppendInput C → ℕ → ℤ → ℕ → AppendSession C × Bool
  enqueue_reserved_entry r input size request_timeout ch =
      if r.closing then (record r { capacity = Capacity.release r.capacity size }, false) else (
        wakeup_pump (record r {
          inflight_queue = r.inflight_queue ++ (new_entry input size request_timeout ch ∷ []);
        }),
        true,
      )

  -- `Close`: before it waits for the drain.
  unfoldable pub begin_close : AppendSession C → AppendSession C
  begin_close r = wakeup_pump (record r { closing = true; capacity = Capacity.close r.capacity })

  -- Behind that wait.
  unfoldable pub cancel_pump : AppendSession C → AppendSession C
  cancel_pump r = record r { closed = true; pump_ctx = keep_cancel r.pump_ctx }

  unfoldable pub close_results : List (InflightEntry C) → List (ℕ × InflightResult)
  close_results [] = []
  close_results (e ∷ es) =
      let rest = close_results es in
      if e.completed then rest else (e.result_ch, failed session_closed) ∷ rest

  -- Behind the end of the pump.
  unfoldable pub finish_close : AppendSession C → AppendSession C
  finish_close r = record r {
    results = r.results ++ close_results r.inflight_queue;
    capacity = release_all r.inflight_queue r.capacity;
    inflight_queue = [];
    session_refs = [];
    transports =
        close_all_sessions (sessions_of r.session_refs ++ to_list r.current_session) r.transports;
  }
