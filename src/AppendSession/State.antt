-- ===== src/AppendSession/State.antt =====
-- s2/append_session.go: the state of an append session and the helpers on its queue. A transport
-- session is known by its number in `transports`, a result channel by its own; `results` lists
-- what was sent on result channels, the latest last. Each handler is modelled as one step, which
-- others do not interrupt, except where its parts are functions of their own. Times are as in
-- Reconnect: 0 is the zero time. Logging is left out.
use s2_sdk_go.Prelude.{
  ℕ, ◌-◌, Bool, true, false, not, ◌&&◌, ◌||◌, Option, none, some, List, [], ◌∷◌, ◌++◌,
  if◌then◌else◌, ◌==◌, leb, ℤ, is_empty,
}
use s2_sdk_go.Context.{ContextError, canceled}
use s2_sdk_go.Errors.{Err, with_prior_uncertainty}
use s2_sdk_go.Records.{AppendInput}
use s2_sdk_go.Retry.{RetryConfig}
use s2_sdk_go.Capacity.{CapacityTracker}
use s2_sdk_go.Capacity
use s2_sdk_go.Reconnect.{AdvisedReconnects}
use s2_sdk_go.Transport.{Transport, AppendAck}
use s2_sdk_go.Transport

pub record InflightEntry (C : Type 0) : Type 0 where
  pub input : AppendInput C
  pub expected_count : ℕ
  pub metered_bytes : ℕ
  pub attempt_start : ℕ
  pub request_timeout : ℤ
  pub result_ch : ℕ
  pub completed : Bool
  pub sent_on_sessions : List ℕ
  pub prior_uncertainty : Bool

pub data InflightResult : Type 0 where
  acked : AppendAck → InflightResult
  failed : Err → InflightResult

-- `pump_ctx` is `pumpCtx.Err()`. `retry_config` is `options.RetryConfig`, which the defaults set.
pub record AppendSession (C : Type 0) : Type 0 where
  pub retry_config : RetryConfig
  pub inflight_queue : List (InflightEntry C)
  pub session_refs : List (ℕ × ℕ)
  pub capacity : CapacityTracker
  pub current_session : Option ℕ
  pub failures_pending : ℕ
  pub pump_ctx : Option ContextError
  pub closing : Bool
  pub close_done : Bool
  pub closed : Bool
  pub last_acked_position : Option AppendAck
  pub wakeup : Bool
  pub current_attempt : ℕ
  pub retry_at : ℕ
  pub advised_reconnects : AdvisedReconnects
  pub transports : ℕ → Transport
  pub next_session : ℕ
  pub results : List (ℕ × InflightResult)

unfoldable pub update : (ℕ → Transport) → ℕ → Transport → ℕ → Transport
update f i t j = if i == j then t else f j

-- The map of reference counts, of which a missing key counts 0.
unfoldable pub refs_of : List (ℕ × ℕ) → ℕ → ℕ
refs_of [] s = 0
refs_of ((t, n) ∷ refs) s = if t == s then n else refs_of refs s

unfoldable pub has_refs : List (ℕ × ℕ) → ℕ → Bool
has_refs [] s = false
has_refs ((t, n) ∷ refs) s = (t == s) || has_refs refs s

unfoldable pub set_refs : List (ℕ × ℕ) → ℕ → ℕ → List (ℕ × ℕ)
set_refs [] s k = (s, k) ∷ []
set_refs ((t, n) ∷ refs) s k = if t == s then (t, k) ∷ refs else (t, n) ∷ set_refs refs s k

unfoldable pub delete_refs : List (ℕ × ℕ) → ℕ → List (ℕ × ℕ)
delete_refs [] s = []
delete_refs ((t, n) ∷ refs) s = if t == s then delete_refs refs s else (t, n) ∷ delete_refs refs s

unfoldable pub sessions_of : List (ℕ × ℕ) → List ℕ
sessions_of [] = []
sessions_of ((t, n) ∷ refs) = t ∷ sessions_of refs

unfoldable pub was_sent : List ℕ → ℕ → Bool
was_sent [] s = false
was_sent (t ∷ ts) s = (t == s) || was_sent ts s

-- `Close` on each of some sessions.
unfoldable pub close_all_sessions : List ℕ → (ℕ → Transport) → ℕ → Transport
close_all_sessions [] f = f
close_all_sessions (s ∷ ss) f = close_all_sessions ss (update f s (Transport.close (f s)))

abbrev pub is_session : Option ℕ → ℕ → Bool
is_session none s = false
is_session (some t) s = t == s

abbrev pub to_list {ℓ} : {A : Type ℓ} → Option A → List A
to_list none = []
to_list (some a) = a ∷ []

-- `closeStaleSessions`: the current session stays open.
unfoldable pub close_stale_sessions : List ℕ → Option ℕ → (ℕ → Transport) → ℕ → Transport
close_stale_sessions [] current f = f
close_stale_sessions (s ∷ ss) current f =
    close_stale_sessions ss current
      (if is_session current s then f else update f s (Transport.close (f s)))

-- `releaseEntrySessionsLocked` over the sessions of an entry: the map, and what is to be closed.
unfoldable pub release_next :
    (List (ℕ × ℕ) → List (ℕ × ℕ) × List ℕ) → ℕ → List (ℕ × ℕ) → List (ℕ × ℕ) × List ℕ
release_next rest s refs =
    if not (has_refs refs s)
    then rest refs
    else if leb (refs_of refs s) 1
    then (let (refs', ss) = rest (delete_refs refs s) in (refs', s ∷ ss))
    else rest (set_refs refs s (refs_of refs s - 1))

unfoldable pub release_entry_sessions : List ℕ → List (ℕ × ℕ) → List (ℕ × ℕ) × List ℕ
release_entry_sessions [] refs = (refs, [])
release_entry_sessions (s ∷ ss) refs = release_next (release_entry_sessions ss) s refs

-- `pumpCancel`: the context keeps the reason that it ended with first.
unfoldable pub keep_cancel : Option ContextError → Option ContextError
keep_cancel (some e) = some e
keep_cancel none = some canceled

module _ {C : Type 0} where
  unfoldable pub was_sent_on_session : InflightEntry C → ℕ → Bool
  was_sent_on_session e s = was_sent e.sent_on_sessions s

  unfoldable pub is_idempotent_entry : InflightEntry C → Bool
  is_idempotent_entry e = elim e.input.match_seq_num [ some n ↦ true | none ↦ false ]

  unfoldable pub close_session_if_unused : AppendSession C → ℕ → AppendSession C
  close_session_if_unused r s =
      if refs_of r.session_refs s == 0
      then record r {
        session_refs = delete_refs r.session_refs s;
        transports = update r.transports s (Transport.close (r.transports s));
      }
      else r

  unfoldable pub close_if_unused : AppendSession C → Option ℕ → AppendSession C
  close_if_unused r none = r
  close_if_unused r (some s) = close_session_if_unused r s

  -- `failAllInflightLocked` over the queue.
  unfoldable pub fail_results : List (InflightEntry C) → Err → List (ℕ × InflightResult)
  fail_results [] err = []
  fail_results (e ∷ es) err =
      let rest = fail_results es err in
      if e.completed
      then rest
      else (e.result_ch, failed (with_prior_uncertainty err e.prior_uncertainty)) ∷ rest

  unfoldable pub release_all : List (InflightEntry C) → CapacityTracker → CapacityTracker
  release_all [] c = c
  release_all (e ∷ es) c = release_all es (Capacity.release c e.metered_bytes)

  unfoldable pub fail_all_inflight : AppendSession C → Err → AppendSession C
  fail_all_inflight r err =
      let capacity = release_all r.inflight_queue r.capacity in
      record r {
        results = r.results ++ fail_results r.inflight_queue err;
        inflight_queue = [];
        session_refs = [];
        transports =
            close_all_sessions (sessions_of r.session_refs ++ to_list r.current_session)
              r.transports;
        closed = true;
        capacity = if r.closed then capacity else Capacity.close capacity;
        closing = true;
        close_done = true;
        pump_ctx = keep_cancel r.pump_ctx;
      }

  unfoldable pub wakeup_pump : AppendSession C → AppendSession C
  wakeup_pump r = record r { wakeup = true }

  unfoldable pub reset_attempt_starts : List (InflightEntry C) → List (InflightEntry C)
  reset_attempt_starts [] = []
  reset_attempt_starts (e ∷ es) = record e { attempt_start = 0 } ∷ reset_attempt_starts es

  unfoldable pub mark_uncertain : ℕ → List (InflightEntry C) → List (InflightEntry C)
  mark_uncertain s [] = []
  mark_uncertain s (e ∷ es) =
      (if was_sent_on_session e s then record e { prior_uncertainty = true } else e)
      ∷ mark_uncertain s es

  unfoldable pub has_unacked : ℕ → List (InflightEntry C) → Bool
  has_unacked s [] = false
  has_unacked s (e ∷ es) = (not e.completed && was_sent_on_session e s) || has_unacked s es

  -- Entries behind the head that were sent and name no sequence number to match.
  unfoldable pub sent_unmatched : List (InflightEntry C) → Bool
  sent_unmatched [] = false
  sent_unmatched (e ∷ es) =
      (not (is_idempotent_entry e) && not (is_empty e.sent_on_sessions)) || sent_unmatched es

  unfoldable pub has_non_idempotent_sent_pipelined : List (InflightEntry C) → Bool
  has_non_idempotent_sent_pipelined [] = false
  has_non_idempotent_sent_pipelined (e ∷ es) = sent_unmatched es
