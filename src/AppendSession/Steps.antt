-- ===== src/AppendSession/Steps.antt =====
-- What happens to one append session, in any order: submissions, acknowledgements, failures, the
-- pump, and closing. Acks, errors, write outcomes and times are arbitrary; a transport changes only
-- in ways that do not open it again.
use s2_sdk_go.Prelude.{
  length, ℕ, ◌≡◌, ◌≢◌, Bool, true, false, Option, none, some, List, [], ◌∷◌, ◌++◌, ◌⊎◌, ℤ,
}
use s2_sdk_go.Context.{ContextError}
use s2_sdk_go.Errors.{Err}
use s2_sdk_go.Framing.Types.{Codec, CompressionType}
use s2_sdk_go.Records.{AppendInput}
use s2_sdk_go.Capacity.{attempt, reserved}
use s2_sdk_go.Transport.{Transport, AppendAck, WriteFailure}
use s2_sdk_go.AppendSession.{AppendSessionOptions}
use s2_sdk_go.AppendSession.State.{AppendSession, update}
use s2_sdk_go.AppendSession.Acks.{Reader, process_ack}
use s2_sdk_go.AppendSession.Failures.{
  request_timed_out, claim, claim_overdue, handle_claimed_session_error, handle_reconnect_advice,
  check_timeouts,
}
use s2_sdk_go.AppendSession.Pump.{process_inflight_queue, should_stop_pump, pump_done}
use s2_sdk_go.AppendSession.Submission.{
  new_append_session, enqueue_reserved_entry, begin_close, cancel_pump, finish_close,
}

-- The session with the sizes that submissions hold a reservation for, the result channel and the
-- number of records of each entry enqueued, the latest last, and the failures claimed and not yet resolved.
pub record World (C : Type 0) : Type 0 where
  pub session : AppendSession C
  pub held : List ℕ
  pub enqueued : List (ℕ × ℕ)
  pub failures : List (ℕ × Err)

-- What is the same for all steps: the client's codec and compression, and the random source.
pub record Client (C : Type 0) : Type 0 where
  pub codec : Codec
  pub marshal : AppendInput C → Option (List ℕ)
  pub compression : CompressionType
  pub int63n : ℕ → ℕ

module _ {C : Type 0} where
  abbrev pub on : World C → AppendSession C → World C
  on w r = record w { session = r }

  -- An entry is in, or its reservation is released.
  abbrev pub after_enqueue : World C → List ℕ → ℕ × ℕ → AppendSession C × Bool → World C
  after_enqueue w held t (r, true) = record w {
    session = r;
    held = held;
    enqueued = w.enqueued ++ (t ∷ []);
  }
  after_enqueue w held t (r, false) = record w { session = r; held = held }

  abbrev pub after_claim : World C → ℕ → Err → AppendSession C × Bool → World C
  after_claim w s err (r, true) = record w { session = r; failures = (s, err) ∷ w.failures }
  after_claim w s err (r, false) = on w r

  abbrev pub after_overdue : World C → AppendSession C × Option ℕ → World C
  after_overdue w (r, some s) = record w {
    session = r;
    failures = (s, request_timed_out) ∷ w.failures;
  }
  after_overdue w (r, none) = on w r

  pub data Step (client : Client C) (w : World C) : World C → Type 0 where
    reserves :
        (size : ℕ)
        → (attempt w.session.capacity w.session.pump_ctx size).1 ≡ reserved
        → Step client w (record w {
          session = record (w.session) {
            capacity = (attempt w.session.capacity w.session.pump_ctx size).0;
          };
          held = size ∷ w.held;
        })
    enqueues :
        (before after : List ℕ) (input : AppendInput C) (size : ℕ) (request_timeout : ℤ) (ch : ℕ)
        → w.held ≡ before ++ (size ∷ after)
        → Step client w (
            after_enqueue w
              (before ++ after)
              (ch, length input.records)
              (enqueue_reserved_entry w.session input size request_timeout ch))
    acks :
        (rd : Reader) (s : ℕ) (ack : Option AppendAck) (now : ℕ)
        → Step client w (on w (process_ack w.session rd s ack now).0)
    breaks : (s : ℕ) (err : Err) → Step client w (after_claim w s err (claim w.session s))
    runs_late : (now : ℕ) → Step client w (after_overdue w (claim_overdue w.session now))
    resolves :
        (before after : List (ℕ × Err)) (s : ℕ) (err : Err) (now : ℕ)
        → w.failures ≡ before ++ ((s, err) ∷ after)
        → Step client w (record w {
          session = handle_claimed_session_error client.int63n w.session s err now;
          failures = before ++ after;
        })
    ends :
        (s now : ℕ) → Step client w (on w (handle_reconnect_advice client.int63n w.session s now))
    pumps :
        (writes : ℕ → Option WriteFailure) (create : Err ⊎ Transport) (now : ℕ)
        → Step client w (
            on w (
              process_inflight_queue client.codec client.marshal client.compression writes
                client.int63n w.session create now))
    checks : (now : ℕ) → Step client w (on w (check_timeouts client.int63n w.session now))
    stops : Step client w (on w (should_stop_pump w.session).0)
    expires :
        (e : ContextError)
        → w.session.pump_ctx ≡ none
        → Step client w (on w (record (w.session) { pump_ctx = some e }))
    gives_up : w.session.pump_ctx ≢ none → Step client w (on w (pump_done w.session))
    closes : Step client w (on w (begin_close w.session))
    cancels : w.session.close_done ≡ true → Step client w (on w (cancel_pump w.session))
    finishes :
        w.session.close_done ≡ true
        → w.session.closed ≡ true
        → Step client w (on w (finish_close w.session))
    changes :
        (s : ℕ) (t : Transport)
        → ((w.session.transports s).closed ≡ true → t.closed ≡ true)
        → Step client w (on w (record (w.session) { transports = update w.session.transports s t }))

  pub data Reach (client : Client C) (w : World C) : World C → Type 0 where
    here : Reach client w w
    next : {u v : World C} → Reach client w u → Step client u v → Reach client w v

  abbrev pub fresh : AppendSessionOptions C → (ℕ → Transport) → World C
  fresh o transports = record {
    session = new_append_session o transports;
    held = [];
    enqueued = [];
    failures = [];
  }
