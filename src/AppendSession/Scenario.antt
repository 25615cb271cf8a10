-- ===== src/AppendSession/Scenario.antt =====
-- The theorems over the life of a session at one run: a batch is reserved, enqueued, sent and
-- acknowledged; the session then closes, with the pump stopped first.
use s2_sdk_go.Prelude.{ℕ, ◌≡◌, ◌*◌, refl, true, false, Option, none, some, [], ◌∷◌, inr, pos}
use s2_sdk_go.Framing.Types.{compression_none}
use s2_sdk_go.Framing.Encode
use s2_sdk_go.Records.{AppendInput}
use s2_sdk_go.Capacity
use s2_sdk_go.Capacity.{attempt, reserved}
use s2_sdk_go.Transport.{
  Transport, AppendAck, WriteFailure, create_append_session, append_input, with_frame, send,
}
use s2_sdk_go.AppendSession.{AppendSessionOptions}
use s2_sdk_go.AppendSession.State.{AppendSession, acked}
use s2_sdk_go.AppendSession.Acks.{
  Reader, process_ack, handle_ack, handle_head, on_validated, complete, pop_acked, validate_ack,
  is_stale, ends_by, on_advice, set_transport,
}
use s2_sdk_go.AppendSession.State
use s2_sdk_go.Transport
use s2_sdk_go.AppendSession.Tracking.{Tracks}
use s2_sdk_go.AppendSession.Order.{IsOrdered, Reach-IsOrdered}
use s2_sdk_go.AppendSession.InFlight.{IsWithin, Reach-IsWithin}
use s2_sdk_go.AppendSession.Coherence.{IsTurnwise, Reach-IsTurnwise}
use s2_sdk_go.AppendSession.Closing.{IsWound, Reach-IsWound}
use s2_sdk_go.AppendSession.Finality.{IsFinal, Reach-IsFinal}
use s2_sdk_go.AppendSession.Pump.{
  process_inflight_queue, should_stop_pump, process_ready, after_get, get_session, session_or,
  open_session, submit_inflight_batches, submit_on_session, after_submit, submit_loop, mark_sent,
  keep_entry, after_write,
}
use s2_sdk_go.AppendSession.Submission.{
  new_append_session, new_entry, enqueue_reserved_entry, begin_close, cancel_pump, finish_close,
}
use s2_sdk_go.AppendSession.Steps.{
  World, Client, on, after_enqueue, reserves, enqueues, acks, pumps, stops, closes, cancels,
  finishes, Reach, here, next, fresh,
}

abbrev plain_client : Client ℕ
plain_client = record {
  codec = record {
    zstd_encode_all = λ d. d;
    zstd_decode_all = some;
    gzip_write = some;
    gzip_read = some;
  };
  marshal = λ i. some (1 ∷ 2 ∷ []);
  compression = compression_none;
  int63n = λ n. 0;
}

abbrev usable : AppendSessionOptions ℕ
usable = record {
  max_inflight_bytes = 2 * 1024 * 1024;
  max_inflight_batches = 4;
  retry_config = some (record {
    max_attempts = pos 3;
    min_base_delay = pos 100;
    max_base_delay = pos 1000;
    append_retry_policy = "all";
  });
  stream_config = none;
}

abbrev one_batch : AppendInput ℕ
one_batch = record {
  records = record { timestamp = none; headers = []; body = 7 ∷ 8 ∷ [] } ∷ [];
  match_seq_num = none;
  fencing_token = none;
  stream_config = none;
}

abbrev one_ack : AppendAck
one_ack = record {
  start = record { seq_num = 40; timestamp = 5 };
  end = record { seq_num = 41; timestamp = 5 };
  tail = record { seq_num = 41; timestamp = 5 };
}

abbrev first_look : Reader
first_look = record { advice_handled = false; reconnect_accepted = false }

abbrev unopened : ℕ → Transport
unopened n = create_append_session

abbrev all_written : ℕ → Option WriteFailure
all_written ch = none

abbrev w0 : World ℕ
w0 = fresh usable unopened

abbrev w1 : World ℕ
w1 = record w0 {
  session = record (w0.session) {
    capacity = (attempt w0.session.capacity w0.session.pump_ctx 10).0;
  };
  held = 10 ∷ [];
}

abbrev w2 : World ℕ
w2 = after_enqueue w1 [] (6, 1) (enqueue_reserved_entry w1.session one_batch 10 (pos 0) 6)

abbrev w3 : World ℕ
w3 = on w2 (
    process_inflight_queue plain_client.codec plain_client.marshal plain_client.compression
      all_written plain_client.int63n w2.session (inr create_append_session) 1000)

abbrev w4 : World ℕ
w4 = on w3 (process_ack w3.session first_look 0 (some one_ack) 1100).0

abbrev w5 : World ℕ
w5 = on w4 (begin_close w4.session)

abbrev w6 : World ℕ
w6 = on w5 (should_stop_pump w5.session).0

abbrev w7 : World ℕ
w7 = on w6 (cancel_pump w6.session)

abbrev w8 : World ℕ
w8 = on w7 (finish_close w7.session)

granted : (attempt w0.session.capacity w0.session.pump_ctx 10).1 ≡ reserved
unfolding attempt Capacity.reserve_locked Capacity.has_capacity new_append_session
    Capacity.new_capacity_tracker
granted = refl

-- The session has opened its transport 0, and waits for the ack.
acked_run : Reach plain_client w0 w4
acked_run =
    next
      (next (next (next here (reserves 10 granted)) (enqueues [] [] one_batch 10 (pos 0) 6 refl))
        (pumps all_written (inr create_append_session) 1000))
      (acks first_look 0 (some one_ack) 1100)

acked_results : w4.session.results ≡ (6, acked one_ack) ∷ []
unfolding process_ack handle_ack handle_head on_validated complete pop_acked validate_ack is_stale
    ends_by on_advice set_transport process_inflight_queue process_ready after_get get_session
    session_or open_session submit_inflight_batches submit_on_session after_submit submit_loop
    mark_sent keep_entry after_write append_input with_frame send enqueue_reserved_entry new_entry
    new_append_session State.wakeup_pump State.was_sent_on_session State.was_sent
    State.release_entry_sessions State.release_next State.has_refs State.refs_of State.set_refs
    State.delete_refs State.close_stale_sessions State.update Transport.mark_ack_received
    Transport.mark_write_signalled Transport.hold_inputs_for_reconnect
    Transport.create_append_session Encode.marshal_proto_frame Encode.create_frame
    Encode.create_frame_with_status Encode.select_compression Encode.payload_len
acked_results = refl

-- It has drained by then, so the pump may stop and the session close.
drained : w6.session.close_done ≡ true
unfolding should_stop_pump begin_close process_ack handle_ack handle_head on_validated complete
    pop_acked validate_ack is_stale ends_by on_advice set_transport process_inflight_queue
    process_ready after_get get_session session_or open_session submit_inflight_batches
    submit_on_session after_submit submit_loop mark_sent keep_entry after_write append_input
    with_frame send enqueue_reserved_entry new_entry new_append_session State.wakeup_pump
    State.was_sent_on_session State.was_sent State.release_entry_sessions State.release_next
    State.has_refs State.refs_of State.set_refs State.delete_refs State.close_stale_sessions
    State.update Transport.mark_ack_received Transport.mark_write_signalled
    Transport.hold_inputs_for_reconnect Transport.create_append_session Encode.marshal_proto_frame
    Encode.create_frame Encode.create_frame_with_status Encode.select_compression Encode.payload_len
drained = refl

closed_run : Reach plain_client w0 w7
closed_run = next (next (next acked_run closes) stops) (cancels drained)

closed_session : w7.session.closed ≡ true
unfolding cancel_pump
closed_session = refl

still_drained : w7.session.close_done ≡ true
unfolding cancel_pump
still_drained = drained

finished_run : Reach plain_client w7 w8
finished_run = next here (finishes still_drained closed_session)

Reach-IsOrdered_example : IsOrdered w4
Reach-IsOrdered_example = Reach-IsOrdered plain_client usable unopened acked_run

Reach-IsWithin_example : IsWithin usable w4
Reach-IsWithin_example = Reach-IsWithin plain_client usable unopened acked_run

Reach-IsTurnwise_example : IsTurnwise w4
Reach-IsTurnwise_example = Reach-IsTurnwise plain_client usable unopened acked_run

Reach-IsWound_example : IsWound w7.session
Reach-IsWound_example = Reach-IsWound plain_client usable unopened closed_run

Reach-IsFinal_example : Tracks w7.enqueued w7.session.results [] × IsFinal w7 w8
Reach-IsFinal_example =
    Reach-IsFinal plain_client usable unopened closed_run closed_session finished_run
