-- ===== src/Transport.antt =====
-- s2/append.go: the transport of an append session. The request and the response are parameters:
-- what a write returns, and what the response holds. `acks` and `errors` are the contents of the
-- two channels; `poisoned` says that the connection was taken out of its pool.
pub mod Laws
pub mod Frames
pub mod Reading
mod Examples
use Prim.Native.String.{String}
use s2_sdk_go.Prelude.{
  ℕ, Bool, true, false, not, ◌&&◌, Option, none, some, List, [], ◌∷◌, ◌++◌, if◌then◌else◌, ltb, leb,
  ◌-◌, ◌+◌, is_empty,
}
use s2_sdk_go.Errors.{Err, S2Error, StreamPosition, s2_error, plain, wrapped, session_closed}
use s2_sdk_go.Errors.Decode.{Library, decode_api_error}
use s2_sdk_go.Framing.Types.{S2SFrame, Codec, CompressionType, decompressed_body}
use s2_sdk_go.Framing.Encode.{marshal_proto_frame}
use s2_sdk_go.Records.{AppendInput}
use s2_sdk_go.Reconnect.{is_server_draining}

pub record AppendAck : Type 0 where
  pub start : StreamPosition
  pub end : StreamPosition
  pub tail : StreamPosition

pub record Transport : Type 0 where
  pub closed : Bool
  pub writer : Bool
  pub conn : Bool
  pub half_closed : Bool
  pub pending_writes : ℕ
  pub terminal_err : Option Err
  pub reconnect_advised : Bool
  pub reconnect_declined : Bool
  pub poisoned : Bool
  pub acks : List AppendAck
  pub acks_closed : Bool
  pub errors : List Err
  pub errors_closed : Bool

-- `createAppendSession`, with what `start` sets before it connects.
unfoldable pub create_append_session : Transport
create_append_session = record {
  closed = false;
  writer = true;
  conn = false;
  half_closed = false;
  pending_writes = 0;
  terminal_err = none;
  reconnect_advised = false;
  reconnect_declined = false;
  poisoned = false;
  acks = [];
  acks_closed = false;
  errors = [];
  errors_closed = false;
}

unfoldable pub keep_first : Option Err → Err → Option Err
keep_first (some old) e = some old
keep_first none e = some e

unfoldable pub record_terminal_error : Transport → Err → Transport
record_terminal_error p e = record p { terminal_err = keep_first p.terminal_err e }

-- `errorsCh` has room for one error. On a closed session the select may pick either case:
-- `dropped` says that it was the first one.
unfoldable pub report_error : Transport → Err → Bool → Transport
report_error p e dropped =
    let q = record_terminal_error p e in
    if q.closed && dropped then q else if is_empty q.errors then record q { errors = e ∷ [] } else q

unfoldable pub report_error_if_open : Transport → Err → Transport
report_error_if_open p e = if p.closed then p else report_error p e false

unfoldable pub terminal_or_closed : Option Err → Err
terminal_or_closed (some e) = e
terminal_or_closed none = session_closed

unfoldable pub mark_write_signalled : Transport → Transport
mark_write_signalled p = record p { pending_writes = p.pending_writes + 1 }

unfoldable pub mark_ack_received : Transport → Transport
mark_ack_received p = record p {
  pending_writes = if ltb 0 p.pending_writes then p.pending_writes - 1 else p.pending_writes;
}

unfoldable pub effect_signalled : Transport → Bool
effect_signalled p = ltb 0 p.pending_writes

unfoldable pub hold_inputs_for_reconnect : Transport → Bool
hold_inputs_for_reconnect p = p.reconnect_advised && not p.reconnect_declined

unfoldable pub decline_reconnect : Transport → Transport
decline_reconnect p = record p { reconnect_declined = true }

unfoldable pub half_close : Transport → Transport
half_close p = if p.half_closed then p else record p { half_closed = true; writer = false }

unfoldable pub close : Transport → Transport
close p = if p.closed then p else record p { closed = true; writer = false; conn = false }

-- What came of `writer.Write`: nothing wrong, or an error, by which time the session may have met
-- a terminal error or its end.
pub record WriteFailure : Type 0 where
  pub terminal : Option Err
  pub closed : Bool

unfoldable pub write_error : WriteFailure → Err
write_error f = elim f.terminal [
  | some e ↦ e
  | none ↦ if f.closed then session_closed else plain "failed to write frame"
]

module _ {C : Type 0} (codec : Codec) (marshal : AppendInput C → Option (List ℕ))
    (compression : CompressionType) where
  unfoldable pub send : Transport → Option WriteFailure → Transport × Option Err
  send p none = (mark_write_signalled p, none)
  send p (some f) = (mark_write_signalled p, some (write_error f))

  unfoldable pub with_frame :
      Transport → Option (List ℕ) → Option WriteFailure → Transport × Option Err
  with_frame p none w = (p, some (plain "failed to marshal append input"))
  with_frame p (some frame) w =
      if not p.writer then (p, some (terminal_or_closed p.terminal_err)) else send p w

  unfoldable pub append_input :
      Transport → AppendInput C → Option WriteFailure → Transport × Option Err
  append_input p input w =
      if p.closed
      then (p, some (terminal_or_closed p.terminal_err))
      else with_frame p (marshal_proto_frame codec marshal input compression) w

-- What the request comes back with: an error of `Do`, a reset stream with the text of its error,
-- a failure status with its body, one whose body could not be read, or a response to read.
pub data Response : Type 0 where
  not_sent : Err → Response
  reset : String → Response
  rejected : ℕ → List ℕ → Response
  unreadable : ℕ → String → Response
  opened : Response

-- `markAckReceived` and the like aside, the rest is the reading of the response. `text` is
-- `string(body)`, `parse_ack` the protobuf decoding with `convertPbAppendAck`.
module _ (codec : Codec) (lib : Library) (text : List ℕ → String)
    (parse_ack : List ℕ → Option AppendAck) where
  unfoldable pub poison_if : Bool → Transport → Transport
  poison_if b p = if b then record p { poisoned = true } else p

  unfoldable pub failed_status : Transport → Err → Transport × Option Err
  failed_status p e = (poison_if (is_server_draining e) p, some e)

  unfoldable pub on_terminal : Transport → Option ℕ → List ℕ → Transport × Option Err
  on_terminal p none body = (p, none)
  on_terminal p (some status) body =
      if leb 400 status
      then failed_status p (decode_api_error lib status (text body))
      else (p, none)

  unfoldable pub advise : Transport → Bool → Transport
  advise p advised =
      if advised && not p.reconnect_advised
      then record p { reconnect_advised = true; poisoned = true }
      else p

  -- The select that hands the ack over: on a closed session it may be dropped.
  unfoldable pub on_ack : Transport → Option AppendAck → Bool → Transport × Option Err
  on_ack p none dropped = (p, some (plain "failed to parse AppendAck"))
  on_ack p (some ack) dropped =
      (if p.closed && dropped then p else record p { acks = p.acks ++ (ack ∷ []) }, none)

  unfoldable pub on_body : Transport → S2SFrame → Option (List ℕ) → Bool → Transport × Option Err
  on_body p frame none dropped = (p, some (plain "failed to decompress frame"))
  on_body p frame (some body) dropped =
      if frame.terminal
      then on_terminal p frame.status_code body
      else on_ack (advise p frame.reconnect_advised) (parse_ack body) dropped

  unfoldable pub handle_frame : Transport → S2SFrame → Bool → Transport × Option Err
  handle_frame p frame dropped = on_body p frame (decompressed_body codec frame) dropped

  -- The deferred calls of `readAcksLoop`: the channels are closed, `errorsCh` first.
  unfoldable pub finish_reading : Transport → Transport
  finish_reading p = close (record p { errors_closed = true; acks_closed = true })

  -- How the stream of frames ends: as expected, or with an error.
  unfoldable pub after_frame : (Transport → Transport) → Transport × Option Err → Transport
  after_frame rest (p, none) = rest p
  after_frame rest (p, some e) = finish_reading (report_error_if_open p e)

  unfoldable pub read_acks_loop : Transport → List (S2SFrame × Bool) → Option Err → Transport
  read_acks_loop p [] none = finish_reading p
  read_acks_loop p [] (some e) = finish_reading (report_error_if_open p e)
  read_acks_loop p ((f, dropped) ∷ fs) ending =
      after_frame (λ q. read_acks_loop q fs ending) (handle_frame p f dropped)

  unfoldable pub make_stream_reset_error : String → Err
  make_stream_reset_error message =
      s2_error
        (record { message = message; code = "STREAM_RESET"; status = 502; origin = "network" })

  unfoldable pub new_body_read_error : ℕ → String → Err
  new_body_read_error status message =
      s2_error (record { message = message; code = ""; status = status; origin = "network" })

  unfoldable pub refuse : Transport → Err → Bool → Transport
  refuse p e dropped = report_error (poison_if (is_server_draining e) p) e dropped

  -- The transport, and whether the reading loop starts. `wrapped` is `fmt.Errorf` with `%w`.
  unfoldable pub connect_and_read : Transport → Response → Bool → Transport × Bool
  connect_and_read p (not_sent e) dropped =
      (report_error p (wrapped "failed to connect" e) dropped, false)
  connect_and_read p (reset message) dropped =
      (report_error p (make_stream_reset_error message) dropped, false)
  connect_and_read p (rejected status body) dropped =
      (refuse p (decode_api_error lib status (text body)) dropped, false)
  connect_and_read p (unreadable status message) dropped =
      (refuse p (new_body_read_error status message) dropped, false)
  connect_and_read p opened dropped =
      if p.closed then (p, false) else (record p { conn = true }, true)
