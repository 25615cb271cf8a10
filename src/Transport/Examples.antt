-- ===== src/Transport/Examples.antt =====
-- The reader of a transport at a stream of three frames, of which the second one ends it.
use Prim.Native.String.{String}
use s2_sdk_go.Prelude.{ℕ, ◌≡◌, refl, Bool, true, false, Option, none, some, List, [], ◌∷◌}
use s2_sdk_go.Errors.Decode.{Library}
use s2_sdk_go.Framing.Types.{S2SFrame, Codec}
use s2_sdk_go.Transport.{AppendAck, read_acks_loop, create_append_session}
use s2_sdk_go.Transport.Frames.{say}
use s2_sdk_go.Transport.Reading.{Ended, read_acks_loop-Ended}

abbrev stored : Codec
stored = record {
  zstd_encode_all = λ d. d;
  zstd_decode_all = some;
  gzip_write = some;
  gzip_read = some;
}

abbrev mute : Library
mute = record {
  trim_space = λ s. s;
  parse_object = λ s. none;
  parse_error_info = λ s. none;
  parse_tail = λ s. none;
  status_text = λ n. "";
  http_status = λ n. "";
}

abbrev no_text : List ℕ → String
no_text body = ""

abbrev third : AppendAck
third = record {
  start = record { seq_num = 2; timestamp = 1 };
  end = record { seq_num = 3; timestamp = 1 };
  tail = record { seq_num = 3; timestamp = 1 };
}

abbrev ack_of : List ℕ → Option AppendAck
ack_of body = some third

abbrev ack_frame : S2SFrame
ack_frame = record {
  terminal = false;
  compression = 0;
  status_code = none;
  body = 1 ∷ [];
  reconnect_advised = true;
}

abbrev end_frame : S2SFrame
end_frame = record {
  terminal = true;
  compression = 0;
  status_code = some 503;
  body = [];
  reconnect_advised = false;
}

abbrev three_frames : List (S2SFrame × Bool)
three_frames = (ack_frame, false) ∷ (end_frame, false) ∷ (ack_frame, true) ∷ []

opened : create_append_session.closed ≡ false
unfolding create_append_session
opened = refl

no_errors : create_append_session.errors ≡ []
unfolding create_append_session
no_errors = refl

read_acks_loop-Ended_example :
    Ended stored mute no_text ack_of create_append_session
      (read_acks_loop stored mute no_text ack_of create_append_session three_frames none)
      (say stored mute no_text ack_of three_frames none)
read_acks_loop-Ended_example =
    read_acks_loop-Ended stored mute no_text ack_of create_append_session three_frames none opened
      no_errors
