-- ===== src/Framing/Parser/Decode.antt =====
-- What a frame parser promises, on the plain list of bytes: `decode` reads one frame off the front.
use s2_sdk_go.Prelude.{
  ℕ, ◌+◌, ◌-◌, ◌*◌, ◌^◌, not, ◌&&◌, Option, none, some, List, ◌∷◌, if◌then◌else◌, ◌==◌, ltb, leb,
  length, take, drop, bit_and,
}
use s2_sdk_go.Framing.Types.{max_frame_size, flag_reconnect_advised, S2SFrame}
use s2_sdk_go.Framing.Parser.{
  S2SFrameParser, ParseError, invalid_length, missing_status_code, frame_too_large,
  unknown_compression_type, Parsed, incomplete, failed, parsed, unread, compression_bits,
  is_terminal,
}

pub data Decoded : Type 0 where
  more : Decoded
  bad : ParseError → Decoded
  done : S2SFrame → List ℕ → Decoded

-- A parser's answer with what it leaves unread.
abbrev pub outcome : S2SFrameParser × Parsed → Decoded
outcome (p, incomplete) = more
outcome (p, failed e) = bad e
outcome (p, parsed f) = done f (unread p)

abbrev pub frame_of : ℕ → Option ℕ → List ℕ → S2SFrame
frame_of flag status body = record {
  terminal = is_terminal flag;
  compression = compression_bits flag;
  status_code = status;
  body = body;
  reconnect_advised = not (is_terminal flag) && not (bit_and flag flag_reconnect_advised == 0);
}

-- A terminal frame's body stands behind its two-byte status.
abbrev pub decode_terminal : ℕ → List ℕ → List ℕ → Decoded
decode_terminal flag (hi ∷ lo ∷ body) rest = done (frame_of flag (some (hi * 2 ^ 8 + lo)) body) rest
decode_terminal flag _ rest = bad missing_status_code

unfoldable pub decode_payload : ℕ → List ℕ → List ℕ → Decoded
decode_payload flag body rest =
    if leb 3 (compression_bits flag)
    then bad (unknown_compression_type (compression_bits flag))
    else if is_terminal flag
    then decode_terminal flag body rest
    else done (frame_of flag none body) rest

abbrev pub decode_sized : ℕ → ℕ → List ℕ → Decoded
decode_sized len flag tail =
    if len == 0
    then bad invalid_length
    else if ltb max_frame_size len
    then bad (frame_too_large len)
    else if ltb (length tail + 1) len
    then more
    else decode_payload flag (take (len - 1) tail) (drop (len - 1) tail)

unfoldable pub decode : List ℕ → Decoded
decode (a ∷ b ∷ c ∷ flag ∷ tail) = decode_sized (a * 2 ^ 16 + b * 2 ^ 8 + c) flag tail
decode _ = more
