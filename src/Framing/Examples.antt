-- ===== src/Framing/Examples.antt =====
-- Runs of the frame codec and the reader on small inputs, with a toy codec and a reader that
-- hands out one byte at a time.
use s2_sdk_go.Prelude.{
  ℕ, zero, suc, ◌<◌, ◌≡◌, refl, Bool, true, false, Option, none, some, List, [], ◌∷◌, ◌++◌, length,
  arith, if◌then◌else◌, ◌%◌, ◌^◌, ◌≤◌,
}
use s2_sdk_go.Framing.Types.{Codec, IsLossless, S2SFrame, decompressed_body, max_frame_size}
use s2_sdk_go.Framing.Encode.{
  create_frame_with_status, marshal_proto_frame, select_compression, payload_len,
}
use s2_sdk_go.Framing.Parser.{S2SFrameParser, push, unread, parse_frame}
use s2_sdk_go.Framing.Parser.Buffer.{IsValid}
use s2_sdk_go.Framing.Parser.Decode.{done, outcome, decode}
use s2_sdk_go.Framing.Parser.Refinement.{parse_frame-decode}
use s2_sdk_go.Framing.RoundTrip.{parse_frame-create_frame, parse_frame-marshal_proto_frame}
use s2_sdk_go.Framing.Reader.{IoReader, IoError, eof, FrameReader, read_frame}
use s2_sdk_go.Framing.Reader.Laws.{IsReader, IsReady, remaining}
use s2_sdk_go.Framing.Reader.Progress.{Answers, read_frame-Answers}

-- A codec that only marks what it has encoded.
untag : List ℕ → Option (List ℕ)
untag [] = none
untag (t ∷ d) = some d

abbrev tagging : Codec
tagging = record {
  zstd_encode_all = λ d. 0x28 ∷ d;
  zstd_decode_all = untag;
  gzip_write = λ d. some (0x1f ∷ d);
  gzip_read = untag;
}

tagging-IsLossless : IsLossless tagging
unfolding untag
tagging-IsLossless = record { zstd_lossless = λ d. refl; gzip_lossless = λ d c e. ground arith }

abbrev idle_parser : S2SFrameParser
idle_parser = record { buffer = 9 ∷ []; cap = 16; off = 1; need = 0 }

idle_parser-IsValid : IsValid idle_parser
idle_parser-IsValid = omega arith

short_frame :
    (t : Bool) → payload_len t (select_compression tagging (7 ∷ 8 ∷ []) 1).0 ≤ max_frame_size
unfolding payload_len select_compression
short_frame true = omega arith
short_frame false = omega arith

parse_frame-create_frame_example :
    (f : S2SFrame) × (outcome (
        parse_frame
          (push idle_parser (create_frame_with_status tagging (7 ∷ 8 ∷ []) true 1 404 ++ (5 ∷ []))))
      ≡ done f (5 ∷ []))
    × (decompressed_body tagging f ≡ some (7 ∷ 8 ∷ []))
    × (f.terminal ≡ true)
    × (f.status_code ≡ (if true then some (404 % 2 ^ 16) else none))
    × (f.reconnect_advised ≡ false)
parse_frame-create_frame_example =
    parse_frame-create_frame tagging tagging-IsLossless idle_parser idle_parser-IsValid refl
      (7 ∷ 8 ∷ []) true 1 404 (5 ∷ []) (short_frame true)

parse_frame-marshal_proto_frame_example :
    (bytes : List ℕ) × (f : S2SFrame) × (marshal_proto_frame tagging some (7 ∷ 8 ∷ []) 1
      ≡ some bytes)
    × (outcome (parse_frame (push idle_parser (bytes ++ []))) ≡ done f [])
    × (decompressed_body tagging f ≡ some (7 ∷ 8 ∷ []))
    × (f.terminal ≡ false)
parse_frame-marshal_proto_frame_example =
    parse_frame-marshal_proto_frame tagging tagging-IsLossless idle_parser idle_parser-IsValid refl
      some (7 ∷ 8 ∷ []) 1 (7 ∷ 8 ∷ []) [] refl (short_frame false)

parse_frame-decode_example :
    outcome (parse_frame (push idle_parser (0 ∷ 0 ∷ 1 ∷ 0 ∷ 7 ∷ [])))
    ≡ decode (unread (push idle_parser (0 ∷ 0 ∷ 1 ∷ 0 ∷ 7 ∷ [])))
parse_frame-decode_example = parse_frame-decode (push idle_parser (0 ∷ 0 ∷ 1 ∷ 0 ∷ 7 ∷ []))

dribble : List ℕ → ℕ → List ℕ × Option IoError × List ℕ
dribble [] k = ([], some eof, [])
dribble (b ∷ bs) zero = ([], none, b ∷ bs)
dribble (b ∷ bs) (suc k) = (b ∷ [], none, bs)

abbrev dribbling : IoReader
dribbling = record { State = List ℕ; read = dribble }

abbrev self : List ℕ → List ℕ
self s = s

dribble_within : (s : List ℕ) (k : ℕ) → length (dribble s k).0 ≤ k
unfolding dribble
dribble_within [] k = omega arith
dribble_within (b ∷ bs) zero = omega arith
dribble_within (b ∷ bs) (suc k) = omega arith

dribble_delivers : (s : List ℕ) (k : ℕ) → s ≡ (dribble s k).0 ++ (dribble s k).2
unfolding dribble
dribble_delivers [] k = refl
dribble_delivers (b ∷ bs) zero = refl
dribble_delivers (b ∷ bs) (suc k) = refl

dribble_at_end : (s : List ℕ) (k : ℕ) → (dribble s k).1 ≡ some eof → (dribble s k).2 ≡ []
unfolding dribble
dribble_at_end [] k h = refl
dribble_at_end (b ∷ bs) zero h = cc
dribble_at_end (b ∷ bs) (suc k) h = cc

dribble_moves : (s : List ℕ) (k : ℕ) → 0 < k → (dribble s k).1 ≡ none → 0 < length (dribble s k).0
unfolding dribble
dribble_moves [] k p h = cc
dribble_moves (b ∷ bs) zero p h = absurd (omega arith)
dribble_moves (b ∷ bs) (suc k) p h = omega arith

dribbling-IsReader : IsReader dribbling self
dribbling-IsReader = record {
  within = dribble_within;
  delivers = dribble_delivers;
  at_end = dribble_at_end;
}

abbrev starting : FrameReader dribbling
starting = record {
  reader = 0 ∷ 0 ∷ 2 ∷ 0 ∷ 7 ∷ [];
  parser = record { buffer = []; cap = 8; off = 0; need = 0 };
  pending_err = none;
}

starting-IsReady : IsReady dribbling self starting
starting-IsReady = record { valid = omega arith; ended = λ h. cc }

read_frame-Answers_example :
    Answers dribbling self dribbling-IsReader dribble_moves
      (remaining dribbling self starting)
      (read_frame dribbling 2_100_000 starting)
read_frame-Answers_example =
    read_frame-Answers dribbling self dribbling-IsReader dribble_moves 2_100_000 starting
      starting-IsReady (omega arith)
