-- ===== src/Framing/RoundTrip.antt =====
-- The encoder of internal/framing against its parser.
use s2_sdk_go.Prelude.{
  ℕ, ◌%◌, ◌^◌, ◌≤◌, ◌≡◌, refl, ap, ◌∙◌, Bool, false, Option, none, some, List, [], ◌++◌,
  if◌then◌else◌,
}
use s2_sdk_go.Framing.Types.{
  CompressionType, Codec, IsLossless, S2SFrame, max_frame_size, decompressed_body,
}
use s2_sdk_go.Framing.Encode.{
  select_compression, payload_len, create_frame_with_status, create_frame, marshal_proto_frame,
}
use s2_sdk_go.Framing.Encode.RoundTrip.{
  frame_for, decode-create_frame, decompressed_body-create_frame, marshal_proto_frame-create_frame,
  create_frame_lem,
}
use s2_sdk_go.Framing.Parser.{S2SFrameParser, unread, push, parse_frame}
use s2_sdk_go.Framing.Parser.Buffer.{IsValid, push-unread}
use s2_sdk_go.Framing.Parser.Decode.{done, outcome, decode}
use s2_sdk_go.Framing.Parser.Refinement.{parse_frame-decode}

module _ (codec : Codec) (lossless : IsLossless codec) (p : S2SFrameParser) (v : IsValid p)
    (empty : unread p ≡ []) where
  parse_frame-push : (bytes : List ℕ) → outcome (parse_frame (push p bytes)) ≡ decode bytes
  parse_frame-push bytes =
      parse_frame-decode (push p bytes)
      ∙ ap decode (push-unread p bytes v ∙ ap (λ xs. xs ++ bytes) empty)

  -- A frame written by CreateFrameWithStatus, whose payload does not exceed the protocol's
  -- maximum, and pushed with any bytes behind it into a valid parser with nothing unread is read
  -- back as one frame: its body decompresses to the data if the codecs are lossless, its terminal
  -- flag and status code (as a uint16) are those given, no reconnect is advised, and the bytes
  -- behind it stay unread.
  pub parse_frame-create_frame :
      (d : List ℕ) (t : Bool) (c : CompressionType) (status : ℕ) (rest : List ℕ)
      → payload_len t (select_compression codec d c).0 ≤ max_frame_size
      → (f : S2SFrame) × (outcome
            (parse_frame (push p (create_frame_with_status codec d t c status ++ rest)))
          ≡ done f rest)
        × (decompressed_body codec f ≡ some d)
        × (f.terminal ≡ t)
        × (f.status_code ≡ (if t then some (status % 2 ^ 16) else none))
        × (f.reconnect_advised ≡ false)
  parse_frame-create_frame d t c status rest h = (
    frame_for t status (select_compression codec d c),
    parse_frame-push _ ∙ decode-create_frame codec d t c status rest h,
    decompressed_body-create_frame codec d t c status lossless,
    refl,
    refl,
    refl,
  )

  -- For a message that marshals to bytes whose frame does not exceed the maximum,
  -- MarshalProtoFrame succeeds, and its output, with any bytes behind it, is read back by a valid
  -- parser with nothing unread as one regular frame whose body decompresses to the marshalled
  -- message if the codecs are lossless.
  pub parse_frame-marshal_proto_frame {ℓ} :
      {M : Type ℓ} (marshal : M → Option (List ℕ)) (m : M) (c : CompressionType) (d rest : List ℕ)
      → marshal m ≡ some d
      → payload_len false (select_compression codec d c).0 ≤ max_frame_size
      → (bytes : List ℕ) × (f : S2SFrame) × (marshal_proto_frame codec marshal m c ≡ some bytes)
        × (outcome (parse_frame (push p (bytes ++ rest))) ≡ done f rest)
        × (decompressed_body codec f ≡ some d)
        × (f.terminal ≡ false)
  parse_frame-marshal_proto_frame marshal m c d rest e h =
      let (f, o, b, t, _, _) = parse_frame-create_frame d false c 0 rest h in
      (
        create_frame codec d false c,
        f,
        marshal_proto_frame-create_frame codec marshal m c d e,
        ap (λ xs. outcome (parse_frame (push p (xs ++ rest)))) (create_frame_lem codec d false c)
            ∙ o,
        b,
        t,
      )
