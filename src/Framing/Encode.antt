-- ===== src/Framing/Encode.antt =====
-- internal/framing/framing.go: MarshalProtoFrame, CreateFrame and CreateFrameWithStatus.
pub mod RoundTrip
use s2_sdk_go.Prelude.{
  ℕ, ◌+◌, ◌-◌, ◌*◌, ◌/◌, ◌%◌, ◌^◌, Bool, true, false, not, ◌&&◌, Option, none, some, List, [], ◌∷◌,
  ◌++◌, if◌then◌else◌, ◌==◌, leb, length,
}
use s2_sdk_go.Framing.Types.{
  CompressionType, compression_none, compression_zstd, compression_gzip, compression_threshold,
  flag_compression_shift, flag_terminal, Codec,
}

-- The three length bytes, `byte(n >> 16)`, `byte(n >> 8)` and `byte(n)`.
abbrev pub length_prefix : ℕ → List ℕ
length_prefix n = (n / 2 ^ 16 % 256) ∷ (n / 2 ^ 8 % 256) ∷ (n % 256) ∷ []

-- `flag |= flagTerminal` and `flag |= byte(actualCompression) << 5` set disjoint bits.
abbrev pub flag_byte : Bool → CompressionType → ℕ
flag_byte terminal c =
    (if terminal then flag_terminal else 0) + c * 2 ^ flag_compression_shift % 256

-- `binary.BigEndian.PutUint16` of `uint16(statusCode)`, on a terminal frame alone.
abbrev pub status_bytes : Bool → ℕ → List ℕ
status_bytes false status = []
status_bytes true status = (status % 2 ^ 16 / 2 ^ 8) ∷ (status % 2 ^ 16 % 256) ∷ []

-- A failed encoder leaves the data as they are.
pub gzip_or_plain : List ℕ → Option (List ℕ) → List ℕ × CompressionType
gzip_or_plain d (some c) = (c, compression_gzip)
gzip_or_plain d none = (d, compression_none)

-- The size that the length prefix states: flag, status and data.
unfoldable pub payload_len : Bool → List ℕ → ℕ
payload_len terminal out = (if terminal then 6 else 4) - 3 + length out

module _ (codec : Codec) where
  -- The bytes that go out and the compression that the flag names.
  unfoldable pub select_compression : List ℕ → CompressionType → List ℕ × CompressionType
  select_compression d c =
      if not (c == compression_none) && leb compression_threshold (length d)
      then (if c == compression_zstd
          then (codec.zstd_encode_all d, compression_zstd)
          else if c == compression_gzip
          then gzip_or_plain d (codec.gzip_write d)
          else (d, compression_none))
      else (d, compression_none)

  unfoldable pub create_frame_with_status : List ℕ → Bool → CompressionType → ℕ → List ℕ
  create_frame_with_status d terminal compression status =
      let (out, actual) = select_compression d compression in
      length_prefix (payload_len terminal out)
      ++ (flag_byte terminal actual ∷ (status_bytes terminal status ++ out))

  unfoldable pub create_frame : List ℕ → Bool → CompressionType → List ℕ
  create_frame d terminal compression = create_frame_with_status d terminal compression 0

  -- `MarshalProtoFrame` for a message whose protobuf encoding is `marshal message`. Without
  -- compression the message is appended behind a header of four zero bytes, whose first three
  -- are then overwritten.
  unfoldable pub marshal_proto_frame {ℓ} :
      {M : Type ℓ} → (M → Option (List ℕ)) → M → CompressionType → Option (List ℕ)
  marshal_proto_frame marshal message compression = elim (marshal message) [
    | none ↦ none
    | some d ↦ some (
        if not (compression == compression_none)
        then create_frame d false compression
        else length_prefix (4 + length d - 3) ++ (0 ∷ d))
  ]
