-- ===== src/Framing/Encode/RoundTrip.antt =====
-- A frame that the encoder writes is the frame that the parser reads.
use s2_sdk_go.Prelude.{
  ℕ, zero, suc, ◌+◌, ◌-◌, ◌*◌, ◌/◌, ◌%◌, ◌^◌, ◌≤◌, ◌≡◌, refl, ap, ◌∙◌, Bool, true, false, Option,
  none, some, List, ◌∷◌, ◌++◌, if◌then◌else◌, ◌==◌, length, length-append, take-length-append,
  drop-length-append, bit_and, arith, take, drop, Bool-cases, inl, inr,
}
use s2_sdk_go.Framing.Types.{
  CompressionType, Codec, IsLossless, S2SFrame, max_frame_size, flag_reconnect_advised,
  decompressed_body, compression_none,
}
use s2_sdk_go.Framing.Encode.{
  gzip_or_plain, length_prefix, flag_byte, status_bytes, select_compression, payload_len,
  create_frame_with_status, create_frame, marshal_proto_frame,
}
use s2_sdk_go.Framing.Parser.{is_terminal, compression_bits}
use s2_sdk_go.Framing.Parser.Decode.{done, decode, decode_sized, decode_payload}

-- The frame that a call of the encoder stands for, once the data are compressed.
abbrev pub frame_for : Bool → ℕ → List ℕ × CompressionType → S2SFrame
frame_for terminal status (out, actual) = record {
  terminal = terminal;
  compression = actual;
  status_code = if terminal then some (status % 2 ^ 16) else none;
  body = out;
  reconnect_advised = false;
}

flag_byte_fields :
    (t : Bool) (c : ℕ)
    → c ≤ 2
    → (compression_bits (flag_byte t c) ≡ c)
      × (is_terminal (flag_byte t c) ≡ t)
      × (bit_and (flag_byte t c) flag_reconnect_advised ≡ 0)
flag_byte_fields true zero h = (refl, refl, refl)
flag_byte_fields true (suc zero) h = (refl, refl, refl)
flag_byte_fields true (suc (suc zero)) h = (refl, refl, refl)
flag_byte_fields true (suc (suc (suc c))) h = absurd (omega arith)
flag_byte_fields false zero h = (refl, refl, refl)
flag_byte_fields false (suc zero) h = (refl, refl, refl)
flag_byte_fields false (suc (suc zero)) h = (refl, refl, refl)
flag_byte_fields false (suc (suc (suc c))) h = absurd (omega arith)

decode_payload-encoded :
    (t : Bool) (c status : ℕ) (out rest : List ℕ)
    → c ≤ 2
    → decode_payload (flag_byte t c) (status_bytes t status ++ out) rest
      ≡ done (frame_for t status (out, c)) rest
unfolding decode_payload
decode_payload-encoded true c status out rest h = ground (arith, flag_byte_fields true c h)
decode_payload-encoded false c status out rest h = ground (arith, flag_byte_fields false c h)

decode_sized-encoded :
    (n t : ℕ) (body rest : List ℕ)
    → n ≡ 1 + length body
    → n ≤ max_frame_size
    → decode_sized n t (body ++ rest) ≡ decode_payload t body rest
decode_sized-encoded n t body rest e h =
    let m : n - 1 ≡ length body = omega arith in
    let tk : take (n - 1) (body ++ rest) ≡ body =
      ap (λ k. take k (body ++ rest)) m ∙ take-length-append body rest in
    let dr : drop (n - 1) (body ++ rest) ≡ rest =
      ap (λ k. drop k (body ++ rest)) m ∙ drop-length-append body rest in
    ground (arith, tk, dr, length-append body rest)

prefix_lem :
    (n : ℕ) → n ≤ max_frame_size → n / 2 ^ 16 % 256 * 2 ^ 16 + n / 2 ^ 8 % 256 * 2 ^ 8 + n % 256 ≡ n
prefix_lem n h = omega arith

gzip_or_plain-le : (d : List ℕ) (o : Option (List ℕ)) → (gzip_or_plain d o).1 ≤ 2
unfolding gzip_or_plain
gzip_or_plain-le d (some c) = omega arith
gzip_or_plain-le d none = omega arith

payload_len_lem :
    (t : Bool) (status : ℕ) (out : List ℕ)
    → payload_len t out ≡ 1 + length (status_bytes t status ++ out)
unfolding payload_len
payload_len_lem true status out = omega arith
payload_len_lem false status out = omega arith

module _ (codec : Codec) where
  select_compression-le : (d : List ℕ) (c : CompressionType) → (select_compression codec d c).1 ≤ 2
  unfolding select_compression
  select_compression-le d c = ground (arith, gzip_or_plain-le d (codec.gzip_write d))

  -- What the encoder writes in front of any bytes is read back as one frame, and they are left.
  pub decode-create_frame :
      (d : List ℕ) (t : Bool) (c : CompressionType) (status : ℕ) (rest : List ℕ)
      → payload_len t (select_compression codec d c).0 ≤ max_frame_size
      → decode (create_frame_with_status codec d t c status ++ rest)
        ≡ done (frame_for t status (select_compression codec d c)) rest
  unfolding decode create_frame_with_status
  decode-create_frame d t c status rest h =
      let (out, actual) = select_compression codec d c in
      let n = payload_len t out in
      rw (prefix_lem n h) (
        decode_sized-encoded n (flag_byte t actual) (status_bytes t status ++ out) rest
          (payload_len_lem t status out) h
        ∙ decode_payload-encoded t actual status out rest (select_compression-le d c))

  gzip_or_plain-lossless :
      (d : List ℕ) (o : Option (List ℕ))
      → IsLossless codec
      → codec.gzip_write d ≡ o
      → (t : Bool) (status : ℕ)
      → decompressed_body codec (frame_for t status (gzip_or_plain d o)) ≡ some d
  unfolding gzip_or_plain decompressed_body
  gzip_or_plain-lossless d (some c) l e t status = l.gzip_lossless d c e
  gzip_or_plain-lossless d none l e t status = refl

  -- The body decompresses to the data, if the codecs lose nothing.
  pub decompressed_body-create_frame :
      (d : List ℕ) (t : Bool) (c : CompressionType) (status : ℕ)
      → IsLossless codec
      → decompressed_body codec (frame_for t status (select_compression codec d c)) ≡ some d
  unfolding select_compression decompressed_body
  decompressed_body-create_frame d t c status l =
      ground
        (arith, l.zstd_lossless d, gzip_or_plain-lossless d (codec.gzip_write d) l refl t status)

  select_none :
      (d : List ℕ) (c : CompressionType)
      → (c == compression_none) ≡ true
      → select_compression codec d c ≡ (d, compression_none)
  unfolding select_compression
  select_none d c h = rw h

  create_frame_plain :
      (d : List ℕ) (c : CompressionType)
      → (c == compression_none) ≡ true
      → length_prefix (4 + length d - 3) ++ (0 ∷ d) ≡ create_frame codec d false c
  unfolding create_frame create_frame_with_status payload_len
  create_frame_plain d c h =
      rw (select_none d c h) (ap (λ n. length_prefix n ++ (0 ∷ d)) (omega arith))

  pub create_frame_lem :
      (d : List ℕ) (t : Bool) (c : CompressionType)
      → create_frame codec d t c ≡ create_frame_with_status codec d t c 0
  unfolding create_frame
  create_frame_lem d t c = refl

  -- The shortcut of `MarshalProtoFrame` for uncompressed messages writes what `CreateFrame` does.
  pub marshal_proto_frame-create_frame {ℓ} :
      {M : Type ℓ} (marshal : M → Option (List ℕ)) (m : M) (c : CompressionType) (d : List ℕ)
      → marshal m ≡ some d
      → marshal_proto_frame codec marshal m c ≡ some (create_frame codec d false c)
  unfolding marshal_proto_frame
  marshal_proto_frame-create_frame marshal m c d e = elim (Bool-cases (c == compression_none)) [
    | inl h ↦ rw (e, marshal_proto_frame) (rw h (ap some (create_frame_plain d c h)))
    | inr h ↦ rw (e, marshal_proto_frame) (rw h refl)
  ]
