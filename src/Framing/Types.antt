-- ===== src/Framing/Types.antt =====
-- internal/framing/types.go and decompress.go, with the constants of framing.go.
use Prim.Native.String.{String}
use text.Mathlib.Text.{◌==◌ as str_eq}
use s2_sdk_go.Prelude.{ℕ, Bool, Option, none, some, List, ◌≡◌, ◌*◌, if◌then◌else◌, ◌==◌}

abbrev pub CompressionType : Type 0
CompressionType = ℕ

abbrev pub compression_none : CompressionType
compression_none = 0

abbrev pub compression_zstd : CompressionType
compression_zstd = 1

abbrev pub compression_gzip : CompressionType
compression_gzip = 2

abbrev pub max_frame_size : ℕ
max_frame_size = 2 * 1024 * 1024

abbrev pub read_chunk_size : ℕ
read_chunk_size = 64 * 1024

abbrev pub flag_terminal : ℕ
flag_terminal = 0x80

abbrev pub flag_compression_mask : ℕ
flag_compression_mask = 0x60

abbrev pub flag_compression_shift : ℕ
flag_compression_shift = 5

abbrev pub flag_reconnect_advised : ℕ
flag_reconnect_advised = 0x10

abbrev pub compression_threshold : ℕ
compression_threshold = 1024

pub record S2SFrame : Type 0 where
  pub terminal : Bool
  pub compression : CompressionType
  pub status_code : Option ℕ
  pub body : List ℕ
  pub reconnect_advised : Bool

pub content_encoding : CompressionType → String
content_encoding c =
    if c == compression_zstd then "zstd" else if c == compression_gzip then "gzip" else ""

pub accept_encoding : CompressionType → String
accept_encoding c = if c == compression_none then "" else "zstd, gzip"

pub parse_content_encoding : String → CompressionType
parse_content_encoding encoding =
    if str_eq encoding "zstd"
    then compression_zstd
    else if str_eq encoding "gzip"
    then compression_gzip
    else compression_none

-- What the third-party codecs offer. The encoder of zstd cannot fail; the others may (`none`).
pub record Codec : Type 0 where
  pub zstd_encode_all : List ℕ → List ℕ
  pub zstd_decode_all : List ℕ → Option (List ℕ)
  pub gzip_write : List ℕ → Option (List ℕ)
  pub gzip_read : List ℕ → Option (List ℕ)

-- The documented behaviour: what was encoded decodes to the same bytes.
pub record IsLossless (codec : Codec) : Type 0 where
  pub zstd_lossless : (d : List ℕ) → codec.zstd_decode_all (codec.zstd_encode_all d) ≡ some d
  pub gzip_lossless : (d c : List ℕ) → codec.gzip_write d ≡ some c → codec.gzip_read c ≡ some d

-- `none` stands for the error of each function.
module _ (codec : Codec) where
  unfoldable pub compress : List ℕ → CompressionType → Option (List ℕ)
  compress d c =
      if c == compression_none
      then some d
      else if c == compression_zstd
      then some (codec.zstd_encode_all d)
      else if c == compression_gzip
      then codec.gzip_write d
      else none

  unfoldable pub decompress : List ℕ → CompressionType → Option (List ℕ)
  decompress d c =
      if c == compression_none
      then some d
      else if c == compression_gzip
      then codec.gzip_read d
      else if c == compression_zstd
      then codec.zstd_decode_all d
      else none

  unfoldable pub decompressed_body : S2SFrame → Option (List ℕ)
  decompressed_body f =
      if f.compression == compression_none
      then some f.body
      else if f.compression == compression_gzip
      then codec.gzip_read f.body
      else if f.compression == compression_zstd
      then codec.zstd_decode_all f.body
      else none
