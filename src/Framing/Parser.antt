-- ===== src/Framing/Parser.antt =====
-- internal/framing/framing.go: S2SFrameParser. A slice with spare room is its contents and its
-- capacity; what lies past the contents is never read.
pub mod Decode
pub mod Refinement
pub mod Stream
pub mod Buffer
use s2_sdk_go.Prelude.{
  ℕ, ◌+◌, ◌-◌, ◌*◌, ◌/◌, ◌^◌, Bool, true, false, not, ◌&&◌, Option, none, some, List, [], ◌++◌,
  if◌then◌else◌, ◌==◌, ltb, leb, length, get_or, take, drop, bit_and,
}
use s2_sdk_go.Framing.Types.{
  CompressionType, compression_none, compression_zstd, compression_gzip, max_frame_size,
  read_chunk_size, flag_terminal, flag_compression_mask, flag_compression_shift,
  flag_reconnect_advised, S2SFrame,
}

pub record S2SFrameParser : Type 0 where
  pub buffer : List ℕ
  pub cap : ℕ
  pub off : ℕ
  pub need : ℕ

pub data ParseError : Type 0 where
  invalid_length missing_status_code : ParseError
  frame_too_large : ℕ → ParseError
  unknown_compression_type : ℕ → ParseError

-- Go's pair: `(nil, nil)`, `(nil, err)` and `(frame, nil)`.
pub data Parsed : Type 0 where
  incomplete : Parsed
  failed : ParseError → Parsed
  parsed : S2SFrame → Parsed

pub new_s2s_frame_parser : S2SFrameParser
new_s2s_frame_parser = record { buffer = []; cap = 8192; off = 0; need = 0 }

-- The unconsumed data, `p.buffer[p.off:]`.
abbrev pub unread : S2SFrameParser → List ℕ
unread p = drop p.off p.buffer

-- The first half of `ensureSpare`: the consumed bytes are dropped.
compact : S2SFrameParser → S2SFrameParser
compact p = if ltb 0 p.off then record p { buffer = drop p.off p.buffer; off = 0 } else p

-- The second half: a new slice of at least the wanted capacity receives the unread bytes.
grow : S2SFrameParser → ℕ → ℕ → S2SFrameParser
grow p remaining n = record p {
  buffer = take remaining p.buffer;
  cap = if ltb (p.cap * 2) (remaining + n) then remaining + n else p.cap * 2;
}

pub ensure_spare : S2SFrameParser → ℕ → S2SFrameParser
ensure_spare p n =
    if leb n (p.cap - length p.buffer)
    then p
    else (let q = compact p in
        if leb n (q.cap - length q.buffer) then q else grow q (length p.buffer - p.off) n)

pub push : S2SFrameParser → List ℕ → S2SFrameParser
unfolding ensure_spare
push p bytes = let q = ensure_spare p (length bytes) in record q { buffer = q.buffer ++ bytes }

-- The room that `readFrom` asks for before it reads.
pub wanted_spare : S2SFrameParser → ℕ
wanted_spare p =
    if ltb 0 p.need && ltb (length p.buffer - p.off) p.need
    then p.need - (length p.buffer - p.off)
    else read_chunk_size

-- The bytes of a big-endian length prefix and of a status code fill disjoint bits.
abbrev pub frame_length : List ℕ → ℕ
frame_length buf = get_or buf 0 0 * 2 ^ 16 + get_or buf 1 0 * 2 ^ 8 + get_or buf 2 0

abbrev pub compression_bits : ℕ → ℕ
compression_bits flag = bit_and flag flag_compression_mask / 2 ^ flag_compression_shift

abbrev pub is_terminal : ℕ → Bool
is_terminal flag = not (bit_and flag flag_terminal == 0)

-- `buf[3+1 : 3+length]` and, on a terminal frame, what follows its status code.
abbrev pub payload : List ℕ → ℕ → List ℕ
payload buf len = take (len - 1) (drop 4 buf)

-- The tail of `ParseFrame`, once the whole frame is there.
consume : S2SFrameParser → ℕ → S2SFrameParser
consume p total =
    if p.off + total == length p.buffer
    then record p { buffer = []; off = 0 }
    else record p { off = p.off + total }

finish_frame : S2SFrameParser → ℕ → ℕ → Option ℕ → List ℕ → S2SFrameParser × Parsed
finish_frame p len flag status body = (
  consume p (3 + len),
  parsed (record {
    terminal = is_terminal flag;
    compression = compression_bits flag;
    status_code = status;
    body = body;
    reconnect_advised = not (is_terminal flag) && not (bit_and flag flag_reconnect_advised == 0);
  }),
)

parse_complete : S2SFrameParser → List ℕ → ℕ → S2SFrameParser × Parsed
parse_complete p buf len =
    let flag = get_or buf 3 0 in
    let body = payload buf len in
    if leb 3 (compression_bits flag)
    then (p, failed (unknown_compression_type (compression_bits flag)))
    else if is_terminal flag
    then (if ltb (length body) 2
        then (p, failed missing_status_code)
        else finish_frame p len flag (some (get_or body 0 0 * 2 ^ 8 + get_or body 1 0))
            (drop 2 body))
    else finish_frame p len flag none body

-- `ParseFrame` from the length prefix on, which resets the size hint.
parse_sized : S2SFrameParser → List ℕ → ℕ → S2SFrameParser × Parsed
parse_sized p buf len =
    let q = record p { need = 0 } in
    if len == 0
    then (q, failed invalid_length)
    else if ltb max_frame_size len
    then (q, failed (frame_too_large len))
    else if ltb (length buf) (3 + len)
    then (record p { need = 3 + len }, incomplete)
    else parse_complete q buf len

pub parse_frame : S2SFrameParser → S2SFrameParser × Parsed
parse_frame p =
    let buf = unread p in
    if ltb (length buf) 4 then (p, incomplete) else parse_sized p buf (frame_length buf)

pub has_data : S2SFrameParser → Bool
has_data p = ltb p.off (length p.buffer)
