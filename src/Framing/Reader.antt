-- ===== src/Framing/Reader.antt =====
-- internal/framing/framing.go: FrameReader over an io.Reader, which is a parameter. A call of
-- `Read` on a slice of k bytes gives the bytes, the error if any, and the reader's next state.
pub mod Laws
pub mod Progress
use s2_sdk_go.Prelude.{
  ℕ, zero, suc, ◌-◌, Bool, true, false, ◌&&◌, Option, none, some, List, [], ◌∷◌, ◌++◌, length,
  if◌then◌else◌,
}
use s2_sdk_go.Framing.Types.{S2SFrame}
use s2_sdk_go.Framing.Parser.{
  S2SFrameParser, ParseError, Parsed, incomplete, failed, parsed, new_s2s_frame_parser,
  ensure_spare, wanted_spare, parse_frame, has_data,
}

pub data IoError : Type 0 where
  eof unexpected_eof : IoError
  other : ℕ → IoError

pub record IoReader : Type 1 where
  pub State : Type 0
  pub read : State → ℕ → List ℕ × Option IoError × State

-- What `ReadFrame` returns; `exhausted` means that the loop ran out of fuel.
pub data Answer : Type 0 where
  frame : S2SFrame → Answer
  rejected : ParseError → Answer
  stopped : IoError → Answer
  exhausted : Answer

module _ (io : IoReader) where
  pub record FrameReader : Type 0 where
    pub reader : io.State
    pub parser : S2SFrameParser
    pub pending_err : Option IoError

  pub new_frame_reader : io.State → FrameReader
  new_frame_reader r = record { reader = r; parser = new_s2s_frame_parser; pending_err = none }

  -- `readFrom`: one `Read` into the spare room behind the buffer's contents.
  pub read_from : FrameReader → List ℕ × Option IoError × FrameReader
  read_from fr =
      let q = ensure_spare fr.parser (wanted_spare fr.parser) in
      let (bytes, err, r) = io.read fr.reader (q.cap - length q.buffer) in
      (bytes, err, record fr { reader = r; parser = record q { buffer = q.buffer ++ bytes } })

  end_err : IoError → S2SFrameParser → IoError
  end_err eof p = if has_data p then unexpected_eof else eof
  end_err e p = e

  -- The loop's body after a read; `again` is the next round.
  on_read :
      (FrameReader → FrameReader × Answer)
      → List ℕ × Option IoError × FrameReader
      → FrameReader × Answer
  on_read again (bytes, none, fr) = again fr
  on_read again ([], some e, fr) =
      (record fr { pending_err = some e }, stopped (end_err e fr.parser))
  on_read again (b ∷ bytes, some e, fr) = again (record fr { pending_err = some e })

  on_incomplete :
      (FrameReader → FrameReader × Answer) → FrameReader → Option IoError → FrameReader × Answer
  on_incomplete again fr (some e) = (fr, stopped (end_err e fr.parser))
  on_incomplete again fr none = on_read again (read_from fr)

  round :
      (FrameReader → FrameReader × Answer)
      → FrameReader
      → S2SFrameParser × Parsed
      → FrameReader × Answer
  round again fr (p, failed e) = (record fr { parser = p }, rejected e)
  round again fr (p, parsed f) = (record fr { parser = p }, frame f)
  round again fr (p, incomplete) = on_incomplete again (record fr { parser = p }) fr.pending_err

  pub read_frame : ℕ → FrameReader → FrameReader × Answer
  read_frame zero fr = (fr, exhausted)
  read_frame (suc fuel) fr = round (read_frame fuel) fr (parse_frame fr.parser)
