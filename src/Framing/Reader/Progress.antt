-- ===== src/Framing/Reader/Progress.antt =====
-- `ReadFrame` ends: each round parses, stops, or has read at least one byte more.
use s2_sdk_go.Prelude.{
  ℕ, zero, suc, ◌+◌, ◌<◌, ◌≡◌, refl, sym, ap, ◌≢◌, ◌⊎◌, inl, inr, Option, none, some, List, [], ◌∷◌,
  length, length-append, arith,
}
use s2_sdk_go.Framing.Types.{max_frame_size}
use s2_sdk_go.Framing.Parser.{
  S2SFrameParser, Parsed, incomplete, failed, parsed, unread, ensure_spare, wanted_spare,
  parse_frame,
}
use s2_sdk_go.Framing.Parser.Buffer.{IsValid, Ensures, ensure_spare-Ensures, wanted_spare_pos}
use s2_sdk_go.Framing.Parser.Decode.{outcome, decode}
use s2_sdk_go.Framing.Parser.Refinement.{
  Kept, parse_frame-decode, parse_frame-Kept, parse_frame-IsValid,
}
use s2_sdk_go.Framing.Parser.Stream.{decode-more_bound}
use s2_sdk_go.Framing.Reader.{
  IoError, IoReader, Answer, frame, rejected, stopped, exhausted, FrameReader, read_from, on_read,
  on_incomplete, round, read_frame,
}
use s2_sdk_go.Framing.Reader.Laws.{
  IsReader, Reads, read_from-Reads, Agrees, IsReady, remaining, read_frame-Agrees,
}

module _ (io : IoReader) (stream : io.State → List ℕ) (law : IsReader io stream)
    (moves : (r : io.State) (k : ℕ)
      → 0 < k
      → (io.read r k).1 ≡ none
      → 0 < length (io.read r k).0) where
  read_from_moves :
      (fr : FrameReader io)
      → IsValid fr.parser
      → (read_from io fr).1 ≡ none
      → 0 < length (read_from io fr).0
  unfolding read_from
  read_from_moves fr v = moves fr.reader _ (omega (arith, e.room, wanted_spare_pos fr.parser))
    where
      e :
          Ensures fr.parser
            (ensure_spare fr.parser (wanted_spare fr.parser))
            (wanted_spare fr.parser)
      e = ensure_spare-Ensures fr.parser (wanted_spare fr.parser) v

  -- A round is left for each byte that an incomplete frame can still take, or an error is due.
  abbrev Enough : ℕ → FrameReader io → Type 0
  Enough n fr =
      (0 < n) × ((4 + max_frame_size < length (unread fr.parser) + n) ⊎ (fr.pending_err ≢ none))

  abbrev Ends : ℕ → (FrameReader io → FrameReader io × Answer) → Type 0
  Ends n again = (gr : FrameReader io) → IsValid gr.parser → Enough n gr → (again gr).1 ≢ exhausted

  on_read-Ends :
      (n : ℕ) (again : FrameReader io → FrameReader io × Answer) (fr gr : FrameReader io)
      (bytes : List ℕ) (err : Option IoError)
      → Ends n again
      → Reads io stream law fr bytes err gr
      → 4 + max_frame_size < length (unread fr.parser) + suc n
      → length (unread fr.parser) < 4 + max_frame_size
      → (err ≡ none → 0 < length bytes)
      → (on_read io again (bytes, err, gr)).1 ≢ exhausted
  unfolding on_read
  on_read-Ends n again fr gr bytes none g r h l m = g gr r.valid (
    omega arith,
    inl (omega (arith, m refl, ap length r.extends, length-append (unread fr.parser) bytes)),
  )
  on_read-Ends n again fr gr [] (some e) g r h l m = λ x. cc
  on_read-Ends n again fr gr (b ∷ bytes) (some e) g r h l m =
      g (record gr { pending_err = some e }) r.valid (omega arith, inr (λ x. cc))

  on_incomplete-Ends :
      (n : ℕ) (again : FrameReader io → FrameReader io × Answer) (fr : FrameReader io)
      (pending : Option IoError)
      → Ends n again
      → fr.pending_err ≡ pending
      → IsValid fr.parser
      → Enough (suc n) fr
      → length (unread fr.parser) < 4 + max_frame_size
      → (on_incomplete io again fr pending).1 ≢ exhausted
  unfolding on_incomplete
  on_incomplete-Ends n again fr none g e v (_, inl h) l =
      on_read-Ends n again fr _ _ _ g (read_from-Reads io stream law fr v) h l
        (read_from_moves fr v)
  on_incomplete-Ends n again fr none g e v (_, inr h) l = absurd (h e)
  on_incomplete-Ends n again fr (some x) g e v h l = λ y. cc

  kept :
      (fr : FrameReader io) (q : S2SFrameParser) (n : ℕ)
      → unread q ≡ unread fr.parser
      → Enough n fr
      → Enough n (record fr { parser = q })
  kept fr q n k (pos, inl h) = (pos, inl (omega (arith, ap length k)))
  kept fr q n k (pos, inr h) = (pos, inr h)

  round-Ends :
      (n : ℕ) (again : FrameReader io → FrameReader io × Answer) (fr : FrameReader io)
      (a : S2SFrameParser × Parsed)
      → Ends n again
      → Enough (suc n) fr
      → outcome a ≡ decode (unread fr.parser)
      → Kept fr.parser a
      → IsValid a.0
      → (round io again fr a).1 ≢ exhausted
  unfolding round
  round-Ends n again fr (q, failed e) g h o k v = λ y. cc
  round-Ends n again fr (q, parsed f) g h o k v = λ y. cc
  round-Ends n again fr (q, incomplete) g h o k v =
      on_incomplete-Ends n again (record fr { parser = q }) fr.pending_err g refl v
        (kept fr q (suc n) k h)
        (omega (arith, decode-more_bound (unread fr.parser) (sym o), ap length k))

  ends : (fuel : ℕ) → Ends fuel (read_frame io fuel)
  unfolding read_frame
  ends zero fr v h = absurd (omega arith)
  ends (suc fuel) fr v h =
      round-Ends fuel (read_frame io fuel) fr (parse_frame fr.parser) (ends fuel) h
        (parse_frame-decode fr.parser) (parse_frame-Kept fr.parser)
        (parse_frame-IsValid fr.parser v)

  read_frame_ends :
      (fuel : ℕ) (fr : FrameReader io)
      → IsValid fr.parser
      → 4 + max_frame_size < fuel
      → (read_frame io fuel fr).1 ≢ exhausted
  read_frame_ends fuel fr v h = ends fuel fr v (omega arith, inl (omega arith))

  -- What `Agrees` says, of a loop that did end.
  abbrev pub Answers : List ℕ → FrameReader io × Answer → Type 0
  Answers all (fr, exhausted) = ⊥
  Answers all (fr, frame f) = Agrees io stream all (fr, frame f)
  Answers all (fr, rejected e) = Agrees io stream all (fr, rejected e)
  Answers all (fr, stopped e) = Agrees io stream all (fr, stopped e)

  answers :
      (all : List ℕ) (r : FrameReader io × Answer)
      → r.1 ≢ exhausted
      → Agrees io stream all r
      → Answers all r
  answers all (fr, exhausted) h a = h refl
  answers all (fr, frame f) h a = a
  answers all (fr, rejected e) h a = a
  answers all (fr, stopped e) h a = a

  -- Over any reader that keeps the contract of io.Reader and reads at least one byte when it
  -- reports no error, ReadFrame with fuel above the largest frame's size returns, however the
  -- stream is cut into reads: the frame at the front of the bytes that are left, with the bytes
  -- behind it still left, or their framing error, or an end of the stream with nothing consumed
  -- and an incomplete frame buffered, which is a clean EOF only if no byte was left.
  pub read_frame-Answers :
      (fuel : ℕ) (fr : FrameReader io)
      → IsReady io stream fr
      → 4 + max_frame_size < fuel
      → Answers (remaining io stream fr) (read_frame io fuel fr)
  read_frame-Answers fuel fr y h =
      answers (remaining io stream fr) (read_frame io fuel fr) (read_frame_ends fuel fr y.valid h)
        (read_frame-Agrees io stream law fuel fr y)
