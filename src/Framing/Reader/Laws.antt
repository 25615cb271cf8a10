-- ===== src/Framing/Reader/Laws.antt =====
-- What the frame reader promises of the stream behind it, however the stream is cut into reads.
use native.Mathlib.Decide.{ℕ_discrete}
use s2_sdk_go.Prelude.{
  ℕ, zero, suc, ◌-◌, ◌≤◌, ◌≡◌, refl, sym, ap, ◌∙◌, ◌≢◌, ◌⊎◌, inl, inr, Option, none, some, List, [],
  ◌∷◌, ◌++◌, length, length-append, drop-append, append-nil, append_assoc, arith, subst,
}
use s2_sdk_go.Framing.Parser.{
  S2SFrameParser, Parsed, incomplete, failed, parsed, unread, ensure_spare, wanted_spare,
  parse_frame,
}
use s2_sdk_go.Framing.Parser.Buffer.{IsValid, Ensures, ensure_spare-Ensures, has_data-eq_false}
use s2_sdk_go.Framing.Parser.Decode.{more, bad, done, outcome, decode}
use s2_sdk_go.Framing.Parser.Refinement.{
  Kept, parse_frame-decode, parse_frame-Kept, parse_frame-IsValid,
}
use s2_sdk_go.Framing.Parser.Stream.{then_rest, decode-append}
use s2_sdk_go.Framing.Reader.{
  IoError, eof, unexpected_eof, other, IoReader, Answer, frame, rejected, stopped, exhausted,
  FrameReader, read_from, end_err, on_read, on_incomplete, round, read_frame,
}

IoError-discrete : Discrete IoError
IoError-discrete = hlevel ℕ_discrete

-- The contract of io.Reader for a reader whose states hold the rest of a byte stream: a read
-- gives no more than asked for, hands over the stream from its front, and reports the end of
-- the stream only when nothing is left.
pub record IsReader (io : IoReader) (stream : io.State → List ℕ) : Type 0 where
  pub within : (r : io.State) (k : ℕ) → length (io.read r k).0 ≤ k
  pub delivers : (r : io.State) (k : ℕ) → stream r ≡ (io.read r k).0 ++ stream (io.read r k).2
  pub at_end : (r : io.State) (k : ℕ) → (io.read r k).1 ≡ some eof → stream (io.read r k).2 ≡ []

module _ (io : IoReader) (stream : io.State → List ℕ) where
  -- The bytes that no frame has taken yet.
  abbrev pub remaining : FrameReader io → List ℕ
  remaining fr = unread fr.parser ++ stream fr.reader

  pub record IsReady (fr : FrameReader io) : Type 0 where
    pub valid : IsValid fr.parser
    pub ended : fr.pending_err ≡ some eof → stream fr.reader ≡ []

  -- An answer against the bytes that were left: a frame is the one at their front, a rejection
  -- is theirs, and an end is reported on an incomplete frame, a clean one if nothing was left.
  abbrev pub Agrees : List ℕ → FrameReader io × Answer → Type 0
  Agrees all (fr, frame f) = (decode all ≡ done f (remaining fr)) × IsReady fr
  Agrees all (fr, rejected e) = decode all ≡ bad e
  Agrees all (fr, stopped e) =
      (remaining fr ≡ all) × (decode (unread fr.parser) ≡ more) × ((e ≢ eof) ⊎ (all ≡ []))
  Agrees all (fr, exhausted) = Unit

  module _ (law : IsReader io stream) where
    pub record Reads (fr : FrameReader io) (bytes : List ℕ) (err : Option IoError)
        (gr : FrameReader io) : Type 0 where
      pub extends : unread gr.parser ≡ unread fr.parser ++ bytes
      pub same : remaining gr ≡ remaining fr
      pub valid : IsValid gr.parser
      pub pending : gr.pending_err ≡ fr.pending_err
      pub ended : err ≡ some eof → stream gr.reader ≡ []

    pub read_from-Reads :
        (fr : FrameReader io)
        → IsValid fr.parser
        → let (bytes, err, gr) = read_from io fr in Reads fr bytes err gr
    unfolding read_from
    read_from-Reads fr v = record {
      extends = ext;
      same =
          ap (λ xs. xs ++ stream r) ext
          ∙ append_assoc (unread fr.parser) bytes (stream r)
          ∙ ap (λ xs. unread fr.parser ++ xs) (sym (law.delivers fr.reader room));
      valid = omega (
        arith,
        length-append q.buffer bytes,
        law.within fr.reader room,
        e.valid.off_within,
        e.valid.len_within,
        e.room,
      );
      pending = refl;
      ended = law.at_end fr.reader room;
    }
      where
        p : S2SFrameParser
        p = fr.parser

        q : S2SFrameParser
        q = ensure_spare p (wanted_spare p)

        e : Ensures p q (wanted_spare p)
        e = ensure_spare-Ensures p (wanted_spare p) v

        room : ℕ
        room = q.cap - length q.buffer

        bytes : List ℕ
        bytes = (io.read fr.reader room).0

        r : io.State
        r = (io.read fr.reader room).2

        ext : unread (record q { buffer = q.buffer ++ bytes }) ≡ unread p ++ bytes
        ext = drop-append q.off q.buffer bytes e.valid.off_within ∙ ap (λ xs. xs ++ bytes) e.kept

    end_err-eof :
        (p : S2SFrameParser) (e : IoError)
        → IsValid p
        → end_err io e p ≡ eof
        → (e ≡ eof) × (unread p ≡ [])
    unfolding end_err
    end_err-eof p eof v h = (refl, has_data-eq_false p (ground arith))
    end_err-eof p unexpected_eof v h = ground arith
    end_err-eof p (other n) v h = ground arith

    -- The next round answers correctly from any ready state with the same bytes left.
    abbrev Goes : List ℕ → (FrameReader io → FrameReader io × Answer) → Type 0
    Goes all again = (gr : FrameReader io) → IsReady gr → remaining gr ≡ all → Agrees all (again gr)

    clean :
        {all : List ℕ} (fr : FrameReader io) (e : IoError)
        → IsValid fr.parser
        → (e ≡ eof → stream fr.reader ≡ [])
        → remaining fr ≡ all
        → (end_err io e fr.parser ≢ eof) ⊎ (all ≡ [])
    clean fr e v n s = elim (IoError-discrete (end_err io e fr.parser) eof) [
      | yes h ↦
          let f = end_err-eof fr.parser e v h in
          inr (sym s ∙ ap (λ xs. xs ++ stream fr.reader) f.1 ∙ n f.0)
      | no h ↦ inl h
    ]

    stopped-Agrees :
        (all : List ℕ) (fr : FrameReader io) (e : IoError) (pe : Option IoError)
        → IsValid fr.parser
        → (e ≡ eof → stream fr.reader ≡ [])
        → remaining fr ≡ all
        → decode (unread fr.parser) ≡ more
        → Agrees all (record fr { pending_err = pe }, stopped (end_err io e fr.parser))
    stopped-Agrees all fr e pe v n s d = (s, d, clean fr e v n s)

    on_read-Agrees :
        (all : List ℕ) (again : FrameReader io → FrameReader io × Answer) (fr gr : FrameReader io)
        (bytes : List ℕ) (err : Option IoError)
        → Goes all again
        → fr.pending_err ≡ none
        → remaining fr ≡ all
        → decode (unread fr.parser) ≡ more
        → Reads fr bytes err gr
        → Agrees all (on_read io again (bytes, err, gr))
    unfolding on_read
    on_read-Agrees all again fr gr bytes none g n s d r =
        g gr (record { valid = r.valid; ended = λ h. cc (r.pending) }) (r.same ∙ s)
    on_read-Agrees all again fr gr [] (some e) g n s d r =
        stopped-Agrees all gr e (some e) r.valid (λ h. r.ended (ap some h)) (r.same ∙ s)
          (ap decode (r.extends ∙ append-nil _) ∙ d)
    on_read-Agrees all again fr gr (b ∷ bytes) (some e) g n s d r =
        g (record gr { pending_err = some e }) (record { valid = r.valid; ended = r.ended })
          (r.same ∙ s)

    on_incomplete-Agrees :
        (all : List ℕ) (again : FrameReader io → FrameReader io × Answer) (fr : FrameReader io)
        (pending : Option IoError)
        → Goes all again
        → fr.pending_err ≡ pending
        → IsReady fr
        → remaining fr ≡ all
        → decode (unread fr.parser) ≡ more
        → Agrees all (on_incomplete io again fr pending)
    unfolding on_incomplete
    on_incomplete-Agrees all again fr none g n y s d =
        on_read-Agrees all again fr _ _ _ g n s d (read_from-Reads fr y.valid)
    on_incomplete-Agrees all again fr (some e) g n y s d =
        stopped-Agrees all fr e fr.pending_err y.valid (λ h. y.ended (n ∙ ap some h)) s d

    round-Agrees :
        (again : FrameReader io → FrameReader io × Answer) (fr : FrameReader io)
        (a : S2SFrameParser × Parsed)
        → Goes (remaining fr) again
        → IsReady fr
        → outcome a ≡ decode (unread fr.parser)
        → Kept fr.parser a
        → IsValid a.0
        → Agrees (remaining fr) (round io again fr a)
    unfolding round
    round-Agrees again fr (q, failed e) g y o k v =
        decode-append (unread fr.parser) (stream fr.reader) (λ h. cc)
        ∙ ap (λ d. then_rest d (stream fr.reader)) (sym o)
    round-Agrees again fr (q, parsed f) g y o k v = (
      decode-append (unread fr.parser) (stream fr.reader) (λ h. cc)
          ∙ ap (λ d. then_rest d (stream fr.reader)) (sym o),
      record { valid = v; ended = y.ended },
    )
    round-Agrees again fr (q, incomplete) g y o k v =
        on_incomplete-Agrees _ again (record fr { parser = q }) fr.pending_err g refl
          (record { valid = v; ended = y.ended }) (ap (λ xs. xs ++ stream fr.reader) k)
          (ap decode k ∙ sym o)

    -- `ReadFrame` gives the first frame of the stream, however the reader cuts the stream up.
    pub read_frame-Agrees :
        (fuel : ℕ) (fr : FrameReader io)
        → IsReady fr
        → Agrees (remaining fr) (read_frame io fuel fr)
    unfolding read_frame
    read_frame-Agrees zero fr y = tt
    read_frame-Agrees (suc fuel) fr y =
        round-Agrees (read_frame io fuel) fr (parse_frame fr.parser)
          (λ gr z s.
            subst (λ xs. Agrees xs (read_frame io fuel gr)) s (read_frame-Agrees fuel gr z))
          y (parse_frame-decode fr.parser) (parse_frame-Kept fr.parser)
          (parse_frame-IsValid fr.parser y.valid)
