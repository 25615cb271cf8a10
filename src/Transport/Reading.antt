-- ===== src/Transport/Reading.antt =====
-- What the reader of a transport hands over, against that description of the frames.
use Prim.Native.String.{String}
use s2_sdk_go.Prelude.{
  ℕ, ◌≡◌, refl, sym, ap, ◌∙◌, subst, Bool, true, false, Option, none, some, List, [], ◌∷◌, ◌++◌,
  append_assoc, append-nil, ◌⊎◌, inl, inr, if_ind,
}
use s2_sdk_go.Errors.{Err}
use s2_sdk_go.Errors.Decode.{Library}
use s2_sdk_go.Framing.Types.{S2SFrame, Codec}
use s2_sdk_go.Transport.{
  AppendAck, Transport, keep_first, record_terminal_error, report_error, report_error_if_open,
  handle_frame, finish_reading, after_frame, read_acks_loop, close,
}
use s2_sdk_go.Transport.Frames.{Continues, Agree, unmoved, says, joined, say, handle_frame-Agree}

module _ (codec : Codec) (lib : Library) (text : List ℕ → String)
    (parse_ack : List ℕ → Option AppendAck) where
  abbrev pub reported : Option Err → List Err
  reported none = []
  reported (some e) = e ∷ []

  abbrev pub kept : Option Err → Option Err → Option Err
  kept old none = old
  kept old (some e) = keep_first old e

  -- The first error reported on an open transport without one, and the end of the reading.
  pub record Ended (p q : Transport) (words : List AppendAck × Option Err) : Type 0 where
    pub closed_all : (q.closed ≡ true) × (q.acks_closed ≡ true) × (q.errors_closed ≡ true)
    pub all_handed : q.acks ≡ p.acks ++ words.0
    pub one_error : q.errors ≡ reported words.1
    pub first_error : q.terminal_err ≡ kept p.terminal_err words.1

  finish-Ended :
      (p q : Transport) (words : List AppendAck × Option Err)
      → q.acks ≡ p.acks ++ words.0
      → q.errors ≡ reported words.1
      → q.terminal_err ≡ kept p.terminal_err words.1
      → Ended p (finish_reading codec lib text parse_ack q) words
  unfolding finish_reading close
  finish-Ended p q words a e t =
      if_ind (λ x. Ended p x words) q.closed
        (λ c. record {
          closed_all = (c, refl, refl);
          all_handed = a;
          one_error = e;
          first_error = t;
        })
        (λ _. record {
          closed_all = (refl, refl, refl);
          all_handed = a;
          one_error = e;
          first_error = t;
        })

  report_error_if_open_lem :
      (q : Transport) (e : Err)
      → q.closed ≡ false
      → q.errors ≡ []
      → report_error_if_open q e
        ≡ record q { terminal_err = keep_first q.terminal_err e; errors = e ∷ [] }
  unfolding report_error_if_open report_error record_terminal_error
  report_error_if_open_lem q e c n = rw (c, n) refl

  error-Ended :
      (p q : Transport) (e : Err)
      → p.closed ≡ false
      → p.errors ≡ []
      → Continues codec lib text parse_ack p q []
      → Ended p (finish_reading codec lib text parse_ack (report_error_if_open q e)) ([], some e)
  error-Ended p q e h n c =
      subst (λ x. Ended p (finish_reading codec lib text parse_ack x) ([], some e))
        (sym (report_error_if_open_lem q e (c.still_open ∙ h) (c.no_new_errors ∙ n)))
        (finish-Ended p _ ([], some e) c.handed refl (ap (λ x. keep_first x e) c.same_terminal))

  shift-Ended :
      (p q r : Transport) (given : List AppendAck) (rest : List AppendAck × Option Err)
      → Continues codec lib text parse_ack p q given
      → Ended q r rest
      → Ended p r (given ++ rest.0, rest.1)
  shift-Ended p q r given rest c d = record {
    closed_all = d.closed_all;
    all_handed = d.all_handed ∙ ap (λ x. x ++ rest.0) c.handed ∙ append_assoc p.acks given rest.0;
    one_error = d.one_error;
    first_error = d.first_error ∙ ap (λ x. kept x rest.1) c.same_terminal;
  }

  after_frame-Ended :
      (p : Transport) (loop : Transport → Transport) (x : Transport × Option Err)
      (y : Err ⊎ List AppendAck) (rest : List AppendAck × Option Err)
      → p.closed ≡ false
      → p.errors ≡ []
      → Agree codec lib text parse_ack p x y
      → ((q : Transport) → q.closed ≡ false → q.errors ≡ [] → Ended q (loop q) rest)
      → Ended p
          (after_frame codec lib text parse_ack loop x)
          (joined codec lib text parse_ack y rest)
  unfolding after_frame
  after_frame-Ended p loop (q, none) (inr given) rest h n c l =
      shift-Ended p q _ given rest c (l q (c.still_open ∙ h) (c.no_new_errors ∙ n))
  after_frame-Ended p loop (q, some e) (inl f) rest h n (k, c) l =
      subst
        (λ x.
          Ended p (finish_reading codec lib text parse_ack (report_error_if_open q e)) ([], some x))
        k (error-Ended p q e h n c)
  after_frame-Ended p loop (q, none) (inl f) rest h n c l = absurd c
  after_frame-Ended p loop (q, some e) (inr given) rest h n c l = absurd c

  -- On an open transport with no error reported, whatever frames come and however the stream ends,
  -- the reading loop does what a description of the frames says that knows no transport: it hands
  -- over the acks of the frames before the first error, in order, reports that error and no other,
  -- or none at a clean end, keeps a terminal error that was recorded before, and ends with the
  -- transport and both channels closed.
  pub read_acks_loop-Ended :
      (p : Transport) (frames : List (S2SFrame × Bool)) (ending : Option Err)
      → p.closed ≡ false
      → p.errors ≡ []
      → Ended p
          (read_acks_loop codec lib text parse_ack p frames ending)
          (say codec lib text parse_ack frames ending)
  unfolding read_acks_loop
  read_acks_loop-Ended p [] none h n = finish-Ended p p ([], none) (sym (append-nil p.acks)) n refl
  read_acks_loop-Ended p [] (some e) h n =
      error-Ended p p e h n (unmoved codec lib text parse_ack p)
  read_acks_loop-Ended p ((f, dropped) ∷ fs) ending h n =
      after_frame-Ended p _ (handle_frame codec lib text parse_ack p f dropped)
        (says codec lib text parse_ack f) (say codec lib text parse_ack fs ending) h n
        (handle_frame-Agree codec lib text parse_ack p f dropped h)
        (λ q c e. read_acks_loop-Ended q fs ending c e)
