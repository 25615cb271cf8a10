-- ===== src/Transport/Frames.antt =====
-- What a frame says, by a description that knows no transport, and what a transport makes of it.
use Prim.Native.String.{String}
use s2_sdk_go.Prelude.{
  ℕ, ◌≡◌, refl, sym, ap, ◌∙◌, Bool, true, false, not, ◌&&◌, Option, none, some, List, [], ◌∷◌, ◌++◌,
  append-nil, ◌⊎◌, inl, inr, if◌then◌else◌, if_ind, leb, arith,
}
use s2_sdk_go.Errors.{Err, plain}
use s2_sdk_go.Errors.Decode.{Library, decode_api_error}
use s2_sdk_go.Framing.Types.{S2SFrame, Codec, decompressed_body}
use s2_sdk_go.Transport.{
  AppendAck, Transport, poison_if, failed_status, on_terminal, advise, on_ack, on_body,
  handle_frame,
}

module _ (codec : Codec) (lib : Library) (text : List ℕ → String)
    (parse_ack : List ℕ → Option AppendAck) where
  -- What one frame says: an error, nothing, or an ack.
  abbrev pub said : S2SFrame → Option (List ℕ) → Err ⊎ List AppendAck
  said frame d = elim d [
    | none ↦ inl (plain "failed to decompress frame")
    | some body ↦
        if frame.terminal
        then elim frame.status_code [
          | none ↦ inr []
          | some status ↦
              if leb 400 status then inl (decode_api_error lib status (text body)) else inr []
        ]
        else elim (parse_ack body) [
          | none ↦ inl (plain "failed to parse AppendAck")
          | some ack ↦ inr (ack ∷ [])
        ]
  ]

  abbrev pub says : S2SFrame → Err ⊎ List AppendAck
  says frame = said frame (decompressed_body codec frame)

  -- What the frames say up to the first error, if any, and that error; or the end of the stream.
  abbrev pub joined :
      Err ⊎ List AppendAck → List AppendAck × Option Err → List AppendAck × Option Err
  joined (inl e) rest = ([], some e)
  joined (inr given) rest = (given ++ rest.0, rest.1)

  abbrev pub say : List (S2SFrame × Bool) → Option Err → List AppendAck × Option Err
  say [] ending = ([], ending)
  say ((f, dropped) ∷ fs) ending = joined (says f) (say fs ending)

  -- A frame leaves an open transport without an error open and without one, with its ack handed over.
  pub record Continues (p q : Transport) (given : List AppendAck) : Type 0 where
    pub still_open : q.closed ≡ p.closed
    pub no_new_errors : q.errors ≡ p.errors
    pub same_terminal : q.terminal_err ≡ p.terminal_err
    pub handed : q.acks ≡ p.acks ++ given

  abbrev pub Agree : Transport → Transport × Option Err → Err ⊎ List AppendAck → Type 0
  Agree p (q, none) (inr given) = Continues p q given
  Agree p (q, some e) (inl f) = (e ≡ f) × Continues p q []
  Agree p (q, none) (inl f) = ⊥
  Agree p (q, some e) (inr given) = ⊥

  pub unmoved : (p : Transport) → Continues p p []
  unmoved p = record {
    still_open = refl;
    no_new_errors = refl;
    same_terminal = refl;
    handed = sym (append-nil p.acks);
  }

  failed-Continues :
      (p : Transport) (b : Bool) → Continues p (poison_if codec lib text parse_ack b p) []
  unfolding poison_if
  failed-Continues p b =
      if_ind (λ (q : Transport). Continues p q []) b
        (λ _. record {
          still_open = refl;
          no_new_errors = refl;
          same_terminal = refl;
          handed = sym (append-nil p.acks);
        })
        (λ _. unmoved p)

  advise-Continues :
      (p : Transport) (b : Bool) → Continues p (advise codec lib text parse_ack p b) []
  unfolding advise
  advise-Continues p b =
      if_ind (λ (q : Transport). Continues p q []) (b && not p.reconnect_advised)
        (λ _. record {
          still_open = refl;
          no_new_errors = refl;
          same_terminal = refl;
          handed = sym (append-nil p.acks);
        })
        (λ _. unmoved p)

  choose :
      (p : Transport) (b : Bool) (x u : Transport × Option Err) (y v : Err ⊎ List AppendAck)
      → Agree p x y
      → Agree p u v
      → Agree p (if b then x else u) (if b then y else v)
  choose p true x u y v s t = s
  choose p false x u y v s t = t

  terminal-Agree :
      (p : Transport) (status : Option ℕ) (body : List ℕ)
      → Agree p (on_terminal codec lib text parse_ack p status body) (elim status [
        | none ↦ inr []
        | some s ↦ if leb 400 s then inl (decode_api_error lib s (text body)) else inr []
      ])
  unfolding on_terminal failed_status
  terminal-Agree p none body = unmoved p
  terminal-Agree p (some status) body =
      choose p (leb 400 status) _ _ _ _ (refl, failed-Continues p _) (unmoved p)

  ack-Agree :
      (p q : Transport) (a : Option AppendAck) (dropped : Bool)
      → p.closed ≡ false
      → Continues p q []
      → Agree p
          (on_ack codec lib text parse_ack q a dropped)
          (elim a [ none ↦ inl (plain "failed to parse AppendAck") | some ack ↦ inr (ack ∷ []) ])
  unfolding on_ack
  ack-Agree p q none dropped h c = (refl, c)
  ack-Agree p q (some a) dropped h c =
      if_ind (λ (t : Transport). Continues p t (a ∷ [])) (q.closed && dropped)
        (λ t. let k = c.still_open ∙ h in absurd (ground (arith, t, k)))
        (λ _. record {
          still_open = c.still_open;
          no_new_errors = c.no_new_errors;
          same_terminal = c.same_terminal;
          handed = ap (λ xs. xs ++ (a ∷ [])) (c.handed ∙ append-nil p.acks);
        })

  body-Agree :
      (p : Transport) (f : S2SFrame) (d : Option (List ℕ)) (dropped : Bool)
      → p.closed ≡ false
      → Agree p (on_body codec lib text parse_ack p f d dropped) (said f d)
  unfolding on_body
  body-Agree p f none dropped h = (refl, unmoved p)
  body-Agree p f (some body) dropped h =
      choose p f.terminal _ _ _ _ (terminal-Agree p f.status_code body)
        (ack-Agree p _ (parse_ack body) dropped h (advise-Continues p f.reconnect_advised))

  pub handle_frame-Agree :
      (p : Transport) (f : S2SFrame) (dropped : Bool)
      → p.closed ≡ false
      → Agree p (handle_frame codec lib text parse_ack p f dropped) (says f)
  unfolding handle_frame
  handle_frame-Agree p f dropped h = body-Agree p f (decompressed_body codec f) dropped h
