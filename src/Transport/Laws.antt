-- ===== src/Transport/Laws.antt =====
-- What the operations of a transport keep.
use s2_sdk_go.Prelude.{ℕ, ◌≡◌, refl, true, Option, none, some, List, if_ind, not}
use s2_sdk_go.Errors.{Err}
use s2_sdk_go.Framing.Types.{Codec, CompressionType}
use s2_sdk_go.Framing.Encode.{marshal_proto_frame}
use s2_sdk_go.Records.{AppendInput}
use s2_sdk_go.Transport.{
  Transport, WriteFailure, append_input, with_frame, send, half_close, mark_write_signalled, close,
}

module _ (p : Transport) where
  pub half_close-closed : p.closed ≡ true → (half_close p).closed ≡ true
  unfolding half_close
  half_close-closed h = if_ind (λ (q : Transport). q.closed ≡ true) p.half_closed (λ _. h) (λ _. h)

  pub close-closed : (close p).closed ≡ true
  unfolding close
  close-closed = if_ind (λ (q : Transport). q.closed ≡ true) p.closed (λ h. h) (λ _. refl)

module _ {C : Type 0} (codec : Codec) (marshal : AppendInput C → Option (List ℕ))
    (compression : CompressionType) (p : Transport) where
  with_frame-closed :
      (f : Option (List ℕ)) (w : Option WriteFailure)
      → p.closed ≡ true
      → (with_frame codec marshal compression p f w).0.closed ≡ true
  unfolding with_frame send mark_write_signalled
  with_frame-closed none w h = h
  with_frame-closed (some f) none h =
      if_ind (λ (q : Transport × Option Err). q.0.closed ≡ true) (not p.writer) (λ _. h) (λ _. h)
  with_frame-closed (some f) (some x) h =
      if_ind (λ (q : Transport × Option Err). q.0.closed ≡ true) (not p.writer) (λ _. h) (λ _. h)

  pub append_input-closed :
      (i : AppendInput C) (w : Option WriteFailure)
      → p.closed ≡ true
      → (append_input codec marshal compression p i w).0.closed ≡ true
  unfolding append_input
  append_input-closed i w h =
      if_ind (λ (q : Transport × Option Err). q.0.closed ≡ true) p.closed (λ _. h)
        (λ _. with_frame-closed (marshal_proto_frame codec marshal i compression) w h)
