-- ===== src/Producer/Sound.antt =====
-- When the log of a producer is sound for a result channel.
use s2_sdk_go.Prelude.{
  ℕ, ◌+◌, ◌≡◌, sym, ◌∙◌, subst, Bool, true, false, Option, none, some, List, [], ◌∷◌, ◌++◌,
  append_assoc, append-nil, arith, count,
}
use s2_sdk_go.Errors.{Err}
use s2_sdk_go.Transport.{AppendAck}
use s2_sdk_go.Batcher.{BatchOutput, RecordMeta}
use s2_sdk_go.Batcher.Delivery.{channels, sent_channels}
use s2_sdk_go.Producer.{
  Producer, Event, taken, settled, flushed, durable, lost, IndexedAppendAck, keep_cause,
  durable_events, lost_events,
}
use s2_sdk_go.Producer.Kept.{Keeps}

-- A log that is sound for one channel: how often it is awaited at the end, and whether no result
-- so far was an error. A result is sent only on a channel that is awaited; a barrier is answered
-- only while the channel is not, and without an error only if there was none.
pub data Sound (c : ℕ) : List Event → ℕ → Bool → Type 0 where
  starts : Sound c [] 0 true
  takes :
      {es : List Event} {n : ℕ} {ok : Bool} (x : BatchOutput)
      → Sound c es n ok
      → Sound c (es ++ (taken x ∷ [])) (count c (channels x.record_meta) + n) ok
  succeeds :
      {es : List Event} (n : ℕ) {ok : Bool} (d : ℕ) (a : IndexedAppendAck)
      → Sound c es (count c (d ∷ []) + n) ok
      → Sound c (es ++ (settled d (durable a) ∷ [])) n ok
  fails :
      {es : List Event} (n : ℕ) {ok : Bool} (d : ℕ) (e : Err)
      → Sound c es (count c (d ∷ []) + n) ok
      → Sound c (es ++ (settled d (lost e) ∷ [])) n false
  answers :
      {es : List Event} {ok : Bool} (barrier : ℕ) (e : Option Err)
      → (e ≡ none → ok ≡ true)
      → Sound c es 0 ok
      → Sound c (es ++ (flushed barrier e ∷ [])) 0 ok

abbrev pub stalled_channels : Option (List RecordMeta × Err) → List ℕ
stalled_channels none = []
stalled_channels (some (ms, e)) = channels ms

module _ (c : ℕ) where
  -- How often a channel is awaited: by batches on their way and by the one that waits for them.
  abbrev pub awaited : Producer → ℕ
  awaited p = count c (sent_channels p.pending) + count c (stalled_channels p.stalled)

  pub record IsSound (p : Producer) : Type 0 where
    pub ok : Bool
    pub sound : Sound c p.log (awaited p) ok
    pub honest : p.append_err ≡ none → ok ≡ true

  pub kept-IsSound : {p q : Producer} → Keeps p q → IsSound p → IsSound q
  kept-IsSound k i = record {
    ok = i.ok;
    sound = rw (k.same_log, k.same_pending, k.same_stalled) i.sound;
    honest = λ h. i.honest (sym k.same_error ∙ h);
  }

  pub recount : {es : List Event} {n m : ℕ} {ok : Bool} → n ≡ m → Sound c es n ok → Sound c es m ok
  recount {es} {ok = ok} h s = subst (λ x. Sound c es x ok) h s

  pub durable-Sound :
      (ms : List RecordMeta) (ack : AppendAck) (es : List Event) (n : ℕ) {ok : Bool}
      → Sound c es (count c (channels ms) + n) ok
      → Sound c (es ++ durable_events ms ack) n ok
  unfolding durable_events
  durable-Sound [] ack es n {ok} s =
      subst (λ x. Sound c x n ok) (sym (append-nil es)) (recount (omega arith) s)
  durable-Sound (m ∷ ms) ack es n {ok} s =
      subst (λ x. Sound c x n ok) (append_assoc es (_ ∷ []) (durable_events ms ack))
        (durable-Sound ms ack _ n (succeeds _ m.result_ch _ (recount (omega arith) s)))

  pub lost-Sound :
      (ms : List RecordMeta) (e : Err) (es : List Event) (n : ℕ) (ok : Bool)
      → Sound c es (count c (channels ms) + n) ok
      → (ok' : Bool) × Sound c (es ++ lost_events ms e) n ok'
  unfolding lost_events
  lost-Sound [] e es n ok s =
      (ok, subst (λ x. Sound c x n ok) (sym (append-nil es)) (recount (omega arith) s))
  lost-Sound (m ∷ ms) e es n ok s =
      let (b, t) = lost-Sound ms e _ n false (fails _ m.result_ch e (recount (omega arith) s)) in
      (b, subst (λ x. Sound c x n b) (append_assoc es (_ ∷ []) (lost_events ms e)) t)

  pub carry :
      {p q : Producer}
      → Keeps p q
      → (n : ℕ) {ok : Bool} → Sound c p.log (n + awaited p) ok
      → Sound c q.log (n + awaited q) ok
  carry k n s = rw (k.same_log, k.same_pending, k.same_stalled) s

  pub caused : (o : Option Err) (e : Err) → keep_cause o e ≡ none → ⊥
  unfolding keep_cause
  caused none e h = cc
  caused (some x) e h = cc
