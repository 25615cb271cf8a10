-- ===== src/Producer/Flush.antt =====
-- What a flush of a producer promises: its barrier is answered when every record taken before it
-- has its result, and without an error only if none of them was lost.
use s2_sdk_go.Prelude.{
  ℤ, ℕ, ◌+◌, ◌≡◌, refl, sym, ap, ◌∙◌, Bool, true, Option, none, some, List, [], ◌∷◌, ◌++◌, ◌⊎◌, inl,
  inr, arith, count, count-append,
}
use s2_sdk_go.Errors.{Err}
use s2_sdk_go.Transport.{AppendAck}
use s2_sdk_go.Batcher.{Batcher, BatchOutput, RecordMeta}
use s2_sdk_go.Batcher.Delivery.{channels, sent_channels}
use s2_sdk_go.Producer.{
  Producer, new_producer, release_producer_permits, record_terminal_error, resolve_batch_ack,
  dispatch_batch_error, await_ack, process_batch, resume, finish_batch, take_batch, answer_barrier,
}
use s2_sdk_go.Producer.Steps
use s2_sdk_go.Producer.Steps.{Step, Reach, here, next}
use s2_sdk_go.Producer.Kept.{
  record_terminal_error-Keeps, release_producer_permits-Keeps, begin_submit-Keeps,
  map_submit_error-Keeps, submit_reserved-Keeps, begin_flush-Keeps, order_barrier-Keeps,
  begin_close-Keeps, end_close-Keeps, on_ctx_done-Keeps, on_batcher_done-Keeps,
}
use s2_sdk_go.Producer.Sound.{
  Sound, takes, answers, starts, stalled_channels, awaited, IsSound, kept-IsSound, recount,
  durable-Sound, lost-Sound, carry, caused,
}

module _ (c : ℕ) where
  dispatch-IsSound :
      (p : Producer) (ms : List RecordMeta) (e : Err) {ok : Bool}
      → Sound c p.log (count c (channels ms) + awaited c p) ok
      → IsSound c (dispatch_batch_error p ms e)
  unfolding dispatch_batch_error
  dispatch-IsSound p ms e {ok} s =
      let k = release_producer_permits-Keeps p ms in
      let t = carry c k (count c (channels ms)) s in
      let (b, u) =
        lost-Sound c ms e (release_producer_permits p ms).log
          (awaited c (release_producer_permits p ms)) ok t in
      record { ok = b; sound = u; honest = λ h. absurd (caused c _ e h) }

  resolve-IsSound :
      (p : Producer) (ms : List RecordMeta) (ack : AppendAck) {ok : Bool}
      → Sound c p.log (count c (channels ms) + awaited c p) ok
      → (p.append_err ≡ none → ok ≡ true)
      → IsSound c (resolve_batch_ack p ms ack)
  unfolding resolve_batch_ack
  resolve-IsSound p ms ack {ok} s h =
      let k = release_producer_permits-Keeps p ms in
      record {
        ok = ok;
        sound = durable-Sound c ms ack _ _ (carry c k (count c (channels ms)) s);
        honest = λ x. h (sym k.same_error ∙ x);
      }

  -- A terminal error is recorded before a batch is dispatched.
  after_terminal :
      (p : Producer) (ms : List RecordMeta) (e f : Err) {ok : Bool}
      → Sound c p.log (count c (channels ms) + awaited c p) ok
      → IsSound c (dispatch_batch_error (record_terminal_error p e).0 ms f)
  after_terminal p ms e f s =
      let k = record_terminal_error-Keeps p e in
      dispatch-IsSound (record_terminal_error p e).0 ms f (carry c k (count c (channels ms)) s)

  finish-IsSound :
      (p : Producer) (ms : List RecordMeta) (result : Err ⊎ AppendAck) {ok : Bool}
      → Sound c p.log (count c (channels ms) + awaited c p) ok
      → (p.append_err ≡ none → ok ≡ true)
      → IsSound c (finish_batch p ms result)
  unfolding finish_batch
  finish-IsSound p ms (inl e) s h = after_terminal p ms e _ s
  finish-IsSound p ms (inr ack) s h = resolve-IsSound p ms ack s h

  sent_channels-append :
      (xs ys : List BatchOutput)
      → count c (sent_channels (xs ++ ys)) ≡ count c (sent_channels xs) + count c (sent_channels ys)
  sent_channels-append [] ys = omega arith
  sent_channels-append (x ∷ xs) ys = omega (
    arith,
    sent_channels-append xs ys,
    count-append c (channels x.record_meta) (sent_channels (xs ++ ys)),
    count-append c (channels x.record_meta) (sent_channels xs),
  )

  stall_count :
      (p : Producer) (x : BatchOutput)
      → p.stalled ≡ none
      → count c (channels x.record_meta) + awaited c p
        ≡ count c (sent_channels p.pending) + count c (channels x.record_meta)
  stall_count p x n = omega (arith, ap (λ o. count c (stalled_channels o)) n)

  await-IsSound :
      (p : Producer) (x : BatchOutput) (o : Option Err) {ok : Bool}
      → p.stalled ≡ none
      → Sound c p.log (count c (channels x.record_meta) + awaited c p) ok
      → (p.append_err ≡ none → ok ≡ true)
      → IsSound c (await_ack p x o)
  unfolding await_ack
  await-IsSound p x none {ok} n s h = record {
    ok = ok;
    sound =
        recount c
          (omega (
            arith,
            sent_channels-append p.pending (x ∷ []),
            count-append c (channels x.record_meta) [],
          ))
          s;
    honest = h;
  }
  await-IsSound p x (some e) {ok} n s h =
      let k = record_terminal_error-Keeps p e in
      record {
        ok = ok;
        sound = rw (k.same_log, k.same_pending) (recount c (stall_count p x n) s);
        honest = λ y. h (sym k.same_error ∙ y);
      }

  at_terminal :
      (p : Producer) (x : BatchOutput) (r : Producer) (o : Option Err)
      → ((e : Err) → IsSound c (dispatch_batch_error p x.record_meta e))
      → IsSound c r
      → let q : Producer = elim o [ some e ↦ dispatch_batch_error p x.record_meta e | none ↦ r ] in
        IsSound c q
  at_terminal p x r none f i = i
  at_terminal p x r (some e) f i = f e

  process-IsSound :
      (p : Producer) (x : BatchOutput) (submitted : Option Err) {ok : Bool}
      → p.stalled ≡ none
      → Sound c p.log (count c (channels x.record_meta) + awaited c p) ok
      → (p.append_err ≡ none → ok ≡ true)
      → IsSound c (process_batch p x submitted)
  unfolding process_batch
  process-IsSound p x submitted {ok} n s h =
      at_terminal p x _ p.terminal_err (λ e. dispatch-IsSound p x.record_meta e s)
        (await-IsSound p x submitted n s h)

  take-IsSound :
      (p : Producer) (x : BatchOutput) (submitted : Option Err)
      → p.stalled ≡ none
      → IsSound c p
      → IsSound c (take_batch p x submitted)
  unfolding take_batch
  take-IsSound p x submitted n i = process-IsSound _ x submitted n (takes x i.sound) i.honest

  resume-IsSound :
      (p : Producer) (ms : List RecordMeta) (e : Err)
      → p.stalled ≡ some (ms, e)
      → IsSound c p
      → IsSound c (resume p ms e)
  unfolding resume
  resume-IsSound p ms e q i =
      dispatch-IsSound (record p { stalled = none }) ms e
        (recount c (omega (arith, ap (λ o. count c (stalled_channels o)) q)) i.sound)

  answer-IsSound :
      (p : Producer) (barrier : ℕ)
      → p.stalled ≡ none
      → p.pending ≡ []
      → IsSound c p
      → IsSound c (answer_barrier p barrier)
  unfolding answer_barrier
  answer-IsSound p barrier n q i =
      let z : awaited c p ≡ 0 =
        omega (
          arith,
          ap (λ o. count c (stalled_channels o)) n,
          ap (λ o. count c (sent_channels o)) q,
        ) in
      record {
        ok = i.ok;
        sound = recount c (sym z) (answers barrier p.append_err i.honest (recount c z i.sound));
        honest = i.honest;
      }

  take_back :
      (p : Producer) (before : List BatchOutput) (x : BatchOutput) (after : List BatchOutput)
      (result : Err ⊎ AppendAck)
      → p.pending ≡ before ++ (x ∷ after)
      → IsSound c p
      → IsSound c (finish_batch (record p { pending = before ++ after }) x.record_meta result)
  take_back p before x after result q i =
      finish-IsSound (record p { pending = before ++ after }) x.record_meta result
        (recount c
          (omega (
            arith,
            ap (λ o. count c (sent_channels o)) q,
            sent_channels-append before (x ∷ after),
            sent_channels-append before after,
            count-append c (channels x.record_meta) (sent_channels after),
          ))
          i.sound)
        i.honest

  -- Nothing is said by a step that changes none of the four.
  Step-IsSound : {p q : Producer} → Step p q → IsSound c p → IsSound c q
  Step-IsSound {p} (Steps.begins r) i = kept-IsSound c (begin_submit-Keeps p r) i
  Step-IsSound {p} (Steps.reserves ctx size) i = record {
    ok = i.ok;
    sound = i.sound;
    honest = i.honest;
  }
  Step-IsSound {p} (Steps.makes_way s) i = record { ok = i.ok; sound = i.sound; honest = i.honest }
  Step-IsSound {p} (Steps.gives_up e) i = kept-IsSound c (map_submit_error-Keeps p e) i
  Step-IsSound {p} (Steps.submits r ch first last) i =
      kept-IsSound c (submit_reserved-Keeps p r ch first last) i
  Step-IsSound {p} (Steps.takes x submitted r b n) i = take-IsSound p x submitted n i
  Step-IsSound {p} (Steps.resumes ms e n q) i = resume-IsSound p ms e n i
  Step-IsSound {p} (Steps.finishes before x after result q) i =
      take_back p before x after result q i
  Step-IsSound {p} (Steps.answers x barrier r b n q) i = answer-IsSound p barrier n q i
  Step-IsSound {p} Steps.flushes i = kept-IsSound c (begin_flush-Keeps p) i
  Step-IsSound {p} (Steps.orders barrier first ctx last) i =
      kept-IsSound c (order_barrier-Keeps p barrier first ctx last) i
  Step-IsSound {p} (Steps.ticks seq s) i = record { ok = i.ok; sound = i.sound; honest = i.honest }
  Step-IsSound {p} (Steps.closes s) i = kept-IsSound c (begin_close-Keeps p s) i
  Step-IsSound {p} Steps.ends i = kept-IsSound c (end_close-Keeps p) i
  Step-IsSound {p} (Steps.seals s h) i = record { ok = i.ok; sound = i.sound; honest = i.honest }
  Step-IsSound {p} (Steps.expires x h) i = record { ok = i.ok; sound = i.sound; honest = i.honest }
  Step-IsSound {p} (Steps.follows x h) i = kept-IsSound c (on_ctx_done-Keeps p x) i
  Step-IsSound {p} (Steps.follows_batcher ctx) i = kept-IsSound c (on_batcher_done-Keeps p _) i

  from_IsSound : {p q : Producer} → Reach p q → IsSound c p → IsSound c q
  from_IsSound here i = i
  from_IsSound (next r s) i = Step-IsSound s (from_IsSound r i)

  -- After any steps of a new producer (submissions, batches taken, acks and failures in any order,
  -- flushes, cancellations and closing), for each result channel its log is sound: a result is
  -- sent only on a channel that a batch taken from the batcher awaits; the barrier of a flush is
  -- answered only when no channel of a batch taken before is awaited any more, and answered
  -- without an error only if none of their results was an error. What is awaited is exactly what
  -- stands in the batches on their way and in the one that waits for them.
  pub Reach-IsSound :
      (b : Batcher) (max_inflight_bytes : ℤ) {p : Producer}
      → Reach (new_producer b max_inflight_bytes) p
      → IsSound c p
  unfolding new_producer
  Reach-IsSound b n r =
      from_IsSound r
        (record { ok = true; sound = recount c (omega arith) starts; honest = λ h. refl })
