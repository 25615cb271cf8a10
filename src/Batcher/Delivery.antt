-- ===== src/Batcher/Delivery.antt =====
-- What becomes of the channels that wait for the result of a record.
use s2_sdk_go.Prelude.{
  count, count-append, ℕ, ◌+◌, ◌≡◌, refl, Option, none, some, List, [], ◌∷◌, ◌++◌, length, arith,
}
use s2_sdk_go.Errors.{Err}
use s2_sdk_go.Batching.{BatchingOptions}
use s2_sdk_go.Batcher.{
  RecordMeta, BatchOutput, Batcher, new_batcher, emit, output, insert, meta_of, resolve_all,
}
use s2_sdk_go.Batcher.Steps.{World, Reach, fresh, to_list}
use s2_sdk_go.Batcher.Moves.{Move, emits, takes, sends, marks, Moves, still, move, Reach-Moves}

abbrev pub channels : List RecordMeta → List ℕ
channels [] = []
channels (m ∷ ms) = m.result_ch ∷ channels ms

abbrev pub sent_channels : List BatchOutput → List ℕ
sent_channels [] = []
sent_channels (x ∷ xs) = channels x.record_meta ++ sent_channels xs

abbrev pub resolved_channels : List (ℕ × Err) → List ℕ
resolved_channels [] = []
resolved_channels ((c, e) ∷ rs) = c ∷ resolved_channels rs

module _ (c : ℕ) where
  count-channels-append :
      (xs ys : List RecordMeta)
      → count c (channels (xs ++ ys)) ≡ count c (channels xs) + count c (channels ys)
  count-channels-append [] ys = omega arith
  count-channels-append (x ∷ xs) ys = omega (arith, count-channels-append xs ys)

  count-sent_channels :
      (xs : List BatchOutput) (x : BatchOutput)
      → count c (sent_channels (xs ++ (x ∷ [])))
        ≡ count c (sent_channels xs) + count c (channels x.record_meta)
  count-sent_channels [] x = omega (arith, count-append c (channels x.record_meta) [])
  count-sent_channels (y ∷ ys) x =
      let l = channels y.record_meta in
      omega (
        arith,
        count-append c l (sent_channels ys),
        count-append c l (sent_channels (ys ++ (x ∷ []))),
        count-sent_channels ys x,
      )

  count-resolve_all :
      (rs : List (ℕ × Err)) (ms : List RecordMeta) (e : Err)
      → count c (resolved_channels (rs ++ resolve_all ms e))
        ≡ count c (resolved_channels rs) + count c (channels ms)
  unfolding resolve_all
  count-resolve_all [] [] e = refl
  count-resolve_all [] (m ∷ ms) e = omega (arith, count-resolve_all [] ms e)
  count-resolve_all ((d, f) ∷ rs) ms e = omega (arith, count-resolve_all rs ms e)

  count-meta_of :
      (i : ℕ) (ch permit : Option ℕ)
      → count c (channels (meta_of i ch permit)) ≡ count c (to_list ch)
  count-meta_of i none permit = refl
  count-meta_of i (some d) permit = refl

  -- How often a channel is held: with a batch sent, with a record in the buffer, or with an error.
  abbrev pub holds : Batcher → ℕ
  holds b =
      count c (sent_channels b.sent)
      + count c (channels b.record_meta)
      + count c (resolved_channels b.resolved)

  Move-holds :
      {v w : World}
      → Move v w
      → holds v.batcher ≡ count c v.waiting
      → holds w.batcher ≡ count c w.waiting
  unfolding emit output insert
  Move-holds {v} (emits none) h =
      omega (arith, h, count-sent_channels v.batcher.sent (output v.batcher))
  Move-holds {v} (emits (some x)) h =
      omega (arith, h, count-resolve_all v.batcher.resolved v.batcher.record_meta _)
  Move-holds {v} (takes r ch permit) h =
      let b = v.batcher in
      omega (
        arith,
        h,
        count-channels-append b.record_meta (meta_of (length b.buffer) ch permit),
        count-meta_of (length b.buffer) ch permit,
        count-append c v.waiting (to_list ch),
      )
  Move-holds {v} (sends n) h = omega (arith, h, count-sent_channels v.batcher.sent _)
  Move-holds (marks t cl seq) h = h

  Moves-holds :
      {v w : World}
      → Moves v w
      → holds v.batcher ≡ count c v.waiting
      → holds w.batcher ≡ count c w.waiting
  Moves-holds still h = h
  Moves-holds (move m s) h = Move-holds s (Moves-holds m h)

-- After any calls on a new batcher, each channel that came with accepted records stands, as often
-- as it came, with exactly one of: a batch sent, a record in the buffer, a failed result.
pub Reach-holds :
    (o : Option BatchingOptions) {w : World}
    → Reach (fresh o) w
    → (c : ℕ) → holds c w.batcher ≡ count c w.waiting
unfolding new_batcher
Reach-holds o r c = Moves-holds c (Reach-Moves r) refl
