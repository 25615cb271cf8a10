-- ===== src/Batcher/Order.antt =====
-- What happens to the records that a batcher accepts, and how it numbers their batches.
use s2_sdk_go.Prelude.{
  if_ind, ◌==◌, ◌≡◌, refl, sym, ap, ◌∙◌, true, false, Option, none, some, List, [], ◌∷◌, ◌++◌,
  length, append-nil, append_assoc, arith,
}
use s2_sdk_go.Errors.{Err}
use s2_sdk_go.Records.{AppendRecord}
use s2_sdk_go.Batching.{BatchingOptions}
use s2_sdk_go.Batcher.{
  BatchOutput, Batcher, new_batcher, emit, output, insert, keep_first, close, flush_locked,
}
use s2_sdk_go.Batcher.Steps.{World, Reach, fresh}
use s2_sdk_go.Batcher.Moves.{Move, emits, takes, sends, marks, Moves, still, move, Reach-Moves}

abbrev pub sent_records : List BatchOutput → List AppendRecord
sent_records [] = []
sent_records (x ∷ xs) = x.records ++ sent_records xs

pub sent_records-append :
    (xs : List BatchOutput) (x : BatchOutput)
    → sent_records (xs ++ (x ∷ [])) ≡ sent_records xs ++ x.records
sent_records-append [] x = append-nil x.records
sent_records-append (y ∷ ys) x =
    ap (λ rs. y.records ++ rs) (sent_records-append ys x)
    ∙ sym (append_assoc y.records (sent_records ys) x.records)

-- Until a flush fails, what was sent and what is held is what was accepted, in order.
abbrev pub IsOrdered : World → Type 0
IsOrdered w =
    w.batcher.close_err ≡ none → sent_records w.batcher.sent ++ w.batcher.buffer ≡ w.accepted

no_records : (rs : List AppendRecord) → length rs ≡ 0 → rs ≡ []
no_records [] h = refl
no_records (r ∷ rs) h = absurd (omega arith)

keep_first_some : (o : Option Err) (e : Err) → keep_first o e ≡ none → ⊥
unfolding keep_first
keep_first_some none e h = cc
keep_first_some (some x) e h = cc

Move-IsOrdered : {v w : World} → Move v w → IsOrdered v → IsOrdered w
unfolding emit output insert
Move-IsOrdered {v} (emits none) o c =
    append-nil _ ∙ sent_records-append v.batcher.sent (output v.batcher) ∙ o c
Move-IsOrdered {v} (emits (some x)) o c = absurd (keep_first_some _ _ c)
Move-IsOrdered {v} (takes r ch permit) o c =
    sym (append_assoc _ v.batcher.buffer (r ∷ [])) ∙ ap (λ rs. rs ++ (r ∷ [])) (o c)
Move-IsOrdered {v} (sends n) o c =
    ap (λ rs. rs ++ v.batcher.buffer) (sent_records-append v.batcher.sent _ ∙ append-nil _) ∙ o c
Move-IsOrdered (marks t cl seq) o c = o c

Moves-IsOrdered : {v w : World} → Moves v w → IsOrdered v → IsOrdered w
Moves-IsOrdered still o = o
Moves-IsOrdered (move m s) o = Move-IsOrdered s (Moves-IsOrdered m o)

Reach-IsOrdered : (o : Option BatchingOptions) {w : World} → Reach (fresh o) w → IsOrdered w
unfolding new_batcher
Reach-IsOrdered o r = Moves-IsOrdered (Reach-Moves r) (λ _. refl)

-- After any calls on a new batcher, while no close error is recorded, as a flush ended by the
-- context does, the records of the batches sent, followed by those in the buffer, are the records
-- accepted, in the order in which they were accepted: none is lost, doubled or reordered.
pub Reach-sent_records :
    (o : Option BatchingOptions) {w : World}
    → Reach (fresh o) w
    → w.batcher.close_err ≡ none
    → sent_records w.batcher.sent ++ w.batcher.buffer ≡ w.accepted
Reach-sent_records o r = Reach-IsOrdered o r

-- What a close leaves when its select sends the last batch.
abbrev pub IsDrained : World → Batcher × Option Err → Type 0
IsDrained w p = (p.1 ≡ none) × (p.0.closed ≡ true) × (sent_records p.0.sent ≡ w.accepted)

-- Closing an open batcher with no close error recorded, with room in the channel for the last
-- batch, returns no error, leaves it closed, and leaves every record it accepted in the batches
-- sent, in order.
pub close-sent_records :
    (o : Option BatchingOptions) {w : World}
    → Reach (fresh o) w
    → w.batcher.closed ≡ false
    → w.batcher.close_err ≡ none
    → IsDrained w (close w.batcher none)
unfolding close flush_locked emit output
close-sent_records o {w} r h c =
    let b = w.batcher in
    let d = record b { closed = true } in
    let P : Batcher × Option Err → Type 0 = IsDrained w in
    if_ind P b.closed (λ t. absurd (ground arith))
      (λ _.
        if_ind (λ (q : Batcher × Option Err). P (record (q.0) { timer = false }, q.0.close_err))
          (length b.buffer == 0)
          (λ e. (
            c,
            refl,
            sym (append-nil _)
                ∙ ap (λ rs. sent_records b.sent ++ rs) (sym (no_records b.buffer (ground arith)))
                ∙ Reach-IsOrdered o r c,
          ))
          (λ _. (c, refl, sent_records-append b.sent (output b) ∙ Reach-IsOrdered o r c)))
