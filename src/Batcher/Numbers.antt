-- ===== src/Batcher/Numbers.antt =====
-- The sequence number that each batch must match.
use s2_sdk_go.Prelude.{
  ℕ, ◌+◌, ◌^◌, ◌<◌, ◌≡◌, refl, sym, ap, ◌∙◌, Option, none, some, List, [], ◌∷◌, ◌++◌, length,
  length-append, append-nil, arith,
}
use s2_sdk_go.Batching.{BatchingOptions, apply_batching_defaults}
use s2_sdk_go.Batcher.{BatchOutput, Batcher, new_batcher, emit, output, advance, insert}
use s2_sdk_go.Batcher.Steps.{World, Reach, fresh}
use s2_sdk_go.Batcher.Moves.{
  Move, emits, takes, sends, marks, barrier_output, Moves, still, move, Reach-Moves,
}
use s2_sdk_go.Batcher.Order.{sent_records, sent_records-append}

abbrev pub IsUint64 : Option ℕ → Type 0
IsUint64 none = Unit
IsUint64 (some n) = n < 2 ^ 64

advance_zero : (v : Option ℕ) → IsUint64 v → advance v 0 ≡ v
unfolding advance
advance_zero none h = refl
advance_zero (some n) h = ap some (omega arith)

advance-advance : (v : Option ℕ) (m n : ℕ) → advance (advance v m) n ≡ advance v (m + n)
unfolding advance
advance-advance none m n = refl
advance-advance (some v) m n = ap some (omega arith)

-- After `n` records, the number that a batch, or the lack of one that a barrier, must carry.
abbrev pub expected : Option ℕ → ℕ → BatchOutput → Option ℕ
expected v n x = elim x.barrier [ none ↦ advance v n | some c ↦ none ]

abbrev pub Numbered : Option ℕ → ℕ → List BatchOutput → Type 0
Numbered v n [] = Unit
Numbered v n (x ∷ xs) = (x.match_seq_num ≡ expected v n x) × Numbered v (n + length x.records) xs

Numbered-append :
    (v : Option ℕ) (n : ℕ) (xs : List BatchOutput) (x : BatchOutput)
    → Numbered v n xs
    → x.match_seq_num ≡ expected v (n + length (sent_records xs)) x
    → Numbered v n (xs ++ (x ∷ []))
Numbered-append v n [] x t h = (h ∙ ap (λ k. expected v k x) (omega arith), tt)
Numbered-append v n (y ∷ ys) x (e, t) h = (
  e,
  Numbered-append v (n + length y.records) ys x t
      (h ∙ ap (λ k. expected v k x) (omega (arith, length-append y.records (sent_records ys)))),
)

record IsNumbered (v : Option ℕ) (b : Batcher) : Type 0 where
  next_exact : b.next_match_seq_num ≡ advance v (length (sent_records b.sent))
  all_numbered : Numbered v 0 b.sent

Move-IsNumbered :
    (m : Option ℕ) {v w : World} → Move v w → IsNumbered m v.batcher → IsNumbered m w.batcher
unfolding emit output insert
Move-IsNumbered m {v} (emits none) i =
    let b = v.batcher in
    let x = output b in
    record {
      next_exact =
          ap (λ k. advance k (length b.buffer)) i.next_exact
          ∙ advance-advance m (length (sent_records b.sent)) (length b.buffer)
          ∙ ap (λ k. advance m k)
              (sym (length-append (sent_records b.sent) b.buffer)
                ∙ ap length (sym (sent_records-append b.sent x)));
      all_numbered =
          Numbered-append m 0 b.sent x i.all_numbered
            (i.next_exact ∙ ap (λ k. advance m k) (omega arith));
    }
Move-IsNumbered m (emits (some x)) i = record {
  next_exact = i.next_exact;
  all_numbered = i.all_numbered;
}
Move-IsNumbered m (takes r ch permit) i = record {
  next_exact = i.next_exact;
  all_numbered = i.all_numbered;
}
Move-IsNumbered m {v} (sends c) i =
    let b = v.batcher in
    record {
      next_exact =
          i.next_exact
          ∙ ap (λ rs. advance m (length rs)) (sym (sent_records-append b.sent _ ∙ append-nil _));
      all_numbered = Numbered-append m 0 b.sent (barrier_output c) i.all_numbered refl;
    }
Move-IsNumbered m (marks t cl seq) i = record {
  next_exact = i.next_exact;
  all_numbered = i.all_numbered;
}

Moves-IsNumbered :
    (m : Option ℕ) {v w : World} → Moves v w → IsNumbered m v.batcher → IsNumbered m w.batcher
Moves-IsNumbered m still i = i
Moves-IsNumbered m (move r s) i = Move-IsNumbered m s (Moves-IsNumbered m r i)

new_batcher-IsNumbered :
    (o : Option BatchingOptions)
    → IsUint64 (apply_batching_defaults o).match_seq_num
    → IsNumbered (apply_batching_defaults o).match_seq_num (new_batcher o)
unfolding new_batcher
new_batcher-IsNumbered o h = record { next_exact = sym (advance_zero _ h); all_numbered = tt }

-- If the sequence number to match fits 64 bits, then after any calls on a new batcher each batch
-- sent carries that number plus the count of records sent before it, modulo 2^64, or none if none
-- was set; a barrier carries none.
pub Reach-Numbered :
    (o : Option BatchingOptions) {w : World}
    → Reach (fresh o) w
    → IsUint64 (apply_batching_defaults o).match_seq_num
    → Numbered (apply_batching_defaults o).match_seq_num 0 w.batcher.sent
Reach-Numbered o r h =
    (Moves-IsNumbered _ (Reach-Moves r) (new_batcher-IsNumbered o h)).all_numbered
