-- ===== src/Batcher/Submit.antt =====
-- A batch on its way to an append session: it passes the validation of inputs.
use s2_sdk_go.Prelude.{ℕ, ◌≤◌, ◌≡◌, arith, Option, none, some, List, [], ◌∷◌, ◌++◌, subst, length}
use s2_sdk_go.Records.{
  AppendInput, max_fencing_token_length, token_length, metered_batch_bytes, valid,
  validate_append_input,
}
use s2_sdk_go.Records.Sizes.{IsBatch, IsBatch-validate_append_input}
use s2_sdk_go.Batching.{BatchingOptions}
use s2_sdk_go.Batcher.{BatchOutput}
use s2_sdk_go.Batcher.Steps.{World, Reach, fresh}
use s2_sdk_go.Batcher.Valid.{AllSendable, IsSendable, HasLimits}
use s2_sdk_go.Batcher.Invariant.{Reach-fresh-IsValid}

-- The `Input` of a batch that is sent.
abbrev pub input_of : (C : Type 0) → BatchOutput → AppendInput C
input_of C x = record {
  records = x.records;
  match_seq_num = x.match_seq_num;
  fencing_token = x.fencing_token;
  stream_config = none;
}

AllSendable-at :
    (o : BatchingOptions) (before after : List BatchOutput) (x : BatchOutput)
    → AllSendable o (before ++ (x ∷ after))
    → IsSendable o x
AllSendable-at o [] after x (h, t) = h
AllSendable-at o (y ∷ ys) after x (h, t) = AllSendable-at o ys after x t

sendable-IsBatch :
    (C : Type 0) (o : BatchingOptions) (x : BatchOutput)
    → HasLimits o
    → IsSendable o x
    → x.barrier ≡ none
    → token_length x.fencing_token ≤ max_fencing_token_length
    → IsBatch (input_of C x)
sendable-IsBatch C o x l s b t = record {
  some_record =
      subst (λ (c : Option ℕ). (elim c [ none ↦ 1 | some n ↦ 0 ]) ≤ length x.records) b
        s.some_record;
  few_records = omega (arith, s.few_records, l.records_bounded);
  short_token = t;
  few_bytes = omega (arith, s.few_bytes, l.bytes_bounded);
}

-- Every batch that a batcher sends after any calls, unless it is a barrier or its fencing token is
-- longer than 36 bytes, passes the validation of append inputs, with the metered size of its
-- records.
pub Reach-validate_append_input :
    (C : Type 0) (o : Option BatchingOptions) {w : World} (before after : List BatchOutput)
    (x : BatchOutput)
    → Reach (fresh o) w
    → w.batcher.sent ≡ before ++ (x ∷ after)
    → x.barrier ≡ none
    → token_length x.fencing_token ≤ max_fencing_token_length
    → validate_append_input (some (input_of C x)) ≡ valid (metered_batch_bytes x.records)
Reach-validate_append_input C o {w} before after x r e b t =
    let l = (Reach-fresh-IsValid o r).loaded in
    let s =
      AllSendable-at w.batcher.opts before after x
        (subst (AllSendable w.batcher.opts) e l.sendable) in
    IsBatch-validate_append_input (input_of C x)
      (sendable-IsBatch C w.batcher.opts x l.limits s b t)
