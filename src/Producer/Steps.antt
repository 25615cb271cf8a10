-- ===== src/Producer/Steps.antt =====
-- What happens to one producer, in any order: submissions, the consumer, the goroutines that wait
-- for acks, flushes and closing. The outcomes of submissions, acks and waits are arbitrary.
use s2_sdk_go.Prelude.{ℕ, ◌≡◌, true, Option, none, some, List, [], ◌∷◌, ◌++◌, ◌⊎◌, length}
use s2_sdk_go.Context.{ContextError}
use s2_sdk_go.Errors.{Err, context_error}
use s2_sdk_go.Records.{AppendRecord}
use s2_sdk_go.Capacity.{attempt}
use s2_sdk_go.Transport.{AppendAck}
use s2_sdk_go.Batcher.{
  RecordMeta, BatchOutput, Select, flush_for_backpressure, flush_from_timer, shutdown_cause,
}
use s2_sdk_go.Batcher
use s2_sdk_go.Producer.{
  Producer, keep_cause, take_batch, resume, finish_batch, answer_barrier, on_batcher_done,
  on_ctx_done,
}
use s2_sdk_go.Producer.Submission.{
  begin_submit, map_submit_error, submit_reserved, begin_flush, order_barrier, begin_close,
  end_close,
}

-- What the consumer receives next from the batcher.
abbrev pub Receives : Producer → BatchOutput → Type 0
Receives p x =
    (before : List BatchOutput) × (after : List BatchOutput) × (p.batcher.sent
      ≡ before ++ (x ∷ after))
    × (length before ≡ p.received)

pub data Step (p : Producer) : Producer → Type 0 where
  begins : (r : AppendRecord) → Step p (begin_submit p r).0
  reserves :
      (ctx : Option ContextError) (size : ℕ)
      → Step p (record p { capacity = (attempt p.capacity ctx size).0 })
  makes_way : (s : Select) → Step p (record p { batcher = (flush_for_backpressure p.batcher s).0 })
  gives_up : (e : Err) → Step p (map_submit_error p e).0
  submits :
      (r : AppendRecord) (ch : ℕ) (first last : Select)
      → Step p (submit_reserved p r ch first last).0
  takes :
      (x : BatchOutput) (submitted : Option Err)
      → Receives p x
      → x.barrier ≡ none
      → p.stalled ≡ none
      → Step p (take_batch p x submitted)
  resumes :
      (ms : List RecordMeta) (e : Err)
      → p.stalled ≡ some (ms, e)
      → p.pending ≡ []
      → Step p (resume p ms e)
  finishes :
      (before : List BatchOutput) (x : BatchOutput) (after : List BatchOutput)
      (result : Err ⊎ AppendAck)
      → p.pending ≡ before ++ (x ∷ after)
      → Step p (finish_batch (record p { pending = before ++ after }) x.record_meta result)
  answers :
      (x : BatchOutput) (barrier : ℕ)
      → Receives p x
      → x.barrier ≡ some barrier
      → p.stalled ≡ none
      → p.pending ≡ []
      → Step p (answer_barrier p barrier)
  flushes : Step p (begin_flush p).0
  orders :
      (barrier : ℕ) (first : Select) (ctx : Option ContextError) (last : Select)
      → Step p (order_barrier p barrier first ctx last).0
  ticks : (seq : ℕ) (s : Select) → Step p (record p { batcher = flush_from_timer p.batcher seq s })
  closes : (s : Select) → Step p (begin_close p s)
  ends : Step p (end_close p).0
  seals :
      (s : Select)
      → p.closes_batcher ≡ true
      → Step p (record p { batcher = (Batcher.close p.batcher s).0 })
  expires :
      (x : ContextError)
      → p.ctx ≡ none
      → Step p
          (record p { ctx = some x; submit_cause = keep_cause p.submit_cause (context_error x) })
  follows : (x : ContextError) → p.ctx ≡ some x → Step p (on_ctx_done p x)
  follows_batcher :
      (ctx : Option ContextError) → Step p (on_batcher_done p (shutdown_cause p.batcher ctx))

pub data Reach (p : Producer) : Producer → Type 0 where
  here : Reach p p
  next : {q r : Producer} → Reach p q → Step q r → Reach p r
