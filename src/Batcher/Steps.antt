-- ===== src/Batcher/Steps.antt =====
-- What the users of one batcher do, each operation under the mutex.
use s2_sdk_go.Prelude.{ℕ, Option, none, some, List, [], ◌∷◌, ◌++◌}
use s2_sdk_go.Context.{ContextError}
use s2_sdk_go.Errors.{Err}
use s2_sdk_go.Records.{AppendRecord}
use s2_sdk_go.Batching.{BatchingOptions}
use s2_sdk_go.Batcher.{
  Batcher, Select, new_batcher, flush_locked, add_with_permit, flush_for_backpressure,
  flush_barrier, flush_from_timer, close,
}

-- The batcher with the records it has accepted and the channels that came with them.
pub record World : Type 0 where
  pub batcher : Batcher
  pub accepted : List AppendRecord
  pub waiting : List ℕ

abbrev pub to_list {ℓ} : {A : Type ℓ} → Option A → List A
to_list none = []
to_list (some a) = a ∷ []

-- A record is accepted when the call returns no error.
abbrev pub after_add : World → AppendRecord → Option ℕ → Batcher × Option Err → World
after_add w r ch (b, none) = record {
  batcher = b;
  accepted = w.accepted ++ (r ∷ []);
  waiting = w.waiting ++ to_list ch;
}
after_add w r ch (b, some e) = record w { batcher = b }

pub data Step (w : World) : World → Type 0 where
  adds :
      (r : AppendRecord) (ch permit : Option ℕ) (first last : Select)
      → Step w (after_add w r ch (add_with_permit w.batcher r ch permit first last))
  flushes : (s : Select) → Step w (record w { batcher = (flush_locked w.batcher s).0 })
  makes_way : (s : Select) → Step w (record w { batcher = (flush_for_backpressure w.batcher s).0 })
  bars :
      (barrier : ℕ) (first : Select) (ctx : Option ContextError) (last : Select)
      → Step w (record w { batcher = (flush_barrier w.batcher barrier first ctx last).0 })
  expires :
      (seq : ℕ) (s : Select) → Step w (record w { batcher = flush_from_timer w.batcher seq s })
  closes : (s : Select) → Step w (record w { batcher = (close w.batcher s).0 })

pub data Reach (w : World) : World → Type 0 where
  here : Reach w w
  next : {u v : World} → Reach w u → Step u v → Reach w v

abbrev pub fresh : Option BatchingOptions → World
fresh o = record { batcher = new_batcher o; accepted = []; waiting = [] }
