-- ===== src/Batcher/Valid.antt =====
-- What is true of a batcher between its operations, and that a flush keeps it so.
use s2_sdk_go.Prelude.{
  ℕ, suc, ◌≤◌, ◌<◌, ◌≡◌, refl, Option, none, some, List, [], ◌∷◌, ◌++◌, if◌then◌else◌, ◌==◌, length,
  pos_part, arith, if_ind,
}
use s2_sdk_go.Errors.{Err}
use s2_sdk_go.Records.{
  AppendRecord, metered_batch_bytes, max_batch_records, max_batch_metered_bytes,
}
use s2_sdk_go.Batching.{BatchingOptions, apply_batching_defaults, defaults_of, empty_options}
use s2_sdk_go.Batcher.{RecordMeta, BatchOutput, Batcher, Select, emit, output, flush_locked}

-- The places of a batch: ascending, from `lo` on and below `hi`.
abbrev pub Placed : ℕ → List RecordMeta → ℕ → Type 0
Placed lo [] hi = lo ≤ hi
Placed lo (m ∷ ms) hi = (lo ≤ m.index) × Placed (suc m.index) ms hi

-- What is sent is a barrier, or a batch within the limits of the options.
pub record IsSendable (o : BatchingOptions) (x : BatchOutput) : Type 0 where
  pub some_record : (elim x.barrier [ none ↦ 1 | some c ↦ 0 ]) ≤ length x.records
  pub few_records : length x.records ≤ pos_part o.max_records
  pub few_bytes : metered_batch_bytes x.records ≤ o.max_metered_bytes
  pub placed : Placed 0 x.record_meta (length x.records)

abbrev pub AllSendable : BatchingOptions → List BatchOutput → Type 0
AllSendable o [] = Unit
AllSendable o (x ∷ xs) = IsSendable o x × AllSendable o xs

pub AllSendable-append :
    (o : BatchingOptions) (xs : List BatchOutput) (x : BatchOutput)
    → AllSendable o xs
    → IsSendable o x
    → AllSendable o (xs ++ (x ∷ []))
AllSendable-append o [] x a i = (i, tt)
AllSendable-append o (y ∷ ys) x (h, t) i = (h, AllSendable-append o ys x t i)

pub record HasLimits (o : BatchingOptions) : Type 0 where
  pub some_records : 1 ≤ pos_part o.max_records
  pub records_bounded : pos_part o.max_records ≤ max_batch_records
  pub some_bytes : 1 ≤ o.max_metered_bytes
  pub bytes_bounded : o.max_metered_bytes ≤ max_batch_metered_bytes

-- In the middle of an operation the buffer may be full.
pub record IsLoaded (b : Batcher) : Type 0 where
  pub limits : HasLimits b.opts
  pub exact : b.buffer_bytes ≡ metered_batch_bytes b.buffer
  pub few_records : length b.buffer ≤ pos_part b.opts.max_records
  pub few_bytes : b.buffer_bytes ≤ b.opts.max_metered_bytes
  pub placed : Placed 0 b.record_meta (length b.buffer)
  pub sendable : AllSendable b.opts b.sent

pub record IsValid (b : Batcher) : Type 0 where
  pub loaded : IsLoaded b
  pub records_below : length b.buffer < pos_part b.opts.max_records
  pub bytes_below : b.buffer_bytes < b.opts.max_metered_bytes
  pub closed_empty : (if b.closed then length b.buffer else 0) ≡ 0

defaults_of-HasLimits : (o : BatchingOptions) → HasLimits (defaults_of o)
unfolding defaults_of
defaults_of-HasLimits o = ground arith

pub apply_batching_defaults-HasLimits :
    (o : Option BatchingOptions) → HasLimits (apply_batching_defaults o)
unfolding apply_batching_defaults
apply_batching_defaults-HasLimits none = defaults_of-HasLimits empty_options
apply_batching_defaults-HasLimits (some o) = defaults_of-HasLimits o

pub metered_empty : (rs : List AppendRecord) → length rs ≡ 0 → metered_batch_bytes rs ≡ 0
unfolding metered_batch_bytes
metered_empty [] h = refl
metered_empty (r ∷ rs) h = absurd (omega arith)

-- An operation that leaves the buffer empty leaves the batcher valid.
pub emptied : (b : Batcher) → IsLoaded b → length b.buffer ≡ 0 → IsValid b
emptied b l e = record {
  loaded = l;
  records_below = omega (arith, l.limits.some_records);
  bytes_below = omega (arith, l.limits.some_bytes, l.exact, metered_empty b.buffer e);
  closed_empty = if_ind (λ n. n ≡ 0) b.closed (λ _. e) (λ _. refl);
}

emit-IsLoaded :
    (b : Batcher) (s : Select) → IsLoaded b → 1 ≤ length b.buffer → IsLoaded (emit b s).0
unfolding emit output metered_batch_bytes
emit-IsLoaded b none l h = record {
  limits = l.limits;
  exact = refl;
  few_records = omega arith;
  few_bytes = omega arith;
  placed = omega arith;
  sendable = AllSendable-append b.opts b.sent _ l.sendable (record {
    some_record = h;
    few_records = l.few_records;
    few_bytes = omega (arith, l.exact, l.few_bytes);
    placed = l.placed;
  });
}
emit-IsLoaded b (some x) l h = record {
  limits = l.limits;
  exact = refl;
  few_records = omega arith;
  few_bytes = omega arith;
  placed = omega arith;
  sendable = l.sendable;
}

pub emit_empty : (b : Batcher) (s : Select) → length (emit b s).0.buffer ≡ 0
unfolding emit
emit_empty b none = refl
emit_empty b (some x) = refl

pub flush_locked-IsValid : (b : Batcher) (s : Select) → IsLoaded b → IsValid (flush_locked b s).0
unfolding flush_locked
flush_locked-IsValid b s l =
    if_ind (λ (p : Batcher × Option Err). IsValid p.0) (length b.buffer == 0)
      (λ e. emptied b l (ground arith))
      (λ e. emptied (emit b s).0 (emit-IsLoaded b s l (ground arith)) (emit_empty b s))

-- A flush keeps the options and the closed flag.
abbrev pub Same : Batcher → Batcher → Type 0
Same b c = (c.opts ≡ b.opts) × (c.closed ≡ b.closed)

pub flush_locked-Same : (b : Batcher) (s : Select) → Same b (flush_locked b s).0
unfolding flush_locked emit
flush_locked-Same b none =
    if_ind (λ (p : Batcher × Option Err). Same b p.0) (length b.buffer == 0) (λ e. (refl, refl))
      (λ e. (refl, refl))
flush_locked-Same b (some x) =
    if_ind (λ (p : Batcher × Option Err). Same b p.0) (length b.buffer == 0) (λ e. (refl, refl))
      (λ e. (refl, refl))
