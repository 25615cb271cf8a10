-- ===== src/Producer/Acks.antt =====
-- The sequence numbers that the records of a batch are told.
use s2_sdk_go.Prelude.{ℕ, suc, ◌+◌, ◌^◌, ◌≤◌, ◌<◌, ◌≡◌, refl, List, [], ◌∷◌, length, arith}
use s2_sdk_go.Batching.{BatchingOptions}
use s2_sdk_go.Transport.{AppendAck}
use s2_sdk_go.Batcher.{BatchOutput, RecordMeta}
use s2_sdk_go.Batcher.Valid.{Placed, IsSendable}
use s2_sdk_go.AppendSession.State.{acked}
use s2_sdk_go.AppendSession.Acks.{end_of}
use s2_sdk_go.AppendSession.Tracking.{Fits}
use s2_sdk_go.Producer.{Event, settled, durable, seq_num, durable_events}

-- The results of records in order, with sequence numbers that ascend from `lo` on and below `hi`.
abbrev pub Ascending : ℕ → List RecordMeta → List Event → ℕ → Type 0
Ascending lo [] [] hi = lo ≤ hi
Ascending lo (m ∷ ms) (settled ch (durable a) ∷ es) hi =
    (ch ≡ m.result_ch) × (lo ≤ seq_num a) × Ascending (suc (seq_num a)) ms es hi
Ascending lo _ _ hi = ⊥

Placed-below : (lo : ℕ) (ms : List RecordMeta) (hi : ℕ) → Placed lo ms hi → lo ≤ hi
Placed-below lo [] hi p = p
Placed-below lo (m ∷ ms) hi (h, p) = omega (arith, h, Placed-below (suc m.index) ms hi p)

numbers_ascend :
    (ack : AppendAck) (lo : ℕ) (ms : List RecordMeta) (n : ℕ)
    → Placed lo ms n
    → ack.start.seq_num + n ≡ end_of ack
    → end_of ack < 2 ^ 64
    → (at : ℕ) → at ≤ ack.start.seq_num + lo
    → Ascending at ms (durable_events ms ack) (end_of ack)
unfolding durable_events seq_num
numbers_ascend ack lo [] n p e b at h = omega (arith, p, e, h)
numbers_ascend ack lo (m ∷ ms) n (q, p) e b at h =
    let k = Placed-below (suc m.index) ms n p in
    (
      refl,
      omega (arith, q, h, k, e, b),
      numbers_ascend ack (suc m.index) ms n p e b _ (omega (arith, k, e, b)),
    )

-- If a batch is one that a batcher may send, its ack covers as many sequence numbers as it has
-- records, and the ack's end is below 2^64, then its waiting records are told, in order, sequence
-- numbers that ascend strictly, from the ack's start on and below its end.
pub durable_events-Ascending :
    (o : BatchingOptions) (x : BatchOutput) (ack : AppendAck)
    → IsSendable o x
    → Fits (length x.records) (acked ack)
    → end_of ack < 2 ^ 64
    → Ascending ack.start.seq_num x.record_meta (durable_events x.record_meta ack) (end_of ack)
durable_events-Ascending o x ack s (f, g) b =
    numbers_ascend ack 0 x.record_meta (length x.records) s.placed (omega (arith, f, g)) b
      ack.start.seq_num (omega arith)
