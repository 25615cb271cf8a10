-- ===== src/StreamReader.antt =====
-- s2/read.go: what a stream reader keeps of the records read, and what it asks for when it connects
-- again. Times are as in Reconnect: 0 is the zero time; `elapsed` is the time since the last tail
-- with the planned delay, in whole seconds, which an int32 holds.
pub mod Budget
mod Examples
use s2_sdk_go.Prelude.{
  ℕ, ◌+◌, ◌-◌, ◌%◌, ◌^◌, Bool, true, false, not, ◌&&◌, Option, none, some, List, [], ◌∷◌,
  if◌then◌else◌, ◌==◌, leb, length, ℤ, pos, pos_part,
}
use s2_sdk_go.Records.{SequencedRecord, metered_sequenced_record_bytes}

pub record ReadOptions (C : Type 0) : Type 0 where
  pub seq_num : Option ℕ
  pub timestamp : Option ℕ
  pub tail_offset : Option ℤ
  pub count : Option ℕ
  pub bytes : Option ℕ
  pub wait : Option ℤ
  pub until : Option ℕ
  pub clamp : Option Bool
  pub ignore_command_records : Bool
  pub stream_config : Option C

-- The part of `streamReader` that lasts from one connection to the next; `next_seq` is none while
-- `hasNextSeq` is false.
pub record StreamReader (C : Type 0) : Type 0 where
  pub base_opts : Option (ReadOptions C)
  pub next_seq : Option ℕ
  pub records_read : ℕ
  pub bytes_read : ℕ
  pub last_tail_at : ℕ

abbrev pub is_none {ℓ} : {A : Type ℓ} → Option A → Bool
is_none none = true
is_none (some a) = false

unfoldable pub remaining : Option ℕ → ℕ → Option ℕ
remaining none used = none
remaining (some base) used = some (if leb base used then 0 else base - used)

unfoldable pub remaining_wait : Option ℤ → ℕ → ℕ → Option ℤ
remaining_wait none last_tail_at elapsed = none
remaining_wait (some w) last_tail_at elapsed = some (
    if last_tail_at == 0
    then w
    else if leb (pos_part w) elapsed
    then pos 0
    else pos (pos_part w - elapsed))

unfoldable pub reached : Option ℕ → ℕ → Bool
reached none used = false
reached (some limit) used = leb limit used

module _ {C : Type 0} where
  -- The reader of a new session.
  unfoldable pub new_stream_reader : Option (ReadOptions C) → StreamReader C
  new_stream_reader o = record {
    base_opts = o;
    next_seq = none;
    records_read = 0;
    bytes_read = 0;
    last_tail_at = 0;
  }

  unfoldable pub no_options : ReadOptions C
  no_options = record {
    seq_num = none;
    timestamp = none;
    tail_offset = none;
    count = none;
    bytes = none;
    wait = none;
    until = none;
    clamp = none;
    ignore_command_records = false;
    stream_config = none;
  }

  unfoldable pub with_start : Option ℕ → ReadOptions C → ReadOptions C
  with_start none o = o
  with_start (some s) o = record o { seq_num = some s; timestamp = none; tail_offset = none }

  unfoldable pub with_budgets : StreamReader C → ℕ → ReadOptions C → ReadOptions C
  with_budgets r elapsed o = record o {
    count = remaining o.count r.records_read;
    bytes = remaining o.bytes r.bytes_read;
    wait = remaining_wait o.wait r.last_tail_at elapsed;
  }

  unfoldable pub unless_empty : ReadOptions C → Option (ReadOptions C)
  unless_empty o =
      if is_none o.count
        && (is_none o.bytes
            && (is_none o.wait
                && (is_none o.seq_num
                    && (is_none o.timestamp
                        && (is_none o.tail_offset
                            && (is_none o.until
                                && (is_none o.clamp && is_none o.stream_config)))))))
      then none
      else some o

  unfoldable pub options_of : StreamReader C → Option (ReadOptions C) → ℕ → Option (ReadOptions C)
  options_of r (some b) elapsed = unless_empty (with_budgets r elapsed (with_start r.next_seq b))
  options_of r none elapsed =
      if is_none r.next_seq then none else unless_empty (with_start r.next_seq no_options)

  unfoldable pub build_attempt_options : StreamReader C → ℕ → Option (ReadOptions C)
  build_attempt_options r elapsed = options_of r r.base_opts elapsed

  unfoldable pub advance_state : StreamReader C → ℕ → ℕ → SequencedRecord → StreamReader C
  advance_state r record_count metered_bytes last = record r {
    records_read = (r.records_read + record_count) % 2 ^ 64;
    bytes_read = (r.bytes_read + metered_bytes) % 2 ^ 64;
    next_seq = some ((last.seq_num + 1) % 2 ^ 64);
  }

  unfoldable pub over_limits : Option (ReadOptions C) → StreamReader C → Bool
  over_limits none r = false
  over_limits (some b) r =
      if reached b.count r.records_read then true else reached b.bytes r.bytes_read

  unfoldable pub limits_reached : StreamReader C → Bool
  limits_reached r = over_limits r.base_opts r

-- The sum of the sizes wraps too.
unfoldable pub metered_bytes_of : List SequencedRecord → ℕ
metered_bytes_of [] = 0
metered_bytes_of (x ∷ xs) = (metered_sequenced_record_bytes x + metered_bytes_of xs) % 2 ^ 64

unfoldable pub last_of : SequencedRecord → List SequencedRecord → SequencedRecord
last_of x [] = x
last_of x (y ∷ ys) = last_of y ys

-- The accounting of one batch.
unfoldable pub account_batch : {C : Type 0} → StreamReader C → List SequencedRecord → StreamReader C
account_batch r [] = r
account_batch r (x ∷ xs) =
    advance_state r (length (x ∷ xs)) (metered_bytes_of (x ∷ xs)) (last_of x xs)

unfoldable pub observe_tail : {C : Type 0} → StreamReader C → Option ℕ → StreamReader C
observe_tail r none = r
observe_tail r (some now) = record r { last_tail_at = now }

-- A batch with the time at which its tail, if it has one, was observed.
unfoldable pub read_batches :
    {C : Type 0} → StreamReader C → List (List SequencedRecord × Option ℕ) → StreamReader C
read_batches r [] = r
read_batches r ((xs, tail) ∷ bs) = read_batches (account_batch (observe_tail r tail) xs) bs
