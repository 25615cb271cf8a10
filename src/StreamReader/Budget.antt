-- ===== src/StreamReader/Budget.antt =====
-- Across connections a reader asks for what is left, from where it stopped.
use s2_sdk_go.Prelude.{
  ℕ, ◌+◌, ◌-◌, ◌%◌, ◌^◌, ◌<◌, ◌≡◌, refl, ap, ◌∙◌, Option, none, some, List, [], ◌∷◌, length, arith,
}
use s2_sdk_go.Records.{SequencedRecord, metered_sequenced_record_bytes}
use s2_sdk_go.StreamReader.{
  ReadOptions, StreamReader, new_stream_reader, remaining, with_start, with_budgets, unless_empty,
  options_of, build_attempt_options, advance_state, metered_bytes_of, last_of, account_batch,
  observe_tail, read_batches,
}

abbrev pub Batches : Type 0
Batches = List (List SequencedRecord × Option ℕ)

abbrev pub records_in : Batches → ℕ
records_in [] = 0
records_in ((xs, t) ∷ bs) = length xs + records_in bs

abbrev pub bytes_of : List SequencedRecord → ℕ
bytes_of [] = 0
bytes_of (x ∷ xs) = metered_sequenced_record_bytes x + bytes_of xs

abbrev pub bytes_in : Batches → ℕ
bytes_in [] = 0
bytes_in ((xs, t) ∷ bs) = bytes_of xs + bytes_in bs

-- Behind the last record of a list, and of all batches.
abbrev pub behind : Option ℕ → List SequencedRecord → Option ℕ
behind s [] = s
behind s (x ∷ xs) = behind (some ((x.seq_num + 1) % 2 ^ 64)) xs

abbrev pub position : Option ℕ → Batches → Option ℕ
position s [] = s
position s ((xs, t) ∷ bs) = position (behind s xs) bs

abbrev pub less : Option ℕ → ℕ → Option ℕ
less none n = none
less (some k) n = some (k - n)

-- A known position takes the place of the start that was asked for.
abbrev pub first_of : Option ℕ → Option ℕ → Option ℕ
first_of none o = o
first_of (some s) o = some s

abbrev pub unless_read : {A : Type 0} → Option ℕ → Option A → Option A
unless_read none o = o
unless_read (some s) o = none

metered_bytes_of-bytes_of :
    (xs : List SequencedRecord) → bytes_of xs < 2 ^ 64 → metered_bytes_of xs ≡ bytes_of xs
unfolding metered_bytes_of
metered_bytes_of-bytes_of [] h = refl
metered_bytes_of-bytes_of (x ∷ xs) h =
    let k = metered_bytes_of-bytes_of xs (omega (arith, h)) in omega (arith, k, h)

last_of-behind :
    (x : SequencedRecord) (xs : List SequencedRecord) (s : Option ℕ)
    → some (((last_of x xs).seq_num + 1) % 2 ^ 64) ≡ behind s (x ∷ xs)
unfolding last_of
last_of-behind x [] s = refl
last_of-behind x (y ∷ ys) s = last_of-behind y ys s

remaining-less : (o : Option ℕ) (n : ℕ) → remaining o n ≡ less o n
unfolding remaining
remaining-less none n = refl
remaining-less (some k) n = ap some (ground arith)

module _ {C : Type 0} where
  record Accounts (r q : StreamReader C) (n m : ℕ) (s : Option ℕ) : Type 0 where
    records_counted : q.records_read ≡ r.records_read + n
    bytes_counted : q.bytes_read ≡ r.bytes_read + m
    positioned : q.next_seq ≡ s
    same_options : q.base_opts ≡ r.base_opts

  account_batch-Accounts :
      (r : StreamReader C) (xs : List SequencedRecord)
      → r.records_read + length xs < 2 ^ 64
      → r.bytes_read + bytes_of xs < 2 ^ 64
      → Accounts r (account_batch r xs) (length xs) (bytes_of xs) (behind r.next_seq xs)
  unfolding account_batch advance_state
  account_batch-Accounts r [] h k = record {
    records_counted = omega arith;
    bytes_counted = omega arith;
    positioned = refl;
    same_options = refl;
  }
  account_batch-Accounts r (x ∷ xs) h k =
      let b = metered_bytes_of-bytes_of (x ∷ xs) (omega (arith, k)) in
      record {
        records_counted = omega (arith, h);
        bytes_counted = omega (arith, k, b);
        positioned = last_of-behind x xs r.next_seq;
        same_options = refl;
      }

  observe_tail-Accounts :
      (r : StreamReader C) (t : Option ℕ) → Accounts r (observe_tail r t) 0 0 r.next_seq
  unfolding observe_tail
  observe_tail-Accounts r none = record {
    records_counted = omega arith;
    bytes_counted = omega arith;
    positioned = refl;
    same_options = refl;
  }
  observe_tail-Accounts r (some now) = record {
    records_counted = omega arith;
    bytes_counted = omega arith;
    positioned = refl;
    same_options = refl;
  }

  read_batches-Accounts :
      (r : StreamReader C) (bs : Batches)
      → r.records_read + records_in bs < 2 ^ 64
      → r.bytes_read + bytes_in bs < 2 ^ 64
      → Accounts r (read_batches r bs) (records_in bs) (bytes_in bs) (position r.next_seq bs)
  unfolding read_batches
  read_batches-Accounts r [] h k = record {
    records_counted = omega arith;
    bytes_counted = omega arith;
    positioned = refl;
    same_options = refl;
  }
  read_batches-Accounts r ((xs, t) ∷ bs) h k =
      let o = observe_tail-Accounts r t in
      let a =
        account_batch-Accounts (observe_tail r t) xs (omega (arith, h, o.records_counted))
          (omega (arith, k, o.bytes_counted)) in
      let b =
        read_batches-Accounts (account_batch (observe_tail r t) xs) bs
          (omega (arith, h, o.records_counted, a.records_counted))
          (omega (arith, k, o.bytes_counted, a.bytes_counted)) in
      record {
        records_counted = omega (arith, o.records_counted, a.records_counted, b.records_counted);
        bytes_counted = omega (arith, o.bytes_counted, a.bytes_counted, b.bytes_counted);
        positioned =
            b.positioned
            ∙ ap (λ s. position s bs) (a.positioned ∙ ap (λ s. behind s xs) o.positioned);
        same_options = b.same_options ∙ a.same_options ∙ o.same_options;
      }

  -- What asks for the rest of a read behind some batches.
  pub record IsContinuation (o : ReadOptions C) (bs : Batches) (q : ReadOptions C) : Type 0 where
    pub count_left : q.count ≡ less o.count (records_in bs)
    pub bytes_left : q.bytes ≡ less o.bytes (bytes_in bs)
    pub seq_num_of : q.seq_num ≡ first_of (position none bs) o.seq_num
    pub timestamp_of : q.timestamp ≡ unless_read (position none bs) o.timestamp
    pub tail_offset_of : q.tail_offset ≡ unless_read (position none bs) o.tail_offset
    pub kept : (q.until ≡ o.until) × (q.clamp ≡ o.clamp) × (q.stream_config ≡ o.stream_config)

  budget-IsContinuation :
      (r : StreamReader C) (o : ReadOptions C) (elapsed : ℕ) (bs : Batches) (s : Option ℕ)
      → r.records_read ≡ records_in bs
      → r.bytes_read ≡ bytes_in bs
      → s ≡ position none bs
      → IsContinuation o bs (with_budgets r elapsed (with_start s o))
  unfolding with_budgets with_start
  budget-IsContinuation r o elapsed bs none n m h = record {
    count_left = remaining-less o.count r.records_read ∙ ap (less o.count) n;
    bytes_left = remaining-less o.bytes r.bytes_read ∙ ap (less o.bytes) m;
    seq_num_of = ap (λ x. first_of x o.seq_num) h;
    timestamp_of = ap (λ x. unless_read x o.timestamp) h;
    tail_offset_of = ap (λ x. unless_read x o.tail_offset) h;
    kept = (refl, refl, refl);
  }
  budget-IsContinuation r o elapsed bs (some s) n m h = record {
    count_left = remaining-less o.count r.records_read ∙ ap (less o.count) n;
    bytes_left = remaining-less o.bytes r.bytes_read ∙ ap (less o.bytes) m;
    seq_num_of = ap (λ x. first_of x o.seq_num) h;
    timestamp_of = ap (λ x. unless_read x o.timestamp) h;
    tail_offset_of = ap (λ x. unless_read x o.tail_offset) h;
    kept = (refl, refl, refl);
  }

  options_of_some :
      (r : StreamReader C) (o : ReadOptions C) (elapsed : ℕ)
      → r.base_opts ≡ some o
      → build_attempt_options r elapsed
        ≡ unless_empty (with_budgets r elapsed (with_start r.next_seq o))
  unfolding build_attempt_options options_of
  options_of_some r o elapsed h = ap (λ b. options_of r b elapsed) h

  -- While the records and their metered bytes that a stream reader with options has read fit 64
  -- bits, what it asks for at its next attempt, whatever batches and tails it has seen over
  -- however many connections, is the rest of the read: the count and the bytes asked for less
  -- those read, but not below 0, from behind the last record read, with no timestamp or tail
  -- offset, or from the start that was asked for if none was read, and with everything else as it
  -- was asked for but the wait.
  pub build_attempt_options-IsContinuation :
      (o : ReadOptions C) (bs : Batches) (elapsed : ℕ)
      → records_in bs < 2 ^ 64
      → bytes_in bs < 2 ^ 64
      → (q : ReadOptions C) × (build_attempt_options
            (read_batches (new_stream_reader (some o)) bs)
            elapsed
          ≡ unless_empty q)
        × IsContinuation o bs q
  unfolding new_stream_reader
  build_attempt_options-IsContinuation o bs elapsed h k =
      let a =
        read_batches-Accounts (new_stream_reader (some o)) bs (omega (arith, h))
          (omega (arith, k)) in
      let r = read_batches (new_stream_reader (some o)) bs in
      (
        with_budgets r elapsed (with_start r.next_seq o),
        options_of_some r o elapsed a.same_options,
        budget-IsContinuation r o elapsed bs r.next_seq (omega (arith, a.records_counted))
            (omega (arith, a.bytes_counted)) a.positioned,
      )
