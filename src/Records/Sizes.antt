-- ===== src/Records/Sizes.antt =====
-- What validation admits, and that a clone is the same value.
use s2_sdk_go.Prelude.{
  none, Option, sym, ◌∙◌, inr, ℕ, ◌+◌, ◌≤◌, ◌≡◌, refl, ap, some, List, [], ◌∷◌, ◌++◌, length, arith,
}
use s2_sdk_go.Records.{
  Validated, invalid, metered_payload_bytes, clone_ptr, clone_append_input, prepared,
  prepare_append_input, metered_sequenced_record_bytes, Header, AppendRecord, AppendInput,
  max_batch_records, max_batch_metered_bytes, max_fencing_token_length, metered_batch_bytes, valid,
  token_length, validate_append_input, clone_bytes, clone_headers, clone_append_records,
}

pub metered_batch_bytes-append :
    (xs ys : List AppendRecord)
    → metered_batch_bytes (xs ++ ys) ≡ metered_batch_bytes xs + metered_batch_bytes ys
unfolding metered_batch_bytes
metered_batch_bytes-append [] ys = omega arith
metered_batch_bytes-append (x ∷ xs) ys = omega (arith, metered_batch_bytes-append xs ys)

clone_bytes_lem : (bs : List ℕ) → clone_bytes bs ≡ bs
unfolding clone_bytes
clone_bytes_lem [] = refl
clone_bytes_lem (b ∷ bs) = ap (◌∷◌ b) (clone_bytes_lem bs)

clone_headers_lem : (hs : List Header) → clone_headers hs ≡ hs
unfolding clone_headers
clone_headers_lem [] = refl
clone_headers_lem (h ∷ hs) =
    rw (clone_bytes_lem h.name, clone_bytes_lem h.value, clone_headers_lem hs)

pub clone_append_records_lem : (rs : List AppendRecord) → clone_append_records rs ≡ rs
unfolding clone_append_records
clone_append_records_lem [] = refl
clone_append_records_lem (r ∷ rs) =
    rw (clone_headers_lem r.headers, clone_bytes_lem r.body, clone_append_records_lem rs)

-- The limits of a batch.
pub record IsBatch {C : Type 0} (i : AppendInput C) : Type 0 where
  pub some_record : 1 ≤ length i.records
  pub few_records : length i.records ≤ max_batch_records
  pub short_token : token_length i.fencing_token ≤ max_fencing_token_length
  pub few_bytes : metered_batch_bytes i.records ≤ max_batch_metered_bytes

module _ {C : Type 0} (i : AppendInput C) where
  -- An append input that validation admits has between 1 and 1000 records, a fencing token of at
  -- most 36 bytes and at most 1 MiB of metered bytes, and validation returns their number.
  validate_append_input-IsBatch :
      {n : ℕ}
      → validate_append_input (some i) ≡ valid n
      → IsBatch i × (n ≡ metered_batch_bytes i.records)
  unfolding validate_append_input
  validate_append_input-IsBatch h = ground arith

  -- Validation admits every append input within the limits of a batch, and returns its metered
  -- size.
  pub IsBatch-validate_append_input :
      IsBatch i → validate_append_input (some i) ≡ valid (metered_batch_bytes i.records)
  unfolding validate_append_input
  IsBatch-validate_append_input b = ground arith

clone_ptr_lem : {A : Type 0} (o : Option A) → clone_ptr o ≡ o
unfolding clone_ptr
clone_ptr_lem none = refl
clone_ptr_lem (some a) = refl

module _ {C : Type 0} where
  clone_append_input_lem : (i : AppendInput C) → clone_append_input i ≡ i
  unfolding clone_append_input
  clone_append_input_lem i = rw (
    clone_append_records_lem i.records,
    clone_ptr_lem i.match_seq_num,
    clone_ptr_lem i.fencing_token,
    clone_ptr_lem i.stream_config,
  )

  prepared-inr :
      (i j : AppendInput C) (n : ℕ) (v : Validated)
      → prepared i v ≡ inr (j, n)
      → (v ≡ valid n) × (j ≡ clone_append_input i)
  unfolding prepared
  prepared-inr i j n (invalid e) h = absurd cc
  prepared-inr i j n (valid k) h =
      let e : (clone_append_input i, k) ≡ (j, n) = cc in
      (ap (λ (p : AppendInput C × ℕ). valid p.1) e, ap (λ (p : AppendInput C × ℕ). p.0) (sym e))

  -- If an append input is prepared, it has between 1 and 1000 records, a fencing token of at most
  -- 36 bytes and at most 1 MiB of metered bytes; what is prepared is an equal input, with that
  -- number of bytes.
  pub prepare_append_input-IsBatch :
      (i j : AppendInput C) (n : ℕ)
      → prepare_append_input (some i) ≡ inr (j, n)
      → IsBatch i × (j ≡ i) × (n ≡ metered_batch_bytes i.records)
  unfolding prepare_append_input prepared
  prepare_append_input-IsBatch i j n h =
      let (v, e) = prepared-inr i j n (validate_append_input (some i)) h in
      let (b, s) = validate_append_input-IsBatch i v in (b, e ∙ clone_append_input_lem i, s)

-- The record that the service hands back weighs what the appended one did.
metered_sequenced_record_bytes_lem :
    (r : AppendRecord) (seq_num timestamp : ℕ)
    → metered_sequenced_record_bytes
        (record { body = r.body; headers = r.headers; seq_num = seq_num; timestamp = timestamp })
      ≡ metered_payload_bytes r
unfolding metered_sequenced_record_bytes metered_payload_bytes
metered_sequenced_record_bytes_lem r seq_num timestamp = refl
