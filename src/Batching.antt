-- ===== src/Batching.antt =====
-- s2/batcher.go and s2/types.go: the options of a batcher and their defaults. A duration is in
-- nanoseconds.
use s2_sdk_go.Prelude.{
  ℕ, Bool, false, not, ◌||◌, Option, none, some, List, if◌then◌else◌, ◌==◌, ltb, ℤ, pos, pos_part,
  is_positive,
}
use s2_sdk_go.Records.{max_batch_records, max_batch_metered_bytes}

pub record BatchingOptions : Type 0 where
  pub linger : ℤ
  pub max_records : ℤ
  pub max_metered_bytes : ℕ
  pub match_seq_num : Option ℕ
  pub fencing_token : Option (List ℕ)
  pub channel_buffer : ℤ

unfoldable pub is_zero : ℤ → Bool
is_zero (pos n) = n == 0
is_zero i = false

abbrev pub empty_options : BatchingOptions
empty_options = record {
  linger = pos 0;
  max_records = pos 0;
  max_metered_bytes = 0;
  match_seq_num = none;
  fencing_token = none;
  channel_buffer = pos 0;
}

unfoldable pub defaults_of : BatchingOptions → BatchingOptions
defaults_of o = record o {
  linger = if is_zero o.linger then pos 5_000_000 else o.linger;
  max_records =
      if not (is_positive o.max_records) || ltb max_batch_records (pos_part o.max_records)
      then pos max_batch_records
      else o.max_records;
  max_metered_bytes =
      if o.max_metered_bytes == 0 || ltb max_batch_metered_bytes o.max_metered_bytes
      then max_batch_metered_bytes
      else o.max_metered_bytes;
  channel_buffer = if is_positive o.channel_buffer then o.channel_buffer else pos 100;
}

unfoldable pub apply_batching_defaults : Option BatchingOptions → BatchingOptions
apply_batching_defaults none = defaults_of empty_options
apply_batching_defaults (some o) = defaults_of o
