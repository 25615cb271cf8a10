-- ===== src/Reconnect/Gap.antt =====
-- How long advice is not taken.
use s2_sdk_go.Prelude.{ℕ, ◌-◌, ◌<◌, ◌≡◌, arith, ltb}
use s2_sdk_go.Reconnect.{
  AdvisedReconnects, advised_reconnect_idle, is_recent, record_at, should_reconnect,
}

-- Once a reconnect is recorded at a time other than the zero time, advice is taken again exactly
-- when more than 60 seconds have passed since.
pub should_reconnect-record_at :
    (a : AdvisedReconnects) (t now : ℕ)
    → 0 < t
    → should_reconnect (record_at a t) now ≡ ltb advised_reconnect_idle (now - t)
unfolding should_reconnect record_at is_recent
should_reconnect-record_at a t now h = ground arith
