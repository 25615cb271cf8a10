-- ===== src/Reconnect/Examples.antt =====
-- The theorem at a concrete time.
use s2_sdk_go.Prelude.{◌-◌, ◌≡◌, arith, ltb}
use s2_sdk_go.Reconnect.{AdvisedReconnects, advised_reconnect_idle, record_at, should_reconnect}
use s2_sdk_go.Reconnect.Gap.{should_reconnect-record_at}

abbrev never : AdvisedReconnects
never = record { count = 0; last = 0 }

should_reconnect-record_at_example :
    should_reconnect (record_at (record_at never 5) 10) 99_000_000_000
    ≡ ltb advised_reconnect_idle (99_000_000_000 - 10)
should_reconnect-record_at_example =
    should_reconnect-record_at (record_at never 5) 10 99_000_000_000 (omega arith)
