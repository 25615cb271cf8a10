-- ===== src/Reconnect.antt =====
-- s2/reconnect.go: reconnecting on the server's advice. A time is in nanoseconds after the zero
-- time, which is 0; a time before the last one counts as no time later.
pub mod Gap
mod Examples
use Prim.Native.String.{String}
use text.Mathlib.Text.{◌==◌ as str_eq}
use s2_sdk_go.Prelude.{
  ℕ, ◌+◌, ◌-◌, Bool, true, false, not, ◌&&◌, ◌||◌, Option, none, some, if◌then◌else◌, ◌==◌, ltb,
  leb,
}
use s2_sdk_go.Errors.{Err, S2Error, as_s2_error}

abbrev pub max_advised_reconnects : ℕ
max_advised_reconnects = 1

abbrev pub advised_reconnect_idle : ℕ
advised_reconnect_idle = 60_000_000_000

pub record AdvisedReconnects : Type 0 where
  pub count : ℕ
  pub last : ℕ

pub is_recent : AdvisedReconnects → ℕ → Bool
is_recent a now = not (a.last == 0) && leb (now - a.last) advised_reconnect_idle

-- The method `record`.
pub record_at : AdvisedReconnects → ℕ → AdvisedReconnects
record_at a now = record { count = (if is_recent a now then a.count else 0) + 1; last = now }

pub should_reconnect : AdvisedReconnects → ℕ → Bool
should_reconnect a now = not (is_recent a now) || ltb a.count max_advised_reconnects

unfoldable pub draining : Option S2Error → Bool
draining (some e) = (e.status == 503) && str_eq e.code "server_draining"
draining none = false

unfoldable pub is_server_draining : Err → Bool
is_server_draining e = draining (as_s2_error e)
