-- ===== src/Context.antt =====
-- What the SDK asks of a Go context: `ctx.Err()`, which is nil or one of the two reasons.
pub data ContextError : Type 0 where
  canceled deadline_exceeded : ContextError
