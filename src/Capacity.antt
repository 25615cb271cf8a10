-- ===== src/Capacity.antt =====
-- s2/capacity.go: the tracker of bytes and batches in flight. Each function is what runs under
-- the mutex; sizes are metered sizes of batches, which are never negative, and do not wrap.
pub mod Invariant
pub mod Kept
pub mod Waiting
mod Examples
use s2_sdk_go.Prelude.{
  ℕ, ◌+◌, ◌-◌, Bool, true, false, ◌&&◌, Option, none, some, List, [], ◌∷◌, if◌then◌else◌, ltb, leb,
  ℤ, pos_part, is_positive, is_negative,
}
use s2_sdk_go.Context.{ContextError}

pub record CapacityTracker : Type 0 where
  pub max_bytes : ℤ
  pub max_items : ℤ
  pub cur_bytes : ℕ
  pub cur_items : ℕ
  pub closed : Bool

pub data ReserveError : Type 0 where
  batch_too_large bad_max_batches session_closed : ReserveError
  context_done : ContextError → ReserveError

unfoldable pub new_capacity_tracker : ℤ → ℤ → CapacityTracker
new_capacity_tracker max_bytes max_items = record {
  max_bytes = max_bytes;
  max_items = max_items;
  cur_bytes = 0;
  cur_items = 0;
  closed = false;
}

unfoldable pub has_capacity : CapacityTracker → ℕ → Bool
has_capacity c bytes =
    if is_positive c.max_bytes && ltb (pos_part c.max_bytes) (c.cur_bytes + bytes)
    then false
    else if is_positive c.max_items && leb (pos_part c.max_items) c.cur_items
    then false
    else true

unfoldable pub reserve_locked : CapacityTracker → ℕ → CapacityTracker
reserve_locked c bytes = record c {
  cur_bytes = c.cur_bytes + bytes;
  cur_items = if is_positive c.max_items then c.cur_items + 1 else c.cur_items;
}

-- The outcome of a look at the tracker: an error, a reservation, or neither.
pub data Attempt : Type 0 where
  refused : ReserveError → Attempt
  reserved not_reserved : Attempt

-- The test of `reserve` and of its waiting loop; `ctx` is `ctx.Err()` at that moment.
unfoldable pub attempt : CapacityTracker → Option ContextError → ℕ → CapacityTracker × Attempt
attempt c (some e) bytes = (c, refused (if c.closed then session_closed else context_done e))
attempt c none bytes =
    if c.closed
    then (c, refused session_closed)
    else if has_capacity c bytes
    then (reserve_locked c bytes, reserved)
    else (c, not_reserved)

pub try_reserve : CapacityTracker → Option ContextError → ℕ → CapacityTracker × Attempt
try_reserve c ctx bytes =
    if is_positive c.max_bytes && ltb (pos_part c.max_bytes) bytes
    then (c, refused batch_too_large)
    else if is_negative c.max_items
    then (c, refused bad_max_batches)
    else attempt c ctx bytes

-- What the others do to the tracker while the mutex is free, and `ctx.Err()` afterwards.
abbrev pub Wake : Type 0
Wake = CapacityTracker → CapacityTracker × Option ContextError

-- The loop around `cond.Wait`, over the wake-ups that it sees. When they are used up the caller
-- is still waiting: `not_reserved`.
pub wait_loop : List Wake → ℕ → CapacityTracker × Attempt → CapacityTracker × Attempt
wait_loop [] bytes (c, a) = (c, a)
wait_loop (wake ∷ wakes) bytes (c, refused e) = (c, refused e)
wait_loop (wake ∷ wakes) bytes (c, reserved) = (c, reserved)
wait_loop (wake ∷ wakes) bytes (c, not_reserved) =
    let (d, ctx) = wake c in wait_loop wakes bytes (attempt d ctx bytes)

-- `reserve`: a first try, a second look under the mutex, then the loop.
pub reserve :
    CapacityTracker → Option ContextError → Wake → List Wake → ℕ → CapacityTracker × Attempt
reserve c ctx between wakes bytes = wait_loop (between ∷ wakes) bytes (try_reserve c ctx bytes)

unfoldable pub release : CapacityTracker → ℕ → CapacityTracker
release c bytes = record c {
  cur_bytes = if ltb 0 bytes then c.cur_bytes - bytes else c.cur_bytes;
  cur_items = if is_positive c.max_items && ltb 0 c.cur_items then c.cur_items - 1 else c.cur_items;
}

unfoldable pub close : CapacityTracker → CapacityTracker
close c = if c.closed then c else record c { closed = true }
