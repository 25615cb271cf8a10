-- ===== src/Capacity/Kept.antt =====
-- What operations of the tracker leave as it is: whether it is closed, and its limits.
use s2_sdk_go.Prelude.{ℕ, ◌≡◌, refl, true, Option, none, some, arith, ℤ}
use s2_sdk_go.Context.{ContextError}
use s2_sdk_go.Capacity.{CapacityTracker, attempt, reserve_locked, has_capacity, release, close}

pub release-closed : (c : CapacityTracker) (n : ℕ) → (release c n).closed ≡ c.closed
unfolding release
release-closed c n = ground arith

pub attempt-closed :
    (c : CapacityTracker) (ctx : Option ContextError) (n : ℕ)
    → (attempt c ctx n).0.closed ≡ c.closed
unfolding attempt reserve_locked has_capacity
attempt-closed c none n = ground arith
attempt-closed c (some x) n = ground arith

pub close_lem : (c : CapacityTracker) → (close c).closed ≡ true
unfolding close
close_lem c = ground arith

abbrev pub limits_of : CapacityTracker → ℤ × ℤ
limits_of c = (c.max_bytes, c.max_items)

pub release-limits_of : (c : CapacityTracker) (n : ℕ) → limits_of (release c n) ≡ limits_of c
unfolding release
release-limits_of c n = refl

pub close-limits_of : (c : CapacityTracker) → limits_of (close c) ≡ limits_of c
unfolding close
close-limits_of c = ground arith

pub attempt-limits_of :
    (c : CapacityTracker) (ctx : Option ContextError) (n : ℕ)
    → limits_of (attempt c ctx n).0 ≡ limits_of c
unfolding attempt reserve_locked has_capacity
attempt-limits_of c none n = ground arith
attempt-limits_of c (some x) n = ground arith
