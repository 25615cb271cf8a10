-- ===== src/Capacity/Invariant.antt =====
-- What the tracker guards: the reservations held fit the limits, and are counted exactly.
use s2_sdk_go.Prelude.{
  ℕ, ◌+◌, ◌≤◌, ◌≡◌, ap, Option, none, some, List, [], ◌∷◌, ◌++◌, if◌then◌else◌, length,
  length-append, pos_part, is_positive, arith, ℤ, ◌≢◌,
}
use s2_sdk_go.Context.{ContextError}
use s2_sdk_go.Capacity.{
  CapacityTracker, Attempt, reserved, new_capacity_tracker, has_capacity, reserve_locked, attempt,
  release, close,
}

abbrev pub total : List ℕ → ℕ
total [] = 0
total (b ∷ bs) = b + total bs

pub total-append : (xs ys : List ℕ) → total (xs ++ ys) ≡ total xs + total ys
total-append [] ys = omega arith
total-append (x ∷ xs) ys = omega (arith, total-append xs ys)

-- The tracker with the sizes of the batches that hold a reservation.
pub record World : Type 0 where
  pub tracker : CapacityTracker
  pub held : List ℕ

-- What the clients of one tracker do, each step under the mutex.
pub data Step : World → World → Type 0 where
  reserves :
      (w : World) (ctx : Option ContextError) (bytes : ℕ)
      → (attempt w.tracker ctx bytes).1 ≡ reserved
      → Step w (record { tracker = (attempt w.tracker ctx bytes).0; held = bytes ∷ w.held })
  fails :
      (w : World) (ctx : Option ContextError) (bytes : ℕ) (a : Attempt)
      → (attempt w.tracker ctx bytes).1 ≡ a
      → a ≢ reserved
      → Step w (record w { tracker = (attempt w.tracker ctx bytes).0 })
  releases :
      (w : World) (before after : List ℕ) (bytes : ℕ)
      → w.held ≡ before ++ (bytes ∷ after)
      → Step w (record { tracker = release w.tracker bytes; held = before ++ after })
  closes : (w : World) → Step w (record w { tracker = close w.tracker })

pub data Reach (w : World) : World → Type 0 where
  here : Reach w w
  next : {u v : World} → Reach w u → Step u v → Reach w v

-- Both counters are exact, and neither passes a limit that is set.
pub record IsExact (w : World) : Type 0 where
  pub bytes_exact : w.tracker.cur_bytes ≡ total w.held
  pub items_exact :
      w.tracker.cur_items ≡ (if is_positive w.tracker.max_items then length w.held else 0)
  pub bytes_bounded :
      (if is_positive w.tracker.max_bytes then total w.held else 0) ≤ pos_part w.tracker.max_bytes
  pub items_bounded : w.tracker.cur_items ≤ pos_part w.tracker.max_items

pub Step-IsExact : {v w : World} → Step v w → IsExact v → IsExact w
unfolding attempt reserve_locked has_capacity release close
Step-IsExact (reserves w none bytes h) e = ground arith
Step-IsExact (reserves w (some x) bytes h) e = ground arith
Step-IsExact (fails w none bytes a h n) e = ground arith
Step-IsExact (fails w (some x) bytes a h n) e = ground arith
Step-IsExact (releases w before after bytes h) e = ground (
  arith,
  ap total h,
  ap length h,
  total-append before (bytes ∷ after),
  total-append before after,
  length-append before (bytes ∷ after),
  length-append before after,
)
Step-IsExact (closes w) e = ground arith

Reach-IsExact : {v w : World} → Reach v w → IsExact v → IsExact w
Reach-IsExact here e = e
Reach-IsExact (next r s) e = Step-IsExact s (Reach-IsExact r e)

-- The tracker before its first reservation.
abbrev pub fresh : ℤ → ℤ → World
fresh max_bytes max_items = record { tracker = new_capacity_tracker max_bytes max_items; held = [] }

pub fresh-IsExact : (max_bytes max_items : ℤ) → IsExact (fresh max_bytes max_items)
unfolding new_capacity_tracker
fresh-IsExact max_bytes max_items = ground arith

-- After any sequence of reservations, failed attempts, releases of held reservations and closings
-- of a new tracker, its byte count is the total of the sizes held, its item count is their number
-- when a limit on batches is set and 0 otherwise, and neither passes a limit that is set.
pub Reach-fresh-IsExact :
    (max_bytes max_items : ℤ) {w : World} → Reach (fresh max_bytes max_items) w → IsExact w
Reach-fresh-IsExact max_bytes max_items r = Reach-IsExact r (fresh-IsExact max_bytes max_items)
