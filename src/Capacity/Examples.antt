-- ===== src/Capacity/Examples.antt =====
-- A tracker of ten bytes and two batches, with one batch of six bytes in flight.
use s2_sdk_go.Prelude.{◌≡◌, refl, ◌≢◌, false, none, [], ◌∷◌, pos, arith}
use s2_sdk_go.Capacity.{
  CapacityTracker, refused, reserved, batch_too_large, attempt, try_reserve, reserve, release,
  has_capacity, new_capacity_tracker,
}
use s2_sdk_go.Capacity.Invariant.{
  World, Reach, here, next, reserves, IsExact, fresh, Reach-fresh-IsExact,
}
use s2_sdk_go.Capacity.Waiting.{Granted, reserve-Granted, attempt_drained}

abbrev busy : CapacityTracker
busy = record {
  max_bytes = pos 10;
  max_items = pos 2;
  cur_bytes = 6;
  cur_items = 1;
  closed = false;
}

one_held :
    Reach
      (fresh (pos 10) (pos 2))
      (record { tracker = (attempt (fresh (pos 10) (pos 2)).tracker none 6).0; held = 6 ∷ [] })
unfolding attempt has_capacity new_capacity_tracker
one_held = next here (reserves (fresh (pos 10) (pos 2)) none 6 refl)

Reach-fresh-IsExact_example :
    IsExact
      (record { tracker = (attempt (fresh (pos 10) (pos 2)).tracker none 6).0; held = 6 ∷ [] })
Reach-fresh-IsExact_example = Reach-fresh-IsExact (pos 10) (pos 2) one_held

reserve-Granted_example :
    Granted 6 (reserve busy none (λ c. (c, none)) ((λ c. (release c 6, none)) ∷ []) 6)
reserve-Granted_example =
    reserve-Granted busy none (λ c. (c, none)) ((λ c. (release c 6, none)) ∷ []) 6

abbrev idle : World
idle = record { tracker = record busy { cur_bytes = 0; cur_items = 0 }; held = [] }

not_too_large : (try_reserve idle.tracker none 10).1 ≢ refused batch_too_large
unfolding try_reserve attempt has_capacity
not_too_large h = cc

attempt_drained_example : (attempt idle.tracker none 10).1 ≡ reserved
attempt_drained_example = attempt_drained idle none 10 (omega arith) refl refl not_too_large
