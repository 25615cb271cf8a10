-- ===== src/CaughtUp/Examples.antt =====
-- The theorem at a short run: a future waits for the tail, one finds it, one comes after the end.
use s2_sdk_go.Prelude.{◌≡◌, refl, none, some, [], ◌∷◌}
use s2_sdk_go.Errors.{session_closed, StreamPosition}
use s2_sdk_go.CaughtUp.{
  at_tail, failed, settle_all, set_caught_up_of, set_caught_up, set_behind_of, set_behind, end_open,
  end_of, end, new_future_of, new_future,
}
use s2_sdk_go.CaughtUp.Invariant.{
  World, Reach, here, next, asks, catches_up, falls_behind, ends, start, IsSettled,
  Reach-start-IsSettled,
}

abbrev tail : StreamPosition
tail = record { seq_num = 9; timestamp = 4 }

abbrev run : World
run = record {
  state =
      new_future
        (end (set_behind (new_future (set_caught_up (new_future start.state 1) tail) 2)) none) 3;
  made = 1 ∷ 2 ∷ 3 ∷ [];
  over = some session_closed;
}

run_reached : Reach start run
run_reached =
    next
      (next (next (next (next (next here (asks 1)) (catches_up tail)) (asks 2)) falls_behind)
        (ends none))
      (asks 3)

run_settled :
    run.state.settled ≡ (1, at_tail tail) ∷ (2, at_tail tail) ∷ (3, failed session_closed) ∷ []
unfolding settle_all set_caught_up_of set_caught_up set_behind_of set_behind end_open end_of end
    new_future_of new_future
run_settled = refl

Reach-start-IsSettled_example : IsSettled 2 run
Reach-start-IsSettled_example = Reach-start-IsSettled run_reached 2
