-- ===== src/Capacity/Waiting.antt =====
-- What `reserve` returns, whatever the others do between its looks at the tracker.
use s2_sdk_go.Prelude.{
  ℕ, ◌≡◌, refl, ◌≢◌, true, false, Option, none, some, List, [], ◌∷◌, ◌&&◌, pos_part, length, ap,
  if_ind, is_positive, is_negative, ltb, arith,
}
use s2_sdk_go.Context.{ContextError}
use s2_sdk_go.Capacity.{
  CapacityTracker, Attempt, refused, reserved, not_reserved, session_closed, has_capacity,
  reserve_locked, attempt, try_reserve, Wake, wait_loop, reserve, release, close, batch_too_large,
}
use s2_sdk_go.Capacity.Invariant.{World, IsExact, total}

-- A result against the moment it was decided at: a reservation was made once, on an open
-- tracker with room for it.
abbrev pub Granted : ℕ → CapacityTracker × Attempt → Type 0
Granted bytes (c, refused e) = Unit
Granted bytes (c, not_reserved) = Unit
Granted bytes (c, reserved) =
    (d : CapacityTracker) × (d.closed ≡ false)
    × (has_capacity d bytes ≡ true)
    × (c ≡ reserve_locked d bytes)

attempt-Granted :
    (c : CapacityTracker) (ctx : Option ContextError) (bytes : ℕ)
    → Granted bytes (attempt c ctx bytes)
unfolding attempt
attempt-Granted c none bytes =
    if_ind (Granted bytes) c.closed (λ _. tt)
      (λ o. if_ind (Granted bytes) (has_capacity c bytes) (λ h. (c, o, h, refl)) (λ _. tt))
attempt-Granted c (some e) bytes = tt

wait_loop-Granted :
    (wakes : List Wake) (bytes : ℕ) (r : CapacityTracker × Attempt)
    → Granted bytes r
    → Granted bytes (wait_loop wakes bytes r)
unfolding wait_loop
wait_loop-Granted [] bytes r g = g
wait_loop-Granted (w ∷ ws) bytes (c, refused e) g = tt
wait_loop-Granted (w ∷ ws) bytes (c, reserved) g = g
wait_loop-Granted (w ∷ ws) bytes (c, not_reserved) g =
    wait_loop-Granted ws bytes _ (attempt-Granted (w c).0 (w c).1 bytes)

try_reserve-Granted :
    (c : CapacityTracker) (ctx : Option ContextError) (bytes : ℕ)
    → Granted bytes (try_reserve c ctx bytes)
unfolding try_reserve
try_reserve-Granted c ctx bytes =
    if_ind (Granted bytes) (is_positive c.max_bytes && ltb (pos_part c.max_bytes) bytes) (λ _. tt)
      (λ _.
        if_ind (Granted bytes) (is_negative c.max_items) (λ _. tt)
          (λ _. attempt-Granted c ctx bytes))

-- Whatever the others do between the looks that reserve takes at the tracker, a reservation is
-- made once, on an open tracker that has room for it at that moment.
pub reserve-Granted :
    (c : CapacityTracker) (ctx : Option ContextError) (between : Wake) (wakes : List Wake)
    (bytes : ℕ)
    → Granted bytes (reserve c ctx between wakes bytes)
unfolding reserve
reserve-Granted c ctx between wakes bytes =
    wait_loop-Granted (between ∷ wakes) bytes (try_reserve c ctx bytes)
      (try_reserve-Granted c ctx bytes)

-- A batch larger than a byte limit that is set is refused at once, whatever the context says and
-- whatever the others would do, with the tracker as it was.
pub reserve_too_large :
    (c : CapacityTracker) (ctx : Option ContextError) (between : Wake) (wakes : List Wake)
    (bytes : ℕ)
    → is_positive c.max_bytes && ltb (pos_part c.max_bytes) bytes ≡ true
    → reserve c ctx between wakes bytes ≡ (c, refused batch_too_large)
unfolding reserve wait_loop try_reserve
reserve_too_large c ctx between wakes bytes h = rw h

-- On a closed tracker every look ends with the error that the session is closed, whatever the
-- context says, and changes nothing.
pub attempt-close :
    (c : CapacityTracker) (ctx : Option ContextError) (bytes : ℕ)
    → attempt (close c) ctx bytes ≡ (close c, refused session_closed)
unfolding attempt close
attempt-close c none bytes = ground arith
attempt-close c (some e) bytes = ground arith

-- Releasing a reservation of some size gives back the tracker that it was made on.
pub release-reserve_locked :
    (c : CapacityTracker) (bytes : ℕ) → release (reserve_locked c bytes) bytes ≡ c
unfolding release reserve_locked
release-reserve_locked c bytes = ground arith

-- Once every reservation is released, a batch whose size try_reserve did not refuse fits into the
-- open tracker: no batch waits for ever for room that cannot come.
pub attempt_drained :
    (w : World) (ctx : Option ContextError) (bytes : ℕ)
    → IsExact w
    → w.held ≡ []
    → w.tracker.closed ≡ false
    → (try_reserve w.tracker ctx bytes).1 ≢ refused batch_too_large
    → (attempt w.tracker none bytes).1 ≡ reserved
unfolding attempt has_capacity try_reserve
attempt_drained w ctx bytes e h o t = ground (arith, ap total h, ap length h)
