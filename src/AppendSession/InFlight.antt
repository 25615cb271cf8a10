-- ===== src/AppendSession/InFlight.antt =====
-- What is in flight against the capacity tracker: the composition of the session with Capacity.
use s2_sdk_go.Prelude.{
  append_assoc, ℕ, ◌≡◌, refl, sym, ap, ◌∙◌, subst, List, [], ◌∷◌, ◌++◌, length, if_ind, arith, ◌==◌,
  length-append, pos, ◌≤◌, ◌^◌, ◌⊎◌, is_positive, pos_part, if◌then◌else◌,
}
use s2_sdk_go.Transport.{Transport}
use s2_sdk_go.AppendSession.{AppendSessionOptions}
use s2_sdk_go.AppendSession.State.{
  InflightEntry, AppendSession, fail_all_inflight, close_session_if_unused, refs_of, wakeup_pump,
  release_all,
}
use s2_sdk_go.AppendSession.Acks.{pop_acked}
use s2_sdk_go.AppendSession.Pump.{mark_sent}
use s2_sdk_go.AppendSession.Submission.{
  as_int64, new_append_session, new_entry, begin_close, cancel_pump, finish_close,
}
use s2_sdk_go.AppendSession.Steps.{World, Client, on, Reach, fresh}
use s2_sdk_go.AppendSession.Moves.{
  Edited, none_left, edit, Move, fails, pops, joins, gives_back, reserves, edits, sends, opens,
  claims, settles, leaves, tidies, counts, notes, changes, stops, expires, closes, cancels,
  finishes, Moves, still, move,
}
use s2_sdk_go.AppendSession.StepWalk.{Reach-Moves}
use s2_sdk_go.Capacity
use s2_sdk_go.Capacity.{CapacityTracker, attempt, reserved, new_capacity_tracker}
use s2_sdk_go.Capacity.Kept.{limits_of}
use s2_sdk_go.Capacity.Invariant.{
  World as Account, reserves as reserving, releases as releasing, closes as closing_step, IsExact,
  Step-IsExact, total, total-append, fresh-IsExact,
}
use s2_sdk_go.AppendSession.Limits.{Moves-limits_of}

module _ {C : Type 0} where
  abbrev pub sizes : List (InflightEntry C) → List ℕ
  sizes [] = []
  sizes (e ∷ es) = e.metered_bytes ∷ sizes es

  sizes-append : (xs ys : List (InflightEntry C)) → sizes (xs ++ ys) ≡ sizes xs ++ sizes ys
  sizes-append [] ys = refl
  sizes-append (x ∷ xs) ys = ap (◌∷◌ x.metered_bytes) (sizes-append xs ys)

  sizes-Edited : {xs ys : List (InflightEntry C)} → Edited xs ys → sizes xs ≡ sizes ys
  sizes-Edited none_left = refl
  sizes-Edited (edit e start prior p d) = ap (◌∷◌ e.metered_bytes) (sizes-Edited d)

  sizes-mark_sent :
      (xs ys : List (InflightEntry C)) (e : InflightEntry C) (s now : ℕ)
      → sizes (xs ++ (mark_sent e s now ∷ ys)) ≡ sizes (xs ++ (e ∷ ys))
  unfolding mark_sent
  sizes-mark_sent [] ys e s now = refl
  sizes-mark_sent (x ∷ xs) ys e s now = ap (◌∷◌ x.metered_bytes) (sizes-mark_sent xs ys e s now)

-- Only the total and the number of what is held matter.
regroup :
    (c : CapacityTracker) (xs ys : List ℕ)
    → total xs ≡ total ys
    → length xs ≡ length ys
    → IsExact (record { tracker = c; held = xs })
    → IsExact (record { tracker = c; held = ys })
regroup c xs ys t n e = ground (arith, t, n)

-- A reservation in the middle is released.
released :
    (c : CapacityTracker) (xs ys : List ℕ) (size : ℕ)
    → IsExact (record { tracker = c; held = xs ++ (size ∷ ys) })
    → IsExact (record { tracker = Capacity.release c size; held = xs ++ ys })
released c xs ys size e =
    Step-IsExact (releasing (record { tracker = c; held = xs ++ (size ∷ ys) }) xs ys size refl) e

shut :
    (c : CapacityTracker) (xs : List ℕ)
    → IsExact (record { tracker = c; held = xs })
    → IsExact (record { tracker = Capacity.close c; held = xs })
shut c xs e = Step-IsExact (closing_step (record { tracker = c; held = xs })) e

-- A size moved from the reservations of submissions to the end of the queue.
moved_total :
    (before after queue : List ℕ) (size : ℕ) (joined : List ℕ)
    → joined ≡ queue ++ (size ∷ [])
    → total ((before ++ (size ∷ after)) ++ queue) ≡ total ((before ++ after) ++ joined)
moved_total before after queue size joined h = omega (
  arith,
  ap total h,
  total-append (before ++ (size ∷ after)) queue,
  total-append before (size ∷ after),
  total-append (before ++ after) joined,
  total-append before after,
  total-append queue (size ∷ []),
)

moved_length :
    (before after queue : List ℕ) (size : ℕ) (joined : List ℕ)
    → joined ≡ queue ++ (size ∷ [])
    → length ((before ++ (size ∷ after)) ++ queue) ≡ length ((before ++ after) ++ joined)
moved_length before after queue size joined h = omega (
  arith,
  ap length h,
  length-append (before ++ (size ∷ after)) queue,
  length-append before (size ∷ after),
  length-append (before ++ after) joined,
  length-append before after,
  length-append queue (size ∷ []),
)

-- A limit from 1 to 2^63 - 1 is one.
limited :
    (t n : ℕ)
    → (if is_positive (as_int64 n) then t else 0) ≤ pos_part (as_int64 n)
    → (n ≡ 0) ⊎ ((2 ^ 63 ≤ n) ⊎ (t ≤ n))
limited t n h = ground arith

module _ {C : Type 0} where
  all_released :
      (xs : List ℕ) (q : List (InflightEntry C)) (c : CapacityTracker)
      → IsExact (record { tracker = c; held = xs ++ sizes q })
      → IsExact (record { tracker = release_all q c; held = xs ++ [] })
  unfolding release_all
  all_released xs [] c e = e
  all_released xs (x ∷ q) c e = all_released xs q _ (released c xs (sizes q) x.metered_bytes e)

  -- Held are the reservations of submissions and those of the entries in the queue.
  abbrev pub account_of : World C → Account
  account_of w = record {
    tracker = w.session.capacity;
    held = w.held ++ sizes w.session.inflight_queue;
  }

  tidy-IsExact :
      (w : World C) (s : ℕ)
      → IsExact (account_of w)
      → IsExact (account_of (on w (close_session_if_unused w.session s)))
  unfolding close_session_if_unused
  tidy-IsExact w s e =
      if_ind (λ (r : AppendSession C). IsExact (account_of (on w r)))
        (refs_of w.session.session_refs s == 0) (λ _. e) (λ _. e)

  given_back :
      (w : World C) (before after : List ℕ) (size : ℕ)
      → w.held ≡ before ++ (size ∷ after)
      → IsExact (account_of w)
      → IsExact (record {
        tracker = Capacity.release w.session.capacity size;
        held = (before ++ after) ++ sizes w.session.inflight_queue;
      })
  given_back w before after size h e =
      let q = sizes w.session.inflight_queue in
      let k =
        subst (λ y. IsExact (record { tracker = w.session.capacity; held = y }))
          (ap (λ y. y ++ q) h ∙ append_assoc before (size ∷ after) q) e in
      subst (λ y. IsExact (record { tracker = Capacity.release w.session.capacity size; held = y }))
        (sym (append_assoc before after q)) (released w.session.capacity before (after ++ q) size k)

  Move-IsExact : {w v : World C} → Move w v → IsExact (account_of w) → IsExact (account_of v)
  unfolding fail_all_inflight finish_close new_entry begin_close cancel_pump wakeup_pump pop_acked
  Move-IsExact {w} (fails err) e =
      let f = all_released w.held w.session.inflight_queue w.session.capacity e in
      if_ind (λ (c : CapacityTracker). IsExact (record { tracker = c; held = w.held ++ [] }))
        w.session.closed (λ _. f) (λ _. shut _ _ f)
  Move-IsExact {w} (finishes h) e =
      all_released w.held w.session.inflight_queue w.session.capacity e
  Move-IsExact {w} (pops x rest s a q h g) e =
      released w.session.capacity w.held (sizes rest) x.metered_bytes (
        subst (λ y. IsExact (record { tracker = w.session.capacity; held = w.held ++ sizes y })) q
          e)
  Move-IsExact {w} (joins before after input size timeout ch c h) e =
      let q = w.session.inflight_queue in
      let k =
        subst (λ y. IsExact (record { tracker = w.session.capacity; held = y ++ sizes q })) h e in
      regroup _ ((before ++ (size ∷ after)) ++ sizes q) _
        (moved_total before after (sizes q) size
          (sizes (q ++ (new_entry input size timeout ch ∷ []))) (sizes-append q _))
        (moved_length before after (sizes q) size
          (sizes (q ++ (new_entry input size timeout ch ∷ []))) (sizes-append q _))
        k
  Move-IsExact {w} (edits queue d) e =
      subst (λ y. IsExact (record { tracker = w.session.capacity; held = w.held ++ y }))
        (sizes-Edited d) e
  Move-IsExact {w} (sends before after x s now ts q c n k) e =
      subst (λ y. IsExact (record { tracker = w.session.capacity; held = w.held ++ y }))
        (ap sizes q ∙ sym (sizes-mark_sent before after x s now)) e
  Move-IsExact {w} (tidies s n) e = tidy-IsExact w s e
  Move-IsExact {w} (gives_back before after size h) e = given_back w before after size h e
  Move-IsExact {w} (reserves size h) e =
      Step-IsExact (reserving (account_of w) w.session.pump_ctx size h) e
  Move-IsExact (opens t c f) e = e
  Move-IsExact (claims s err c) e = e
  Move-IsExact (settles before after s err h) e = e
  Move-IsExact (leaves s c u) e = e
  Move-IsExact (counts h) e = e
  Move-IsExact (notes a b c) e = e
  Move-IsExact (changes ts h) e = e
  Move-IsExact (stops c h) e = e
  Move-IsExact (expires x) e = e
  Move-IsExact {w} closes e = shut w.session.capacity _ e
  Move-IsExact (cancels h) e = e

  Moves-IsExact : {w v : World C} → Moves w v → IsExact (account_of w) → IsExact (account_of v)
  Moves-IsExact still e = e
  Moves-IsExact (move m s) e = Move-IsExact s (Moves-IsExact m e)

  -- The tracker counts exactly what is held, within the limits of the options.
  pub record IsWithin (o : AppendSessionOptions C) (w : World C) : Type 0 where
    pub exact : IsExact (account_of w)
    pub limits :
        limits_of w.session.capacity ≡ (as_int64 o.max_inflight_bytes, pos o.max_inflight_batches)
    pub bounded :
        (o.max_inflight_bytes ≡ 0)
        ⊎ ((2 ^ 63 ≤ o.max_inflight_bytes)
            ⊎ (total (w.held ++ sizes w.session.inflight_queue) ≤ o.max_inflight_bytes))

  -- After any steps of a new append session, its capacity tracker counts exactly the bytes, and
  -- with a limit on batches the number, of the reservations that submissions hold together with
  -- the entries in the queue, within the limits that the options set. The limit on bytes is taken
  -- as an int64, by which from 2^63 on there may be none; so the bytes held never pass the one set
  -- if that is from 1 to 2^63 - 1. Every way in which an entry or a reservation ends gives back
  -- its capacity once.
  pub Reach-IsWithin :
      (client : Client C) (o : AppendSessionOptions C) (ts : ℕ → Transport) {w : World C}
      → Reach client (fresh o ts) w
      → IsWithin o w
  unfolding new_append_session new_capacity_tracker
  Reach-IsWithin client o ts {w} r =
      let m = Reach-Moves client r in
      let e =
        Moves-IsExact m
          (fresh-IsExact (as_int64 o.max_inflight_bytes) (pos o.max_inflight_batches)) in
      record {
        exact = e;
        limits = Moves-limits_of m;
        bounded = limited _ o.max_inflight_bytes (
            subst
              (λ z.
                (if is_positive z then total (w.held ++ sizes w.session.inflight_queue) else 0)
                ≤ pos_part z)
              (ap (λ x. x.0) (Moves-limits_of m)) e.bytes_bounded);
      }
