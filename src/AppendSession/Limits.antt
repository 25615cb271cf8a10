-- ===== src/AppendSession/Limits.antt =====
-- What an append session keeps of its capacity tracker: the limits that its options set.
use s2_sdk_go.Prelude.{ℕ, ◌≡◌, refl, ◌∙◌, List, [], ◌∷◌, if_ind, ◌==◌}
use s2_sdk_go.Errors.{Err}
use s2_sdk_go.AppendSession.State.{
  InflightEntry, AppendSession, fail_all_inflight, close_session_if_unused, refs_of, wakeup_pump,
  release_all,
}
use s2_sdk_go.AppendSession.Acks.{pop_acked}
use s2_sdk_go.AppendSession.Submission.{begin_close, cancel_pump, finish_close}
use s2_sdk_go.AppendSession.Steps.{World}
use s2_sdk_go.AppendSession.Moves.{
  Move, fails, pops, joins, gives_back, reserves, edits, sends, opens, claims, settles, leaves,
  tidies, counts, notes, changes, stops, expires, closes, cancels, finishes, Moves, still, move,
}
use s2_sdk_go.Capacity.{CapacityTracker}
use s2_sdk_go.Capacity.Kept.{limits_of, release-limits_of, close-limits_of, attempt-limits_of}

module _ {C : Type 0} where
  -- The limits of the tracker stay what the options made them.
  release_all-limits_of :
      (q : List (InflightEntry C)) (c : CapacityTracker) → limits_of (release_all q c) ≡ limits_of c
  unfolding release_all
  release_all-limits_of [] c = refl
  release_all-limits_of (e ∷ q) c = release_all-limits_of q _ ∙ release-limits_of c e.metered_bytes

  failed-limits_of :
      (r : AppendSession C) (err : Err)
      → limits_of (fail_all_inflight r err).capacity ≡ limits_of r.capacity
  unfolding fail_all_inflight
  failed-limits_of r err =
      let k = release_all-limits_of r.inflight_queue r.capacity in
      if_ind (λ c. limits_of c ≡ limits_of r.capacity) r.closed (λ _. k)
        (λ _. close-limits_of _ ∙ k)

  tidy-limits_of :
      (r : AppendSession C) (s : ℕ)
      → limits_of (close_session_if_unused r s).capacity ≡ limits_of r.capacity
  unfolding close_session_if_unused
  tidy-limits_of r s =
      if_ind (λ (x : AppendSession C). limits_of x.capacity ≡ limits_of r.capacity)
        (refs_of r.session_refs s == 0) (λ _. refl) (λ _. refl)

  Move-limits_of :
      {w v : World C} → Move w v → limits_of v.session.capacity ≡ limits_of w.session.capacity
  unfolding finish_close begin_close cancel_pump wakeup_pump pop_acked
  Move-limits_of {w} (fails err) = failed-limits_of w.session err
  Move-limits_of {w} (finishes h) =
      release_all-limits_of w.session.inflight_queue w.session.capacity
  Move-limits_of {w} (pops x rest s a q h g) = release-limits_of w.session.capacity x.metered_bytes
  Move-limits_of {w} (gives_back before after size h) = release-limits_of w.session.capacity size
  Move-limits_of {w} (reserves size h) =
      attempt-limits_of w.session.capacity w.session.pump_ctx size
  Move-limits_of {w} closes = close-limits_of w.session.capacity
  Move-limits_of {w} (tidies s n) = tidy-limits_of w.session s
  Move-limits_of (joins before after input size timeout ch c h) = refl
  Move-limits_of (edits queue d) = refl
  Move-limits_of (sends before after x s now ts q c n k) = refl
  Move-limits_of (opens t c f) = refl
  Move-limits_of (claims s err c) = refl
  Move-limits_of (settles before after s err h) = refl
  Move-limits_of (leaves s c u) = refl
  Move-limits_of (counts h) = refl
  Move-limits_of (notes a b c) = refl
  Move-limits_of (changes ts h) = refl
  Move-limits_of (stops c h) = refl
  Move-limits_of (expires x) = refl
  Move-limits_of (cancels h) = refl

  pub Moves-limits_of :
      {w v : World C} → Moves w v → limits_of v.session.capacity ≡ limits_of w.session.capacity
  Moves-limits_of still = refl
  Moves-limits_of (move m s) = Move-limits_of s ∙ Moves-limits_of m
