-- ===== src/AppendSession/Closing.antt =====
-- The flags of closing, and what is final once an append session has closed.
use s2_sdk_go.Prelude.{
  ℕ, ◌≡◌, ◌≢◌, refl, sym, ◌∙◌, subst, true, Option, none, some, List, [], ◌∷◌, ◌++◌, if_ind, arith,
  ◌==◌,
}
use s2_sdk_go.Errors.{Err}
use s2_sdk_go.Context.{ContextError}
use s2_sdk_go.Capacity.{CapacityTracker}
use s2_sdk_go.Transport.{Transport}
use s2_sdk_go.AppendSession.{AppendSessionOptions}
use s2_sdk_go.AppendSession.State.{
  InflightEntry, AppendSession, fail_all_inflight, close_session_if_unused, refs_of, wakeup_pump,
  release_all, keep_cancel,
}
use s2_sdk_go.AppendSession.Acks.{pop_acked}
use s2_sdk_go.AppendSession.Submission.{new_append_session, begin_close, cancel_pump, finish_close}
use s2_sdk_go.AppendSession.Steps.{World, Client, Reach, fresh}
use s2_sdk_go.AppendSession.Moves.{
  Edited, none_left, edit, Move, fails, pops, joins, gives_back, reserves, edits, sends, opens,
  claims, settles, leaves, tidies, counts, notes, changes, stops, expires, closes, cancels,
  finishes, Moves, still, move,
}
use s2_sdk_go.AppendSession.StepWalk.{Reach-Moves}
use s2_sdk_go.Capacity.Kept.{release-closed, attempt-closed, close_lem}

kept_some : (c : Option ContextError) → keep_cancel c ≢ none
unfolding keep_cancel
kept_some none = cc
kept_some (some e) = cc

module _ {C : Type 0} where
  -- A closed session has drained, a drained one has an empty queue and is closing, a closing one
  -- has closed its capacity tracker, and a closed one has ended the context of its pump.
  pub record IsWound (r : AppendSession C) : Type 0 where
    pub drained : r.closed ≡ true → r.close_done ≡ true
    pub emptied : r.close_done ≡ true → r.inflight_queue ≡ []
    pub closing_first : r.close_done ≡ true → r.closing ≡ true
    pub refusing : r.closing ≡ true → r.capacity.closed ≡ true
    pub canceled_pump : r.closed ≡ true → r.pump_ctx ≢ none

  release_all-closed :
      (q : List (InflightEntry C)) (c : CapacityTracker) → (release_all q c).closed ≡ c.closed
  unfolding release_all
  release_all-closed [] c = refl
  release_all-closed (e ∷ q) c = release_all-closed q _ ∙ release-closed c e.metered_bytes

  Edited-nil : {xs ys : List (InflightEntry C)} → Edited xs ys → xs ≡ [] → ys ≡ []
  Edited-nil none_left h = refl
  Edited-nil (edit e start prior p d) h = cc

  -- Only the flags, the queue, the tracker and the context matter.
  same :
      (w v : AppendSession C)
      → v.closed ≡ w.closed
      → v.close_done ≡ w.close_done
      → v.closing ≡ w.closing
      → v.inflight_queue ≡ w.inflight_queue
      → v.capacity.closed ≡ w.capacity.closed
      → v.pump_ctx ≡ w.pump_ctx
      → IsWound w
      → IsWound v
  same w v a b c d e f i = record {
    drained = λ h. b ∙ i.drained (sym a ∙ h);
    emptied = λ h. d ∙ i.emptied (sym b ∙ h);
    closing_first = λ h. c ∙ i.closing_first (sym b ∙ h);
    refusing = λ h. e ∙ i.refusing (sym c ∙ h);
    canceled_pump = λ h. subst (λ x. x ≢ none) (sym f) (i.canceled_pump (sym a ∙ h));
  }

  -- The queue changes while the session is not drained.
  requeued :
      (w v : AppendSession C)
      → v.closed ≡ w.closed
      → v.close_done ≡ w.close_done
      → v.closing ≡ w.closing
      → w.close_done ≢ true
      → v.capacity.closed ≡ w.capacity.closed
      → v.pump_ctx ≡ w.pump_ctx
      → IsWound w
      → IsWound v
  requeued w v a b c d e f i = record {
    drained = λ h. b ∙ i.drained (sym a ∙ h);
    emptied = λ h. absurd (d (sym b ∙ h));
    closing_first = λ h. c ∙ i.closing_first (sym b ∙ h);
    refusing = λ h. e ∙ i.refusing (sym c ∙ h);
    canceled_pump = λ h. subst (λ x. x ≢ none) (sym f) (i.canceled_pump (sym a ∙ h));
  }

  undrained :
      (r : AppendSession C) (before after : List (InflightEntry C)) (e : InflightEntry C)
      → IsWound r
      → r.inflight_queue ≡ before ++ (e ∷ after)
      → r.close_done ≢ true
  undrained r [] after e i q h = let k = i.emptied h in cc
  undrained r (b ∷ before) after e i q h = let k = i.emptied h in cc

  tidied : (r : AppendSession C) (s : ℕ) → IsWound r → IsWound (close_session_if_unused r s)
  unfolding close_session_if_unused
  tidied r s i =
      if_ind (λ (x : AppendSession C). IsWound x) (refs_of r.session_refs s == 0)
        (λ _. same r _ refl refl refl refl refl refl i) (λ _. i)

  failed_closed :
      (r : AppendSession C) (err : Err)
      → IsWound r
      → (fail_all_inflight r err).capacity.closed ≡ true
  unfolding fail_all_inflight
  failed_closed r err i =
      if_ind (λ (c : CapacityTracker). c.closed ≡ true) r.closed
        (λ h.
          release_all-closed r.inflight_queue r.capacity
          ∙ i.refusing (i.closing_first (i.drained h)))
        (λ _. close_lem _)

  pub Move-IsWound : {w v : World C} → Move w v → IsWound w.session → IsWound v.session
  unfolding fail_all_inflight finish_close begin_close cancel_pump wakeup_pump pop_acked
  Move-IsWound {w} (fails err) i = record {
    drained = λ h. refl;
    emptied = λ h. refl;
    closing_first = λ h. refl;
    refusing = λ h. failed_closed w.session err i;
    canceled_pump = λ h. kept_some w.session.pump_ctx;
  }
  Move-IsWound {w} (finishes d) i = record {
    drained = i.drained;
    emptied = λ h. refl;
    closing_first = i.closing_first;
    refusing = λ h. release_all-closed w.session.inflight_queue w.session.capacity ∙ i.refusing h;
    canceled_pump = i.canceled_pump;
  }
  Move-IsWound {w} (pops e rest s a q h g) i =
      requeued w.session _ refl refl refl (undrained w.session [] rest e i q)
        (release-closed w.session.capacity e.metered_bytes) refl i
  Move-IsWound {w} (joins before after input size timeout ch c h) i =
      requeued w.session _ refl refl refl (λ d. let k = i.closing_first d in cc) refl refl i
  Move-IsWound {w} (sends before after e s now ts q c n k) i =
      requeued w.session _ refl refl refl (undrained w.session before after e i q) refl refl i
  Move-IsWound (edits queue d) i = record {
    drained = i.drained;
    emptied = λ h. Edited-nil d (i.emptied h);
    closing_first = i.closing_first;
    refusing = i.refusing;
    canceled_pump = i.canceled_pump;
  }
  Move-IsWound {w} (stops c e) i = record {
    drained = λ h. refl;
    emptied = λ h. ground (arith, e);
    closing_first = λ h. c;
    refusing = i.refusing;
    canceled_pump = i.canceled_pump;
  }
  Move-IsWound (expires e) i = record {
    drained = i.drained;
    emptied = i.emptied;
    closing_first = i.closing_first;
    refusing = i.refusing;
    canceled_pump = λ h. cc;
  }
  Move-IsWound closes i = record {
    drained = i.drained;
    emptied = i.emptied;
    closing_first = λ h. refl;
    refusing = λ h. close_lem _;
    canceled_pump = i.canceled_pump;
  }
  Move-IsWound {w} (cancels d) i = record {
    drained = λ h. d;
    emptied = i.emptied;
    closing_first = i.closing_first;
    refusing = i.refusing;
    canceled_pump = λ h. kept_some w.session.pump_ctx;
  }
  Move-IsWound {w} (tidies s n) i = tidied w.session s i
  Move-IsWound {w} (gives_back before after size h) i =
      same w.session _ refl refl refl refl (release-closed w.session.capacity size) refl i
  Move-IsWound {w} (reserves size h) i =
      same w.session _ refl refl refl refl
        (attempt-closed w.session.capacity w.session.pump_ctx size) refl i
  Move-IsWound {w} (claims s err c) i = same w.session _ refl refl refl refl refl refl i
  Move-IsWound {w} (settles before after s err h) i =
      same w.session _ refl refl refl refl refl refl i
  Move-IsWound {w} (opens t c f) i = same w.session _ refl refl refl refl refl refl i
  Move-IsWound {w} (leaves s c u) i = same w.session _ refl refl refl refl refl refl i
  Move-IsWound {w} (counts h) i = same w.session _ refl refl refl refl refl refl i
  Move-IsWound {w} (notes a b c) i = same w.session _ refl refl refl refl refl refl i
  Move-IsWound {w} (changes ts h) i = same w.session _ refl refl refl refl refl refl i

  Moves-IsWound : {w v : World C} → Moves w v → IsWound w.session → IsWound v.session
  Moves-IsWound still i = i
  Moves-IsWound (move m s) i = Move-IsWound s (Moves-IsWound m i)

  -- After any steps of a new append session: if it is closed, it has signalled that its queue is
  -- drained and the context of its pump has ended; if it has signalled that, its queue is empty
  -- and it refuses submissions; and if it refuses them, so does its capacity tracker.
  pub Reach-IsWound :
      (client : Client C) (o : AppendSessionOptions C) (ts : ℕ → Transport) {w : World C}
      → Reach client (fresh o ts) w
      → IsWound w.session
  unfolding new_append_session
  Reach-IsWound client o ts r = Moves-IsWound (Reach-Moves client r) (record {
    drained = λ h. cc;
    emptied = λ h. refl;
    closing_first = λ h. cc;
    refusing = λ h. cc;
    canceled_pump = λ h. cc;
  })
