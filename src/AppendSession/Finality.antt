-- ===== src/AppendSession/Finality.antt =====
-- What is final once an append session has closed.
use s2_sdk_go.Prelude.{ℕ, ◌≡◌, refl, ap, ◌∙◌, subst, true, List, [], ◌++◌, append-nil, if_ind, ◌==◌}
use s2_sdk_go.Errors.{Err}
use s2_sdk_go.Transport.{Transport}
use s2_sdk_go.AppendSession.{AppendSessionOptions}
use s2_sdk_go.AppendSession.State.{
  InflightEntry, InflightResult, AppendSession, fail_results, fail_all_inflight,
  close_session_if_unused, refs_of, wakeup_pump,
}
use s2_sdk_go.AppendSession.Acks.{pop_acked}
use s2_sdk_go.AppendSession.Submission.{close_results, begin_close, cancel_pump, finish_close}
use s2_sdk_go.AppendSession.Steps.{World, Client, on, Reach, fresh}
use s2_sdk_go.AppendSession.Moves.{
  Move, fails, pops, joins, gives_back, reserves, edits, sends, opens, claims, settles, leaves,
  tidies, counts, notes, changes, stops, expires, closes, cancels, finishes, Moves, still, move,
}
use s2_sdk_go.AppendSession.StepWalk.{Reach-Moves}
use s2_sdk_go.AppendSession.Tracking.{Tracks, tickets}
use s2_sdk_go.AppendSession.Order.{Reach-IsOrdered}
use s2_sdk_go.AppendSession.Closing.{IsWound, Move-IsWound, Reach-IsWound}

module _ {C : Type 0} where
  -- What no step undoes.
  pub record IsFinal (w v : World C) : Type 0 where
    pub still_closed : v.session.closed ≡ true
    pub same_results : v.session.results ≡ w.session.results
    pub same_entries : v.enqueued ≡ w.enqueued

  failing_none :
      (q : List (InflightEntry C)) (rs : List (ℕ × InflightResult)) (err : Err)
      → q ≡ []
      → rs ++ fail_results q err ≡ rs
  unfolding fail_results
  failing_none q rs err h = ap (λ x. rs ++ fail_results x err) h ∙ append-nil rs

  closing_none :
      (q : List (InflightEntry C)) (rs : List (ℕ × InflightResult))
      → q ≡ []
      → rs ++ close_results q ≡ rs
  unfolding close_results
  closing_none q rs h = ap (λ x. rs ++ close_results x) h ∙ append-nil rs

  tidy-IsFinal :
      (w : World C) (s : ℕ)
      → w.session.closed ≡ true
      → IsFinal w (on w (close_session_if_unused w.session s))
  unfolding close_session_if_unused
  tidy-IsFinal w s c =
      if_ind (λ (x : AppendSession C). IsFinal w (on w x)) (refs_of w.session.session_refs s == 0)
        (λ _. record { still_closed = c; same_results = refl; same_entries = refl })
        (λ _. record { still_closed = c; same_results = refl; same_entries = refl })

  -- A move leaves the results of a session that has closed as they are.
  Move-IsFinal :
      {w v : World C} → Move w v → IsWound w.session → w.session.closed ≡ true → IsFinal w v
  unfolding fail_all_inflight finish_close begin_close cancel_pump wakeup_pump pop_acked
  Move-IsFinal {w} (fails err) i c = record {
    still_closed = refl;
    same_results = failing_none _ _ err (i.emptied (i.drained c));
    same_entries = refl;
  }
  Move-IsFinal {w} (finishes h) i c = record {
    still_closed = c;
    same_results = closing_none _ _ (i.emptied (i.drained c));
    same_entries = refl;
  }
  Move-IsFinal {w} (pops x rest s a q h g) i c = let k = i.emptied (i.drained c) in cc
  Move-IsFinal {w} (joins before after input size timeout ch n h) i c =
      let k = i.closing_first (i.drained c) in cc
  Move-IsFinal {w} (tidies s n) i c = tidy-IsFinal w s c
  Move-IsFinal (gives_back before after size h) i c = record {
    still_closed = c;
    same_results = refl;
    same_entries = refl;
  }
  Move-IsFinal (reserves size h) i c = record {
    still_closed = c;
    same_results = refl;
    same_entries = refl;
  }
  Move-IsFinal closes i c = record { still_closed = c; same_results = refl; same_entries = refl }
  Move-IsFinal (edits queue d) i c = record {
    still_closed = c;
    same_results = refl;
    same_entries = refl;
  }
  Move-IsFinal (sends before after x s now ts q d n k) i c = record {
    still_closed = c;
    same_results = refl;
    same_entries = refl;
  }
  Move-IsFinal (opens t d f) i c = record {
    still_closed = c;
    same_results = refl;
    same_entries = refl;
  }
  Move-IsFinal (claims s err d) i c = record {
    still_closed = c;
    same_results = refl;
    same_entries = refl;
  }
  Move-IsFinal (settles before after s err h) i c = record {
    still_closed = c;
    same_results = refl;
    same_entries = refl;
  }
  Move-IsFinal (leaves s d u) i c = record {
    still_closed = c;
    same_results = refl;
    same_entries = refl;
  }
  Move-IsFinal (counts h) i c = record {
    still_closed = c;
    same_results = refl;
    same_entries = refl;
  }
  Move-IsFinal (notes a b d) i c = record {
    still_closed = c;
    same_results = refl;
    same_entries = refl;
  }
  Move-IsFinal (changes ts h) i c = record {
    still_closed = c;
    same_results = refl;
    same_entries = refl;
  }
  Move-IsFinal (stops d h) i c = record {
    still_closed = c;
    same_results = refl;
    same_entries = refl;
  }
  Move-IsFinal (expires x) i c = record {
    still_closed = c;
    same_results = refl;
    same_entries = refl;
  }
  Move-IsFinal (cancels h) i c = record {
    still_closed = refl;
    same_results = refl;
    same_entries = refl;
  }

  Moves-IsFinal :
      {w v : World C}
      → Moves w v
      → IsWound w.session
      → w.session.closed ≡ true
      → IsWound v.session × IsFinal w v
  Moves-IsFinal still i c =
      (i, record { still_closed = c; same_results = refl; same_entries = refl })
  Moves-IsFinal (move m s) i c =
      let (j, f) = Moves-IsFinal m i c in
      let g = Move-IsFinal s j f.still_closed in
      (
        Move-IsWound s j,
        record {
          still_closed = g.still_closed;
          same_results = g.same_results ∙ f.same_results;
          same_entries = g.same_entries ∙ f.same_entries;
        },
      )

  -- If a new append session comes to be closed by any steps, then by that time every entry that
  -- was enqueued has had exactly one result, in order, and no further step of any kind sends a
  -- result, enqueues an entry or opens the session again.
  pub Reach-IsFinal :
      (client : Client C) (o : AppendSessionOptions C) (ts : ℕ → Transport) {w v : World C}
      → Reach client (fresh o ts) w
      → w.session.closed ≡ true
      → Reach client w v
      → Tracks w.enqueued w.session.results [] × IsFinal w v
  Reach-IsFinal client o ts {w} r c s =
      let i = Reach-IsWound client o ts r in
      let k = ap tickets (i.emptied (i.drained c)) in
      (
        subst (Tracks w.enqueued w.session.results) k (Reach-IsOrdered client o ts r).tracked,
        (Moves-IsFinal (Reach-Moves client s) i c).1,
      )
