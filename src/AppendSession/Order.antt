-- ===== src/AppendSession/Order.antt =====
-- The order of results is an invariant of an append session.
use s2_sdk_go.Prelude.{
  ℕ, ◌≡◌, refl, sym, ap, ◌∙◌, subst, false, none, some, List, [], ◌∷◌, ◌++◌, length, if_ind, arith,
  ◌==◌,
}
use s2_sdk_go.Transport.{AppendAck, Transport}
use s2_sdk_go.AppendSession.{AppendSessionOptions}
use s2_sdk_go.AppendSession.State.{
  InflightEntry, InflightResult, acked, AppendSession, fail_all_inflight, close_session_if_unused,
  refs_of, wakeup_pump,
}
use s2_sdk_go.AppendSession.Acks.{ends_by, validate_ack, pop_acked}
use s2_sdk_go.AppendSession.Submission.{
  new_append_session, new_entry, begin_close, cancel_pump, finish_close,
}
use s2_sdk_go.AppendSession.Steps.{World, Client, on, Reach, fresh}
use s2_sdk_go.AppendSession.Moves.{
  Move, fails, pops, joins, gives_back, reserves, edits, sends, opens, claims, settles, leaves,
  tidies, counts, notes, changes, stops, expires, closes, cancels, finishes, Moves, still, move,
}
use s2_sdk_go.AppendSession.StepWalk.{Reach-Moves}
use s2_sdk_go.AppendSession.Tracking.{
  Fits, Tracks, Tracks-pop, Tracks-join, Ascends, Ascends-ack, tickets, AllPending, tickets-append,
  AllPending-append, tickets-Edited, AllPending-Edited, tickets-mark_sent, AllPending-mark_sent,
  fail_results-FailsAll, close_results-FailsAll, FailsAll, FailsAll-Tracks, FailsAll-Ascends,
}

module _ {C : Type 0} where
  pub record IsOrdered (w : World C) : Type 0 where
    pub pending : AllPending w.session.inflight_queue
    pub tracked : Tracks w.enqueued w.session.results (tickets w.session.inflight_queue)
    pub ascending : Ascends none w.session.results w.session.last_acked_position

  validated :
      (r : AppendSession C) (e : InflightEntry C) (a : AppendAck)
      → validate_ack r e (some a) ≡ none
      → Fits e.expected_count (acked a) × (ends_by a r.last_acked_position ≡ false)
  unfolding validate_ack
  validated r e a h = ground (arith, h)

  pop-IsOrdered :
      (w : World C) (e : InflightEntry C) (rest : List (InflightEntry C)) (s : ℕ) (a : AppendAck)
      → w.session.inflight_queue ≡ e ∷ rest
      → validate_ack w.session e (some a) ≡ none
      → IsOrdered w
      → IsOrdered (on w (pop_acked w.session e rest s a))
  unfolding pop_acked
  pop-IsOrdered w e rest s a q g i =
      let (f, n) = validated w.session e a g in
      let p : AllPending (e ∷ rest) = subst AllPending q i.pending in
      let t = subst (λ x. Tracks w.enqueued w.session.results (tickets x)) q i.tracked in
      record {
        pending = p.1;
        tracked =
            Tracks-pop w.enqueued w.session.results e.result_ch e.expected_count (tickets rest)
              (acked a) t f;
        ascending =
            Ascends-ack none w.session.results w.session.last_acked_position e.result_ch a
              i.ascending n;
      }

  emptied :
      (w : World C) (fs : List (ℕ × InflightResult)) (r : AppendSession C)
      → FailsAll w.session.inflight_queue fs
      → r.inflight_queue ≡ []
      → r.results ≡ w.session.results ++ fs
      → r.last_acked_position ≡ w.session.last_acked_position
      → IsOrdered w
      → IsOrdered (on w r)
  emptied w fs r f q s l i = record {
    pending = subst AllPending (sym q) tt;
    tracked = rw (q, s) (FailsAll-Tracks w.enqueued w.session.results f i.tracked);
    ascending =
        rw (s, l)
          (FailsAll-Ascends none w.session.results w.session.last_acked_position f i.ascending);
  }

  -- A move that changes none of these.
  same :
      (w v : World C)
      → tickets v.session.inflight_queue ≡ tickets w.session.inflight_queue
      → AllPending v.session.inflight_queue
      → v.session.results ≡ w.session.results
      → v.session.last_acked_position ≡ w.session.last_acked_position
      → v.enqueued ≡ w.enqueued
      → IsOrdered w
      → IsOrdered v
  same w v q p s l n i = record {
    pending = p;
    tracked = rw (q, s, n) i.tracked;
    ascending = rw (s, l) i.ascending;
  }

  tidy-IsOrdered :
      (w : World C) (s : ℕ) → IsOrdered w → IsOrdered (on w (close_session_if_unused w.session s))
  unfolding close_session_if_unused
  tidy-IsOrdered w s i =
      if_ind (λ (r : AppendSession C). IsOrdered (on w r)) (refs_of w.session.session_refs s == 0)
        (λ _. same w _ refl i.pending refl refl refl i) (λ _. i)

  Move-IsOrdered : {w v : World C} → Move w v → IsOrdered w → IsOrdered v
  unfolding fail_all_inflight finish_close new_entry begin_close cancel_pump wakeup_pump
  Move-IsOrdered {w} (fails err) i =
      emptied w _ _ (fail_results-FailsAll w.session.inflight_queue err i.pending) refl refl refl i
  Move-IsOrdered {w} (finishes h) i =
      emptied w _ _ (close_results-FailsAll w.session.inflight_queue i.pending) refl refl refl i
  Move-IsOrdered {w} (pops e rest s a q h g) i = pop-IsOrdered w e rest s a q g i
  Move-IsOrdered {w} (joins before after input size timeout ch c h) i = record {
    pending = AllPending-append w.session.inflight_queue _ i.pending (refl, tt);
    tracked =
        subst (Tracks _ w.session.results) (sym (tickets-append w.session.inflight_queue _))
          (Tracks-join w.enqueued w.session.results _ (ch, length input.records) i.tracked);
    ascending = i.ascending;
  }
  Move-IsOrdered {w} (edits queue d) i =
      same w _ (sym (tickets-Edited d)) (AllPending-Edited d i.pending) refl refl refl i
  Move-IsOrdered {w} (sends before after e s now ts q c n k) i =
      same w _ (tickets-mark_sent before after e s now ∙ ap tickets (sym q))
        (AllPending-mark_sent before after e s now (subst AllPending q i.pending)) refl refl refl i
  Move-IsOrdered {w} (tidies s n) i = tidy-IsOrdered w s i
  Move-IsOrdered {w} (gives_back before after size h) i = same w _ refl i.pending refl refl refl i
  Move-IsOrdered {w} (reserves size h) i = same w _ refl i.pending refl refl refl i
  Move-IsOrdered {w} (opens t c f) i = same w _ refl i.pending refl refl refl i
  Move-IsOrdered {w} (claims s err c) i = same w _ refl i.pending refl refl refl i
  Move-IsOrdered {w} (settles before after s err h) i = same w _ refl i.pending refl refl refl i
  Move-IsOrdered {w} (leaves s c u) i = same w _ refl i.pending refl refl refl i
  Move-IsOrdered {w} (counts h) i = same w _ refl i.pending refl refl refl i
  Move-IsOrdered {w} (notes a b c) i = same w _ refl i.pending refl refl refl i
  Move-IsOrdered {w} (changes ts h) i = same w _ refl i.pending refl refl refl i
  Move-IsOrdered {w} (stops c h) i = same w _ refl i.pending refl refl refl i
  Move-IsOrdered {w} (expires e) i = same w _ refl i.pending refl refl refl i
  Move-IsOrdered {w} closes i = same w _ refl i.pending refl refl refl i
  Move-IsOrdered {w} (cancels h) i = same w _ refl i.pending refl refl refl i

  Moves-IsOrdered : {w v : World C} → Moves w v → IsOrdered w → IsOrdered v
  Moves-IsOrdered still i = i
  Moves-IsOrdered (move m s) i = Move-IsOrdered s (Moves-IsOrdered m i)

  -- After any steps of a new append session (submissions, acks, failures, write outcomes, timeouts
  -- and closing, in any order and with any values), the results sent are those of the entries
  -- enqueued, in order and once each, the rest being in the queue with nothing completed; each ack
  -- covers exactly the records of its entry, the acks end at ascending sequence numbers, and the
  -- last one is what the session keeps as its last acknowledged position.
  pub Reach-IsOrdered :
      (client : Client C) (o : AppendSessionOptions C) (ts : ℕ → Transport) {w : World C}
      → Reach client (fresh o ts) w
      → IsOrdered w
  unfolding new_append_session
  Reach-IsOrdered client o ts r =
      Moves-IsOrdered (Reach-Moves client r)
        (record { pending = tt; tracked = refl; ascending = refl })
