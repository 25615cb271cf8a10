-- ===== src/AppendSession/Coherence.antt =====
-- What keeps the fields of an append session coherent: the current session, the failures being
-- handled, and the attempts.
use s2_sdk_go.Prelude.{
  ℕ, ◌≡◌, ◌+◌, ◌≤◌, ◌-◌, refl, ap, ◌∙◌, Option, none, some, ◌∷◌, length, length-append, if_ind,
  arith, ◌==◌,
}
use s2_sdk_go.Retry.{attempts_of}
use s2_sdk_go.Transport.{Transport}
use s2_sdk_go.AppendSession.{AppendSessionOptions}
use s2_sdk_go.AppendSession.State.{
  AppendSession, fail_all_inflight, close_session_if_unused, refs_of, wakeup_pump,
}
use s2_sdk_go.AppendSession.Acks.{pop_acked}
use s2_sdk_go.AppendSession.Submission.{new_append_session, begin_close, cancel_pump, finish_close}
use s2_sdk_go.AppendSession.Steps.{World, Client, on, Reach, fresh}
use s2_sdk_go.AppendSession.Moves.{
  Move, fails, pops, joins, gives_back, reserves, edits, sends, opens, claims, settles, leaves,
  tidies, counts, notes, changes, stops, expires, closes, cancels, finishes, Moves, still, move,
}
use s2_sdk_go.AppendSession.StepWalk.{Reach-Moves}

abbrev present : Option ℕ → ℕ
present none = 0
present (some s) = 1

module _ {C : Type 0} where
  -- Each failure being handled is counted, and there is none beside a current session and at most
  -- one; the attempts stay below their limit.
  pub record IsTurnwise (w : World C) : Type 0 where
    pub counted : w.session.failures_pending ≡ length w.failures
    pub one_at_once : present w.session.current_session + length w.failures ≤ 1
    pub limited : w.session.current_attempt ≤ attempts_of w.session.retry_config - 1

  tidied :
      (w : World C) (s : ℕ) → IsTurnwise w → IsTurnwise (on w (close_session_if_unused w.session s))
  unfolding close_session_if_unused
  tidied w s i =
      if_ind (λ (r : AppendSession C). IsTurnwise (on w r)) (refs_of w.session.session_refs s == 0)
        (λ _. record { counted = i.counted; one_at_once = i.one_at_once; limited = i.limited })
        (λ _. i)

  Move-IsTurnwise : {w v : World C} → Move w v → IsTurnwise w → IsTurnwise v
  unfolding fail_all_inflight finish_close begin_close cancel_pump wakeup_pump pop_acked
  Move-IsTurnwise {w} (claims s err c) i =
      let k = ap present c in
      record {
        counted = omega (arith, i.counted);
        one_at_once = ground (arith, i.one_at_once, k);
        limited = i.limited;
      }
  Move-IsTurnwise {w} (settles before after s err h) i =
      let k = ap length h ∙ length-append before ((s, err) ∷ after) in
      let n = length-append before after in
      record {
        counted = omega (arith, i.counted, k, n);
        one_at_once = omega (arith, i.one_at_once, k, n);
        limited = i.limited;
      }
  Move-IsTurnwise {w} (opens t c f) i = record {
    counted = i.counted;
    one_at_once = omega (arith, i.counted, f);
    limited = i.limited;
  }
  Move-IsTurnwise {w} (leaves s c u) i = record {
    counted = i.counted;
    one_at_once = ground (arith, i.one_at_once);
    limited = i.limited;
  }
  Move-IsTurnwise {w} (counts h) i = record {
    counted = i.counted;
    one_at_once = i.one_at_once;
    limited = omega (arith, h);
  }
  Move-IsTurnwise {w} (pops e rest s a q h g) i = record {
    counted = i.counted;
    one_at_once = i.one_at_once;
    limited = omega arith;
  }
  Move-IsTurnwise {w} (tidies s n) i = tidied w s i
  Move-IsTurnwise (fails err) i = record {
    counted = i.counted;
    one_at_once = i.one_at_once;
    limited = i.limited;
  }
  Move-IsTurnwise (finishes h) i = record {
    counted = i.counted;
    one_at_once = i.one_at_once;
    limited = i.limited;
  }
  Move-IsTurnwise (joins before after input size timeout ch c h) i = record {
    counted = i.counted;
    one_at_once = i.one_at_once;
    limited = i.limited;
  }
  Move-IsTurnwise (edits queue d) i = record {
    counted = i.counted;
    one_at_once = i.one_at_once;
    limited = i.limited;
  }
  Move-IsTurnwise (sends before after e s now ts q c n k) i = record {
    counted = i.counted;
    one_at_once = i.one_at_once;
    limited = i.limited;
  }
  Move-IsTurnwise (gives_back before after size h) i = record {
    counted = i.counted;
    one_at_once = i.one_at_once;
    limited = i.limited;
  }
  Move-IsTurnwise (reserves size h) i = record {
    counted = i.counted;
    one_at_once = i.one_at_once;
    limited = i.limited;
  }
  Move-IsTurnwise (notes a b c) i = record {
    counted = i.counted;
    one_at_once = i.one_at_once;
    limited = i.limited;
  }
  Move-IsTurnwise (changes ts h) i = record {
    counted = i.counted;
    one_at_once = i.one_at_once;
    limited = i.limited;
  }
  Move-IsTurnwise (stops c h) i = record {
    counted = i.counted;
    one_at_once = i.one_at_once;
    limited = i.limited;
  }
  Move-IsTurnwise (expires e) i = record {
    counted = i.counted;
    one_at_once = i.one_at_once;
    limited = i.limited;
  }
  Move-IsTurnwise closes i = record {
    counted = i.counted;
    one_at_once = i.one_at_once;
    limited = i.limited;
  }
  Move-IsTurnwise (cancels h) i = record {
    counted = i.counted;
    one_at_once = i.one_at_once;
    limited = i.limited;
  }

  Moves-IsTurnwise : {w v : World C} → Moves w v → IsTurnwise w → IsTurnwise v
  Moves-IsTurnwise still i = i
  Moves-IsTurnwise (move m s) i = Move-IsTurnwise s (Moves-IsTurnwise m i)

  -- After any steps of a new append session, it counts each failure that was claimed and is not
  -- yet resolved, there is at most one such failure and none beside a current transport session,
  -- so that nothing is sent again while a failure may still end the session; and the count of
  -- attempts stays below the number configured.
  pub Reach-IsTurnwise :
      (client : Client C) (o : AppendSessionOptions C) (ts : ℕ → Transport) {w : World C}
      → Reach client (fresh o ts) w
      → IsTurnwise w
  unfolding new_append_session
  Reach-IsTurnwise client o ts r =
      Moves-IsTurnwise (Reach-Moves client r)
        (record { counted = refl; one_at_once = omega arith; limited = omega arith })
