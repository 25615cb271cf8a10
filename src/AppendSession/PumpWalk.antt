-- ===== src/AppendSession/PumpWalk.antt =====
-- The submission of what is in flight is a sequence of moves.
use s2_sdk_go.Prelude.{
  append_assoc, ℕ, ◌≡◌, refl, sym, ap, ◌∙◌, subst, ◌+◌, true, false, ◌||◌, Option, none, some, List,
  [], ◌∷◌, ◌++◌, if_ind, ◌==◌, arith,
}
use s2_sdk_go.Errors.{Err}
use s2_sdk_go.Transport.{Transport, WriteFailure, append_input, hold_inputs_for_reconnect}
use s2_sdk_go.AppendSession.State.{
  InflightEntry, AppendSession, update, was_sent_on_session, refs_of, set_refs,
}
use s2_sdk_go.AppendSession.Steps.{World, on}
use s2_sdk_go.AppendSession.Moves.{StayClosed, changes, Moves, move, Move}
use s2_sdk_go.Framing.Types.{Codec, CompressionType}
use s2_sdk_go.Records.{AppendInput}
use s2_sdk_go.Transport.Laws.{append_input-closed}
use s2_sdk_go.AppendSession.Pump.{
  Submitted, mark_sent, keep_entry, after_write, submit_loop, after_submit, submit_on_session,
  submit_inflight_batches,
}
use s2_sdk_go.AppendSession.Walk.{update-StayClosed}
use s2_sdk_go.AppendSession.FailureWalk.{handle_session_error-Moves}

update_self : (f : ℕ → Transport) (s : ℕ) (t : Transport) → update f s t s ≡ t
unfolding update
update_self f s t =
    if_ind (λ (x : Transport). x ≡ t) (s == s) (λ _. refl) (λ h. absurd (ground arith))

module _ {C : Type 0} where
  -- The state in the middle of the loop over the queue.
  abbrev during : World C → List (InflightEntry C) → List (ℕ × ℕ) → (ℕ → Transport) → World C
  during w queue refs ts =
      on w (record (w.session) { inflight_queue = queue; session_refs = refs; transports = ts })

  -- Only transport `s` may differ from what the loop started with.
  abbrev Agrees : World C → ℕ → (ℕ → Transport) → Type 0
  Agrees w s ts = (j : ℕ) → s == j ≡ false → ts j ≡ w.session.transports j

  -- Behind the entries `before`, the loop left this.
  abbrev Looped : World C → World C → ℕ → List (InflightEntry C) → Submitted C → Type 0
  Looped v w s before d =
      (ts : ℕ → Transport) × (ts s ≡ d.transport)
      × Agrees w s ts
      × Moves v (during w (before ++ d.queue) d.refs ts)

  update-Agrees :
      (w : World C) (s : ℕ) (ts : ℕ → Transport) (t : Transport)
      → Agrees w s ts
      → Agrees w s (update ts s t)
  unfolding update
  update-Agrees w s ts t a j h = rw h (a j h)

  back-StayClosed :
      (w : World C) (s : ℕ) (ts : ℕ → Transport) (t : Transport)
      → Agrees w s ts
      → ts s ≡ t
      → StayClosed ts (update w.session.transports s t)
  unfolding update
  back-StayClosed w s ts t a h i c =
      if_ind (λ (x : Transport). x.closed ≡ true) (s == i)
        (λ e.
          let q : i ≡ s = ground arith in
          let k : ts i ≡ t = ap ts q ∙ h in subst (λ (x : Transport). x.closed ≡ true) k c)
        (λ n. subst (λ (x : Transport). x.closed ≡ true) (a i n) c)

  module _ (v w : World C) (s : ℕ) where
    kept :
        (before : List (InflightEntry C)) (e : InflightEntry C) (d : Submitted C)
        → Looped v w s (before ++ (e ∷ [])) d
        → Looped v w s before (keep_entry e d)
    unfolding keep_entry
    kept before e d (ts, h, a, m) = (
      ts,
      h,
      a,
      subst (λ q. Moves v (during w q d.refs ts)) (append_assoc before (e ∷ []) d.queue) m,
    )

    written :
        (before es : List (InflightEntry C)) (refs : List (ℕ × ℕ)) (rest : Transport → Submitted C)
        (p : Transport × Option Err) (ts : ℕ → Transport)
        → ts s ≡ p.0
        → Agrees w s ts
        → Moves v (during w (before ++ es) refs ts)
        → Looped v w s before (rest (ts s))
        → Looped v w s before (after_write rest es refs p)
    unfolding after_write
    written before es refs rest (t, none) ts h a m l =
        subst (λ (x : Transport). Looped v w s before (rest x)) h l
    written before es refs rest (t, some err) ts h a m l = (ts, h, a, m)

module _ {C : Type 0} (v w : World C) (codec : Codec) (marshal : AppendInput C → Option (List ℕ))
    (compression : CompressionType) (writes : ℕ → Option WriteFailure) (s now : ℕ)
    (c : w.session.current_session ≡ some s) where
  abbrev loop : List (InflightEntry C) → List (ℕ × ℕ) → Transport → Submitted C
  loop = submit_loop codec marshal compression writes s now

  shift :
      (before es : List (InflightEntry C)) (e : InflightEntry C) (refs : List (ℕ × ℕ))
      (ts : ℕ → Transport)
      → Moves v (during w (before ++ (e ∷ es)) refs ts)
      → Moves v (during w ((before ++ (e ∷ [])) ++ es) refs ts)
  shift before es e refs ts m =
      subst (λ q. Moves v (during w q refs ts)) (sym (append_assoc before (e ∷ []) es)) m

  sent-Moves :
      (before es : List (InflightEntry C)) (e : InflightEntry C) (refs : List (ℕ × ℕ))
      (ts : ℕ → Transport)
      → was_sent_on_session e s ≡ false
      → Moves v (during w (before ++ (e ∷ es)) refs ts)
      → let t = (append_input codec marshal compression (ts s) e.input (writes e.result_ch)).0 in
        Moves v (
          during w
            ((before ++ (mark_sent e s now ∷ [])) ++ es)
            (set_refs refs s (refs_of refs s + 1))
            (update ts s t))
  sent-Moves before es e refs ts h m = shift before es (mark_sent e s now) _ _ (
      move m (
        Move.sends before es e s now _ refl c h (
          update-StayClosed ts s _
            (append_input-closed codec marshal compression (ts s) e.input (writes e.result_ch)))))

  loop-Moves :
      (before todo : List (InflightEntry C)) (refs : List (ℕ × ℕ)) (ts : ℕ → Transport)
      → Agrees w s ts
      → Moves v (during w (before ++ todo) refs ts)
      → Looped v w s before (loop todo refs (ts s))
  unfolding submit_loop
  loop-Moves before [] refs ts a m = (ts, refl, a, m)
  loop-Moves before (e ∷ es) refs ts a m =
      let p = append_input codec marshal compression (ts s) e.input (writes e.result_ch) in
      let refs' = set_refs refs s (refs_of refs s + 1) in
      let ts' = update ts s p.0 in
      let before' = before ++ (mark_sent e s now ∷ []) in
      if_ind (Looped v w s before) (e.completed || was_sent_on_session e s)
        (λ _.
          kept v w s before e _
            (loop-Moves (before ++ (e ∷ [])) es refs ts a (shift before es e refs ts m)))
        (λ h.
          let n = sent-Moves before es e refs ts (ground (arith, h)) m in
          kept v w s before (mark_sent e s now) _ (
            written v w s before' es refs' (loop es refs') p ts' (update_self ts s p.0)
              (update-Agrees w s ts p.0 a) n
              (loop-Moves before' es refs' ts' (update-Agrees w s ts p.0 a) n)))

module _ {C : Type 0} {v : World C} (codec : Codec) (marshal : AppendInput C → Option (List ℕ))
    (compression : CompressionType) (writes : ℕ → Option WriteFailure) (int63n : ℕ → ℕ) where
  end_loop :
      (w : World C) (s : ℕ) (d : Submitted C)
      → Looped v w s [] d
      → Moves v (during w d.queue d.refs (update w.session.transports s d.transport))
  end_loop w s d (ts, h, a, m) = move m (changes _ (back-StayClosed w s ts d.transport a h))

  after_loop :
      (w : World C) (s : ℕ) (queue : List (InflightEntry C)) (refs : List (ℕ × ℕ)) (t : Transport)
      (x : Option Err) (now : ℕ)
      → Moves v (during w queue refs (update w.session.transports s t))
      → Moves v (
          on w (
            after_submit codec marshal compression writes int63n w.session s
              (record { queue = queue; refs = refs; transport = t; err = x })
              now))
  unfolding after_submit
  after_loop w s queue refs t none now m = m
  after_loop w s queue refs t (some err) now m = handle_session_error-Moves int63n _ s err now m

  submit_on :
      (w : World C) (o : Option ℕ) (now : ℕ)
      → w.session.current_session ≡ o
      → Moves v w
      → Moves v (on w (submit_on_session codec marshal compression writes int63n w.session o now))
  unfolding submit_on_session
  submit_on w none now h m = m
  submit_on w (some s) now h m =
      if_ind (λ (q : AppendSession C). Moves v (on w q))
        (hold_inputs_for_reconnect (w.session.transports s)) (λ _. m)
        (λ _.
          let d =
            submit_loop codec marshal compression writes s now w.session.inflight_queue
              w.session.session_refs (w.session.transports s) in
          after_loop w s d.queue d.refs d.transport d.err now (
            end_loop w s d (
              loop-Moves v w codec marshal compression writes s now h [] w.session.inflight_queue
                w.session.session_refs w.session.transports (λ j k. refl) m)))

  pub submit_inflight_batches-Moves :
      (w : World C) (now : ℕ)
      → Moves v w
      → Moves v
          (on w (submit_inflight_batches codec marshal compression writes int63n w.session now))
  unfolding submit_inflight_batches
  submit_inflight_batches-Moves w now m = submit_on w w.session.current_session now refl m
