-- ===== src/Batcher/Quiet.antt =====
-- A closed batcher: its channel of batches is closed too, so nothing may be sent any more.
use s2_sdk_go.Prelude.{
  ℕ, ◌≡◌, refl, sym, ◌∙◌, true, not, ◌||◌, Option, some, if_ind, ◌==◌, length, subst, arith,
}
use s2_sdk_go.Errors.{Err, session_closed}
use s2_sdk_go.Records.{AppendRecord}
use s2_sdk_go.Batching.{BatchingOptions}
use s2_sdk_go.Batcher.{
  Batcher, Select, flush_locked, add_with_permit, flush_for_backpressure, flush_barrier,
  flush_from_timer, close,
}
use s2_sdk_go.Batcher.Steps.{
  World, after_add, Step, adds, flushes, makes_way, bars, expires, closes, Reach, here, next, fresh,
}
use s2_sdk_go.Batcher.Valid.{IsValid}
use s2_sdk_go.Batcher.Invariant.{Step-IsValid, Reach-fresh-IsValid}

-- The second world has a closed batcher, which sent and accepted what the first one's had.
pub record IsQuiet (v w : World) : Type 0 where
  pub still_closed : w.batcher.closed ≡ true
  pub same_sent : w.batcher.sent ≡ v.batcher.sent
  pub same_accepted : w.accepted ≡ v.accepted

closed_empty : (b : Batcher) → b.closed ≡ true → IsValid b → length b.buffer ≡ 0
closed_empty b h i = ground (arith, i.closed_empty)

-- A closed batcher refuses every record with the error that the session is closed, and stays as it
-- was.
pub add_with_permit_closed :
    (b : Batcher) (r : AppendRecord) (ch permit : Option ℕ) (first last : Select)
    → b.closed ≡ true
    → add_with_permit b r ch permit first last ≡ (b, some session_closed)
unfolding add_with_permit
add_with_permit_closed b r ch permit first last h = rw h

module _ {w : World} (h : w.batcher.closed ≡ true) where
  unchanged : IsQuiet w w
  unchanged = record { still_closed = h; same_sent = refl; same_accepted = refl }

  flush_locked-IsQuiet :
      (s : Select)
      → IsValid w.batcher
      → IsQuiet w (record w { batcher = (flush_locked w.batcher s).0 })
  unfolding flush_locked
  flush_locked-IsQuiet s i =
      if_ind (λ (p : Batcher × Option Err). IsQuiet w (record w { batcher = p.0 }))
        (length w.batcher.buffer == 0) (λ _. unchanged)
        (λ n. absurd (ground (arith, closed_empty w.batcher h i)))

  add-IsQuiet :
      (r : AppendRecord) (ch permit : Option ℕ) (first last : Select)
      → IsQuiet w (after_add w r ch (add_with_permit w.batcher r ch permit first last))
  add-IsQuiet r ch permit first last =
      subst (λ p. IsQuiet w (after_add w r ch p))
        (sym (add_with_permit_closed w.batcher r ch permit first last h)) unchanged

  Step-IsQuiet : {x : World} → Step w x → IsValid w.batcher → IsQuiet w x
  unfolding flush_for_backpressure flush_barrier flush_from_timer close
  Step-IsQuiet (adds r ch permit first last) i = add-IsQuiet r ch permit first last
  Step-IsQuiet (flushes s) i = flush_locked-IsQuiet s i
  Step-IsQuiet (makes_way s) i =
      if_ind (λ (p : Batcher × Option Err). IsQuiet w (record w { batcher = p.0 })) w.batcher.closed
        (λ _. unchanged) (λ _. flush_locked-IsQuiet s i)
  Step-IsQuiet (bars c first ctx last) i =
      if_ind (λ (p : Batcher × Option Err). IsQuiet w (record w { batcher = p.0 })) w.batcher.closed
        (λ _. unchanged) (λ o. absurd (ground arith))
  Step-IsQuiet (expires seq s) i =
      let P : Batcher → Type 0 = (λ b. IsQuiet w (record w { batcher = b })) in
      if_ind P (not w.batcher.timer || not (w.batcher.timer_seq == seq)) (λ _. unchanged)
        (λ _.
          if_ind P w.batcher.closed
            (λ _. record { still_closed = h; same_sent = refl; same_accepted = refl })
            (λ o. absurd (ground arith)))
  Step-IsQuiet (closes s) i =
      if_ind (λ (p : Batcher × Option Err). IsQuiet w (record w { batcher = p.0 })) w.batcher.closed
        (λ _. unchanged) (λ o. absurd (ground arith))

Reach-keeps :
    {v w : World}
    → Reach v w
    → IsValid v.batcher
    → v.batcher.closed ≡ true
    → IsQuiet v w × IsValid w.batcher
Reach-keeps here i h = (unchanged h, i)
Reach-keeps (next r s) i h =
    let (q, j) = Reach-keeps r i h in
    let z = Step-IsQuiet q.still_closed s j in
    (
      record {
        still_closed = z.still_closed;
        same_sent = z.same_sent ∙ q.same_sent;
        same_accepted = z.same_accepted ∙ q.same_accepted;
      },
      Step-IsValid s j,
    )

-- From a closed batcher that a new one can come to, no calls send or accept anything: nothing is
-- sent on the closed channel of batches, and the batcher stays closed.
pub Reach-IsQuiet :
    (o : Option BatchingOptions) {v w : World}
    → Reach (fresh o) v
    → v.batcher.closed ≡ true
    → Reach v w
    → IsQuiet v w
Reach-IsQuiet o r h q = (Reach-keeps q (Reach-fresh-IsValid o r) h).0
