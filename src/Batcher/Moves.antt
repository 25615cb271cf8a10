-- ===== src/Batcher/Moves.antt =====
-- The operations of a batcher taken apart: a batch is sent or given up, a record joins the buffer, a
-- barrier is sent, a flag or the timer is set.
use s2_sdk_go.Prelude.{
  ℕ, ◌+◌, ◌%◌, ◌^◌, Bool, true, false, not, ◌&&◌, ◌||◌, Option, none, some, [], ◌∷◌, ◌++◌, if_ind,
  ◌==◌, ltb, leb, length, pos_part, is_positive, inl, inr, subst, sym,
}
use s2_sdk_go.Context.{ContextError}
use s2_sdk_go.Errors.{Err}
use s2_sdk_go.Records.{AppendRecord, metered_payload_bytes}
use s2_sdk_go.Batcher.{
  BatchOutput, Batcher, Select, emit, insert, make_room, settle, flush_locked, add_with_permit,
  flush_for_backpressure, send_barrier, flush_barrier, flush_from_timer, close,
}
use s2_sdk_go.Batcher.Steps.{
  World, to_list, after_add, Step, adds, flushes, makes_way, bars, expires, closes, Reach, here,
  next,
}
use s2_sdk_go.Batcher.Add.{add_cases}

abbrev pub barrier_output : ℕ → BatchOutput
barrier_output c = record {
  records = [];
  match_seq_num = none;
  fencing_token = none;
  record_meta = [];
  barrier = some c;
}

pub data Move (w : World) : World → Type 0 where
  emits : (s : Select) → Move w (record w { batcher = (emit w.batcher s).0 })
  takes :
      (r : AppendRecord) (ch permit : Option ℕ)
      → Move w (record {
        batcher = insert w.batcher (r ∷ []) (metered_payload_bytes r) ch permit;
        accepted = w.accepted ++ (r ∷ []);
        waiting = w.waiting ++ to_list ch;
      })
  sends :
      (c : ℕ)
      → Move w (record w {
        batcher = record (w.batcher) { sent = w.batcher.sent ++ (barrier_output c ∷ []) };
      })
  marks :
      (timer closed : Bool) (seq : ℕ)
      → Move w (record w {
        batcher = record (w.batcher) { timer = timer; timer_seq = seq; closed = closed };
      })

pub data Moves (v : World) : World → Type 0 where
  still : Moves v v
  move : {u w : World} → Moves v u → Move u w → Moves v w

module _ {v : World} where
  flush_locked-Moves :
      (w : World) (s : Select)
      → Moves v w
      → Moves v (record w { batcher = (flush_locked w.batcher s).0 })
  unfolding flush_locked
  flush_locked-Moves w s m =
      if_ind (λ (p : Batcher × Option Err). Moves v (record w { batcher = p.0 }))
        (length w.batcher.buffer == 0) (λ _. m) (λ _. move m (emits s))

  make_room-Moves :
      (w : World) (size : ℕ) (s : Select)
      → Moves v w
      → Moves v (record w { batcher = make_room w.batcher size s })
  unfolding make_room
  make_room-Moves w size s m =
      if_ind (λ (b : Batcher). Moves v (record w { batcher = b }))
        (not (length w.batcher.buffer == 0)
          && (ltb (pos_part w.batcher.opts.max_records) (length w.batcher.buffer + 1)
              || ltb w.batcher.opts.max_metered_bytes (w.batcher.buffer_bytes + size)))
        (λ _. flush_locked-Moves w s m) (λ _. m)

  settle-Moves :
      (w : World) (s : Select) → Moves v w → Moves v (record w { batcher = settle w.batcher s })
  unfolding settle
  settle-Moves w s m =
      let b = w.batcher in
      let P : Batcher → Type 0 = (λ c. Moves v (record w { batcher = c })) in
      if_ind P
        (leb (pos_part b.opts.max_records) (length b.buffer)
          || leb b.opts.max_metered_bytes b.buffer_bytes)
        (λ _. flush_locked-Moves w s m)
        (λ _.
          if_ind P (is_positive b.opts.linger && not b.timer)
            (λ _. move m (marks true b.closed ((b.timer_seq + 1) % 2 ^ 64))) (λ _. m))

  add_with_permit-Moves :
      (w : World) (r : AppendRecord) (ch permit : Option ℕ) (first last : Select)
      → Moves v w
      → Moves v (after_add w r ch (add_with_permit w.batcher r ch permit first last))
  add_with_permit-Moves w r ch permit first last m =
      let P : Batcher × Option Err → Type 0 = (λ p. Moves v (after_add w r ch p)) in
      elim (add_cases w.batcher r ch permit first last) [
        | inl (e, q) ↦ subst P (sym q) m
        | inr (o, h, q) ↦ subst P (sym q) (
            settle-Moves _ last
              (move (make_room-Moves w (metered_payload_bytes r) first m) (takes r ch permit)))
      ]

  flush_for_backpressure-Moves :
      (w : World) (s : Select)
      → Moves v w
      → Moves v (record w { batcher = (flush_for_backpressure w.batcher s).0 })
  unfolding flush_for_backpressure
  flush_for_backpressure-Moves w s m =
      if_ind (λ (p : Batcher × Option Err). Moves v (record w { batcher = p.0 })) w.batcher.closed
        (λ _. m) (λ _. flush_locked-Moves w s m)

  send_barrier-Moves :
      (w : World) (p : Batcher × Option Err) (c : ℕ) (ctx : Option ContextError) (last : Select)
      → Moves v (record w { batcher = p.0 })
      → Moves v (record w { batcher = (send_barrier p c ctx last).0 })
  unfolding send_barrier
  send_barrier-Moves w (b, some e) c ctx last m = m
  send_barrier-Moves w (b, none) c (some x) last m = m
  send_barrier-Moves w (b, none) c none (some x) m = m
  send_barrier-Moves w (b, none) c none none m = move m (sends c)

  flush_barrier-Moves :
      (w : World) (c : ℕ) (first : Select) (ctx : Option ContextError) (last : Select)
      → Moves v w
      → Moves v (record w { batcher = (flush_barrier w.batcher c first ctx last).0 })
  unfolding flush_barrier
  flush_barrier-Moves w c first ctx last m =
      if_ind (λ (p : Batcher × Option Err). Moves v (record w { batcher = p.0 })) w.batcher.closed
        (λ _. m)
        (λ _.
          send_barrier-Moves w (flush_locked w.batcher first) c ctx last
            (flush_locked-Moves w first m))

  flush_from_timer-Moves :
      (w : World) (seq : ℕ) (s : Select)
      → Moves v w
      → Moves v (record w { batcher = flush_from_timer w.batcher seq s })
  unfolding flush_from_timer
  flush_from_timer-Moves w seq s m =
      let b = w.batcher in
      let P : Batcher → Type 0 = (λ c. Moves v (record w { batcher = c })) in
      if_ind P (not b.timer || not (b.timer_seq == seq)) (λ _. m)
        (λ _.
          if_ind P b.closed (λ _. move m (marks false b.closed b.timer_seq))
            (λ _.
              flush_locked-Moves (record w { batcher = record b { timer = false } }) s
                (move m (marks false b.closed b.timer_seq))))

  close-Moves :
      (w : World) (s : Select) → Moves v w → Moves v (record w { batcher = (close w.batcher s).0 })
  unfolding close
  close-Moves w s m =
      let b = w.batcher in
      let c = (flush_locked (record b { closed = true }) s).0 in
      if_ind (λ (p : Batcher × Option Err). Moves v (record w { batcher = p.0 })) b.closed (λ _. m)
        (λ _.
          move
            (flush_locked-Moves (record w { batcher = record b { closed = true } }) s
              (move m (marks b.timer true b.timer_seq)))
            (marks false c.closed c.timer_seq))

  Step-Moves : (u : World) {w : World} → Step u w → Moves v u → Moves v w
  Step-Moves u (adds r ch permit first last) m = add_with_permit-Moves u r ch permit first last m
  Step-Moves u (flushes s) m = flush_locked-Moves u s m
  Step-Moves u (makes_way s) m = flush_for_backpressure-Moves u s m
  Step-Moves u (bars c first ctx last) m = flush_barrier-Moves u c first ctx last m
  Step-Moves u (expires seq s) m = flush_from_timer-Moves u seq s m
  Step-Moves u (closes s) m = close-Moves u s m

pub Reach-Moves : {v w : World} → Reach v w → Moves v w
Reach-Moves here = still
Reach-Moves (next r s) = Step-Moves _ s (Reach-Moves r)
