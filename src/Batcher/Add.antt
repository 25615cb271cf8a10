-- ===== src/Batcher/Add.antt =====
-- An added record: room is made for it, it joins the buffer, a full buffer goes out.
use s2_sdk_go.Prelude.{
  sym, ◌∙◌, subst, is_positive, ◌⊎◌, inl, inr, Bool-cases, not, ◌&&◌, ◌||◌, ℕ, suc, ◌+◌, ◌≤◌, ◌<◌,
  ◌≡◌, refl, false, Option, none, some, List, [], ◌∷◌, ◌++◌, if◌then◌else◌, ◌==◌, length,
  length-append, pos_part, arith, if_ind, ltb, leb, ap,
}
use s2_sdk_go.Errors.{Err}
use s2_sdk_go.Records.{AppendRecord, metered_payload_bytes, metered_batch_bytes}
use s2_sdk_go.Records.Sizes.{metered_batch_bytes-append, clone_append_records_lem}
use s2_sdk_go.Batcher.{
  RecordMeta, Batcher, Select, meta_of, insert, make_room, settle, flush_locked, add_with_permit,
}
use s2_sdk_go.Batcher.Valid.{
  Placed, IsLoaded, IsValid, metered_empty, emit_empty, flush_locked-IsValid, Same,
  flush_locked-Same,
}

Placed-append :
    (lo hi : ℕ) (ms : List RecordMeta) (ch permit : Option ℕ)
    → Placed lo ms hi
    → Placed lo (ms ++ meta_of hi ch permit) (suc hi)
Placed-append lo hi [] none permit h = omega arith
Placed-append lo hi [] (some c) permit h = (h, omega arith)
Placed-append lo hi (m ∷ ms) ch permit (h, t) = (h, Placed-append (suc m.index) hi ms ch permit t)

-- Room for a record of some size.
record HasRoom (b : Batcher) (size : ℕ) : Type 0 where
  records_fit : length b.buffer + 1 ≤ pos_part b.opts.max_records
  bytes_fit : b.buffer_bytes + size ≤ b.opts.max_metered_bytes

empty-HasRoom :
    (b : Batcher) (size : ℕ)
    → IsLoaded b
    → size ≤ b.opts.max_metered_bytes
    → length b.buffer ≡ 0
    → HasRoom b size
empty-HasRoom b size l h e = record {
  records_fit = omega (arith, l.limits.some_records);
  bytes_fit = omega (arith, l.exact, metered_empty b.buffer e);
}

flush_locked_empty : (b : Batcher) (s : Select) → length (flush_locked b s).0.buffer ≡ 0
unfolding flush_locked
flush_locked_empty b s =
    if_ind (λ (p : Batcher × Option Err). length p.0.buffer ≡ 0) (length b.buffer == 0)
      (λ e. ground arith) (λ e. emit_empty b s)

make_room-Same : (b : Batcher) (size : ℕ) (s : Select) → Same b (make_room b size s)
unfolding make_room
make_room-Same b size s =
    if_ind (Same b)
      (not (length b.buffer == 0)
        && (ltb (pos_part b.opts.max_records) (length b.buffer + 1)
            || ltb b.opts.max_metered_bytes (b.buffer_bytes + size)))
      (λ _. flush_locked-Same b s) (λ _. (refl, refl))

make_room_lem :
    (b : Batcher) (size : ℕ) (s : Select)
    → IsLoaded b
    → size ≤ b.opts.max_metered_bytes
    → IsLoaded (make_room b size s) × HasRoom (make_room b size s) size
unfolding make_room
make_room_lem b size s l h =
    if_ind (λ (c : Batcher). IsLoaded c × HasRoom c size)
      (not (length b.buffer == 0)
        && (ltb (pos_part b.opts.max_records) (length b.buffer + 1)
            || ltb b.opts.max_metered_bytes (b.buffer_bytes + size)))
      (λ _.
        let v = flush_locked-IsValid b s l in
        let e = ap (λ o. o.max_metered_bytes) (flush_locked-Same b s).0 in
        (
          v.loaded,
          empty-HasRoom (flush_locked b s).0 size v.loaded (omega arith) (flush_locked_empty b s),
        ))
      (λ n. (
        l,
        elim (Bool-cases (length b.buffer == 0)) [
          | inl z ↦ empty-HasRoom b size l h (ground arith)
          | inr z ↦ ground arith
        ],
      ))

insert-IsLoaded :
    (b : Batcher) (r : AppendRecord) (ch permit : Option ℕ)
    → IsLoaded b
    → HasRoom b (metered_payload_bytes r)
    → IsLoaded (insert b (r ∷ []) (metered_payload_bytes r) ch permit)
unfolding insert metered_batch_bytes
insert-IsLoaded b r ch permit l h =
    let e = length-append b.buffer (r ∷ []) in
    record {
      limits = l.limits;
      exact = omega (arith, l.exact, metered_batch_bytes-append b.buffer (r ∷ []));
      few_records = omega (arith, e, h.records_fit);
      few_bytes = h.bytes_fit;
      placed =
          subst (Placed 0 (b.record_meta ++ meta_of (length b.buffer) ch permit)) (omega (arith, e))
            (Placed-append 0 (length b.buffer) b.record_meta ch permit l.placed);
      sendable = l.sendable;
    }

settle-IsValid : (b : Batcher) (s : Select) → IsLoaded b → b.closed ≡ false → IsValid (settle b s)
unfolding settle
settle-IsValid b s l o =
    if_ind IsValid
      (leb (pos_part b.opts.max_records) (length b.buffer)
        || leb b.opts.max_metered_bytes b.buffer_bytes)
      (λ _. flush_locked-IsValid b s l)
      (λ n.
        let h : (length b.buffer < pos_part b.opts.max_records)
            × (b.buffer_bytes < b.opts.max_metered_bytes) =
          ground arith in
        let e : ◌≡◌ {A = ℕ} (if b.closed then length b.buffer else 0) 0 = rw o in
        if_ind IsValid (is_positive b.opts.linger && not b.timer)
          (λ _. record {
            loaded = record {
              limits = l.limits;
              exact = l.exact;
              few_records = l.few_records;
              few_bytes = l.few_bytes;
              placed = l.placed;
              sendable = l.sendable;
            };
            records_below = h.0;
            bytes_below = h.1;
            closed_empty = e;
          })
          (λ _. record { loaded = l; records_below = h.0; bytes_below = h.1; closed_empty = e }))

-- The two ends of an add: an error and no change, or the record is in.
pub add_cases :
    (b : Batcher) (r : AppendRecord) (ch permit : Option ℕ) (first last : Select)
    → ((e : Err) × (add_with_permit b r ch permit first last ≡ (b, some e)))
      ⊎ ((b.closed ≡ false)
          × (metered_payload_bytes r ≤ b.opts.max_metered_bytes)
          × (add_with_permit b r ch permit first last ≡ (
            settle
                (insert
                  (make_room b (metered_payload_bytes r) first)
                  (r ∷ [])
                  (metered_payload_bytes r)
                  ch
                  permit)
                last,
            none,
          )))
unfolding add_with_permit
add_cases b r ch permit first last =
    let size = metered_payload_bytes r in
    let rest = insert (make_room b size first) in
    let P : Batcher × Option Err → Type 0 = (λ p.
      ((e : Err) × (p ≡ (b, some e)))
      ⊎ ((b.closed ≡ false)
          × (size ≤ b.opts.max_metered_bytes)
          × (p ≡ (settle (rest (r ∷ []) size ch permit) last, none)))) in
    if_ind P b.closed (λ _. inl (_, refl))
      (λ o.
        if_ind P (ltb b.opts.max_metered_bytes size) (λ _. inl (_, refl))
          (λ n. inr (
            o,
            ground arith,
            ap (λ rs. (settle (rest rs size ch permit) last, none))
                (clone_append_records_lem (r ∷ [])),
          )))

accepted-IsValid :
    (b : Batcher) (r : AppendRecord) (ch permit : Option ℕ) (first last : Select)
    → IsValid b
    → b.closed ≡ false
    → metered_payload_bytes r ≤ b.opts.max_metered_bytes
    → IsValid (
        settle
          (insert
            (make_room b (metered_payload_bytes r) first)
            (r ∷ [])
            (metered_payload_bytes r)
            ch
            permit)
          last)
unfolding insert
accepted-IsValid b r ch permit first last v o h =
    let m = make_room_lem b (metered_payload_bytes r) first v.loaded h in
    let e = (make_room-Same b (metered_payload_bytes r) first).1 in
    settle-IsValid _ last (insert-IsLoaded _ r ch permit m.0 m.1) (e ∙ o)

pub add_with_permit-IsValid :
    (b : Batcher) (r : AppendRecord) (ch permit : Option ℕ) (first last : Select)
    → IsValid b
    → IsValid (add_with_permit b r ch permit first last).0
add_with_permit-IsValid b r ch permit first last v =
    let P : Batcher × Option Err → Type 0 = (λ p. IsValid p.0) in
    elim (add_cases b r ch permit first last) [
      | inl (e, q) ↦ subst P (sym q) v
      | inr (o, h, q) ↦ subst P (sym q) (accepted-IsValid b r ch permit first last v o h)
    ]
