-- ===== src/Framing/Parser/Buffer.antt =====
-- The parser's buffer: `ensureSpare` and `Push` keep the unread bytes and the slice's bounds.
use s2_sdk_go.Prelude.{
  ℕ, ◌+◌, ◌-◌, ◌≤◌, ◌≡◌, ap, ◌∙◌, List, ◌++◌, length, drop, length-append, ◌<◌, length-drop,
  take_all, drop_all, false, [], drop-append, arith,
}
use s2_sdk_go.Framing.Parser.{
  S2SFrameParser, unread, compact, grow, ensure_spare, push, has_data, wanted_spare,
}

-- A Go slice: the offset stays within the contents, the contents within the capacity.
pub record IsValid (p : S2SFrameParser) : Type 0 where
  pub off_within : p.off ≤ length p.buffer
  pub len_within : length p.buffer ≤ p.cap

-- What `ensureSpare` promises: the unread bytes stay, the slice stays valid, and n more bytes fit.
pub record Ensures (p q : S2SFrameParser) (n : ℕ) : Type 0 where
  pub kept : unread q ≡ unread p
  pub valid : IsValid q
  pub room : length q.buffer + n ≤ q.cap

module _ (p : S2SFrameParser) (v : IsValid p) where
  compact-IsValid : IsValid (compact p)
  unfolding compact
  compact-IsValid = ground (arith, length-drop p.off p.buffer)

  compact-unread : unread (compact p) ≡ unread p
  unfolding compact
  compact-unread = ground arith

  length-compact : length (compact p).buffer ≡ length p.buffer - p.off
  unfolding compact
  length-compact = ground (arith, length-drop p.off p.buffer)

  off-compact : (compact p).off ≡ 0
  unfolding compact
  off-compact = ground arith

grow-Ensures :
    (q : S2SFrameParser) (r n : ℕ) → length q.buffer ≡ r → q.off ≡ 0 → Ensures q (grow q r n) n
unfolding grow
grow-Ensures q r n e z = record {
  kept = ap (drop q.off) (take_all r q.buffer (omega arith));
  valid = ground (arith, take_all r q.buffer);
  room = ground (arith, take_all r q.buffer);
}

-- On a valid slice, ensureSpare keeps the unread bytes, leaves a valid slice and makes room for
-- the bytes asked for, on each of its three branches.
pub ensure_spare-Ensures : (p : S2SFrameParser) (n : ℕ) → IsValid p → Ensures p (ensure_spare p n) n
unfolding ensure_spare
ensure_spare-Ensures p n v = ground (
  arith,
  compact-IsValid p v,
  compact-unread p v,
  length-compact p v,
  grow-Ensures (compact p) (length p.buffer - p.off) n (length-compact p v) (off-compact p v),
)

-- Pushing bytes into a valid parser adds exactly them behind the unread bytes.
pub push-unread :
    (p : S2SFrameParser) (bytes : List ℕ) → IsValid p → unread (push p bytes) ≡ unread p ++ bytes
unfolding push
push-unread p bytes v =
    let e = ensure_spare-Ensures p (length bytes) v in
    drop-append _ _ bytes e.valid.off_within ∙ ap (λ xs. xs ++ bytes) e.kept

push-IsValid : (p : S2SFrameParser) (bytes : List ℕ) → IsValid p → IsValid (push p bytes)
unfolding push
push-IsValid p bytes v =
    let q = ensure_spare p (length bytes) in
    let e = ensure_spare-Ensures p (length bytes) v in
    omega (arith, length-append q.buffer bytes, e.valid.off_within, e.room)

-- `HasData` is false only when nothing is unread.
pub has_data-eq_false : (p : S2SFrameParser) → has_data p ≡ false → unread p ≡ []
unfolding has_data
has_data-eq_false p h = drop_all p.off p.buffer (ground arith)

-- `readFrom` always asks for room.
pub wanted_spare_pos : (p : S2SFrameParser) → 0 < wanted_spare p
unfolding wanted_spare
wanted_spare_pos p = ground arith
