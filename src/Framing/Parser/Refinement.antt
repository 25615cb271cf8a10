-- ===== src/Framing/Parser/Refinement.antt =====
-- `ParseFrame` against `decode`, the description of a frame on the plain list of bytes.
use s2_sdk_go.Prelude.{
  ℕ, suc, ◌+◌, ◌-◌, ◌≤◌, ◌≡◌, refl, sym, ap, ◌∙◌, List, [], ◌∷◌, ◌==◌, length-drop, ltb-eq_false,
  length, take, drop, drop_all, drop-drop, arith, inl, inr, Bool-cases,
}
use s2_sdk_go.Framing.Parser.Buffer.{IsValid}
use s2_sdk_go.Framing.Parser.{
  S2SFrameParser, Parsed, failed, parsed, incomplete, unread, parse_frame, consume, parse_complete,
  finish_frame, parse_sized, frame_length,
}
use s2_sdk_go.Framing.Parser.Decode.{outcome, decode, decode_payload, decode_sized}

unread-consume : (p : S2SFrameParser) (total : ℕ) → unread (consume p total) ≡ drop total (unread p)
unfolding consume
unread-consume p total = elim (Bool-cases (p.off + total == length p.buffer)) [
  | inl e ↦
      rw e (sym (drop-drop p.off total p.buffer ∙ drop_all (p.off + total) p.buffer (ground arith)))
  | inr e ↦ rw e (sym (drop-drop p.off total p.buffer))
]

module _ (q : S2SFrameParser) (len a b c flag : ℕ) (tail : List ℕ) (pos : 1 ≤ len)
    (u : unread q ≡ a ∷ b ∷ c ∷ flag ∷ tail) where
  rest_lem : unread (consume q (3 + len)) ≡ drop (len - 1) tail
  rest_lem =
      unread-consume q (3 + len)
      ∙ ap (drop (3 + len)) u
      ∙ ap (λ n. drop n (a ∷ b ∷ c ∷ flag ∷ tail)) e
    where
      e : 3 + len ≡ suc (suc (suc (suc (len - 1))))
      e = omega arith

  body_cases :
      (body : List ℕ)
      → take (len - 1) tail ≡ body
      → outcome (parse_complete q (a ∷ b ∷ c ∷ flag ∷ tail) len)
        ≡ decode_payload flag body (drop (len - 1) tail)
  unfolding parse_complete finish_frame decode_payload
  body_cases [] e = rw e (ground (arith, rest_lem))
  body_cases (x ∷ []) e = rw e (ground (arith, rest_lem))
  body_cases (x ∷ y ∷ ys) e = rw e (ground (arith, rest_lem))

sized :
    (p : S2SFrameParser) (a b c flag : ℕ) (tail : List ℕ)
    → unread p ≡ a ∷ b ∷ c ∷ flag ∷ tail
    → outcome (parse_sized p (a ∷ b ∷ c ∷ flag ∷ tail) (frame_length (a ∷ b ∷ c ∷ flag ∷ tail)))
      ≡ decode_sized (frame_length (a ∷ b ∷ c ∷ flag ∷ tail)) flag tail
unfolding parse_sized
sized p a b c flag tail u = go (frame_length (a ∷ b ∷ c ∷ flag ∷ tail))
  where
    go :
        (len : ℕ)
        → outcome (parse_sized p (a ∷ b ∷ c ∷ flag ∷ tail) len) ≡ decode_sized len flag tail
    go len = ground (
      arith,
      λ (pos : 1 ≤ len).
          body_cases (record p { need = 0 }) len a b c flag tail pos u (take (len - 1) tail) refl,
    )

parse_at :
    (p : S2SFrameParser) (buf : List ℕ) → unread p ≡ buf → outcome (parse_frame p) ≡ decode buf
unfolding parse_frame decode
parse_at p [] u = ground (arith, ap length u)
parse_at p (a ∷ []) u = ground (arith, ap length u)
parse_at p (a ∷ b ∷ []) u = ground (arith, ap length u)
parse_at p (a ∷ b ∷ c ∷ []) u = ground (arith, ap length u)
parse_at p (a ∷ b ∷ c ∷ flag ∷ tail) u = rw u (
    rw (ltb-eq_false (length (a ∷ b ∷ c ∷ flag ∷ tail)) 4 (omega arith))
      (sized p a b c flag tail u))

-- ParseFrame on the buffer and its offset does what the description of a frame on the plain list
-- of unread bytes says: it waits, fails with the same error, or yields the same frame and leaves
-- the same bytes unread.
pub parse_frame-decode : (p : S2SFrameParser) → outcome (parse_frame p) ≡ decode (unread p)
parse_frame-decode p = parse_at p (unread p) refl

abbrev pub Kept : S2SFrameParser → S2SFrameParser × Parsed → Type 0
Kept p (q, incomplete) = unread q ≡ unread p
Kept p (q, failed e) = unread q ≡ unread p
Kept p (q, parsed f) = Unit

-- Without a frame nothing is consumed.
pub parse_frame-Kept : (p : S2SFrameParser) → Kept p (parse_frame p)
unfolding parse_frame parse_sized parse_complete finish_frame
parse_frame-Kept p = ground arith

consume-IsValid :
    (p : S2SFrameParser) (n : ℕ) → IsValid p → n ≤ length (unread p) → IsValid (consume p n)
unfolding consume
consume-IsValid p n v h = ground (arith, length-drop p.off p.buffer)

parse_complete-IsValid :
    (p : S2SFrameParser) (len : ℕ)
    → IsValid p
    → 3 + len ≤ length (unread p)
    → IsValid (parse_complete p (unread p) len).0
unfolding parse_complete finish_frame
parse_complete-IsValid p len v h = ground (arith, consume-IsValid p (3 + len))

-- ParseFrame keeps the parser's slice valid: the offset within the contents, and these within the
-- capacity.
pub parse_frame-IsValid : (p : S2SFrameParser) → IsValid p → IsValid (parse_frame p).0
unfolding parse_frame parse_sized
parse_frame-IsValid p v =
    ground (arith, parse_complete-IsValid (record p { need = 0 }) (frame_length (unread p)))
