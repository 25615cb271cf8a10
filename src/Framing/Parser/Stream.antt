-- ===== src/Framing/Parser/Stream.antt =====
-- Facts about `decode` that make reading a stream in pieces sound.
use s2_sdk_go.Prelude.{
  ℕ, ◌+◌, ◌-◌, ◌*◌, ◌^◌, ◌<◌, ◌≡◌, refl, List, [], ◌∷◌, ◌++◌, length, take, drop, length-append,
  arith, take-append, drop-append, ◌≢◌,
}
use s2_sdk_go.Framing.Types.{max_frame_size}
use s2_sdk_go.Framing.Parser.Decode.{Decoded, more, bad, done, decode, decode_payload, decode_sized}

-- The answer when more bytes follow.
abbrev pub then_rest : Decoded → List ℕ → Decoded
then_rest more ys = more
then_rest (bad e) ys = bad e
then_rest (done f rest) ys = done f (rest ++ ys)

decode_payload-append :
    (flag : ℕ) (body rest ys : List ℕ)
    → decode_payload flag body (rest ++ ys) ≡ then_rest (decode_payload flag body rest) ys
unfolding decode_payload
decode_payload-append flag [] rest ys = ground arith
decode_payload-append flag (x ∷ []) rest ys = ground arith
decode_payload-append flag (x ∷ y ∷ body) rest ys = ground arith

decode_sized-append :
    (len flag : ℕ) (tail ys : List ℕ)
    → decode_sized len flag tail ≢ more
    → decode_sized len flag (tail ++ ys) ≡ then_rest (decode_sized len flag tail) ys
decode_sized-append len flag tail ys h = ground (
  arith,
  length-append tail ys,
  take-append (len - 1) tail ys,
  drop-append (len - 1) tail ys,
  decode_payload-append flag (take (len - 1) tail) (drop (len - 1) tail) ys,
)

-- Once a frame or an error is decided, later bytes do not change it.
pub decode-append :
    (xs ys : List ℕ) → decode xs ≢ more → decode (xs ++ ys) ≡ then_rest (decode xs) ys
unfolding decode
decode-append [] ys h = absurd (h refl)
decode-append (a ∷ []) ys h = absurd (h refl)
decode-append (a ∷ b ∷ []) ys h = absurd (h refl)
decode-append (a ∷ b ∷ c ∷ []) ys h = absurd (h refl)
decode-append (a ∷ b ∷ c ∷ flag ∷ tail) ys h =
    decode_sized-append (a * 2 ^ 16 + b * 2 ^ 8 + c) flag tail ys h

payload_decides : (flag : ℕ) (body rest : List ℕ) → decode_payload flag body rest ≢ more
unfolding decode_payload
payload_decides flag [] rest = ground arith
payload_decides flag (x ∷ []) rest = ground arith
payload_decides flag (x ∷ y ∷ body) rest = ground arith

-- A frame that is not complete is shorter than the largest frame with its prefix.
pub decode-more_bound : (xs : List ℕ) → decode xs ≡ more → length xs < 4 + max_frame_size
unfolding decode
decode-more_bound [] h = omega arith
decode-more_bound (a ∷ []) h = omega arith
decode-more_bound (a ∷ b ∷ []) h = omega arith
decode-more_bound (a ∷ b ∷ c ∷ []) h = omega arith
decode-more_bound (a ∷ b ∷ c ∷ flag ∷ tail) h =
    let len = a * 2 ^ 16 + b * 2 ^ 8 + c in
    ground (arith, payload_decides flag (take (len - 1) tail) (drop (len - 1) tail))
