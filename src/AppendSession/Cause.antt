-- ===== src/AppendSession/Cause.antt =====
-- When a failed session may be retried and what a retry makes of the queue, in words of their own,
-- with the tests of the source that decide them.
use s2_sdk_go.Prelude.{
  ℕ, ◌≡◌, ◌<◌, ◌-◌, ◌+◌, ◌==◌, refl, ap, is_empty, ◌⊎◌, inl, inr, Bool, true, false, not, ◌&&◌,
  ◌||◌, Option, none, some, List, [], ◌∷◌, if◌then◌else◌, if_ind, arith, leb, ltb,
}
use s2_sdk_go.Errors.{Err, S2Error, as_s2_error, is_retryable, s2_has_no_side_effects}
use s2_sdk_go.AppendSession.State.{
  InflightEntry, reset_attempt_starts, mark_uncertain, was_sent, was_sent_on_session,
  is_idempotent_entry, sent_unmatched, has_non_idempotent_sent_pipelined,
}
use s2_sdk_go.AppendSession.Failures.{s2_harmless, is_no_side_effects_error, definite}

-- The failure is a server's error that guarantees that it had no side effects.
abbrev pub IsHarmless : Option S2Error → Type 0
IsHarmless none = ⊥
IsHarmless (some e) = s2_has_no_side_effects e ≡ true

-- What is no S2 error, such as a network error, is retried, and of those the retryable ones.
abbrev pub IsIndefinite : Option S2Error → Type 0
IsIndefinite none = Unit
IsIndefinite (some e) = is_retryable e ≡ true

abbrev pub Occurs : ℕ → List ℕ → Type 0
Occurs s [] = ⊥
Occurs s (t ∷ ts) = (t ≡ s) ⊎ Occurs s ts

-- A test that is true only where the property fails, and false only where it holds.
abbrev pub Forbids : Bool → Type 0 → Type 0
Forbids true P = ¬ P
Forbids false P = P

pub forbidden : (P : Type 0) (b : Bool) → Forbids b P → b ≡ true → ¬ P
forbidden P true f h = f
forbidden P false f h = absurd cc

pub allowed : (P : Type 0) (b : Bool) → Forbids b P → b ≡ false → P
allowed P true f h = absurd cc
allowed P false f h = f

-- A test, from its two outcomes.
from_outcomes : (P : Type 0) (b : Bool) → (b ≡ true → ¬ P) → (b ≡ false → P) → Forbids b P
from_outcomes P true f g = f refl
from_outcomes P false f g = g refl

of_test : (b : Bool) → Forbids (not b) (b ≡ true)
of_test true = refl
of_test false = λ h. absurd cc

of_refusal : (b : Bool) → Forbids b (b ≡ false)
of_refusal true = λ h. absurd cc
of_refusal false = refl

twice : (P : Type 0) (b : Bool) → Forbids b P → Forbids (not (not b)) P
twice P true f = f
twice P false f = f

either : (P Q : Type 0) (a b : Bool) → Forbids a P → Forbids b Q → Forbids (a && b) (P ⊎ Q)
either P Q false b f g = inl f
either P Q true true f g = λ x. elim x [ inl p ↦ f p | inr q ↦ g q ]
either P Q true false f g = inr g

both : (P Q : Type 0) (a b : Bool) → Forbids a P → Forbids b Q → Forbids (a || b) (P × Q)
both P Q true b f g = λ x. f x.0
both P Q false true f g = λ x. g x.1
both P Q false false f g = (f, g)

found :
    (P Q : Type 0) (a b : Bool)
    → Forbids (not a) P
    → Forbids (not b) Q
    → Forbids (not (a || b)) (P ⊎ Q)
found P Q true b f g = inl f
found P Q false true f g = inr g
found P Q false false f g = λ x. elim x [ inl p ↦ f p | inr q ↦ g q ]

-- Only a strict policy forbids.
pub strict_only :
    (P : Type 0) (strict b : Bool) → Forbids b P → Forbids (strict && b) ((strict ≡ false) ⊎ P)
strict_only P strict b f = either (strict ≡ false) P strict b (of_refusal strict) f

pub s2_harmless-Forbids : (o : Option S2Error) → Forbids (not (s2_harmless o)) (IsHarmless o)
s2_harmless-Forbids none = λ x. x
s2_harmless-Forbids (some e) = of_test (s2_has_no_side_effects e)

none_pending : (n : ℕ) → Forbids (ltb 0 n) (n ≡ 0)
none_pending n =
    from_outcomes (n ≡ 0) (ltb 0 n) (λ t e. ground (arith, t, e)) (λ f. ground (arith, f))

-- No harm, or no write that awaits its ack.
pub risk-Forbids :
    (o : Option S2Error) (n : ℕ)
    → Forbids (not (s2_harmless o || not (ltb 0 n))) (IsHarmless o ⊎ (n ≡ 0))
risk-Forbids o n =
    found (IsHarmless o) (n ≡ 0) (s2_harmless o) (not (ltb 0 n)) (s2_harmless-Forbids o)
      (twice (n ≡ 0) (ltb 0 n) (none_pending n))

pub definite-Forbids : (o : Option S2Error) → Forbids (definite o) (IsIndefinite o)
definite-Forbids none = tt
definite-Forbids (some e) = of_test (is_retryable e)

pub attempts-Forbids : (a n : ℕ) → Forbids (leb (a - 1) n) (n + 1 < a)
attempts-Forbids a n =
    from_outcomes (n + 1 < a) (leb (a - 1) n) (λ t l. ground (arith, t, l)) (λ f. ground (arith, f))

was_sent-Occurs : (s : ℕ) (ts : List ℕ) → Forbids (not (was_sent ts s)) (Occurs s ts)
unfolding was_sent
was_sent-Occurs s [] = λ x. x
was_sent-Occurs s (t ∷ ts) =
    found (t ≡ s) (Occurs s ts) (t == s) (was_sent ts s)
      (from_outcomes (t ≡ s) (not (t == s)) (λ f e. ground (arith, f, e)) (λ f. ground (arith, f)))
      (was_sent-Occurs s ts)

never_sent : (ts : List ℕ) → Forbids (not (is_empty ts)) (ts ≡ [])
never_sent [] = refl
never_sent (t ∷ ts) = λ e. absurd cc

matching :
    (o : Option ℕ)
    → Forbids (not (elim o [ some n ↦ true | none ↦ false ])) ((n : ℕ) × (o ≡ some n))
matching none = λ x. absurd cc
matching (some n) = (n, refl)

module _ {C : Type 0} where
  -- Every entry matches a sequence number or was never sent.
  abbrev pub AllIdempotent : List (InflightEntry C) → Type 0
  AllIdempotent [] = Unit
  AllIdempotent (e ∷ es) =
      (((n : ℕ) × (e.input.match_seq_num ≡ some n)) ⊎ (e.sent_on_sessions ≡ [])) × AllIdempotent es

  -- The head is not pipelined: it is sent again first.
  abbrev pub BehindHead : (List (InflightEntry C) → Type 0) → List (InflightEntry C) → Type 0
  BehindHead P [] = Unit
  BehindHead P (e ∷ es) = P es

  -- What a retry makes of the queue after a failure of session `s`, harmless or not.
  pub data Requeued (s : ℕ) (Harmless : Type 0)
      : List (InflightEntry C) → List (InflightEntry C) → Type 0 where
    none_left : Requeued s Harmless [] []
    marks :
        (e : InflightEntry C) {es fs : List (InflightEntry C)}
        → Occurs s e.sent_on_sessions
        → ¬ Harmless
        → Requeued s Harmless es fs
        → Requeued s Harmless
            (e ∷ es)
            (record e { attempt_start = 0; prior_uncertainty = true } ∷ fs)
    keeps :
        (e : InflightEntry C) {es fs : List (InflightEntry C)}
        → (¬ Occurs s e.sent_on_sessions) ⊎ Harmless
        → Requeued s Harmless es fs
        → Requeued s Harmless (e ∷ es) (record e { attempt_start = 0 } ∷ fs)

  unmatched-Forbids : (es : List (InflightEntry C)) → Forbids (sent_unmatched es) (AllIdempotent es)
  unfolding sent_unmatched is_idempotent_entry
  unmatched-Forbids [] = tt
  unmatched-Forbids (e ∷ es) =
      let named = (n : ℕ) × (e.input.match_seq_num ≡ some n) in
      let unsent = e.sent_on_sessions ≡ [] in
      both (named ⊎ unsent) (AllIdempotent es) _ (sent_unmatched es)
        (either named unsent _ (not (is_empty e.sent_on_sessions)) (matching e.input.match_seq_num)
          (never_sent e.sent_on_sessions))
        (unmatched-Forbids es)

  pub pipelined-Forbids :
      (q : List (InflightEntry C))
      → Forbids (has_non_idempotent_sent_pipelined q) (BehindHead AllIdempotent q)
  unfolding has_non_idempotent_sent_pipelined
  pipelined-Forbids [] = tt
  pipelined-Forbids (e ∷ es) = unmatched-Forbids es

  kept :
      (s : ℕ) (Harmless : Type 0)
      → Harmless
      → (q : List (InflightEntry C)) → Requeued s Harmless q (reset_attempt_starts q)
  unfolding reset_attempt_starts
  kept s H h [] = none_left
  kept s H h (e ∷ es) = keeps e (inr h) (kept s H h es)

  marked :
      (s : ℕ) (Harmless : Type 0)
      → ¬ Harmless
      → (q : List (InflightEntry C))
      → Requeued s Harmless q (reset_attempt_starts (mark_uncertain s q))
  unfolding reset_attempt_starts mark_uncertain was_sent_on_session
  marked s H n [] = none_left
  marked s H n (e ∷ es) =
      let rest = marked s H n es in
      let f = was_sent-Occurs s e.sent_on_sessions in
      if_ind
        (λ (x : InflightEntry C).
          Requeued s H (e ∷ es)
            (record x { attempt_start = 0 } ∷ reset_attempt_starts (mark_uncertain s es)))
        (was_sent e.sent_on_sessions s)
        (λ t. marks e (allowed (Occurs s e.sent_on_sessions) _ f (ap not t)) n rest)
        (λ u. keeps e (inl (forbidden (Occurs s e.sent_on_sessions) _ f (ap not u))) rest)

  -- The marks of a failure and the new starts.
  pub requeue :
      (s : ℕ) (err : Err) (q : List (InflightEntry C))
      → Requeued s
          (IsHarmless (as_s2_error err))
          q
          (reset_attempt_starts (if is_no_side_effects_error err then q else mark_uncertain s q))
  unfolding is_no_side_effects_error
  requeue s err q =
      let o = as_s2_error err in
      let f = s2_harmless-Forbids o in
      if_ind (λ x. Requeued s (IsHarmless o) q (reset_attempt_starts x)) (s2_harmless o)
        (λ t. kept s (IsHarmless o) (allowed (IsHarmless o) _ f (ap not t)) q)
        (λ u. marked s (IsHarmless o) (forbidden (IsHarmless o) _ f (ap not u)) q)
