-- ===== src/Errors/Uncertainty.antt =====
-- What `withPriorUncertainty` and the error table guarantee.
use text.Mathlib.TextEquality.{eq_iff}
use s2_sdk_go.Prelude.{◌≡◌, Bool, true, false, Option-cases, some, arith, ◌⊎◌, inl, inr}
use s2_sdk_go.Errors.{
  Err, S2Error, as_s2_error, is_indefinite, has_no_side_effects, with_prior_uncertainty,
  s2_has_no_side_effects, is_retryable, is_retryable_status,
}
use s2_sdk_go.Errors.Codes.{ErrorCodeInfo, lookup_code}
use s2_sdk_go.Errors.Codes.Table.{lookup_code-retryable}

-- Wrapping an error for prior uncertainty hides no S2 error from errors.As, never claims to be
-- without side effects when an attempt is uncertain, is the identity when none is, and wraps at
-- most once.
pub with_prior_uncertainty_lem :
    (e : Err) (prior : Bool)
    → let w = with_prior_uncertainty e prior in
      (as_s2_error w ≡ as_s2_error e)
      × (has_no_side_effects (with_prior_uncertainty e true) ≡ false)
      × (with_prior_uncertainty e false ≡ e)
      × (with_prior_uncertainty w prior ≡ w)
unfolding with_prior_uncertainty has_no_side_effects as_s2_error is_indefinite
with_prior_uncertainty_lem e prior = ground arith

-- An S2 error is retryable only at a status that is retryable in itself, or under the code of a
-- transaction conflict.
pub is_retryable-status :
    (e : S2Error)
    → is_retryable e ≡ true
    → (is_retryable_status e.status ≡ true) ⊎ (e.code ≡ "transaction_conflict")
unfolding is_retryable
is_retryable-status e h = elim (Option-cases (lookup_code e.code)) [
  | inl n ↦ inl (ground (arith, n))
  | inr (i, k) ↦ ground (arith, k, lookup_code-retryable e.code i k)
]

-- A guarantee of no side effects is the server's, under a code of the table at its own status.
pub s2_has_no_side_effects_known :
    (e : S2Error)
    → s2_has_no_side_effects e ≡ true
    → (e.origin ≡ "server")
      × ((i : ErrorCodeInfo) × (lookup_code e.code ≡ some i)
          × (i.status ≡ e.status)
          × (i.no_side_effects ≡ true))
unfolding s2_has_no_side_effects
s2_has_no_side_effects_known e h = elim (Option-cases (lookup_code e.code)) [
  | inl n ↦ ground (arith, n)
  | inr (i, k) ↦
      (ground (arith, eq_iff e.origin "server"), (i, k, ground (arith, k), ground (arith, k)))
]
