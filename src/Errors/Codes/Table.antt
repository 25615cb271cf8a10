-- ===== src/Errors/Codes/Table.antt =====
-- What the rows of the table of error codes have in common, row by row and for every lookup.
use Prim.Native.String.{String}
use text.Mathlib.Text.{◌==◌ as str_eq}
use text.Mathlib.TextEquality.{eq_iff}
use s2_sdk_go.Prelude.{
  ◌≡◌, refl, Bool, true, not, ◌&&◌, ◌||◌, some, List, [], ◌∷◌, arith, ◌⊎◌, inl, inr, Bool-cases,
}
use s2_sdk_go.Errors.{is_retryable_status}
use s2_sdk_go.Errors.Codes.{ErrorCodeInfo, error_codes, lookup_in, lookup_code}

abbrev Row : Type 0
Row = String × ErrorCodeInfo

all_rows : (Row → Bool) → List Row → Bool
all_rows p [] = true
all_rows p (r ∷ rs) = p r && all_rows p rs

lookup_in-all_rows :
    (p : Row → Bool) (code : String) (rows : List Row) (i : ErrorCodeInfo)
    → all_rows p rows ≡ true
    → lookup_in code rows ≡ some i
    → p (code, i) ≡ true
unfolding all_rows lookup_in
lookup_in-all_rows p code [] i a l = cc
lookup_in-all_rows p code ((c, j) ∷ rs) i a l = elim (Bool-cases (str_eq c code)) [
  | inl e ↦
      let same : c ≡ code = (eq_iff c code).0 e in
      let found : j ≡ i = ground (arith, e) in rw (← same, ← found) (ground arith)
  | inr e ↦ lookup_in-all_rows p code rs i (ground arith) (ground (arith, e))
]

-- A row is retryable only at a status that is retried anyway, or for a transaction conflict.
retries_agree : Row → Bool
retries_agree (c, i) =
    not i.retryable || (is_retryable_status i.status || str_eq c "transaction_conflict")

table_agrees : all_rows retries_agree error_codes ≡ true
unfolding all_rows retries_agree error_codes is_retryable_status
table_agrees = refl

pub lookup_code-retryable :
    (code : String) (i : ErrorCodeInfo)
    → lookup_code code ≡ some i
    → i.retryable ≡ true
    → (is_retryable_status i.status ≡ true) ⊎ (code ≡ "transaction_conflict")
unfolding lookup_code retries_agree
lookup_code-retryable code i l r = ground (
  arith,
  lookup_in-all_rows retries_agree code error_codes i table_agrees l,
  eq_iff code "transaction_conflict",
)
