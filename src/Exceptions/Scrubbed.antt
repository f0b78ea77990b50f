-- ===== src/Exceptions/Scrubbed.antt =====
-- The details that tunstrap/exceptions.py reports.
use garuda_tunnel.Base.{
  ◌≡◌, Text, text_eq, ◌==◌, contains, if◌then◌else◌, arith, Bool-cases, inl, inr,
}
use garuda_tunnel.Value.{null, Fields, end, field, get}
use garuda_tunnel.Exceptions.{ErrorClass, secret_keys, scrub, tunstrap_exception, to_error_output}

get-scrub :
    (k : Text) (d : Fields) → get k (scrub d) ≡ (if contains secret_keys k then null else get k d)
unfolding get scrub
get-scrub k end = ground arith
get-scrub k (field j v d) = elim (Bool-cases (k == j)) [
  | inl same ↦ ground (arith, get-scrub k d)
  | inr other ↦ ground (arith, get-scrub k d)
]

-- In the output of an error no secret key has a value, and every other key has that of the details.
pub to_error_output-scrub :
    (kind : ErrorClass) (message : Text) (details : Fields) (k : Text)
    → get k (to_error_output (tunstrap_exception kind message details)).details
      ≡ (if contains secret_keys k then null else get k details)
unfolding to_error_output tunstrap_exception
to_error_output-scrub kind message details k = get-scrub k details
