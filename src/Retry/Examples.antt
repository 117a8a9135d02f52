-- ===== src/Retry/Examples.antt =====
-- An operation that raises twice and then succeeds, and the theorem on src/core/retry.py at it.
use qnsc_kb_backend.Prelude.{
  ℕ, zero, suc, ◌<◌, String, ◌≡◌, refl, inl, Bool, arith, ◌==◌, nat_eq, string_eq, option_eq,
}
use qnsc_kb_backend.Retry.{CallOutcome, succeeds, raises, returned, with_exponential_retry}
use qnsc_kb_backend.Retry.Outcome.{IsTransient, with_exponential_retry-decides}

abbrev is_rejected : String → Bool
is_rejected e = e == "rejected key"

abbrev operation : ℕ → CallOutcome String String
operation zero = raises "overloaded"
operation (suc zero) = raises "timeout"
operation (suc (suc n)) = succeeds "answer"

-- The third call succeeds.
operation-IsTransient : (j : ℕ) → j < 2 → IsTransient is_rejected (operation j)
operation-IsTransient zero b = ("overloaded", refl, refl)
operation-IsTransient (suc zero) b = ("timeout", refl, refl)
operation-IsTransient (suc (suc j)) b = absurd (omega arith)

with_exponential_retry-decides_example :
    ((with_exponential_retry is_rejected 3 500 operation).answer ≡ returned "answer")
    × ((with_exponential_retry is_rejected 3 500 operation).calls ≡ 3)
with_exponential_retry-decides_example =
    with_exponential_retry-decides is_rejected 500 operation 2 0 operation-IsTransient
      (inl ("answer", refl))
