-- ===== src/Retry.antt =====
-- `with_exponential_retry` of src/core/retry.py. The operation is what its calls answer, in turn; a
-- delay is a number of units of time.
pub mod Waiting
pub mod Outcome
mod Examples
use qnsc_kb_backend.Prelude.{
  ℕ, zero, suc, ◌+◌, ◌*◌, ◌^◌, Bool, ◌||◌, List, [], ◌∷◌, nat_beq, if◌then◌else◌,
}

-- What a call of the operation does, and what the retry does in the end; `RuntimeError` is raised when
-- no attempt is made.
pub data Answer (A E : Type 0) : Type 0 where
  returned : A → Answer A E
  raised : E → Answer A E
  runtime_error : Answer A E

-- A run of the loop: its answer, how many calls it makes and how long it sleeps each time.
pub record Run (A E : Type 0) : Type 0 where
  pub answer : Answer A E
  pub calls : ℕ
  pub slept : List ℕ

pub data CallOutcome (A E : Type 0) : Type 0 where
  succeeds : A → CallOutcome A E
  raises : E → CallOutcome A E

-- The loop from an attempt on, with so many left.
unfoldable pub attempts_from :
    {A E : Type 0} → (E → Bool) → ℕ → (ℕ → CallOutcome A E) → ℕ → ℕ → Run A E
attempts_from give_up_on base_delay operation attempt zero = record {
  answer = runtime_error;
  calls = 0;
  slept = [];
}
attempts_from give_up_on base_delay operation attempt (suc left) =
    let rest = attempts_from give_up_on base_delay operation (attempt + 1) left in
    elim (operation attempt) [
      | succeeds a ↦ record { answer = returned a; calls = 1; slept = [] }
      | raises e ↦
          if give_up_on e || nat_beq left 0
          then record { answer = raised e; calls = 1; slept = [] }
          else record rest { calls = rest.calls + 1; slept = base_delay * 2 ^ attempt ∷ rest.slept }
    ]

unfoldable pub with_exponential_retry :
    {A E : Type 0} → (E → Bool) → ℕ → ℕ → (ℕ → CallOutcome A E) → Run A E
with_exponential_retry give_up_on attempts base_delay operation =
    attempts_from give_up_on base_delay operation 0 attempts
