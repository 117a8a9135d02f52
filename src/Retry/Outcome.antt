-- ===== src/Retry/Outcome.antt =====
-- Which call decides a retry: src/core/retry.py.
use qnsc_kb_backend.Prelude.{
  ℕ, zero, suc, ◌+◌, ◌<◌, ◌≡◌, refl, ◌⊎◌, inl, inr, Bool, true, false, ◌||◌, arith, nat_beq, nat_eq,
  string_eq, option_eq,
}
use qnsc_kb_backend.Retry.{
  Answer, returned, raised, CallOutcome, succeeds, raises, attempts_from, with_exponential_retry,
}
use qnsc_kb_backend.Retry.Waiting.{
  attempts_from-returned, attempts_from-raised, attempts_from-slept,
}

abbrev pub answer_of : {A E : Type 0} → CallOutcome A E → Answer A E
answer_of (succeeds a) = returned a
answer_of (raises e) = raised e

module _ {A E : Type 0} (give_up_on : E → Bool) where
  -- Another attempt may help.
  abbrev pub IsTransient : CallOutcome A E → Type 0
  IsTransient t = (e : E) × (t ≡ raises e) × (give_up_on e ≡ false)

  -- A success, a failure that is given up on, or the failure of the last attempt.
  abbrev pub IsDecisive : CallOutcome A E → ℕ → Type 0
  IsDecisive t left =
      ((a : A) × (t ≡ succeeds a))
      ⊎ ((e : E) × (t ≡ raises e) × ((give_up_on e ≡ true) ⊎ (left ≡ 0)))

  module _ (base_delay : ℕ) (operation : ℕ → CallOutcome A E) where
    decides_now :
        (i left : ℕ)
        → IsDecisive (operation i) left
        → ((attempts_from give_up_on base_delay operation i (suc left)).answer
            ≡ answer_of (operation i))
          × ((attempts_from give_up_on base_delay operation i (suc left)).calls ≡ 1)
    decides_now i left (inl (a, q)) =
        rw (attempts_from-returned give_up_on base_delay operation i left a q, q) (refl, refl)
    decides_now i left (inr (e, q, inl g)) =
        rw (attempts_from-raised give_up_on base_delay operation i left e q (ground arith), q)
          (refl, refl)
    decides_now i left (inr (e, q, inr z)) =
        let last : (give_up_on e || nat_beq left 0) ≡ true = ground arith in
        rw (attempts_from-raised give_up_on base_delay operation i left e q last, q) (refl, refl)

    decides_from :
        (i k left : ℕ)
        → ((j : ℕ) → j < k → IsTransient (operation (i + j)))
        → IsDecisive (operation (i + k)) left
        → ((attempts_from give_up_on base_delay operation i (suc (k + left))).answer
            ≡ answer_of (operation (i + k)))
          × ((attempts_from give_up_on base_delay operation i (suc (k + left))).calls ≡ suc k)
    decides_from i zero left t d =
        let here : i + 0 ≡ i = omega arith in
        let none_before : 0 + left ≡ left = omega arith in
        rw (here, none_before) (decides_now i left (rw (here) at d))
    decides_from i (suc k) left t d =
        let (e, q, g) = t 0 (omega arith) in
        let here : i + 0 ≡ i = omega arith in
        let count : suc k + left ≡ suc (k + left) = omega arith in
        let on : i + suc k ≡ (i + 1) + k = omega arith in
        let more : (give_up_on e || nat_beq (suc (k + left)) 0) ≡ false = ground arith in
        let (a, c) =
          decides_from (i + 1) k left
            (λ j b.
              let step : i + suc j ≡ (i + 1) + j = omega arith in
              rw (step) at (t (suc j) (omega arith)))
            (rw (on) at d) in
        rw
          (
            count,
            attempts_from-slept give_up_on base_delay operation i (suc (k + left)) e
                (rw (here) at q) more,
            on,
          )
          (a, omega (arith, c))

    -- When the calls before call number k, counted from 0, fail with errors that are not given up on,
    -- and call k succeeds, or raises with an error that is given up on, or raises as the last of the
    -- k + left + 1 attempts, where left is 0, then the retry answers as call k does, after k + 1 calls.
    pub with_exponential_retry-decides :
        (k left : ℕ)
        → ((j : ℕ) → j < k → IsTransient (operation j))
        → IsDecisive (operation k) left
        → ((with_exponential_retry give_up_on (suc (k + left)) base_delay operation).answer
            ≡ answer_of (operation k))
          × ((with_exponential_retry give_up_on (suc (k + left)) base_delay operation).calls
              ≡ suc k)
    unfolding with_exponential_retry
    with_exponential_retry-decides k left t d =
        let here : 0 + k ≡ k = omega arith in
        rw (here) at (
          decides_from 0 k left (λ j b. let at_j : 0 + j ≡ j = omega arith in rw (at_j) (t j b))
            (rw (here) d))
