-- ===== src/Retry/Waiting.antt =====
-- How often and how long a retry waits: src/core/retry.py.
use qnsc_kb_backend.Prelude.{
  ℕ, zero, suc, ◌+◌, ◌*◌, ◌^◌, ◌≤◌, ◌≡◌, refl, ◌⊎◌, inl, inr, Bool, true, false, ◌||◌, List, [],
  ◌∷◌, arith, nat_beq, Bool-cases, nat_eq, string_eq, option_eq,
}
use native.Mathlib.Nat.{two-pow-succ, mul-add}
use qnsc_kb_backend.Retry.{
  returned, raised, Run, CallOutcome, succeeds, raises, attempts_from, with_exponential_retry,
}

abbrev pub total : List ℕ → ℕ
total [] = 0
total (d ∷ ds) = d + total ds

-- The delay before the second attempt of two is twice the one before the first.
delay-suc : (base attempt : ℕ) → base * 2 ^ (attempt + 1) ≡ base * 2 ^ attempt + base * 2 ^ attempt
delay-suc base attempt =
    let e : attempt + 1 ≡ suc attempt = omega arith in
    rw (e, two-pow-succ attempt) (mul-add base (2 ^ attempt) (2 ^ attempt))

delay-le : (base attempt more : ℕ) → base * 2 ^ attempt ≤ base * 2 ^ (attempt + more)
delay-le base attempt zero = let e : attempt + 0 ≡ attempt = omega arith in rw (e) (omega arith)
delay-le base attempt (suc more) =
    let e : attempt + suc more ≡ (attempt + more) + 1 = omega arith in
    rw (e, delay-suc base (attempt + more)) (omega (arith, delay-le base attempt more))

CallOutcome-cases :
    {A E : Type 0} (t : CallOutcome A E) → ((a : A) × (t ≡ succeeds a)) ⊎ ((e : E) × (t ≡ raises e))
CallOutcome-cases (succeeds a) = inl (a, refl)
CallOutcome-cases (raises e) = inr (e, refl)

module _ {A E : Type 0} (give_up_on : E → Bool) (base_delay : ℕ)
    (operation : ℕ → CallOutcome A E) where
  abbrev pub run_from : ℕ → ℕ → Run A E
  run_from = attempts_from give_up_on base_delay operation

  pub attempts_from-returned :
      (attempt left : ℕ) (a : A)
      → operation attempt ≡ succeeds a
      → run_from attempt (suc left) ≡ record { answer = returned a; calls = 1; slept = [] }
  unfolding attempts_from
  attempts_from-returned attempt left a q = rw (attempts_from, q) refl

  pub attempts_from-raised :
      (attempt left : ℕ) (e : E)
      → operation attempt ≡ raises e
      → (give_up_on e || nat_beq left 0) ≡ true
      → run_from attempt (suc left) ≡ record { answer = raised e; calls = 1; slept = [] }
  unfolding attempts_from
  attempts_from-raised attempt left e q g = rw (attempts_from, q, g) refl

  pub attempts_from-slept :
      (attempt left : ℕ) (e : E)
      → operation attempt ≡ raises e
      → (give_up_on e || nat_beq left 0) ≡ false
      → run_from attempt (suc left) ≡ record {
        answer = (run_from (attempt + 1) left).answer;
        calls = (run_from (attempt + 1) left).calls + 1;
        slept = base_delay * 2 ^ attempt ∷ (run_from (attempt + 1) left).slept;
      }
  unfolding attempts_from
  attempts_from-slept attempt left e q g = rw (attempts_from, q, g) refl

  attempts_from-calls :
      (attempt left : ℕ) → (attempts_from give_up_on base_delay operation attempt left).calls ≤ left
  unfolding attempts_from
  attempts_from-calls attempt zero = omega arith
  attempts_from-calls attempt (suc left) = elim (CallOutcome-cases (operation attempt)) [
    | inl q ↦ rw (attempts_from-returned attempt left q.0 q.1) (omega arith)
    | inr q ↦ elim (Bool-cases (give_up_on q.0 || nat_beq left 0)) [
      | inl g ↦ rw (attempts_from-raised attempt left q.0 q.1 g) (omega arith)
      | inr g ↦
          rw (attempts_from-slept attempt left q.0 q.1 g)
            (omega (arith, attempts_from-calls (attempt + 1) left))
    ]
  ]

  attempts_from-total :
      (attempt left : ℕ)
      → total (attempts_from give_up_on base_delay operation attempt (suc left)).slept
          + base_delay * 2 ^ attempt
        ≤ base_delay * 2 ^ (attempt + left)
  attempts_from-total attempt zero = elim (CallOutcome-cases (operation attempt)) [
    | inl q ↦
        rw (attempts_from-returned attempt 0 q.0 q.1) (omega (arith, delay-le base_delay attempt 0))
    | inr q ↦ elim (Bool-cases (give_up_on q.0 || nat_beq 0 0)) [
      | inl g ↦
          rw (attempts_from-raised attempt 0 q.0 q.1 g)
            (omega (arith, delay-le base_delay attempt 0))
      | inr g ↦ absurd (ground arith)
    ]
  ]
  attempts_from-total attempt (suc left) = elim (CallOutcome-cases (operation attempt)) [
    | inl q ↦
        rw (attempts_from-returned attempt (suc left) q.0 q.1)
          (omega (arith, delay-le base_delay attempt (suc left)))
    | inr q ↦ elim (Bool-cases (give_up_on q.0 || nat_beq (suc left) 0)) [
      | inl g ↦
          rw (attempts_from-raised attempt (suc left) q.0 q.1 g)
            (omega (arith, delay-le base_delay attempt (suc left)))
      | inr g ↦
          let e : attempt + suc left ≡ (attempt + 1) + left = omega arith in
          rw (attempts_from-slept attempt (suc left) q.0 q.1 g, e)
            (omega (arith, attempts_from-total (attempt + 1) left, delay-suc base_delay attempt))
    ]
  ]

  -- A retry of n + 1 attempts ends after at most n + 1 calls, and all its sleeps together with the
  -- base delay last at most 2 ^ n base delays.
  pub with_exponential_retry-ends :
      (n : ℕ)
      → ((with_exponential_retry give_up_on (suc n) base_delay operation).calls ≤ suc n)
        × (total (with_exponential_retry give_up_on (suc n) base_delay operation).slept + base_delay
            ≤ base_delay * 2 ^ n)
  unfolding with_exponential_retry
  with_exponential_retry-ends n =
      let start : base_delay * 2 ^ 0 ≡ base_delay = omega arith in
      let e : 0 + n ≡ n = omega arith in
      (attempts_from-calls 0 (suc n), rw (start, e) at (attempts_from-total 0 n))
