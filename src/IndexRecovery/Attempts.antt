-- ===== src/IndexRecovery/Attempts.antt =====
-- How often an article whose runs keep dying is queued again: `next_step` of
-- src/domain/index_recovery.py.
use text.Mathlib.Text.{starts_with}
use text.Mathlib.TextPositions.{starts_with-append}
use qnsc_kb_backend.Prelude.{
  ℕ, zero, suc, ◌+◌, ◌≤◌, ◌<◌, String, ◌≡◌, refl, ap, ◌∙◌, inl, inr, Bool, true, false, Option,
  some, arith, ltb, nat_beq, Bool-cases, nat_eq, string_eq, option_eq,
}
use qnsc_kb_backend.IndexRecovery.{
  interrupted_prefix, interrupted_attempts, marker, Action, requeue, fail, next_step, max_attempts,
}

module _ (attempt_of : String → Option ℕ) (digits : ℕ → String) where
  abbrev counted : Action → ℕ × Bool → ℕ × Bool
  counted requeue later = (later.0 + 1, later.1)
  counted fail later = (0, true)

  -- Passes over an article that is stuck each time: how often it is queued again, and whether it
  -- ends as failed.
  pub passes : ℕ → Option String → ℕ × Bool
  unfolding next_step
  passes zero index_error = (0, false)
  passes (suc n) index_error =
      let step = next_step attempt_of digits index_error in counted step.0 (passes n (some step.1))

  marker-prefix : (n : ℕ) → starts_with (marker digits n) interrupted_prefix ≡ true
  marker-prefix n = starts_with-append interrupted_prefix _

  interrupted_attempts-marker :
      (n : ℕ)
      → attempt_of (marker digits n) ≡ some n
      → interrupted_attempts attempt_of (some (marker digits n)) ≡ n
  unfolding interrupted_attempts
  interrupted_attempts-marker n h = rw (marker-prefix n, h) refl

  next_step-requeue :
      (index_error : Option String) (n : ℕ)
      → interrupted_attempts attempt_of index_error ≡ n
      → n < 2
      → next_step attempt_of digits index_error ≡ (requeue, marker digits (n + 1))
  unfolding next_step
  next_step-requeue index_error n e h =
      let few : ltb max_attempts (n + 1) ≡ false = ground arith in rw (e, few) refl

  next_step-fail :
      (index_error : Option String)
      → 2 ≤ interrupted_attempts attempt_of index_error
      → (next_step attempt_of digits index_error).0 ≡ fail
  unfolding next_step
  next_step-fail index_error h =
      let many : ltb max_attempts (interrupted_attempts attempt_of index_error + 1) ≡ true =
        ground arith in
      rw many refl

  passes-fail :
      (n : ℕ) (index_error : Option String)
      → 2 ≤ interrupted_attempts attempt_of index_error
      → passes (suc n) index_error ≡ (0, true)
  unfolding passes
  passes-fail n index_error h = rw (next_step-fail index_error h, passes) refl

  passes-requeue :
      (n k : ℕ) (index_error : Option String)
      → interrupted_attempts attempt_of index_error ≡ k
      → k < 2
      → passes (suc n) index_error ≡ (
        (passes n (some (marker digits (k + 1)))).0 + 1,
        (passes n (some (marker digits (k + 1)))).1,
      )
  unfolding passes
  passes-requeue n k index_error e h =
      ap (λ step. counted step.0 (passes n (some step.1))) (next_step-requeue index_error k e h)

  module _ (one : attempt_of (marker digits 1) ≡ some 1)
      (two : attempt_of (marker digits 2) ≡ some 2) where
    passes-second : (n : ℕ) → passes (suc n) (some (marker digits 2)) ≡ (0, true)
    passes-second n =
        passes-fail n (some (marker digits 2)) (omega (arith, interrupted_attempts-marker 2 two))

    passes-first : (n : ℕ) → passes (suc (suc n)) (some (marker digits 1)) ≡ (1, true)
    passes-first n =
        passes-requeue (suc n) 1 (some (marker digits 1)) (interrupted_attempts-marker 1 one)
          (omega arith)
        ∙ rw (passes-second n) refl

    -- Where the search reads the attempt that a marker names, an article whose runs keep dying is
    -- queued again at most twice, whatever its error text was at first, and is failed by the third pass.
    pub interrupted_article_fails :
        (index_error : Option String)
        → ((passes 3 index_error).1 ≡ true) × ((passes 3 index_error).0 ≤ 2)
    interrupted_article_fails index_error =
        elim (Bool-cases (ltb (interrupted_attempts attempt_of index_error) 2)) [
          | inr e ↦ let q = passes-fail 2 index_error (ground arith) in rw q (refl, omega arith)
          | inl e ↦ elim (Bool-cases (nat_beq (interrupted_attempts attempt_of index_error) 0)) [
            | inl z ↦
                let q = passes-requeue 2 0 index_error (ground arith) (omega arith) in
                rw (q, passes-first 0) (refl, omega arith)
            | inr z ↦
                let q = passes-requeue 2 1 index_error (ground arith) (omega arith) in
                rw (q, passes-second 1) (refl, omega arith)
          ]
        ]
