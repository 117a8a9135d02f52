-- ===== src/IndexRecovery/Passes.antt =====
-- What one pass takes on: `recover_stuck_indexing` of src/domain/index_recovery.py.
use qnsc_kb_backend.Prelude.{
  ℕ, zero, suc, ◌+◌, String, ◌≡◌, refl, ap, inl, inr, Bool, true, false, not, Option, List, [], ◌∷◌,
  ◌++◌, map, take, ltb, arith, Bool-cases, filter, nat_eq, string_eq, option_eq,
}
use qnsc_kb_backend.IndexRecovery.{
  IndexedArticle, Action, requeue, fail, next_step, is_stuck, settle, interrupted_attempts, Pass,
  listed, sweep, recover_stuck_indexing, batch_limit,
}

module _ (attempt_of : String → Option ℕ) (digits : ℕ → String) (now stuck_minutes : ℕ) where
  -- The stuck articles of the rows.
  abbrev pub stuck : List IndexedArticle → List IndexedArticle
  stuck rows = filter (is_stuck now stuck_minutes) rows

  -- An attempt is left: the text records fewer than two.
  abbrev pub has_attempt : IndexedArticle → Bool
  has_attempt a = ltb (interrupted_attempts attempt_of a.index_error) 2

  -- The ids of the articles that satisfy a test.
  abbrev pub ids_of : (IndexedArticle → Bool) → List IndexedArticle → List ℕ
  ids_of test rows = map (λ a. a.id) (filter test rows)

  -- The pass takes on `batch`: their ids are listed, and the rows that are stuck afterwards are the others.
  TakesOn : List IndexedArticle → List IndexedArticle → Pass → Type 0
  TakesOn batch rows pass =
      (pass.to_requeue ≡ ids_of has_attempt batch)
      × (pass.failed ≡ ids_of (λ a. not (has_attempt a)) batch)
      × (map (λ a. a.id) pass.rows ≡ map (λ a. a.id) rows)
      × (batch ++ stuck pass.rows ≡ stuck rows)

  settled-is_stuck :
      (step : Action × String) (a : IndexedArticle)
      → is_stuck now stuck_minutes (settle now step a) ≡ false
  unfolding is_stuck settle
  settled-is_stuck (requeue, written) a = ground arith
  settled-is_stuck (fail, written) a = ground arith

  settled-id : (step : Action × String) (a : IndexedArticle) → (settle now step a).id ≡ a.id
  unfolding settle
  settled-id (requeue, written) a = refl
  settled-id (fail, written) a = refl

  -- What the step that is taken says about the attempts
  Decides : IndexedArticle → Action → Type 0
  Decides a requeue = has_attempt a ≡ true
  Decides a fail = has_attempt a ≡ false

  next_step-Decides : (a : IndexedArticle) → Decides a (next_step attempt_of digits a.index_error).0
  unfolding next_step Decides
  next_step-Decides a =
      let tries = interrupted_attempts attempt_of a.index_error in
      elim (Bool-cases (ltb 2 (tries + 1))) [
        | inl e ↦ rw (next_step, e) (ground (arith, e))
        | inr e ↦ rw (next_step, e) (ground (arith, e))
      ]

  -- A stuck article at the head joins the batch.
  listed-TakesOn :
      (step : Action × String) (a : IndexedArticle) (batch rows : List IndexedArticle) (rest : Pass)
      → is_stuck now stuck_minutes a ≡ true
      → Decides a step.0
      → TakesOn batch rows rest
      → TakesOn (a ∷ batch) (a ∷ rows) (listed step.0 a.id (settle now step a) rest)
  unfolding TakesOn listed Decides
  listed-TakesOn (requeue, written) a batch rows rest e h (p, q, i, k) =
      let s = settled-is_stuck (requeue, written) a in
      let j = settled-id (requeue, written) a in
      rw (h, s, e, j, p, q, i, k) (refl, refl, refl, refl)
  listed-TakesOn (fail, written) a batch rows rest e h (p, q, i, k) =
      let s = settled-is_stuck (fail, written) a in
      let j = settled-id (fail, written) a in rw (h, s, e, j, p, q, i, k) (refl, refl, refl, refl)

  sweep-TakesOn :
      (room : ℕ) (rows : List IndexedArticle)
      → TakesOn (take room (stuck rows)) rows (sweep attempt_of digits now stuck_minutes room rows)
  unfolding sweep TakesOn
  sweep-TakesOn zero [] = (refl, refl, refl, refl)
  sweep-TakesOn (suc room) [] = (refl, refl, refl, refl)
  sweep-TakesOn zero (a ∷ rest) = (refl, refl, refl, refl)
  sweep-TakesOn (suc room) (a ∷ rest) = elim (Bool-cases (is_stuck now stuck_minutes a)) [
    | inl e ↦
        let t =
          listed-TakesOn (next_step attempt_of digits a.index_error) a (take room (stuck rest)) rest
            (sweep attempt_of digits now stuck_minutes room rest) e (next_step-Decides a)
            (sweep-TakesOn room rest) in
        rw (sweep, e) (rw (e) at t)
    | inr e ↦
        let (p, q, i, k) = sweep-TakesOn (suc room) rest in
        rw (sweep, e) (p, q, ap (◌∷◌ a.id) i, rw (e) k)
  ]

  -- A pass takes on the first 20 stuck articles, in the order of the rows. It lists to be queued again
  -- those whose text records fewer than two attempts, and as failed the others of the 20. The rows keep
  -- their ids and their order, and the ones that are stuck afterwards are the stuck ones behind the 20,
  -- as they were.
  pub recover_stuck_indexing_lem :
      (rows : List IndexedArticle)
      → ((recover_stuck_indexing attempt_of digits now stuck_minutes rows).to_requeue
          ≡ ids_of has_attempt (take 20 (stuck rows)))
        × ((recover_stuck_indexing attempt_of digits now stuck_minutes rows).failed
            ≡ ids_of (λ a. not (has_attempt a)) (take 20 (stuck rows)))
        × (map (λ a. a.id) (recover_stuck_indexing attempt_of digits now stuck_minutes rows).rows
            ≡ map (λ a. a.id) rows)
        × (take 20 (stuck rows)
              ++ stuck (recover_stuck_indexing attempt_of digits now stuck_minutes rows).rows
            ≡ stuck rows)
  unfolding recover_stuck_indexing TakesOn
  recover_stuck_indexing_lem rows = sweep-TakesOn batch_limit rows
