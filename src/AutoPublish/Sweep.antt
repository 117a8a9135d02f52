-- ===== src/AutoPublish/Sweep.antt =====
-- What the sweep of src/domain/department_auto_publish.py publishes, and as whom.
use qnsc_kb_backend.Prelude.{
  ◌&&◌, ◌++◌, ℕ, suc, ◌+◌, String, ◌≡◌, refl, ap, ◌∙◌, inl, inr, Bool, true, false, none, some,
  List, [], ◌∷◌, map, arith, Option-cases, length, Memᴰ-filter, nat_eq, string_eq, option_eq, Each,
  Memᴰ-Each, Memᴰ-take,
}
use qnsc_kb_backend.Accounts.{User}
use qnsc_kb_backend.AutoPublish.{
  Department, Row, Outcome, skipped, left_for_review, stranded, published, Report, Totals,
  empty_report, publishers, in_sweep, sweep_batch, publish_row, count_outcome, rolls_back, refused,
  publish_all, run_auto_publish,
}
use qnsc_kb_backend.AutoPublish.Rows.{IsSound, publish_row-IsSound}

module _ (company : String) (departments : List Department) where
  module _ (fold trim : String → String) (high_risk_departments : List String)
      (users : List User) where
    -- A report on the rows, in order, with totals that add up and outcomes that are sound.
    IsReport : List Row → Report → Type 0
    IsReport rows report =
        Each (IsSound company departments fold trim high_risk_departments users) report.outcomes
        × (map (λ entry. entry.0) report.outcomes ≡ rows)
        × (report.totals.approved + report.totals.left + report.totals.skips ≡ length rows)

    counted :
        (o : Outcome) (t : Totals) (n : ℕ)
        → t.approved + t.left + t.skips ≡ n
        → (count_outcome fold trim high_risk_departments users o t).approved
            + (count_outcome fold trim high_risk_departments users o t).left
            + (count_outcome fold trim high_risk_departments users o t).skips
          ≡ suc n
    unfolding count_outcome
    counted skipped t n h = omega (arith, h)
    counted left_for_review t n h = omega (arith, h)
    counted refused t n h = omega (arith, h)
    counted (stranded actor review p) t n h = omega (arith, h)
    counted (published back actor review p) t n h = omega (arith, h)

    -- Where a rollback expires rows, none is rolled back in the draft's turn.
    unfoldable pub Continues : Bool → Row → Type 0
    Continues expires row =
        (o : Outcome)
        → publish_row fold trim high_risk_departments users expires
            (publishers company departments []) row
          ≡ some o
        → (expires && rolls_back fold trim high_risk_departments users o) ≡ false

    publish_all-IsReport :
        (expires : Bool) (rows : List Row)
        → Each
            (λ row. in_sweep company (publishers company departments []) row.review.draft ≡ true)
            rows
        → Each (Continues expires) rows
        → (report : Report) × (publish_all fold trim high_risk_departments users expires
              (publishers company departments [])
              false
              rows
            ≡ some report)
          × IsReport rows report
    unfolding publish_all IsReport Continues
    publish_all-IsReport expires [] _ _ = (empty_report, refl, (tt, refl, refl))
    publish_all-IsReport expires (row ∷ rest) (s, ss) (c, cs) =
        let (o, e, sound) =
          publish_row-IsSound company departments fold trim high_risk_departments users expires row
            s in
        let goes_on = c o e in
        let (report, f, (each, same, total)) = publish_all-IsReport expires rest ss cs in
        (
          record {
            totals = count_outcome fold trim high_risk_departments users o report.totals;
            outcomes = (row, o) ∷ report.outcomes;
          },
          rw (publish_all, e, goes_on, f) refl,
          ((sound, each), ap (◌∷◌ row) same, counted o report.totals (length rest) total),
        )

    -- A row behind a refused one is not reached.
    publish_all-none :
        (before : List Row) (expired : Bool) (row next : Row) (rest : List Row)
        → publish_row fold trim high_risk_departments users true
            (publishers company departments [])
            row
          ≡ some refused
        → publish_all fold trim high_risk_departments users true
            (publishers company departments [])
            expired
            (before ++ row ∷ next ∷ rest)
          ≡ none
    unfolding publish_all rolls_back
    publish_all-none [] true row next rest h = refl
    publish_all-none (x ∷ before) true row next rest h = refl
    publish_all-none [] false row next rest h = rw (publish_all, h) refl
    publish_all-none (x ∷ before) false row next rest h =
        elim (Option-cases (
          publish_row fold trim high_risk_departments users true (publishers company departments [])
            x)) [
              | inl e ↦ rw (publish_all, e) refl
              | inr (o, e) ↦ rw (publish_all, e, publish_all-none before _ row next rest h) refl
            ]

    batch-in_sweep :
        (limit : ℕ) (rows : List Row)
        → Each
            (λ row. in_sweep company (publishers company departments []) row.review.draft ≡ true)
            (sweep_batch company (publishers company departments []) limit rows)
    unfolding sweep_batch
    batch-in_sweep limit rows =
        Memᴰ-Each _ _ (λ row m. (Memᴰ-filter _ rows (Memᴰ-take limit _ m)).1)

    -- Where rollbacks expire no rows, or the turn of no draft of the batch rolls back, neither by an
    -- exception of `approve_draft` nor by a failed follow-up of it, the sweep ends with a report on
    -- every draft of its batch, whose totals add up to the length of the batch; a draft that it skips is
    -- of high risk; and one that is published, reported as such or not, passed `approve_draft` in the
    -- name of the active user whom an opted-out department of the company names, was pending, not in
    -- preparation and not of high risk, and belongs to that department.
    pub run_auto_publish-IsSound :
        (expires : Bool) (limit : ℕ) (rows : List Row)
        → Each
            (Continues expires)
            (sweep_batch company (publishers company departments []) limit rows)
        → (report : Report) × (run_auto_publish fold trim high_risk_departments users expires
              company limit departments rows
            ≡ some report)
          × Each (IsSound company departments fold trim high_risk_departments users) report.outcomes
          × (map (λ entry. entry.0) report.outcomes
              ≡ sweep_batch company (publishers company departments []) limit rows)
          × (report.totals.approved + report.totals.left + report.totals.skips
              ≡ length (sweep_batch company (publishers company departments []) limit rows))
    unfolding run_auto_publish IsReport
    run_auto_publish-IsSound expires limit rows continues =
        let (report, e, (sound, same, total)) =
          publish_all-IsReport expires _ (batch-in_sweep limit rows) continues in
        (report, e, sound, same, total)

    -- Where a rollback expires rows, a draft that `approve_draft` refuses ends the sweep with an
    -- exception when another draft of the batch is behind it.
    pub refused_draft_ends_sweep :
        (limit : ℕ) (rows before : List Row) (row next : Row) (rest : List Row)
        → sweep_batch company (publishers company departments []) limit rows
          ≡ before ++ row ∷ next ∷ rest
        → publish_row fold trim high_risk_departments users true
            (publishers company departments [])
            row
          ≡ some refused
        → run_auto_publish fold trim high_risk_departments users true company limit departments rows
          ≡ none
    unfolding run_auto_publish
    refused_draft_ends_sweep limit rows before row next rest split h =
        ap
          (publish_all fold trim high_risk_departments users true
            (publishers company departments []) false)
          split
        ∙ publish_all-none before false row next rest h
