-- ===== src/AutoPublish/Rows.antt =====
-- One draft of the sweep of src/domain/department_auto_publish.py.
use qnsc_kb_backend.Prelude.{
  ℕ, String, ◌≡◌, refl, sym, ap, ◌∙◌, inl, inr, Bool, true, false, not, Option, none, some, List,
  [], Memᴰ, nat_beq, nat_beq_iff, if◌then◌else◌, Bool-cases, Option-cases, &&-eq-true, get_or,
  nat_eq, string_eq, option_eq, find, find-Memᴰ, lookup,
}
use qnsc_kb_backend.Accounts.{User}
use qnsc_kb_backend.Governance.{Draft, Review, ok, in_preparation, audit}
use qnsc_kb_backend.Governance.Guards.{Result-cases}
use qnsc_kb_backend.Governance.Publication.{approve_draft}
use qnsc_kb_backend.Governance.Selection.{Publication}
use qnsc_kb_backend.AutoPublish.{
  Aftermath, raised, returned, follow_up, after_approval, stranded, Department, Row, Outcome,
  skipped, left_for_review, published, opted_out, publishers, has_publisher, in_sweep, note_only,
  is_high_risk, publish_as, publish_by, publish_row, refused,
}
use qnsc_kb_backend.AutoPublish.Publishers.{IsPublisher, lookup-IsPublisher}

module _ (company : String) (departments : List Department) where
  module _ (fold trim : String → String) (high_risk_departments : List String)
      (users : List User) where
    -- `approve_draft` accepted the draft in the name of the active user whom an opted-out department of
    -- the company names, and the draft belonged to that department, was pending, not in preparation
    -- and not of high risk.
    unfoldable pub IsApproved : Row → User → Review → Publication → Type 0
    IsApproved row actor after p =
        (d : Department) × Memᴰ d departments
        × (opted_out company d ≡ true)
        × (row.review.draft.dept ≡ some d.name)
        × (d.auto_publish_by ≡ some actor.id)
        × Memᴰ actor users
        × (actor.active ≡ true)
        × (in_sweep company (publishers company departments []) row.review.draft ≡ true)
        × (is_high_risk fold trim high_risk_departments users row.review.draft ≡ false)
        × (approve_draft fold trim actor note_only row.found row.review ≡ ok (after, p))

    -- A skipped draft is of high risk, and a published one was approved.
    unfoldable pub IsSound : Row × Outcome → Type 0
    IsSound (row, skipped) =
        is_high_risk fold trim high_risk_departments users row.review.draft ≡ true
    IsSound (row, left_for_review) = Unit
    IsSound (row, refused) = Unit
    IsSound (row, stranded actor review p) = IsApproved row actor review p
    IsSound (row, published back actor review p) =
        (after : Review) × IsApproved row actor after p
        × (review ≡ audit actor "department_auto_publish" after)

    after_approval-IsSound :
        (row : Row) (actor : User) (after : Review) (p : Publication) (a : Aftermath)
        → IsApproved row actor after p
        → IsSound (row, after_approval fold trim high_risk_departments users actor after p a)
    unfolding after_approval IsSound
    after_approval-IsSound row actor after p raised h = h
    after_approval-IsSound row actor after p (returned back) h = (after, h, refl)

    module _ (expires : Bool) (dept : String) (id : ℕ) (row : Row)
        (q : row.review.draft.dept ≡ some dept)
        (l : lookup dept (publishers company departments []) ≡ some id)
        (s : in_sweep company (publishers company departments []) row.review.draft ≡ true)
        (r : is_high_risk fold trim high_risk_departments users row.review.draft ≡ false) where
      publish_as-IsSound :
          (actor : User)
          → Memᴰ actor users
          → actor.id ≡ id
          → actor.active ≡ true
          → IsSound (row, publish_as fold trim high_risk_departments users expires actor row)
      unfolding publish_as IsSound IsApproved IsPublisher
      publish_as-IsSound actor m i a =
          elim (Result-cases (approve_draft fold trim actor note_only row.found row.review)) [
            | inr (x, f) ↦ rw (publish_as, f) tt
            | inl ((after, p), f) ↦
                let (d, n, o, named, by) = lookup-IsPublisher company departments dept id l in
                rw (publish_as, f)
                  (after_approval-IsSound row actor after p (follow_up expires row.follow_ups)
                    (d, n, o, q ∙ ap some (sym named), by ∙ ap some (sym i), m, a, s, r, f))
          ]

      active-IsSound :
          (actor : User) (active : Bool)
          → Memᴰ actor users
          → actor.id ≡ id
          → actor.active ≡ active
          → IsSound (
            row,
            if active
                then publish_as fold trim high_risk_departments users expires actor row
                else left_for_review,
          )
      unfolding IsSound
      active-IsSound actor true m i a = publish_as-IsSound actor m i a
      active-IsSound actor false m i a = tt

      publish_by-IsSound :
          IsSound (row, publish_by fold trim high_risk_departments users expires id row)
      unfolding publish_by IsSound
      publish_by-IsSound = elim (Option-cases (find (λ u. nat_beq u.id id) users)) [
        | inl e ↦ rw (publish_by, e) tt
        | inr (actor, e) ↦
            let (m, i) = find-Memᴰ _ users actor e in
            rw (publish_by, e)
              (active-IsSound actor actor.active m ((nat_beq_iff actor.id id).0 i) refl)
      ]

    dept_known :
        (dept : Option String)
        → has_publisher (publishers company departments []) dept ≡ true
        → (name : String) × (id : ℕ) × (dept ≡ some name)
          × (lookup name (publishers company departments []) ≡ some id)
    unfolding has_publisher
    dept_known none h = absurd (cc h)
    dept_known (some name) h =
        elim (Option-cases (lookup name (publishers company departments []))) [
          | inl e ↦ let n : false ≡ true = rw e at h in absurd (cc n)
          | inr (id, e) ↦ (name, id, refl, e)
        ]

    in_sweep-has_publisher :
        (d : Draft)
        → in_sweep company (publishers company departments []) d ≡ true
        → has_publisher (publishers company departments []) d.dept ≡ true
    unfolding in_sweep
    in_sweep-has_publisher d h =
        (&&-eq-true _ (has_publisher (publishers company departments []) d.dept)
          (&&-eq-true _ (not (in_preparation d)) h).0).1

    pub publish_row-IsSound :
        (expires : Bool) (row : Row)
        → in_sweep company (publishers company departments []) row.review.draft ≡ true
        → (o : Outcome) × (publish_row fold trim high_risk_departments users expires
              (publishers company departments [])
              row
            ≡ some o)
          × IsSound (row, o)
    unfolding publish_row IsSound
    publish_row-IsSound expires row s =
        elim (Bool-cases (is_high_risk fold trim high_risk_departments users row.review.draft)) [
          | inl r ↦ (skipped, rw (publish_row, r) refl, r)
          | inr r ↦
              let (name, id, q, l) =
                dept_known row.review.draft.dept (in_sweep-has_publisher row.review.draft s) in
              let found =
                ap (λ dept. lookup (get_or dept "None") (publishers company departments [])) q
                ∙ l in
              (_, rw (publish_row, r, found) refl, publish_by-IsSound expires name id row q l s r)
        ]
