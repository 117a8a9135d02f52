-- ===== src/AutoPublish.antt =====
-- src/domain/department_auto_publish.py: the sweep that publishes the drafts of departments without a
-- review, through `approve_draft`. `fold` strips and lowers a text, `trim` strips it. `expires` says
-- whether a rollback expires the rows that were loaded before it, so that reading one raises, as
-- SQLAlchemy's asynchronous session does.
pub mod Publishers
pub mod Rows
pub mod Sweep
mod Examples
use qnsc_kb_backend.Prelude.{
  true, ℕ, ◌+◌, String, Bool, false, not, ◌&&◌, ◌||◌, Option, none, some, List, [], ◌∷◌, nat_beq,
  if◌then◌else◌, is_some, get_or, take, filter, ◌==◌, nat_eq, string_eq, option_eq, find, lookup,
  insert,
}
use qnsc_kb_backend.Accounts.{User}
use qnsc_kb_backend.ApprovalAgent
use qnsc_kb_backend.ApprovalAgent.{compute_draft_risk_tier, high_risk}
use qnsc_kb_backend.Governance.{Draft, Review, ok, err, pending, same_status, in_preparation, audit}
use qnsc_kb_backend.Governance.Selection.{Request, Found, Publication}
use qnsc_kb_backend.Governance.Publication.{approve_draft}

-- The columns of a department that the sweep reads.
pub record Department : Type 0 where
  pub name : String
  pub company_domain : String
  pub active : Bool
  pub review_required : Bool
  pub auto_publish_by : Option ℕ

-- How the steps of `approve_draft` after its commit end: whether the reload of the article, its event
-- or the gate before the metadata raises, and which of the steps that are tried fail.
pub record FollowUps : Type 0 where
  pub raises : Bool
  pub contradictions_fail : Bool
  pub metadata_fails : Bool
  pub entities_fail : Bool

-- A draft, what the queries of its approval find when its turn comes, and how its follow-ups end.
pub record Row : Type 0 where
  pub review : Review
  pub found : Found
  pub follow_ups : FollowUps

-- `returned` says whether a follow-up was rolled back.
pub data Aftermath : Type 0 where
  raised : Aftermath
  returned : Bool → Aftermath

-- A failed step is rolled back. Where that expires rows, the steps after it read the expired article
-- outside a `try` or in its handler, which raises; nothing is read after the last step.
unfoldable pub follow_up : Bool → FollowUps → Aftermath
follow_up expires f =
    let early = f.contradictions_fail || f.metadata_fails in
    if f.raises || (expires && early) then raised else returned (early || f.entities_fail)

pub data Outcome : Type 0 where
  skipped left_for_review refused : Outcome
  -- Published by `approve_draft`, which then raised: the summary counts it as left for review.
  stranded : User → Review → Publication → Outcome
  -- The flag says whether a follow-up was rolled back.
  published : Bool → User → Review → Publication → Outcome

pub record Totals : Type 0 where
  pub approved : ℕ
  pub left : ℕ
  pub skips : ℕ

-- `summary`, and what became of each draft
pub record Report : Type 0 where
  pub totals : Totals
  pub outcomes : List (Row × Outcome)

abbrev pub empty_report : Report
empty_report = record { totals = record { approved = 0; left = 0; skips = 0 }; outcomes = [] }

unfoldable pub opted_out : String → Department → Bool
opted_out company d =
    d.company_domain == company && d.active && not d.review_required && is_some d.auto_publish_by

unfoldable pub add_publisher : String → Department → List (String × ℕ) → List (String × ℕ)
add_publisher company d found = elim d.auto_publish_by [
  | none ↦ found
  | some id ↦ if opted_out company d then insert d.name id found else found
]

-- The dict of the departments' names and their `auto_publish_by`, after the items `found`
unfoldable pub publishers : String → List Department → List (String × ℕ) → List (String × ℕ)
publishers company [] found = found
publishers company (d ∷ rest) found = publishers company rest (add_publisher company d found)

unfoldable pub has_publisher : List (String × ℕ) → Option String → Bool
has_publisher known none = false
has_publisher known (some dept) = is_some (lookup dept known)

unfoldable pub in_sweep : String → List (String × ℕ) → Draft → Bool
in_sweep company known d =
    d.company_domain == company
    && same_status d.status pending
    && has_publisher known d.dept
    && not (in_preparation d)

-- The query over rows in the order of their creation
unfoldable pub sweep_batch : String → List (String × ℕ) → ℕ → List Row → List Row
sweep_batch company known limit rows =
    take limit (filter (λ row. in_sweep company known row.review.draft) rows)

-- The columns that `compute_draft_risk_tier` reads; it does not look at the others.
unfoldable pub risk_view : Draft → ApprovalAgent.Draft
risk_view d = record {
  id = d.id;
  company_domain = d.company_domain;
  dept = d.dept;
  sensitivity = d.content_metadata.sensitivity;
  similarity_scores = [];
  extension = none;
  connector_id = none;
  status = "pending";
  restructure_status = d.restructure_status;
}

abbrev pub note_only : Request
note_only = record {
  category = none;
  dept = none;
  sensitivity = none;
  visibility = none;
  update_article_id = none;
  treat_as_new = false;
  department_ids = none;
  explicit_user_ids = none;
  denied_user_ids = none;
}

module _ (fold trim : String → String) (high_risk_departments : List String)
    (users : List User) where
  unfoldable pub is_high_risk : Draft → Bool
  is_high_risk d = compute_draft_risk_tier fold high_risk_departments (risk_view d) == high_risk

  unfoldable pub after_approval : User → Review → Publication → Aftermath → Outcome
  after_approval actor review p raised = stranded actor review p
  after_approval actor review p (returned back) =
      published back actor (audit actor "department_auto_publish" review) p

  -- The call in the actor's name; a refusal leaves the draft as it is.
  unfoldable pub publish_as : Bool → User → Row → Outcome
  publish_as expires actor row =
      elim (approve_draft fold trim actor note_only row.found row.review) [
        | err _ ↦ refused
        | ok (review, p) ↦ after_approval actor review p (follow_up expires row.follow_ups)
      ]

  unfoldable pub publish_by : Bool → ℕ → Row → Outcome
  publish_by expires id row = elim (find (λ u. nat_beq u.id id) users) [
    | none ↦ left_for_review
    | some actor ↦ if actor.active then publish_as expires actor row else left_for_review
  ]

  -- One turn of the loop; `none` is the KeyError for a department that is not in the dict.
  unfoldable pub publish_row : Bool → List (String × ℕ) → Row → Option Outcome
  publish_row expires known row =
      if is_high_risk row.review.draft
      then some skipped
      else elim (lookup (get_or row.review.draft.dept "None") known) [
        | none ↦ none
        | some id ↦ some (publish_by expires id row)
      ]

  unfoldable pub count_outcome : Outcome → Totals → Totals
  count_outcome skipped t = record t { skips = t.skips + 1 }
  count_outcome left_for_review t = record t { left = t.left + 1 }
  count_outcome refused t = record t { left = t.left + 1 }
  count_outcome (stranded _ _ _) t = record t { left = t.left + 1 }
  count_outcome (published _ _ _ _) t = record t { approved = t.approved + 1 }

  -- An exception of `approve_draft` rolls back, and so does a follow-up that failed.
  unfoldable pub rolls_back : Outcome → Bool
  rolls_back refused = true
  rolls_back (stranded _ _ _) = true
  rolls_back (published back _ _ _) = back
  rolls_back _ = false

  -- The loop; `expired` says whether the rows that are left have expired. `none` is an exception.
  unfoldable pub publish_all : Bool → List (String × ℕ) → Bool → List Row → Option Report
  publish_all expires known expired [] = some empty_report
  publish_all expires known expired (row ∷ rest) =
      if expired then none else elim (publish_row expires known row) [
        | none ↦ none
        | some outcome ↦ elim (publish_all expires known (expires && rolls_back outcome) rest) [
          | none ↦ none
          | some report ↦ some (record {
            totals = count_outcome outcome report.totals;
            outcomes = (row, outcome) ∷ report.outcomes;
          })
        ]
      ]

  unfoldable pub run_auto_publish : Bool → String → ℕ → List Department → List Row → Option Report
  run_auto_publish expires company limit departments rows =
      let known = publishers company departments [] in
      publish_all expires known false (sweep_batch company known limit rows)
