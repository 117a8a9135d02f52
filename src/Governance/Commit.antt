-- ===== src/Governance/Commit.antt =====
-- The commit of a document's candidates as drafts of their own: `commit_candidates` of
-- src/domain/governance.py. `text` stands for the text of a list of code points; the new drafts get the
-- keys from `new_id` on. What only describes a draft, its title, source and hash, is left out.
pub mod Outcome
use qnsc_kb_backend.Prelude.{
  ℕ, ◌+◌, String, Bool, false, not, ◌&&◌, Option, none, some, List, [], ◌∷◌, map, ltb, leb, nat_beq,
  if◌then◌else◌, length, filter, ◌==◌, nat_eq, string_eq, option_eq,
}
use qnsc_kb_backend.Accounts.{User, Department}
use qnsc_kb_backend.Governance.{
  creation, authored, pending, rejected, forbidden, conflict, unprocessable, Result, ok, err,
  raise_if, Draft, Review, same_status, transition_draft, in_preparation, can_review_draft, load,
  audit, ◌>>=◌, ◌>>◌,
}
use qnsc_kb_backend.Governance.Decisions.{ApproverRule, submit_draft}
use qnsc_kb_backend.Governance.Selection.{departments_by_id}
use qnsc_kb_backend.Governance.Candidates.{DraftCandidate, committed, is_active}

-- sorted(candidates, key=lambda value: value.position)
pub insert_sorted : DraftCandidate → List DraftCandidate → List DraftCandidate
insert_sorted c [] = c ∷ []
insert_sorted c (d ∷ rows) =
    let rest = insert_sorted c rows in
    if leb c.position d.position then c ∷ (d ∷ rows) else d ∷ rest

pub sorted : List DraftCandidate → List DraftCandidate
unfolding insert_sorted
sorted [] = []
sorted (c ∷ rows) = insert_sorted c (sorted rows)

pub selected_departments : List Department → Draft → DraftCandidate → List Department
selected_departments departments parent item =
    departments_by_id
      (filter (λ d. d.company_domain == parent.company_domain && d.active) departments)
      item.department_ids

abbrev pub first_name : List Department → Option String → Option String
first_name [] dept = dept
first_name (d ∷ ds) dept = some d.name

abbrev pub ids_or : List Department → List ℕ → List ℕ
ids_or [] ids = ids
ids_or (d ∷ ds) ids = map Department.id (d ∷ ds)

unfoldable pub child_of :
    (List ℕ → String) → List Department → ℕ → Draft → ℕ → DraftCandidate → Review
unfolding selected_departments
child_of text departments actor parent new_id item =
    let selected = selected_departments departments parent item in
    record {
      draft = record {
        id = new_id;
        company_domain = parent.company_domain;
        dept = first_name selected parent.dept;
        status = authored;
        summary = some (text item.body_md);
        restructured_body_md = some (text item.body_md);
        restructure_candidate_md = none;
        restructure_decision = "not_reviewed";
        restructure_status = "lossless_ready";
        content_metadata = record parent.content_metadata {
          submission_kind = some "split_candidate";
          department_ids = ids_or selected parent.content_metadata.department_ids;
        };
        requires_update_confirmation = false;
        external_document_id = none;
        created_by = parent.created_by;
        assigned_approver_id = none;
        assigned_by = none;
        reviewed_by = none;
      };
      transitions = creation (some actor) ∷ [];
      notified = [];
      audit_log = [];
    }

-- A candidate fails whose departments are all gone.
pub fails : List Department → Draft → DraftCandidate → Bool
unfolding selected_departments
fails departments parent item =
    nat_beq (length (selected_departments departments parent item)) 0
    && ltb 0 (length item.department_ids)

unfoldable pub children_of :
    (List ℕ → String) → List Department → ℕ → Draft → ℕ → List DraftCandidate → List Review
unfolding fails child_of
children_of text departments actor parent new_id [] = []
children_of text departments actor parent new_id (item ∷ items) =
    let skipped = children_of text departments actor parent new_id items in
    let rest = children_of text departments actor parent (new_id + 1) items in
    if fails departments parent item
    then skipped
    else child_of text departments actor parent new_id item ∷ rest

-- The candidates that became drafts are committed.
pub commit_rows : List Department → Draft → List DraftCandidate → List DraftCandidate
unfolding fails
commit_rows departments parent rows =
    map
      (λ c.
        if is_active c.status && not (fails departments parent c)
        then record c { status = committed }
        else c)
      rows

-- Submits the children in turn, until one submission raises.
unfoldable pub submit_all :
    List User → List ApproverRule → User → List Review → List Review × Result (Unit {0})
submit_all users rules user [] = ([], ok tt)
submit_all users rules user (child ∷ children) =
    let (rest, answer) = submit_all users rules user children in
    elim (submit_draft users rules user child) [
      | ok submitted ↦ (submitted ∷ rest, answer)
      | err e ↦ (child ∷ children, err e)
    ]

-- What is stored after the commit, and what the call answers.
pub record Committed : Type 0 where
  pub parent : Review
  pub rows : List DraftCandidate
  pub children : List Review
  pub answer : Result (Unit {0})

unfoldable pub stored :
    User → List DraftCandidate → Review → List Review × Result (Unit {0}) → Committed
stored user rows moved (children, answer) = record {
  parent = elim answer [ ok _ ↦ audit user "batch_commit" moved | err _ ↦ moved ];
  rows = rows;
  children = children;
  answer = answer;
}

unfoldable pub commit_candidates :
    (List ℕ → String)
    → List Department
    → List User
    → List ApproverRule
    → User
    → ℕ
    → Review
    → List DraftCandidate
    → Result Committed
unfolding load transition_draft sorted children_of commit_rows submit_all stored
commit_candidates text departments users rules user new_id r rows = do
  load user r
  raise_if (not (same_status r.draft.status pending)) conflict
  raise_if (in_preparation r.draft) conflict
  raise_if (not (can_review_draft user r.draft)) forbidden
  let items = sorted (filter (λ c. is_active c.status) rows)
  raise_if (nat_beq (length items) 0) unprocessable
  let children = children_of text departments user.id r.draft new_id items
  raise_if (nat_beq (length children) 0) unprocessable
  moved ← transition_draft user.id rejected r
  ok (
      stored user (commit_rows departments r.draft rows) moved
        (submit_all users rules user children))
