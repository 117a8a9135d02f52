-- ===== src/Governance/Workflow.antt =====
-- The life of a draft: the operations of src/domain/governance.py in any order, over a table of users
-- that stays as it is.
pub mod Invariant
pub mod Children
use qnsc_kb_backend.Prelude.{
  ℕ, String, ◌≡◌, ◌⊎◌, Bool, true, Option, none, some, List, [], ◌∷◌, Memᴰ,
}
use qnsc_kb_backend.Accounts.{User, Department}
use qnsc_kb_backend.Governance.{creation, authored, approved, ok, Draft, Review}
use qnsc_kb_backend.Governance.Guards.{IsPath}
use qnsc_kb_backend.Governance.Decisions.{
  ApproverRule, submit_draft, assign_approver, reject_draft, may_be_assigned,
}
use qnsc_kb_backend.Governance.Selection.{Request, Found, Publication}
use qnsc_kb_backend.Governance.Publication.{approve_draft}
use qnsc_kb_backend.Governance.Candidates.{DraftCandidate}
use qnsc_kb_backend.Governance.Commit.{Committed, commit_candidates}
use qnsc_kb_backend.Governance.Reading.{
  Decision, RestructureResult, restructure_draft, decide_restructure,
}

pub data Step (users : List User) : Review → Review → Type 0 where
  submit :
      (rules : List ApproverRule) (user : User) {r r' : Review}
      → submit_draft users rules user r ≡ ok r'
      → Step users r r'
  assign :
      (rules : List ApproverRule) (user : User) (use_rule : Bool) (approver_id : Option ℕ)
      {r r' : Review}
      → assign_approver users rules user use_rule approver_id r ≡ ok r'
      → Step users r r'
  restructure :
      (result : RestructureResult) (user : User) {r r' : Review}
      → restructure_draft result user r ≡ ok r'
      → Step users r r'
  decide :
      (fallback : String → String) (decision : Decision) (user : User) {r r' : Review}
      → decide_restructure fallback decision user r ≡ ok r'
      → Step users r r'
  approve :
      (fold trim : String → String) (user : User) (request : Request) (found : Found)
      (p : Publication) {r r' : Review}
      → Memᴰ user users
      → approve_draft fold trim user request found r ≡ ok (r', p)
      → Step users r r'
  commit :
      (text : List ℕ → String) (departments : List Department) (rules : List ApproverRule)
      (user : User) (new_id : ℕ) (rows : List DraftCandidate) (c : Committed) {r : Review}
      → commit_candidates text departments users rules user new_id r rows ≡ ok c
      → Step users r c.parent
  reject : (user : User) {r r' : Review} → reject_draft user r ≡ ok r' → Step users r r'

-- A draft as it is created with the status of an authored one, and what the operations make of it.
pub data Reach (users : List User) : Review → Type 0 where
  start :
      {r : Review} (actor : Option ℕ)
      → r.draft.status ≡ authored
      → r.draft.assigned_approver_id ≡ none
      → r.transitions ≡ creation actor ∷ []
      → Reach users r
  next : {r r' : Review} → Reach users r → Step users r r' → Reach users r'

-- Somebody of the table with this id may decide on the draft.
abbrev pub IsUnbiased : List User → Option ℕ → Draft → Type 0
IsUnbiased users id draft =
    (a : User) × Memᴰ a users × (may_be_assigned a draft ≡ true) × (id ≡ some a.id)

pub record IsSound (users : List User) (r : Review) : Type 0 where
  pub path : IsPath r.transitions r.draft.status
  pub assigned :
      (r.draft.assigned_approver_id ≡ none) ⊎ IsUnbiased users r.draft.assigned_approver_id r.draft
  pub reviewed : r.draft.status ≡ approved → IsUnbiased users r.draft.reviewed_by r.draft
