-- ===== src/Governance/Workflow/Invariant.antt =====
-- What every draft that the workflow reaches satisfies: src/domain/governance.py.
use qnsc_kb_backend.Prelude.{
  ℕ, String, ◌≡◌, refl, sym, ap, ◌∙◌, ◌≢◌, ◌⊎◌, inl, inr, Bool, true, Option, none, some, List,
  Memᴰ, arith, ||-eq-true, nat_eq, string_eq, option_eq, option_beq_iff,
}
use qnsc_kb_backend.Accounts.{User, Department}
use qnsc_kb_backend.Governance.{
  Status, authored, pending, approved, rejected, ok, Draft, Review, allowed, can_approve_draft,
}
use qnsc_kb_backend.Governance.Guards.{moved_to, IsPath}
use qnsc_kb_backend.Governance.Decisions.{
  ApproverRule, submit_draft, assign_approver, reject_draft, may_be_assigned,
}
use qnsc_kb_backend.Governance.Decisions.Effects.{
  IsAssigned, submit_draft_ok, assign_approver_ok, reject_draft_ok,
}
use qnsc_kb_backend.Governance.Selection.{Request, Found, Publication}
use qnsc_kb_backend.Governance.Publication.{approve_draft}
use qnsc_kb_backend.Governance.Publication.Effects.{approve_draft_ok}
use qnsc_kb_backend.Governance.Candidates.{DraftCandidate}
use qnsc_kb_backend.Governance.Commit.{Committed, commit_candidates}
use qnsc_kb_backend.Governance.Commit.Outcome.{commit_candidates-IsMoved}
use qnsc_kb_backend.Governance.Reading.Effects.{
  KeepsWorkflow, restructure_draft_ok, decide_restructure_ok,
}
use qnsc_kb_backend.Governance.Workflow.{
  Step, submit, assign, restructure, decide, approve, commit, reject, Reach, start, next,
  IsUnbiased, IsSound,
}

moved-IsPath :
    (actor : ℕ) (to_status : Status) (r r' : Review)
    → Memᴰ to_status (allowed r.draft.status)
    → IsPath r.transitions r.draft.status
    → r'.draft.status ≡ to_status
    → r'.transitions ≡ (moved_to actor to_status r).transitions
    → IsPath r'.transitions r'.draft.status
moved-IsPath actor to_status r r' m p s t = rw (t, s) (refl, (m, p))

kept-IsUnbiased :
    (users : List User) (id : Option ℕ) (d d' : Draft)
    → d'.created_by ≡ d.created_by
    → IsUnbiased users id d
    → IsUnbiased users id d'
unfolding may_be_assigned
kept-IsUnbiased users id d d' c (a, m, e, q) = (a, m, rw (c) e, q)

-- The approver after an assignment.
assigned_after :
    (users : List User) (d d' : Draft)
    → d'.created_by ≡ d.created_by
    → IsAssigned users d d'.assigned_approver_id
    → (d.assigned_approver_id ≡ none) ⊎ IsUnbiased users d.assigned_approver_id d
    → (d'.assigned_approver_id ≡ none) ⊎ IsUnbiased users d'.assigned_approver_id d'
assigned_after users d d' c (inr (a, m, e, q)) k =
    inr (kept-IsUnbiased users d'.assigned_approver_id d d' c (a, m, e, q))
assigned_after users d d' c (inl e) (inl n) = inl (e ∙ n)
assigned_after users d d' c (inl e) (inr k) =
    inr (kept-IsUnbiased users d'.assigned_approver_id d d' c (rw (e) k))

-- An operation that leaves the draft unapproved.
unapproved-IsSound :
    (users : List User) (r r' : Review)
    → r'.draft.status ≢ approved
    → r'.draft.created_by ≡ r.draft.created_by
    → IsAssigned users r.draft r'.draft.assigned_approver_id
    → IsPath r'.transitions r'.draft.status
    → IsSound users r
    → IsSound users r'
unapproved-IsSound users r r' n c k p s = record {
  path = p;
  assigned = assigned_after users r.draft r'.draft c k s.assigned;
  reviewed = λ e. absurd (n e);
}

submit-IsSound :
    (users : List User) (rules : List ApproverRule) (user : User) (r r' : Review)
    → submit_draft users rules user r ≡ ok r'
    → IsSound users r
    → IsSound users r'
unfolding may_be_assigned
submit-IsSound users rules user r r' h s =
    let (a, (e, c, t, k)) = submit_draft_ok users rules user r r' h in
    unapproved-IsSound users r r' (λ q. cc) c k
      (moved-IsPath user.id pending r r' (rw (a) (Memᴰ.head refl)) s.path e t) s

assign-IsSound :
    (users : List User) (rules : List ApproverRule) (user : User) (use_rule : Bool)
    (approver_id : Option ℕ) (r r' : Review)
    → assign_approver users rules user use_rule approver_id r ≡ ok r'
    → IsSound users r
    → IsSound users r'
assign-IsSound users rules user use_rule approver_id r r' h s =
    let (a, (e, c, t, k)) = assign_approver_ok users rules user use_rule approver_id r r' h in
    unapproved-IsSound users r r' (λ q. cc) c k (rw (t, e) s.path) s

reject-IsSound :
    (users : List User) (user : User) (r r' : Review)
    → reject_draft user r ≡ ok r'
    → IsSound users r
    → IsSound users r'
unfolding may_be_assigned
reject-IsSound users user r r' h s =
    let (a, (e, c, t, k)) = reject_draft_ok users user r r' h in
    unapproved-IsSound users r r' (λ q. cc) c k
      (moved-IsPath user.id rejected r r' (rw (a) (Memᴰ.tail (Memᴰ.head refl))) s.path e t) s

commit-IsSound :
    (users : List User) (text : List ℕ → String) (departments : List Department)
    (rules : List ApproverRule) (user : User) (new_id : ℕ) (r : Review) (rows : List DraftCandidate)
    (c : Committed)
    → commit_candidates text departments users rules user new_id r rows ≡ ok c
    → IsSound users r
    → IsSound users c.parent
commit-IsSound users text departments rules user new_id r rows c h s =
    let (a, (d, t)) =
      commit_candidates-IsMoved text departments users rules user new_id r rows c h in
    let status : c.parent.draft.status ≡ rejected = ap Draft.status d in
    unapproved-IsSound users r c.parent (λ q. cc) (ap Draft.created_by d)
      (inl (ap Draft.assigned_approver_id d))
      (moved-IsPath user.id rejected r c.parent (rw (a) (Memᴰ.tail (Memᴰ.head refl))) s.path status
        t)
      s

reading-IsSound :
    (users : List User) (r r' : Review) → KeepsWorkflow r r' → IsSound users r → IsSound users r'
reading-IsSound users r r' (a, (e, c, k, _), t) s =
    unapproved-IsSound users r r' (λ q. cc) c (inl k) (rw (t, e) s.path) s

-- Whoever may approve a draft may be assigned to it, or its approver may.
approver-IsUnbiased :
    (users : List User) (user : User) (d : Draft)
    → Memᴰ user users
    → can_approve_draft user d ≡ true
    → (d.assigned_approver_id ≡ none) ⊎ IsUnbiased users d.assigned_approver_id d
    → IsUnbiased users (some user.id) d
unfolding can_approve_draft may_be_assigned
approver-IsUnbiased users user d m e k = elim (||-eq-true _ _ e) [
  | inr q ↦ (user, m, ground arith, refl)
  | inl q ↦
      let same : d.assigned_approver_id ≡ some user.id =
        (option_beq_iff d.assigned_approver_id (some user.id)).0 q in
      elim k [ inl n ↦ cc | inr u ↦ rw (← same) u ]
]

approve-IsSound :
    (users : List User) (fold trim : String → String) (user : User) (request : Request)
    (found : Found) (r r' : Review) (p : Publication)
    → Memᴰ user users
    → approve_draft fold trim user request found r ≡ ok (r', p)
    → IsSound users r
    → IsSound users r'
approve-IsSound users fold trim user request found r r' p m h s =
    let (a, _, e, _, _, (b, c, k, v, t)) =
      approve_draft_ok fold trim user request found r (r', p) h in
    record {
      path = moved-IsPath user.id approved r r' (rw (a) (Memᴰ.head refl)) s.path b t;
      assigned = assigned_after users r.draft r'.draft c (inl k) s.assigned;
      reviewed = λ q.
          kept-IsUnbiased users r'.draft.reviewed_by r.draft r'.draft c
            (rw (v) (approver-IsUnbiased users user r.draft m e s.assigned));
    }

Step-IsSound :
    (users : List User) {r r' : Review} → Step users r r' → IsSound users r → IsSound users r'
Step-IsSound users (submit rules user h) s = submit-IsSound users rules user _ _ h s
Step-IsSound users (assign rules user use_rule id h) s =
    assign-IsSound users rules user use_rule id _ _ h s
Step-IsSound users (restructure result user h) s =
    reading-IsSound users _ _ (restructure_draft_ok result user _ _ h) s
Step-IsSound users (decide fallback decision user h) s =
    reading-IsSound users _ _ (decide_restructure_ok fallback decision user _ _ h) s
Step-IsSound users (approve fold trim user request found p m h) s =
    approve-IsSound users fold trim user request found _ _ p m h s
Step-IsSound users (commit text departments rules user new_id rows c h) s =
    commit-IsSound users text departments rules user new_id _ rows c h s
Step-IsSound users (reject user h) s = reject-IsSound users user _ _ h s

Reach-IsSound : (users : List User) {r : Review} → Reach users r → IsSound users r
Reach-IsSound users (start actor a k t) = record {
  path = rw (t) (sym a, (a, refl));
  assigned = inl k;
  reviewed = λ e. cc;
}
Reach-IsSound users (next h st) = Step-IsSound users st (Reach-IsSound users h)

-- Along the operations, where users of the table approve, a draft that is approved was reviewed under
-- the id of a user of the table who did not create it or who may approve their own work.
pub approved-IsUnbiased :
    (users : List User) {r : Review}
    → Reach users r
    → r.draft.status ≡ approved
    → IsUnbiased users r.draft.reviewed_by r.draft
approved-IsUnbiased users h e = (Reach-IsSound users h).reviewed e

-- The recorded transitions of a draft that was created as an authored one start with its creation and
-- lead to its status, each from where the one before it ended to a status that is allowed there,
-- along any operations. Drafts that are created as pending ones are not among them.
pub transitions-IsPath :
    (users : List User) {r : Review} → Reach users r → IsPath r.transitions r.draft.status
transitions-IsPath users h = (Reach-IsSound users h).path

-- Every operation needs an authored or a pending draft.
Step-open :
    (users : List User) {r r' : Review}
    → Step users r r'
    → (r.draft.status ≡ authored) ⊎ (r.draft.status ≡ pending)
Step-open users (submit rules user h) = inl (submit_draft_ok users rules user _ _ h).0
Step-open users (assign rules user use_rule id h) =
    inr (assign_approver_ok users rules user use_rule id _ _ h).0
Step-open users (restructure result user h) = inr (restructure_draft_ok result user _ _ h).0
Step-open users (decide fallback decision user h) =
    inr (decide_restructure_ok fallback decision user _ _ h).0
Step-open users (approve fold trim user request found p m h) =
    inr (approve_draft_ok fold trim user request found _ _ h).0
Step-open users (commit text departments rules user new_id rows c h) =
    inr (commit_candidates-IsMoved text departments users rules user new_id _ rows c h).0
Step-open users (reject user h) = inr (reject_draft_ok users user _ _ h).0

-- No operation leads on from an approved or from a rejected draft.
pub decided-final :
    (users : List User) {r r' : Review}
    → (r.draft.status ≡ approved) ⊎ (r.draft.status ≡ rejected)
    → ¬ Step users r r'
decided-final users d st = elim d [
  | inl e ↦ elim (Step-open users st) [ inl q ↦ cc | inr q ↦ cc ]
  | inr e ↦ elim (Step-open users st) [ inl q ↦ cc | inr q ↦ cc ]
]
