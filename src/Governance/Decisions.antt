-- ===== src/Governance/Decisions.antt =====
-- Submission, assignment and rejection of a draft: src/domain/governance.py. The users are the rows of
-- their table.
pub mod Effects
pub mod Identity
pub mod Approvers
use qnsc_kb_backend.Prelude.{
  ℕ, String, Bool, true, false, not, ◌&&◌, ◌||◌, Option, none, some, List, nat_beq, if◌then◌else◌,
  is_some, ◌==◌, nat_eq, string_eq, option_eq, find,
}
use qnsc_kb_backend.Accounts.{User, global, company}
use qnsc_kb_backend.Rbac.{has_permission}
use qnsc_kb_backend.Governance.{
  authored, pending, rejected, forbidden, not_found, conflict, unprocessable, Result, ok, err,
  raise_if, Draft, Review, same_status, transition_draft, in_preparation, may_self_approve,
  can_approve_draft, can_review_draft, is_global_publisher, is_outside, load, audit, notify, ◌>>=◌,
  ◌>>◌,
}

pub record ApproverRule : Type 0 where
  pub company_domain : String
  pub dept : String
  pub approver_id : ℕ
  pub active : Bool

-- `get_approver_rule`
pub get_approver_rule : List ApproverRule → String → Option String → Option ApproverRule
get_approver_rule rules company_domain none = none
get_approver_rule rules company_domain (some dept) =
    find (λ r. r.company_domain == company_domain && r.dept == dept && r.active) rules

-- `_identity_scope` of `UserRepository`: whom a viewer may find.
unfoldable pub may_see_identity : User → User → Bool
may_see_identity viewer user =
    has_permission viewer "user.read" none global
    || has_permission viewer "user.manage" none global
    || ((has_permission viewer "user.read" none company
          || has_permission viewer "user.manage" none company)
        && user.company_domain == viewer.company_domain)

-- `UserRepository.get_by_id` with a viewer
unfoldable pub get_by_id : List User → User → ℕ → Option User
unfolding may_see_identity
get_by_id users viewer id = find (λ u. nat_beq u.id id && may_see_identity viewer u) users

unfoldable pub may_be_assigned : User → Draft → Bool
may_be_assigned approver draft =
    not (draft.created_by == some approver.id) || may_self_approve approver

pub assign : ℕ → ℕ → Review → Review
unfolding notify
assign approver by r = notify approver (record r {
  draft = record r.draft { assigned_approver_id = some approver; assigned_by = some by };
})

-- An active rule's approver, where the submitter finds them and they may decide.
pub rule_approver : List User → List ApproverRule → User → Draft → Option User
unfolding get_approver_rule get_by_id may_be_assigned
rule_approver users rules user draft =
    elim (get_approver_rule rules draft.company_domain draft.dept) [
      | none ↦ none
      | some rule ↦ elim (get_by_id users user rule.approver_id) [
        | none ↦ none
        | some approver ↦
            if approver.active
              && approver.company_domain == draft.company_domain
              && can_review_draft approver draft
              && may_be_assigned approver draft
            then some approver
            else none
      ]
    ]

pub apply_rule : List User → List ApproverRule → User → Review → Review
unfolding rule_approver assign audit
apply_rule users rules user r = elim (rule_approver users rules user r.draft) [
  | none ↦ r
  | some approver ↦ audit user "assign_approver_rule" (assign approver.id user.id r)
]

pub may_submit : User → Draft → Bool
may_submit user draft =
    draft.created_by == some user.id
    || is_global_publisher user
    || (draft.content_metadata.submission_kind == some "split_candidate"
        && can_review_draft user draft)

unfoldable pub submit_draft : List User → List ApproverRule → User → Review → Result Review
unfolding load may_submit transition_draft apply_rule audit
submit_draft users rules user r = do
  load user r
  raise_if (not (may_submit user r.draft)) forbidden
  raise_if (not (same_status r.draft.status authored)) conflict
  moved ← transition_draft user.id pending r
  ok (audit user "submit" (apply_rule users rules user moved))

-- The id that is asked for, or the rule's.
pub requested_approver : List ApproverRule → Bool → Option ℕ → Draft → Result ℕ
unfolding get_approver_rule
requested_approver rules true approver_id draft =
    elim (get_approver_rule rules draft.company_domain draft.dept) [
      | none ↦ err not_found
      | some rule ↦ ok rule.approver_id
    ]
requested_approver rules false none draft = err unprocessable
requested_approver rules false (some id) draft = ok id

pub eligible : List User → User → ℕ → Draft → Result User
unfolding get_by_id may_be_assigned
eligible users user id draft = elim (get_by_id users user id) [
  | none ↦ err unprocessable
  | some approver ↦ do
    raise_if (not approver.active || not (approver.company_domain == draft.company_domain))
        unprocessable
    raise_if (not (may_be_assigned approver draft)) unprocessable
    raise_if (not (can_review_draft approver draft)) unprocessable
    ok approver
]

pub notify_previous : Option ℕ → Review → Review
notify_previous none r = r
notify_previous (some previous) r = notify previous r

pub assign_approver :
    List User → List ApproverRule → User → Bool → Option ℕ → Review → Result Review
unfolding load requested_approver eligible assign notify_previous audit
assign_approver users rules user use_rule approver_id r = do
  load user r
  raise_if (not (same_status r.draft.status pending)) conflict
  raise_if (is_outside user r.draft) forbidden
  raise_if (not (can_review_draft user r.draft)) forbidden
  id ← requested_approver rules use_rule approver_id r.draft
  approver ← eligible users user id r.draft
  raise_if (r.draft.assigned_approver_id == some approver.id) conflict
  ok (
      audit user
        (if is_some r.draft.assigned_approver_id
          then "reassign_approver"
          else if use_rule
          then "assign_approver_rule"
          else "assign_approver")
        (notify_previous r.draft.assigned_approver_id (assign approver.id user.id r)))

-- The tests that approval and rejection share.
unfoldable pub may_decide : User → Draft → Result (Unit {0})
may_decide user draft = do
  raise_if (not (same_status draft.status pending)) conflict
  raise_if (in_preparation draft) conflict
  raise_if (is_outside user draft) forbidden
  raise_if (not (can_approve_draft user draft)) forbidden

unfoldable pub notify_author : Option ℕ → Review → Review
notify_author none r = r
notify_author (some author) r = notify author r

pub reject_draft : User → Review → Result Review
unfolding load may_decide transition_draft notify_author audit
reject_draft user r = do
  load user r
  may_decide user r.draft
  moved ← transition_draft user.id rejected r
  ok (
      audit user "reject" (
        notify_author r.draft.created_by
          (record moved { draft = record moved.draft { reviewed_by = some user.id } })))
