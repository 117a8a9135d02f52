-- ===== src/Governance/Examples.antt =====
-- The theorems on src/domain/governance.py at the drafts of a company.
use qnsc_kb_backend.Prelude.{
  ◌≤◌, ◌≡◌, refl, sym, ◌∙◌, inr, true, none, some, List, [], ◌∷◌, Memᴰ, ◌⊎◌, arith, nat_beq, length,
  filter, nat_eq, string_eq, option_eq,
}
use qnsc_kb_backend.Accounts.{User}
use qnsc_kb_backend.Rbac.{
  has_permission, compatibility_scope, default_scope, scope_allows, member_department_names,
}
use qnsc_kb_backend.Governance.{
  authored, pending, same_status, approved, rejected, not_found, ok, err, ◌>>=◌, raise_if, Review,
  is_global_publisher, may_self_approve, may_load, review_departments, in_preparation, is_outside,
  can_approve_draft, can_review_draft, has_draft_permission,
}
use qnsc_kb_backend.Governance.Guards.{IsPath}
use qnsc_kb_backend.Governance.Decisions.{submit_draft, may_decide, notify_author}
use qnsc_kb_backend.Governance.Decisions.Identity.{submit_draft-ignores_rules}
use qnsc_kb_backend.Governance.Selection.{Publication, departments_by_id}
use qnsc_kb_backend.Governance.Publication.{approve_draft}
use qnsc_kb_backend.Governance.Publication.Readers.{IsRestricted, approved_source-IsRestricted}
use qnsc_kb_backend.Governance.Queue.{list_drafts}
use qnsc_kb_backend.Governance.Queue.Visible.{list_drafts-may_load}
use qnsc_kb_backend.Governance.Queue.Awaiting.{
  pending_for_user, can_review, is_awaiting, global_access, is_mine_or_department,
  pending_for_user-may_load,
}
use qnsc_kb_backend.Governance.Candidates.{
  candidate, discarded, DraftCandidate, split, review_candidate, split_rows,
}
use qnsc_kb_backend.Governance.Candidates.Positions.{IsSpread}
use qnsc_kb_backend.Governance.Candidates.Spread.{review_candidate-IsSpread, split_rows-collides}
use qnsc_kb_backend.Governance.Commit.{Committed, commit_candidates, children_of, sorted}
use qnsc_kb_backend.Governance.Commit.Outcome.{commit_candidates-unloadable}
use qnsc_kb_backend.Governance.Workflow.{submit, approve, Reach, start, next, IsUnbiased}
use qnsc_kb_backend.Governance.Workflow.Invariant.{approved-IsUnbiased, transitions-IsPath}
use qnsc_kb_backend.Governance.Samples.{
  finance, author, chief, reviewer, team, draft, review, value, same, request, found, submitted,
  legal, rule, row,
}

submitted_ok : submit_draft team [] author (review authored none) ≡ ok submitted
unfolding submit_draft ◌>>=◌ raise_if has_permission compatibility_scope default_scope
    is_global_publisher
submitted_ok = refl

abbrev published : Review × Publication
published =
    value
      (
        review pending none,
        record {
          category = "";
          dept = "";
          departments = [];
          sensitivity = "";
          visibility = "";
          allowed_users = [];
          denied_users = [];
          connector_source = none;
        },
      )
      (approve_draft same same chief request found submitted)

published_ok : approve_draft same same chief request found submitted ≡ ok published
unfolding approve_draft ◌>>=◌ raise_if has_permission compatibility_scope default_scope scope_allows
    is_global_publisher submit_draft may_decide in_preparation is_outside can_approve_draft
    may_self_approve
published_ok = refl

published_status : published.0.draft.status ≡ approved
unfolding approve_draft ◌>>=◌ raise_if has_permission compatibility_scope default_scope scope_allows
    is_global_publisher submit_draft may_decide in_preparation is_outside can_approve_draft
    may_self_approve notify_author
published_status = refl

Reach-published : Reach team published.0
Reach-published =
    next (next (start (some 5) refl refl refl) (submit [] author submitted_ok))
      (approve same same chief request found published.1 (Memᴰ.tail (Memᴰ.head refl)) published_ok)

approved-IsUnbiased_example : IsUnbiased team published.0.draft.reviewed_by published.0.draft
approved-IsUnbiased_example = approved-IsUnbiased team Reach-published published_status

transitions-IsPath_example : IsPath published.0.transitions published.0.draft.status
transitions-IsPath_example = transitions-IsPath team Reach-published

abbrev sourced : Review
sourced = value (review authored (some 7)) (submit_draft team [] author (review authored (some 7)))

abbrev mirrored : Review × Publication
mirrored = value published (approve_draft same same chief request found sourced)

mirrored_ok : approve_draft same same chief request found sourced ≡ ok mirrored
unfolding approve_draft ◌>>=◌ raise_if has_permission compatibility_scope default_scope scope_allows
    is_global_publisher submit_draft may_decide in_preparation is_outside can_approve_draft
    may_self_approve
mirrored_ok = refl

approved_source-IsRestricted_example : IsRestricted mirrored.1
unfolding submit_draft ◌>>=◌ raise_if has_permission compatibility_scope default_scope
    is_global_publisher
approved_source-IsRestricted_example =
    approved_source-IsRestricted same same chief request found sourced mirrored.0 mirrored.1 7
      mirrored_ok refl

submit_draft-ignores_rules_example :
    submit_draft team (rule ∷ []) author (review authored none)
    ≡ submit_draft team [] author (review authored none)
unfolding has_permission compatibility_scope default_scope
submit_draft-ignores_rules_example =
    submit_draft-ignores_rules team (rule ∷ []) author (review authored none)
      (refl, refl, refl, refl)

reviewer_departments : review_departments reviewer ≡ "Finance" ∷ []
unfolding review_departments member_department_names
reviewer_departments = refl

list_drafts-may_load_example : may_load reviewer (draft pending none) ≡ true
unfolding list_drafts ◌>>=◌ is_global_publisher has_permission compatibility_scope default_scope
    scope_allows may_self_approve review_departments member_department_names
list_drafts-may_load_example =
    list_drafts-may_load (λ d. true) reviewer (some pending) none 0
      (draft pending none ∷ (draft authored none ∷ [])) (draft pending none ∷ [])
      (draft pending none) (λ h. cc) (inr (λ h. cc (sym reviewer_departments ∙ h))) refl
      (Memᴰ.head refl)

pending_for_user-may_load_example :
    (same_status (draft pending none).status pending ≡ true)
    × (((draft pending none).assigned_approver_id ≡ none)
        ⊎ ((draft pending none).assigned_approver_id ≡ some reviewer.id))
    × (may_load reviewer (draft pending none) ≡ true)
unfolding pending_for_user can_review is_awaiting global_access is_mine_or_department has_permission
    compatibility_scope default_scope scope_allows may_self_approve review_departments
    member_department_names
pending_for_user-may_load_example =
    pending_for_user-may_load reviewer (draft pending none ∷ (draft authored none ∷ []))
      (draft pending none) refl (Memᴰ.head refl)

abbrev pair : List DraftCandidate
pair = row 1 1 candidate ∷ (row 2 2 candidate ∷ [])

abbrev divided : List DraftCandidate
divided = value [] (
    review_candidate (λ t. t) (λ t. t) (10 ∷ (10 ∷ [])) [] ok 3 chief (split (some 2) none) 1
      (review pending none) pair)

pair-IsSpread : IsSpread pair
pair-IsSpread p = ground arith

review_candidate-IsSpread_example : IsSpread divided
unfolding review_candidate ◌>>=◌ raise_if has_permission compatibility_scope default_scope
    scope_allows is_global_publisher in_preparation can_review_draft has_draft_permission
review_candidate-IsSpread_example =
    review_candidate-IsSpread (λ t. t) (λ t. t) (10 ∷ (10 ∷ [])) [] ok 3 chief (split (some 2) none)
      1 (review pending none) pair divided pair-IsSpread refl

split_rows-collides_example :
    2
    ≤ length (
        filter
          (λ x. nat_beq x.position 2)
          (split_rows
            (λ t. t)
            (λ t. t)
            (10 ∷ (10 ∷ []))
            []
            ok
            3
            2
            none
            (row 1 1 candidate)
            (row 1 1 candidate ∷ (row 2 2 discarded ∷ []))))
split_rows-collides_example =
    split_rows-collides (λ t. t) (λ t. t) (10 ∷ (10 ∷ [])) [] ok 3 2 none (row 1 1 candidate)
      (row 2 2 discarded) (row 1 1 candidate ∷ (row 2 2 discarded ∷ []))
      (Memᴰ.tail (Memᴰ.head refl)) refl refl

abbrev created : List Review
created =
    children_of (λ t. "body") (finance ∷ (legal ∷ [])) reviewer.id (draft pending none) 20
      (sorted pair)

abbrev first_child : Review
first_child = elim created [ [] ↦ review pending none | c ∷ cs ↦ c ]

abbrev other_children : List Review
other_children = elim created [ [] ↦ [] | c ∷ cs ↦ cs ]

abbrev outcome : User → Committed
outcome by =
    value
      (record { parent = review pending none; rows = []; children = []; answer = err not_found })
      (commit_candidates (λ t. "body") (finance ∷ (legal ∷ [])) team [] by 20 (review pending none)
        pair)

commit_candidates-unloadable_example :
    ((outcome reviewer).answer ≡ err not_found)
    × ((outcome reviewer).parent.draft.status ≡ rejected)
    × ((outcome reviewer).children ≡ first_child ∷ other_children)
unfolding commit_candidates ◌>>=◌ raise_if has_permission compatibility_scope default_scope
    scope_allows is_global_publisher member_department_names in_preparation can_review_draft
    has_draft_permission departments_by_id
commit_candidates-unloadable_example =
    commit_candidates-unloadable (λ t. "body") (finance ∷ (legal ∷ [])) team [] reviewer 20
      (review pending none) pair first_child other_children (outcome reviewer) refl refl refl

abbrev submitted_child : Review
submitted_child = elim (outcome chief).children [ [] ↦ review pending none | c ∷ cs ↦ c ]
