-- ===== src/Governance/Queue.antt =====
-- The queue of drafts: `_draft_queue_scope` and `list_drafts` of src/domain/governance.py with the
-- filters of src/repositories/governance.py. A table is the list of its rows in the order of the
-- query, and `matches` stands for the search for a text.
pub mod Visible
pub mod Pages
pub mod Awaiting
use qnsc_kb_backend.Prelude.{
  ℕ, zero, suc, String, Bool, true, not, ◌&&◌, ◌||◌, Option, none, some, List, [], ◌∷◌,
  if◌then◌else◌, is_some, get_or, length, take, any, filter, ◌==◌, nat_eq, string_eq, option_eq,
}
use qnsc_kb_backend.Accounts.{User, company}
use qnsc_kb_backend.Rbac.{has_permission}
use qnsc_kb_backend.Governance.{
  Status, Result, ok, err, forbidden, Draft, same_status, is_global_publisher, may_self_approve,
  review_departments, text_in, ◌>>=◌,
}

-- The arguments of the repository; an argument that is left out or empty filters nothing.
pub record QueueScope : Type 0 where
  pub company_domain : String
  pub depts : List String
  pub assigned_approver_id : Option ℕ

unfoldable pub can_company_review : User → Bool
can_company_review user =
    any (λ key. has_permission user key none company)
      ("article.review" ∷ "article.publish" ∷ "governance.read" ∷ [])

-- `may_self_approve` is `_is_company_governance_lead`, which has the same tests.
pub draft_queue_scope : User → Result QueueScope
unfolding can_company_review
draft_queue_scope user =
    if is_global_publisher user
    then ok (record { company_domain = ""; depts = []; assigned_approver_id = none })
    else if can_company_review user
    then (if may_self_approve user
        then ok (record {
          company_domain = user.company_domain;
          depts = [];
          assigned_approver_id = none;
        })
        else ok (record {
          company_domain = user.company_domain;
          depts = review_departments user;
          assigned_approver_id = some user.id;
        }))
    else err forbidden

pub in_departments : List String → Draft → Bool
in_departments [] draft = true
in_departments (d ∷ ds) draft = text_in draft.dept (d ∷ ds)

pub is_mine : Option ℕ → List String → Draft → Bool
is_mine none depts draft = true
is_mine (some id) depts draft =
    not (is_some draft.assigned_approver_id)
    || draft.assigned_approver_id == some id
    || text_in draft.dept depts

pub in_scope : QueueScope → Draft → Bool
unfolding in_departments is_mine
in_scope scope draft =
    (scope.company_domain == "" || draft.company_domain == scope.company_domain)
    && in_departments scope.depts draft
    && is_mine scope.assigned_approver_id scope.depts draft

abbrev pub has_status : Option Status → Draft → Bool
has_status none draft = true
has_status (some status) draft = same_status draft.status status

pub skip : {A : Type 0} → ℕ → List A → List A
skip zero xs = xs
skip (suc n) [] = []
skip (suc n) (x ∷ xs) = skip n xs

abbrev pub draft_page_limit : ℕ
draft_page_limit = 500

pub page : {A : Type 0} → Option ℕ → ℕ → List A → List A
unfolding skip
page limit offset rows = take (get_or limit draft_page_limit) (skip offset rows)

pub in_queue : (Draft → Bool) → Option Status → QueueScope → List Draft → List Draft
unfolding in_scope
in_queue matches status scope rows =
    filter (λ d. matches d && has_status status d && in_scope scope d) rows

unfoldable pub list_drafts :
    (Draft → Bool) → User → Option Status → Option ℕ → ℕ → List Draft → Result (List Draft)
unfolding draft_queue_scope in_queue page
list_drafts matches user status limit offset rows = do
  scope ← draft_queue_scope user
  ok (page limit offset (in_queue matches status scope rows))

pub count_drafts : (Draft → Bool) → User → Option Status → List Draft → Result ℕ
unfolding draft_queue_scope in_queue
count_drafts matches user status rows = do
  scope ← draft_queue_scope user
  ok (length (in_queue matches status scope rows))
