-- ===== src/Governance.antt =====
-- src/domain/governance.py: the review of pending drafts, and the queries of
-- src/repositories/governance.py that decide which drafts a user meets. An operation takes the
-- review, a draft with the rows that its operations append, and returns the next one or the status
-- code of the `HTTPException`. Texts of errors and of notifications are left out.
pub mod Decisions
pub mod Reading
pub mod Publication
pub mod Selection
pub mod Queue
pub mod Candidates
pub mod Commit
pub mod Gaps
pub mod Guards
pub mod Workflow
pub mod Samples
mod Examples
use qnsc_kb_backend.Prelude.{
  ℕ, String, Bool, true, false, not, ◌&&◌, ◌||◌, Option, none, some, List, [], ◌∷◌, ◌++◌,
  if◌then◌else◌, any, ◌==◌, nat_eq, string_eq, option_eq, elem,
}
use qnsc_kb_backend.Accounts.{own, department, company, global, Role, User, Resource}
use qnsc_kb_backend.Rbac.{has_permission, member_department_names}

-- The texts that the workflow writes; `other` is any other text of the column.
pub data Status : Type 0 where
  authored pending approved rejected : Status
  other : String → Status

pub data HttpError : Type 0 where
  bad_request forbidden not_found conflict unprocessable : HttpError

pub data Result (A : Type 0) : Type 0 where
  ok : A → Result A
  err : HttpError → Result A

infixl 5 ◌>>=◌ ◌>>◌
unfoldable pub ◌>>=◌ : {A B : Type 0} → Result A → (A → Result B) → Result B
ok a >>= next = next a
err e >>= next = err e

abbrev pub ◌>>◌ : {B : Type 0} → Result (Unit {0}) → Result B → Result B
first >> second = first >>= λ _. second

-- if condition: raise HTTPException(status_code=...)
unfoldable pub raise_if : Bool → HttpError → Result (Unit {0})
raise_if true e = err e
raise_if false e = ok tt

-- The keys of `content_metadata` that are read; a key that is missing or empty is `none` or `[]`.
pub record Metadata : Type 0 where
  pub submission_kind : Option String
  pub suggested_update_article_id : Option ℕ
  pub category : Option String
  pub dept : Option String
  pub sensitivity : Option String
  pub visibility : Option String
  pub department_ids : List ℕ
  pub explicit_user_ids : List ℕ
  pub denied_user_ids : List ℕ

pub record Draft : Type 0 where
  pub id : ℕ
  pub company_domain : String
  pub dept : Option String
  pub status : Status
  pub summary : Option String
  pub restructured_body_md : Option String
  pub restructure_candidate_md : Option String
  pub restructure_decision : String
  pub restructure_status : String
  pub content_metadata : Metadata
  pub requires_update_confirmation : Bool
  pub external_document_id : Option ℕ
  pub created_by : Option ℕ
  pub assigned_approver_id : Option ℕ
  pub assigned_by : Option ℕ
  pub reviewed_by : Option ℕ

pub record DraftTransition : Type 0 where
  pub from_status : Option Status
  pub to_status : Status
  pub actor_id : Option ℕ

-- A draft with its transitions, and who is notified and what is audited, the newest first.
pub record Review : Type 0 where
  pub draft : Draft
  pub transitions : List DraftTransition
  pub notified : List ℕ
  pub audit_log : List (ℕ × String)

-- What the creation of a draft records.
abbrev pub creation : Option ℕ → DraftTransition
creation actor = record { from_status = none; to_status = authored; actor_id = actor }

-- `create_draft` records the creation of a draft that starts as authored only.
abbrev pub create_draft : Draft → Review
create_draft draft = record {
  draft = draft;
  transitions = elim draft.status [ authored ↦ creation draft.created_by ∷ [] | _ ↦ [] ];
  notified = [];
  audit_log = [];
}

abbrev pub allowed : Status → List Status
allowed authored = pending ∷ rejected ∷ []
allowed pending = approved ∷ rejected ∷ []
allowed rejected = pending ∷ []
allowed approved = []
allowed (other _) = []

abbrev pub same_status : Status → Status → Bool
same_status authored authored = true
same_status pending pending = true
same_status approved approved = true
same_status rejected rejected = true
same_status (other s) (other t) = s == t
same_status _ _ = false

pub transition_draft : ℕ → Status → Review → Result Review
transition_draft actor to_status r =
    if any (λ s. same_status s to_status) (allowed r.draft.status)
    then ok (record r {
      draft = record r.draft { status = to_status };
      transitions =
          record { from_status = some r.draft.status; to_status = to_status; actor_id = some actor }
          ∷ r.transitions;
    })
    else err conflict

unfoldable pub in_preparation : Draft → Bool
in_preparation draft = elem draft.restructure_status ("queued" ∷ "processing" ∷ "deferred" ∷ [])

abbrev pub lead_names : List String
lead_names = "Admin" ∷ "CEO" ∷ []

pub is_lead_role : User → Role → Bool
is_lead_role user role =
    role.active
    && elem role.name lead_names
    && elem role.company_domain (none ∷ some user.company_domain ∷ [])

unfoldable pub may_self_approve : User → Bool
unfolding is_lead_role
may_self_approve user = elem user.role lead_names || any (is_lead_role user) user.roles

unfoldable pub can_approve_draft : User → Draft → Bool
can_approve_draft user draft = draft.assigned_approver_id == some user.id || may_self_approve user

-- What the permission check reads of a draft: it has neither `departments` nor `owner_id`.
pub resource_of : Draft → Resource
resource_of draft = record {
  company_domain = some draft.company_domain;
  departments = [];
  dept = draft.dept;
  owner_id = none;
}

pub has_draft_permission : User → String → Draft → Bool
unfolding resource_of
has_draft_permission user key draft =
    any (has_permission user key (some (resource_of draft)))
      (own ∷ department ∷ company ∷ global ∷ [])

pub can_review_draft : User → Draft → Bool
can_review_draft user draft =
    has_draft_permission user "article.review" draft
    || has_draft_permission user "article.publish" draft

unfoldable pub is_global_publisher : User → Bool
is_global_publisher user = has_permission user "article.publish" none global

-- draft.company_domain != user.company_domain and not self._is_global_publisher(user)
unfoldable pub is_outside : User → Draft → Bool
is_outside user draft =
    not (draft.company_domain == user.company_domain) && not (is_global_publisher user)

-- The departments whose drafts a reviewer works on.
pub review_departments : User → List String
review_departments user = elim user.dept [
  | none ↦ member_department_names user
  | some name ↦
      if name == "" then member_department_names user else member_department_names user ++ name ∷ []
]

abbrev pub text_in : Option String → List String → Bool
text_in none names = false
text_in (some name) names = elem name names

-- The query of `get_draft_for_user`.
pub is_company_wide : User → Bool
is_company_wide user =
    elem user.role lead_names || any (λ r. r.active && elem r.name lead_names) user.roles

pub may_load : User → Draft → Bool
unfolding is_company_wide review_departments
may_load user draft =
    has_permission user "governance.read" none global
    || is_global_publisher user
    || (draft.company_domain == user.company_domain
        && (is_company_wide user
            || draft.assigned_approver_id == some user.id
            || draft.created_by == some user.id
            || text_in draft.dept (review_departments user)))

-- The draft is not found for a user who may not load it.
pub load : User → Review → Result (Unit {0})
unfolding may_load
load user r = raise_if (not (may_load user r.draft)) not_found

pub audit : User → String → Review → Review
audit user action r = record r { audit_log = (user.id, action) ∷ r.audit_log }

pub notify : ℕ → Review → Review
notify recipient r = record r { notified = recipient ∷ r.notified }
