-- ===== src/Governance/Publication.antt =====
-- Approval: `approve_draft` of src/domain/governance.py, which checks what is to be published and
-- publishes it. The indexing and extraction after the commit are left out.
pub mod Effects
pub mod Readers
use qnsc_kb_backend.Prelude.{
  ℕ, String, Bool, false, not, ◌&&◌, ◌||◌, Option, none, some, List, [], ◌∷◌, ◌++◌, ltb, nat_beq,
  if◌then◌else◌, is_some, get_or, length, any, filter, ◌==◌, nat_eq, string_eq, option_eq, find,
  elem,
}
use qnsc_kb_backend.Accounts.{User, Department, Article, own, department, company, global}
use qnsc_kb_backend.Rbac.{has_permission}
use qnsc_kb_backend.Permissions.{can_view_article}
use qnsc_kb_backend.Governance.{
  approved, forbidden, conflict, unprocessable, Result, ok, err, raise_if, Draft, Review,
  transition_draft, load, audit, ◌>>=◌, ◌>>◌,
}
use qnsc_kb_backend.Governance.Decisions.{may_decide, notify_author}
use qnsc_kb_backend.Governance.Selection.{
  ExternalDocument, Found, Publication, Request, all_in_company, check_source, choose, overlap,
  unique,
}

-- The visibility that the mapped users and departments of a source document give.
pub acl_visibility : ExternalDocument → List Department → String
acl_visibility document selected =
    if ltb 0 (length document.mapped_source_user_ids) && nat_beq (length selected) 0
    then "users"
    else "department"

-- What the provider's ACL makes of it.
pub restrict : Found → Draft → ExternalDocument → Publication → Result Publication
unfolding all_in_company overlap unique acl_visibility
restrict found draft document p = do
  let selected =
      filter
        (λ d. elem d.id document.mapped_department_ids && d.company_domain == draft.company_domain)
        found.departments
  raise_if (not (nat_beq (length selected) (length (unique document.mapped_department_ids))))
      unprocessable
  raise_if (not (all_in_company found.users draft.company_domain document.mapped_source_user_ids))
      unprocessable
  let allow = unique (p.allowed_users ++ unique document.mapped_source_user_ids)
  raise_if (overlap allow p.denied_users) unprocessable
  raise_if (not (all_in_company found.users draft.company_domain (allow ++ p.denied_users)))
      unprocessable
  elim document.connector [
    | none ↦ err unprocessable
    | some connector ↦ do
      raise_if (not (connector.company_domain == draft.company_domain)) unprocessable
      ok (record p {
        departments = selected;
        sensitivity = "restricted";
        visibility = acl_visibility document selected;
        allowed_users = allow;
        connector_source = some connector.system;
      })
  ]

pub publication :
    (String → String) → (String → String) → Request → Found → Draft → Result Publication
unfolding choose restrict
publication fold trim request found draft = do
  chosen ← choose fold trim request found draft
  elim draft.external_document_id [
    | none ↦ ok chosen
    | some _ ↦ elim found.document [
      | none ↦ ok chosen
      | some document ↦ restrict found draft document chosen
    ]
  ]

pub may_supersede : User → Article → Bool
may_supersede user article =
    any
      (λ scope.
        has_permission user "article.edit" (some article.resource) scope
        || has_permission user "article.publish" (some article.resource) scope)
      (own ∷ department ∷ company ∷ global ∷ [])

pub check_target : User → Request → Found → Result (Unit {0})
unfolding may_supersede
check_target user request found = elim request.update_article_id [
  | none ↦ ok tt
  | some _ ↦ elim found.update_target [
    | none ↦ err forbidden
    | some article ↦ do
      raise_if
          (not (article.resource.company_domain == some user.company_domain)
            && not (has_permission user "article.read" none global))
          forbidden
      raise_if (not (can_view_article user article) || not (may_supersede user article)) forbidden
      raise_if (not (article.lifecycle_status == some "active")) conflict
  ]
]

unfoldable pub approve_draft :
    (String → String)
    → (String → String)
    → User
    → Request
    → Found
    → Review
    → Result (Review × Publication)
unfolding load check_source publication check_target transition_draft audit
approve_draft fold trim user request found r = do
  load user r
  may_decide user r.draft
  check_source request found r.draft
  p ← publication fold trim request found r.draft
  check_target user request found
  raise_if found.external_id_taken conflict
  raise_if (not found.review_date_valid) unprocessable
  moved ← transition_draft user.id approved r
  let reviewed = record moved { draft = record moved.draft { reviewed_by = some user.id } }
  let own_work = r.draft.created_by == some user.id
  ok (
    audit user "publish" (
        audit user (if own_work then "self_approve" else "approve")
          (if own_work then reviewed else notify_author r.draft.created_by reviewed)),
    p,
  )
