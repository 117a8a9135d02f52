-- ===== src/Permissions.antt =====
-- `PermissionService` of src/domain/permissions.py.
pub mod Requirements
pub mod Access
mod Examples
use qnsc_kb_backend.Prelude.{
  ℕ, zero, suc, ◌+◌, ◌-◌, ◌*◌, ◌/◌, ◌%◌, ◌^◌, ◌≤◌, ◌<◌, min, max, String, ◌≡◌, refl, sym, ap, ◌∙◌,
  ◌≢◌, ◌↔◌, ◌⊎◌, inl, inr, Bool, true, false, not, ◌&&◌, ◌||◌, Option, none, some, List, [], ◌∷◌,
  ◌++◌, map, Memᴰ, arith, ltb, leb, nat_beq, nat_beq_iff, if◌then◌else◌, ltb→lt, lt→ltb, leb→le,
  le→leb, tests, Bool-cases, Option-cases, &&-eq-true, ||-eq-true, is_some, get_or, length, take,
  length-append, any, all, filter, any-Memᴰ, any_of_Memᴰ, Memᴰ-filter, filter_of_Memᴰ,
  length-filter, Eq, ◌==◌, nat_eq, string_eq, option_eq, List-cases, not-Memᴰ-nil, find, find-Memᴰ,
  find-append, elem, elem-Memᴰ, Memᴰ-elem, lookup, insert, lookup-insert, option_beq_iff, eq_iff,
}
use qnsc_kb_backend.Accounts.{
  Scope, own, department, company, global, Department, User, Resource, UserPermission, Article,
}
use qnsc_kb_backend.Rbac.{
  has_permission, has_full_company_article_access, can_access_article_departments,
}

pub data Effect : Type 0 where
  deny allow unset : Effect

-- An override of the user that has the given effect.
pub sets : User → String → UserPermission → Bool
sets user effect o = o.user_id == user.id && o.effect == effect

pub explicit_user_effect : User → Article → Effect
unfolding sets
explicit_user_effect user article =
    if any (sets user "deny") article.user_permissions
    then deny
    else if any (sets user "allow") article.user_permissions
    then allow
    else unset

-- SOURCE_ACL_PROVIDERS of src/domain/connector_providers.py
abbrev pub source_acl_providers : List String
source_acl_providers = "google_drive" ∷ "onedrive" ∷ "sharepoint" ∷ []

-- source_systems & set(SOURCE_ACL_PROVIDERS)
pub governed_by : Article → List String
governed_by article = filter (λ s. elem s source_acl_providers) article.source_systems

pub source_allows : User → Article → UserPermission → Bool
unfolding sets governed_by
source_allows user article o =
    sets user "allow" o
    && any (λ source. elem source (governed_by article))
        (elim o.source [ none ↦ [] | some s ↦ s ∷ [] ])

-- bool(user_department_ids & article_department_ids)
pub shares_department : User → Article → Bool
shares_department user article =
    any (λ d. elem d.id (map (λ e. e.id) article.resource.departments)) user.departments

pub source_acl_allows : User → Article → Bool
unfolding governed_by
source_acl_allows user article = elim (governed_by article) [
  | [] ↦ true
  | _ ↦ any (source_allows user article) article.user_permissions || shares_department user article
]

abbrev pub all_scopes : List Scope
all_scopes = own ∷ department ∷ company ∷ global ∷ []

-- any(has_permission(user, key, article, scope) for scope in scopes)
pub allowed_at : User → String → Article → List Scope → Bool
allowed_at user key article scopes =
    any (λ scope. has_permission user key (some article.resource) scope) scopes

pub is_live : Article → Bool
is_live article =
    not (article.status == "deleted") && elem article.lifecycle_status (none ∷ some "active" ∷ [])

pub is_unpublished : Article → Bool
is_unpublished article = elem article.status ("draft" ∷ "pending_review" ∷ "archived" ∷ [])

abbrev governance_keys : List String
governance_keys = "article.review" ∷ "article.publish" ∷ "article.edit" ∷ "article.delete" ∷ []

-- The owner and governance users may inspect what is not published.
pub may_inspect : User → Article → Bool
unfolding allowed_at
may_inspect user article =
    article.resource.owner_id == some user.id
    || any (λ key. allowed_at user key article all_scopes) governance_keys

abbrev pub is_allow : Effect → Bool
is_allow allow = true
is_allow _ = false

abbrev pub is_deny : Effect → Bool
is_deny deny = true
is_deny _ = false

-- The tail of `can_view_article`, from `has_full_company_article_access` on.
pub audience_allows : User → Article → Effect → Bool
unfolding shares_department
audience_allows user article effect =
    if has_full_company_article_access user
    then true
    else if is_allow effect
    then true
    else if article.sensitivity == "restricted" && not (shares_department user article)
    then false
    else can_access_article_departments user article.resource

pub can_view_article : User → Article → Bool
unfolding is_live is_unpublished
can_view_article user article =
    let effect = explicit_user_effect user article in
    if not (is_live article)
    then false
    else if not (allowed_at user "article.read" article all_scopes)
    then false
    else if is_deny effect
    then false
    else if not (source_acl_allows user article)
    then false
    else if article.visibility == "users"
    then is_allow effect
    else if is_unpublished article && not (may_inspect user article)
    then false
    else audience_allows user article effect

unfoldable pub can_edit_article : User → Article → Bool
unfolding allowed_at
can_edit_article user article =
    allowed_at user "article.edit" article (own ∷ department ∷ company ∷ [])

can_delete_article : User → Article → Bool
unfolding allowed_at
can_delete_article user article =
    allowed_at user "article.delete" article (own ∷ department ∷ company ∷ [])
