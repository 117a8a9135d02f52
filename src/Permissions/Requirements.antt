-- ===== src/Permissions/Requirements.antt =====
-- What `can_view_article` of src/domain/permissions.py demands of every reader.
use qnsc_kb_backend.Prelude.{
  String, ◌≡◌, ◌≢◌, ◌⊎◌, inl, inr, true, false, none, some, Memᴰ, arith, nat_beq_iff, any,
  any_of_Memᴰ, filter_of_Memᴰ, nat_eq, string_eq, option_eq, List-cases, not-Memᴰ-nil, elem,
  Memᴰ-elem, eq_iff,
}
use qnsc_kb_backend.Accounts.{User, UserPermission, Article, own, department, company, global}
use qnsc_kb_backend.Rbac.{has_permission, same_company}
use qnsc_kb_backend.Rbac.Tenancy.{has_permission-foreign}
use qnsc_kb_backend.Rbac.Scopes.{has_permission-own}
use qnsc_kb_backend.Permissions.{
  sets, explicit_user_effect, source_acl_providers, governed_by, source_allows, shares_department,
  source_acl_allows, is_unpublished, allowed_at, may_inspect, can_view_article,
}

-- The four scopes of the read check come down to the narrowest one.
readable :
    (user : User) (article : Article)
    → can_view_article user article ≡ true
    → has_permission user "article.read" (some article.resource) own ≡ true
unfolding can_view_article allowed_at
readable user article h = ground (
  arith,
  has_permission-own user "article.read" own article.resource,
  has_permission-own user "article.read" department article.resource,
  has_permission-own user "article.read" company article.resource,
  has_permission-own user "article.read" global article.resource,
)

-- A deny override of the user hides the article from that user, whatever else grants it.
pub deny_is_authoritative :
    (user : User) (article : Article) (o : UserPermission)
    → Memᴰ o article.user_permissions
    → o.user_id ≡ user.id
    → o.effect ≡ "deny"
    → can_view_article user article ≡ false
unfolding can_view_article explicit_user_effect
deny_is_authoritative user article o m same e =
    let found =
      any_of_Memᴰ (sets user "deny") article.user_permissions m
        (ground (arith, nat_beq_iff o.user_id user.id, eq_iff o.effect "deny")) in
    ground arith

-- A viewer of an article that a remote provider governs is named by an allow override of such a
-- provider, or shares a department with the article.
pub source_acl_is_required :
    (user : User) (article : Article) (source : String)
    → Memᴰ source article.source_systems
    → Memᴰ source source_acl_providers
    → can_view_article user article ≡ true
    → (any (source_allows user article) article.user_permissions ≡ true)
      ⊎ (shares_department user article ≡ true)
unfolding can_view_article source_acl_allows governed_by
source_acl_is_required user article source m p h =
    let governed =
      filter_of_Memᴰ (λ s. elem s source_acl_providers) article.source_systems m
        (Memᴰ-elem source source_acl_providers p) in
    elim (List-cases (governed_by article)) [
      | inl e ↦ absurd (not-Memᴰ-nil (rw e at governed))
      | inr q ↦ ground (arith, q.2)
    ]

-- An article that is not published is shown to its owner and to governance users only.
pub unpublished_needs_governance :
    (user : User) (article : Article)
    → is_unpublished article ≡ true
    → article.visibility ≢ "users"
    → can_view_article user article ≡ true
    → may_inspect user article ≡ true
unfolding can_view_article
unpublished_needs_governance user article u v h = ground (arith, eq_iff article.visibility "users")

-- An article of another company is viewed only with a company-crossing "article.read" grant, or by
-- its owner.
pub foreign_view :
    (user : User) (article : Article)
    → same_company user article.resource ≡ false
    → can_view_article user article ≡ true
    → (has_permission user "article.read" none global ≡ true)
      ⊎ (article.resource.owner_id ≡ some user.id)
foreign_view user article foreign h =
    elim (has_permission-foreign user "article.read" own article.resource foreign
      (readable user article h)) [ inl g ↦ inl g | inr o ↦ inr o.1 ]
