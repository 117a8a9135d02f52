-- ===== src/Permissions/Examples.antt =====
-- Two readers and some articles, and the theorems on src/domain/permissions.py at them.
use qnsc_kb_backend.Prelude.{
  ℕ, String, ◌≡◌, refl, ◌≢◌, ◌⊎◌, true, false, Option, none, some, [], ◌∷◌, Memᴰ, arith, any,
  nat_eq, string_eq, option_eq, eq_iff,
}
use qnsc_kb_backend.Accounts.{
  Scope, company, global, Department, Role, User, UserPermission, Article,
}
use qnsc_kb_backend.Rbac.{
  has_permission, same_company, has_full_company_article_access, can_access_article_departments,
  compatibility_scope, role_grants, role_counts, scope_allows, has_privileged_role,
  member_department_names, article_department_names,
}
use qnsc_kb_backend.Permissions.{
  can_view_article, source_allows, shares_department, is_unpublished, may_inspect,
  explicit_user_effect, is_live, allowed_at, source_acl_allows, unset, audience_allows,
}
use qnsc_kb_backend.Permissions.Requirements.{
  deny_is_authoritative, source_acl_is_required, foreign_view,
}
use qnsc_kb_backend.Permissions.Access.{
  restricted_needs_department, can_view_article-ignores_status,
}

abbrev finance : Department
finance = record { id = 1; name = "Finance"; company_domain = "acme.vn"; active = true }

abbrev role_with : Option String → Scope → Role
role_with tenant scope = record {
  id = 7;
  name = "Reader";
  company_domain = tenant;
  active = true;
  permissions = record { permission = some "article.read"; scope = scope } ∷ [];
}

abbrev user_with : Role → User
user_with role = record {
  id = 5;
  company_domain = "acme.vn";
  dept = some "Finance";
  role = "Employee";
  active = true;
  departments = finance ∷ [];
  department_ownerships = [];
  roles = role ∷ [];
}

abbrev reader : User
reader = user_with (role_with (some "acme.vn") company)

abbrev auditor : User
auditor = user_with (role_with none global)

abbrev article_of : String → ℕ → Article
article_of tenant owner = record {
  resource = record {
    company_domain = some tenant;
    departments = finance ∷ [];
    dept = some "Finance";
    owner_id = some owner;
  };
  status = "published";
  lifecycle_status = some "active";
  visibility = "department";
  sensitivity = "internal";
  user_permissions = [];
  source_systems = [];
}

abbrev override : String → Option String → UserPermission
override effect source = record { user_id = 5; effect = effect; source = source }

abbrev abroad : Article
abroad = article_of "beta.vn" 9

abroad_is_foreign : same_company auditor abroad.resource ≡ false
unfolding same_company
abroad_is_foreign = refl

abroad_is_viewed : can_view_article auditor abroad ≡ true
unfolding can_view_article allowed_at has_permission compatibility_scope role_grants role_counts
    scope_allows explicit_user_effect source_acl_allows audience_allows
    has_full_company_article_access
abroad_is_viewed = refl

foreign_view_example :
    (has_permission auditor "article.read" none global ≡ true) ⊎ (abroad.resource.owner_id ≡ some 5)
foreign_view_example = foreign_view auditor abroad abroad_is_foreign abroad_is_viewed

abbrev denied : Article
denied = record (article_of "acme.vn" 9) {
  user_permissions = override "allow" none ∷ override "deny" (some "sharepoint") ∷ [];
}

deny_is_authoritative_example : can_view_article reader denied ≡ false
deny_is_authoritative_example =
    deny_is_authoritative reader denied (override "deny" (some "sharepoint"))
      (Memᴰ.tail (Memᴰ.head refl)) refl refl

abbrev shared_file : Article
shared_file = record (article_of "acme.vn" 9) {
  user_permissions = override "allow" (some "onedrive") ∷ [];
  source_systems = "onedrive" ∷ [];
}

shared_file_is_viewed : can_view_article reader shared_file ≡ true
unfolding can_view_article allowed_at has_permission compatibility_scope role_grants role_counts
    scope_allows explicit_user_effect source_acl_allows source_allows audience_allows
    has_full_company_article_access has_privileged_role
shared_file_is_viewed = refl

source_acl_is_required_example :
    (any (source_allows reader shared_file) shared_file.user_permissions ≡ true)
    ⊎ (shares_department reader shared_file ≡ true)
source_acl_is_required_example =
    source_acl_is_required reader shared_file "onedrive" (Memᴰ.head refl)
      (Memᴰ.tail (Memᴰ.head refl)) shared_file_is_viewed

abbrev own_draft : Article
own_draft = record (article_of "acme.vn" 5) { status = "draft" }

own_draft-is_unpublished : is_unpublished own_draft ≡ true
unfolding is_unpublished
own_draft-is_unpublished = refl

abbrev payroll : Article
payroll = record (article_of "acme.vn" 9) { sensitivity = "restricted" }

not_for_users : payroll.visibility ≢ "users"
not_for_users h = ground (arith, eq_iff payroll.visibility "users")

own_draft_is_viewed : can_view_article reader own_draft ≡ true
unfolding can_view_article allowed_at has_permission compatibility_scope role_grants role_counts
    scope_allows explicit_user_effect source_acl_allows may_inspect audience_allows
    has_full_company_article_access has_privileged_role can_access_article_departments
    member_department_names article_department_names
own_draft_is_viewed = refl

reader_is_ordinary : has_full_company_article_access reader ≡ false
unfolding has_full_company_article_access has_permission compatibility_scope role_grants role_counts
    scope_allows has_privileged_role
reader_is_ordinary = refl

payroll_sets_nothing : explicit_user_effect reader payroll ≡ unset
unfolding explicit_user_effect
payroll_sets_nothing = refl

payroll_is_viewed : can_view_article reader payroll ≡ true
unfolding can_view_article allowed_at has_permission compatibility_scope role_grants role_counts
    scope_allows explicit_user_effect source_acl_allows audience_allows
    has_full_company_article_access has_privileged_role can_access_article_departments
    member_department_names article_department_names
payroll_is_viewed = refl

restricted_needs_department_example :
    (shares_department reader payroll ≡ true)
    × (can_access_article_departments reader payroll.resource ≡ true)
restricted_needs_department_example =
    restricted_needs_department reader payroll refl not_for_users reader_is_ordinary
      payroll_sets_nothing payroll_is_viewed

abbrev published : String
published = "published"

abbrev shared_draft : Article
shared_draft = record (article_of "acme.vn" 9) {
  status = "draft";
  visibility = "users";
  user_permissions = override "allow" none ∷ [];
}

reader_may_not_inspect : may_inspect reader shared_draft ≡ false
unfolding may_inspect has_permission compatibility_scope role_grants role_counts
reader_may_not_inspect = refl

shared_draft_is_viewed : can_view_article reader shared_draft ≡ true
unfolding can_view_article is_live allowed_at explicit_user_effect source_acl_allows has_permission
    compatibility_scope role_grants role_counts scope_allows
shared_draft_is_viewed = refl

draft-deleted : shared_draft.status ≢ "deleted"
draft-deleted h = ground (arith, eq_iff shared_draft.status "deleted")

published-deleted : published ≢ "deleted"
published-deleted h = ground (arith, eq_iff published "deleted")

can_view_article-ignores_status_example :
    can_view_article reader (record shared_draft { status = published })
    ≡ can_view_article reader shared_draft
can_view_article-ignores_status_example =
    can_view_article-ignores_status reader shared_draft published refl draft-deleted
      published-deleted
