-- ===== src/Rbac.antt =====
-- src/domain/rbac.py: the default roles and `AuthorizationService`. The theorems stand in the
-- modules below.
pub mod Scopes
pub mod Grants
pub mod Tenancy
pub mod Effective
pub mod Metadata
mod Examples
use qnsc_kb_backend.Prelude.{
  ℕ, zero, suc, ◌+◌, ◌-◌, ◌*◌, ◌/◌, ◌%◌, ◌^◌, ◌≤◌, ◌<◌, min, max, String, ◌≡◌, refl, sym, ap, ◌∙◌,
  ◌≢◌, ◌↔◌, ◌⊎◌, inl, inr, Bool, true, false, not, ◌&&◌, ◌||◌, Option, none, some, List, [], ◌∷◌,
  ◌++◌, map, Memᴰ, arith, ltb, leb, nat_beq, nat_beq_iff, if◌then◌else◌, ltb→lt, lt→ltb, leb→le,
  le→leb, tests, Bool-cases, Option-cases, &&-eq-true, ||-eq-true, is_some, get_or, length, take,
  length-append, any, all, filter, any-Memᴰ, any_of_Memᴰ, Memᴰ-filter, filter_of_Memᴰ,
  length-filter, Eq, ◌==◌, nat_eq, string_eq, option_eq, List-cases, not-Memᴰ-nil, find, find-Memᴰ,
  find-append, elem, elem-Memᴰ, Memᴰ-elem, lookup, insert, lookup-insert, option_beq_iff, eq_iff,
}
use qnsc_kb_backend.Accounts.{
  Scope, own, department, company, global, other, Department, DepartmentManager, RolePermission,
  Role, User, Resource,
}

abbrev ceo_permissions : List (String × Scope)
ceo_permissions =
    ("article.read", company)
    ∷ ("article.create", company)
    ∷ ("article.edit", company)
    ∷ ("article.publish", company)
    ∷ ("article.review", company)
    ∷ ("article.delete", company)
    ∷ ("user.read", company)
    ∷ ("user.manage", company)
    ∷ ("connector.manage", company)
    ∷ ("governance.read", company)
    ∷ ("ai.ask", company)
    ∷ []

-- The keys of PERMISSION_CATALOG.
abbrev catalog_keys : List String
catalog_keys =
    "article.read" ∷ "article.create" ∷ "article.edit" ∷ "article.publish" ∷ "article.delete"
    ∷ "article.review" ∷ "user.read" ∷ "user.manage" ∷ "role.manage" ∷ "permission.manage"
    ∷ "connector.manage" ∷ "ai.ask" ∷ "governance.read" ∷ []

-- DEFAULT_ROLE_PERMISSIONS
default_role_permissions : List (String × List (String × Scope))
default_role_permissions =
    ("Admin", map (λ key. (key, global)) catalog_keys)
    ∷ ("CEO", ceo_permissions)
    ∷ (
      "Reviewer",
      ("article.read", company)
          ∷ ("article.review", company)
          ∷ ("governance.read", company)
          ∷ ("ai.ask", company)
          ∷ [],
    )
    ∷ (
      "Staff",
      ("article.read", company)
          ∷ ("article.create", own)
          ∷ ("article.edit", own)
          ∷ ("ai.ask", company)
          ∷ [],
    )
    ∷ []

-- DEFAULT_ROLE_PERMISSIONS[role].get(key), `none` also where the role is unknown
unfoldable pub default_scope : String → String → Option Scope
unfolding default_role_permissions
default_scope role key = elim (lookup role default_role_permissions) [
  | none ↦ none
  | some permissions ↦ lookup key permissions
]

legacy_roles_for_permission : String → List String
unfolding default_role_permissions
legacy_roles_for_permission permission =
    map (λ entry. entry.0)
      (filter (λ entry. is_some (lookup permission entry.1)) default_role_permissions)

owned_department_names : User → List String
owned_department_names user =
    map (λ m. m.department.name)
      (filter
        (λ m. m.active && m.department.active && m.department.company_domain == user.company_domain)
        user.department_ownerships)

unfoldable pub member_department_names : User → List String
member_department_names user =
    map (λ d. d.name)
      (filter (λ d. d.active && d.company_domain == user.company_domain) user.departments)

abbrev optional : Option String → List String
optional none = []
optional (some name) = name ∷ []

-- Empty names are dropped by the last comprehension of the source.
unfoldable pub article_department_names : Resource → List String
article_department_names r =
    filter (λ name. not (name == ""))
      (map (λ d. d.name) (filter (λ d. d.active) r.departments) ++ optional r.dept)

-- bool(xs & ys)
abbrev overlaps : List String → List String → Bool
overlaps xs ys = any (λ x. elem x ys) xs

abbrev in_scopes : Scope → Bool
in_scopes (other _) = false
in_scopes own = true
in_scopes _ = true

-- requested in {"own", "department", "company"}
abbrev below_global : Scope → Bool
below_global own = true
below_global department = true
below_global company = true
below_global _ = false

abbrev is_own : Scope → Bool
is_own own = true
is_own _ = false

abbrev is_department : Scope → Bool
is_department department = true
is_department _ = false

-- getattr(resource, "company_domain", user.company_domain) == user.company_domain
unfoldable pub same_company : User → Resource → Bool
same_company user r = get_or r.company_domain user.company_domain == user.company_domain

abbrev department_names : Resource → List String
department_names r = map (λ d. d.name) r.departments ++ optional r.dept

-- The tail of `_scope_allows`, where a resource is given.
resource_allows : Scope → Scope → User → Resource → Bool
unfolding same_company owned_department_names
resource_allows company requested user r = below_global requested && same_company user r
resource_allows department requested user r =
    (is_own requested || is_department requested)
    && same_company user r
    && overlaps (department_names r) (owned_department_names user)
resource_allows _ requested user r = is_own requested && r.owner_id == some user.id

-- granted in {requested, "company", "global"}, where `granted` is not "global"
abbrev no_resource_allows : Scope → Scope → Bool
no_resource_allows company requested = below_global requested
no_resource_allows department requested = is_department requested
no_resource_allows own requested = is_own requested
no_resource_allows _ requested = false

unfoldable pub scope_allows : Scope → Scope → User → Option Resource → Bool
unfolding resource_allows
scope_allows (other _) requested user resource = false
scope_allows global requested user resource = in_scopes requested
scope_allows granted requested user none =
    in_scopes requested && no_resource_allows granted requested
scope_allows granted requested user (some r) =
    in_scopes requested && resource_allows granted requested user r

-- The roles that `has_permission` does not skip.
unfoldable pub role_counts : User → Role → Bool
role_counts user role =
    role.active && elem role.company_domain (none ∷ some user.company_domain ∷ [])

abbrev pub assignment_grants : User → String → Option Resource → Scope → RolePermission → Bool
assignment_grants user key resource requested a =
    a.permission == some key && scope_allows a.scope requested user resource

unfoldable pub role_grants : User → String → Option Resource → Scope → Role → Bool
role_grants user key resource requested role =
    role_counts user role && any (assignment_grants user key resource requested) role.permissions

-- The fallback for users created before roles were bootstrapped.
unfoldable pub compatibility_scope : User → String → Option Scope
compatibility_scope user key = elim user.roles [ [] ↦ default_scope user.role key | _ ↦ none ]

unfoldable pub has_permission : User → String → Option Resource → Scope → Bool
has_permission user key resource requested = elim (compatibility_scope user key) [
  | some scope ↦ scope_allows scope requested user resource
  | none ↦ any (role_grants user key resource requested) user.roles
]

-- Hides the department labels of departments that the user is not a member of.
abbrev shown_label : List String → List Department → Option String → Option String
shown_label members [] dept = dept
shown_label members (d ∷ _) dept =
    if any (λ name. elem name members) (optional dept) then dept else some d.name

abbrev privileged_names : List String
privileged_names = "Admin" ∷ "CEO" ∷ []

unfoldable pub has_privileged_role : User → Bool
unfolding role_counts
has_privileged_role user = elim user.roles [
  | [] ↦ elem user.role privileged_names
  | _ ↦ any (λ role. role_counts user role && elem role.name privileged_names) user.roles
]

unfoldable pub has_full_company_article_access : User → Bool
has_full_company_article_access user =
    has_permission user "article.read" none global
    || has_privileged_role user && has_permission user "article.read" none company

unfoldable pub can_access_article_departments : User → Resource → Bool
can_access_article_departments user r =
    has_permission user "article.read" none global
    || has_full_company_article_access user
    || overlaps (member_department_names user) (article_department_names r)

has_narrow_article_access : User → Option Resource → Bool
has_narrow_article_access user resource =
    not (has_permission user "article.read" none company)
    && any (has_permission user "article.read" resource) (own ∷ department ∷ [])

is_global_administrator : User → Bool
is_global_administrator user =
    any (λ role. role.active && role.name == "Admin" && role.company_domain == none) user.roles

-- `has_permission` with no resource and the scope "global", for any of the keys.
holds_global : User → List String → Bool
holds_global user keys = any (λ key. has_permission user key none global) keys

has_global_identity_management : User → Bool
unfolding holds_global
has_global_identity_management user =
    holds_global user ("user.read" ∷ "user.manage" ∷ "role.manage" ∷ "permission.manage" ∷ [])

has_global_connector_management : User → Bool
has_global_connector_management user = has_permission user "connector.manage" none global

has_global_governance_access : User → Bool
has_global_governance_access user = has_permission user "governance.read" none global

has_global_article_access : User → Bool
unfolding holds_global
has_global_article_access user = holds_global user (
    "article.read" ∷ "article.create" ∷ "article.edit" ∷ "article.publish" ∷ "article.delete"
    ∷ "article.review" ∷ [])

pub restrict_article_metadata : User → Resource → Resource
restrict_article_metadata user r =
    if has_permission user "article.read" none global || has_full_company_article_access user
    then r
    else (let members = member_department_names user in
        let visible = filter (λ d. elem d.name members) r.departments in
        record r { departments = visible; dept = shown_label members visible r.dept })

pub rank : Scope → ℕ
rank own = 1
rank department = 2
rank company = 3
rank global = 4
rank (other _) = 0

-- rank.get(result.get(key, ""), 0)
pub held : List (String × Scope) → String → ℕ
unfolding rank
held result key = elim (lookup key result) [ none ↦ 0 | some scope ↦ rank scope ]

pub add_assignment : List (String × Scope) → RolePermission → List (String × Scope)
unfolding held
add_assignment result a = elim a.permission [
  | none ↦ result
  | some key ↦ if ltb (held result key) (rank a.scope) then insert key a.scope result else result
]

pub add_assignments : List (String × Scope) → List RolePermission → List (String × Scope)
add_assignments result [] = result
add_assignments result (a ∷ rest) = add_assignments (add_assignment result a) rest

pub add_roles : User → List (String × Scope) → List Role → List (String × Scope)
add_roles user result [] = result
add_roles user result (role ∷ rest) =
    add_roles user
      (if role_counts user role then add_assignments result role.permissions else result) rest

insert_all : List (String × Scope) → List (String × Scope) → List (String × Scope)
insert_all result [] = result
insert_all result ((key, scope) ∷ rest) = insert_all (insert key scope result) rest

-- The dict `result` of `get_effective_permissions`, before it is listed in the order of its keys.
pub get_effective_permissions : User → List (String × Scope)
unfolding insert_all default_role_permissions
get_effective_permissions user =
    let result = add_roles user [] user.roles in
    elim user.roles [
      | [] ↦ insert_all result (get_or (lookup user.role default_role_permissions) [])
      | _ ↦ result
    ]
