-- ===== src/Rbac/Tenancy.antt =====
-- Tenant isolation of src/domain/rbac.py.
use qnsc_kb_backend.Prelude.{
  String, ◌≡◌, ◌⊎◌, inl, inr, true, false, none, some, List, [], ◌∷◌, arith, Option-cases, any,
  nat_eq, string_eq, option_eq, option_beq_iff,
}
use qnsc_kb_backend.Accounts.{Scope, own, global, RolePermission, Role, User, Resource}
use qnsc_kb_backend.Rbac.{
  same_company, scope_allows, compatibility_scope, assignment_grants, role_grants, has_permission,
}

abbrev OwnsIt : User → Scope → Resource → Type 0
OwnsIt user requested r = (requested ≡ own) × (r.owner_id ≡ some user.id)

module _ (user : User) (key : String) (requested : Scope) (r : Resource)
    (foreign : same_company user r ≡ false) where
  scope_allows-foreign :
      (granted : Scope)
      → scope_allows granted requested user (some r) ≡ true
      → (scope_allows granted global user none ≡ true) ⊎ OwnsIt user requested r
  unfolding scope_allows
  scope_allows-foreign own h = ground (arith, option_beq_iff r.owner_id (some user.id))
  scope_allows-foreign _ h = ground arith

  assignments-foreign :
      (rest : List RolePermission)
      → any (assignment_grants user key (some r) requested) rest ≡ true
      → (any (assignment_grants user key none global) rest ≡ true) ⊎ OwnsIt user requested r
  assignments-foreign [] h = absurd (cc h)
  assignments-foreign (a ∷ rest) h =
      ground (arith, assignments-foreign rest, scope_allows-foreign a.scope)

  role_grants-foreign :
      (role : Role)
      → role_grants user key (some r) requested role ≡ true
      → (role_grants user key none global role ≡ true) ⊎ OwnsIt user requested r
  unfolding role_grants
  role_grants-foreign role h = ground (arith, assignments-foreign role.permissions)

  roles-foreign :
      (roles : List Role)
      → any (role_grants user key (some r) requested) roles ≡ true
      → (any (role_grants user key none global) roles ≡ true) ⊎ OwnsIt user requested r
  roles-foreign [] h = absurd (cc h)
  roles-foreign (role ∷ roles) h = ground (arith, roles-foreign roles, role_grants-foreign role)

  -- On a resource of another company, a permission comes from a global grant, unless the user
  -- owns the resource and the requested scope is "own".
  pub has_permission-foreign :
      has_permission user key (some r) requested ≡ true
      → (has_permission user key none global ≡ true) ⊎ OwnsIt user requested r
  unfolding has_permission
  has_permission-foreign h = elim (Option-cases (compatibility_scope user key)) [
    | inl e ↦ rw (e, has_permission) (roles-foreign user.roles (rw (e, has_permission) at h))
    | inr p ↦ rw (p.1, has_permission) (scope_allows-foreign p.0 (rw (p.1, has_permission) at h))
  ]
