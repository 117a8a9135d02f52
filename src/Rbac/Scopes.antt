-- ===== src/Rbac/Scopes.antt =====
-- `_scope_allows` of src/domain/rbac.py: what a granted scope covers.
use qnsc_kb_backend.Prelude.{
  String, ◌≡◌, inl, inr, true, some, List, [], ◌∷◌, arith, Option-cases, any, nat_eq, string_eq,
  option_eq,
}
use qnsc_kb_backend.Accounts.{Scope, own, RolePermission, Role, User, Resource}
use qnsc_kb_backend.Rbac.{
  scope_allows, compatibility_scope, assignment_grants, role_grants, has_permission,
}

scope_allows-own :
    (granted requested : Scope) (user : User) (r : Resource)
    → scope_allows granted requested user (some r) ≡ true
    → scope_allows granted own user (some r) ≡ true
unfolding scope_allows
scope_allows-own own requested user r h = ground arith
scope_allows-own _ requested user r h = ground arith

module _ (user : User) (key : String) (requested : Scope) (r : Resource) where
  assignments-own :
      (rest : List RolePermission)
      → any (assignment_grants user key (some r) requested) rest ≡ true
      → any (assignment_grants user key (some r) own) rest ≡ true
  assignments-own [] h = h
  assignments-own (a ∷ rest) h =
      ground (arith, assignments-own rest, scope_allows-own a.scope requested user r)

  role_grants-own :
      (role : Role)
      → role_grants user key (some r) requested role ≡ true
      → role_grants user key (some r) own role ≡ true
  unfolding role_grants
  role_grants-own role h = ground (arith, assignments-own role.permissions)

  roles-own :
      (roles : List Role)
      → any (role_grants user key (some r) requested) roles ≡ true
      → any (role_grants user key (some r) own) roles ≡ true
  roles-own [] h = h
  roles-own (role ∷ roles) h = ground (arith, roles-own roles, role_grants-own role)

  -- On a resource, a permission at any scope is one at scope "own".
  pub has_permission-own :
      has_permission user key (some r) requested ≡ true
      → has_permission user key (some r) own ≡ true
  unfolding has_permission
  has_permission-own h = elim (Option-cases (compatibility_scope user key)) [
    | inl e ↦ rw (e, has_permission) (roles-own user.roles (rw (e, has_permission) at h))
    | inr p ↦
        rw (p.1, has_permission)
          (scope_allows-own p.0 requested user r (rw (p.1, has_permission) at h))
  ]
