-- ===== src/Rbac/Grants.antt =====
-- `has_permission` of src/domain/rbac.py against the grants that a user holds.
use qnsc_kb_backend.Prelude.{
  String, ◌≡◌, ◌↔◌, ◌⊎◌, inl, inr, true, Option, none, some, List, [], ◌∷◌, Memᴰ, arith, &&-eq-true,
  any, any-Memᴰ, any_of_Memᴰ, ◌==◌, nat_eq, string_eq, option_eq, List-cases, not-Memᴰ-nil,
  option_beq_iff,
}
use qnsc_kb_backend.Accounts.{Scope, RolePermission, Role, User, Resource}
use qnsc_kb_backend.Rbac.{
  default_scope, scope_allows, role_counts, compatibility_scope, assignment_grants, role_grants,
  has_permission,
}

-- A role that is live for the user: active, and global or of the user's own company.
pub record IsLive (user : User) (role : Role) : Type 0 where
  pub switched_on : role.active ≡ true
  pub tenant : (role.company_domain ≡ none) ⊎ (role.company_domain ≡ some user.company_domain)

-- Where a permission comes from: the default of the user's role name, for a user with no role
-- row, or an assignment of a live role.
pub data Granted (user : User) (key : String) (resource : Option Resource) (requested : Scope)
    : Type 0 where
  by_default :
      (scope : Scope)
      → user.roles ≡ []
      → default_scope user.role key ≡ some scope
      → scope_allows scope requested user resource ≡ true
      → Granted user key resource requested
  by_role :
      (role : Role) (a : RolePermission)
      → Memᴰ role user.roles
      → IsLive user role
      → Memᴰ a role.permissions
      → a.permission ≡ some key
      → scope_allows a.scope requested user resource ≡ true
      → Granted user key resource requested

role_counts-IsLive : (user : User) (role : Role) → role_counts user role ≡ true → IsLive user role
unfolding role_counts
role_counts-IsLive user role h = record {
  switched_on = ground arith;
  tenant = ground (
    arith,
    option_beq_iff none role.company_domain,
    option_beq_iff (some user.company_domain) role.company_domain,
  );
}

IsLive-role_counts : (user : User) (role : Role) → IsLive user role → role_counts user role ≡ true
unfolding role_counts
IsLive-role_counts user role live = ground (
  arith,
  option_beq_iff none role.company_domain,
  option_beq_iff (some user.company_domain) role.company_domain,
)

module _ (user : User) (key : String) (resource : Option Resource) (requested : Scope) where
  from_default :
      user.roles ≡ []
      → has_permission user key resource requested ≡ true
      → (scope : Scope) × (default_scope user.role key ≡ some scope)
        × (scope_allows scope requested user resource ≡ true)
  unfolding has_permission compatibility_scope
  from_default e h = ground arith

  from_roles :
      (role : Role) (rest : List Role)
      → user.roles ≡ role ∷ rest
      → has_permission user key resource requested
        ≡ any (role_grants user key resource requested) user.roles
  unfolding has_permission compatibility_scope
  from_roles role rest e = simp (e, has_permission, compatibility_scope)

  assignment_of :
      (role : Role)
      → Memᴰ role user.roles
      → role_grants user key resource requested role ≡ true
      → Granted user key resource requested
  unfolding role_grants
  assignment_of role m h =
      let (live, g) = &&-eq-true (role_counts user role) _ h in
      let (a, n, p) = any-Memᴰ _ role.permissions g in
      let (k, q) = &&-eq-true (a.permission == some key) _ p in
      by_role role a m (role_counts-IsLive user role live) n
        ((option_beq_iff a.permission (some key)).0 k) q

  has_permission-Granted :
      has_permission user key resource requested ≡ true → Granted user key resource requested
  has_permission-Granted h = elim (List-cases user.roles) [
    | inl e ↦ let (scope, d, q) = from_default e h in by_default scope e d q
    | inr p ↦
        let (role, m, g) = any-Memᴰ _ user.roles (rw (from_roles p.0 p.1 p.2) at h) in
        assignment_of role m g
  ]

  Granted-has_permission :
      Granted user key resource requested → has_permission user key resource requested ≡ true
  unfolding has_permission compatibility_scope role_grants
  Granted-has_permission (by_default scope e d q) = ground arith
  Granted-has_permission (by_role role a m live n k h) = elim (List-cases user.roles) [
    | inl e ↦ absurd (not-Memᴰ-nil (rw e at m))
    | inr p ↦ rw (from_roles p.0 p.1 p.2) (
        any_of_Memᴰ _ user.roles m (
          ground (
            arith,
            IsLive-role_counts user role live,
            option_beq_iff a.permission (some key),
            any_of_Memᴰ (assignment_grants user key resource requested) role.permissions n,
          )))
  ]

-- The check accepts exactly the users who hold a grant whose scope covers the request.
pub has_permission_iff_Granted :
    (user : User) (key : String) (resource : Option Resource) (requested : Scope)
    → (has_permission user key resource requested ≡ true) ↔ Granted user key resource requested
has_permission_iff_Granted user key resource requested = (
  has_permission-Granted user key resource requested,
  Granted-has_permission user key resource requested,
)
