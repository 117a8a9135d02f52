-- ===== src/Rbac/Effective.antt =====
-- `get_effective_permissions` of src/domain/rbac.py keeps the widest scope of each key.
use qnsc_kb_backend.Prelude.{
  ◌≤◌, String, ◌≡◌, refl, sym, ap, ◌∙◌, ◌≢◌, ◌⊎◌, inl, inr, true, some, List, [], ◌∷◌, Memᴰ, arith,
  if◌then◌else◌, Bool-cases, Option-cases, nat_eq, string_eq, option_eq, List-cases, not-Memᴰ-nil,
  lookup, lookup-insert, eq_iff,
}
use qnsc_kb_backend.Accounts.{Scope, RolePermission, Role, User}
use qnsc_kb_backend.Rbac.{
  rank, held, role_counts, add_assignment, add_assignments, add_roles, get_effective_permissions,
}

held-add_assignment :
    (m : List (String × Scope)) (a : RolePermission) (key : String)
    → held m key ≤ held (add_assignment m a) key
unfolding add_assignment
held-add_assignment m a key = elim (Option-cases a.permission) [
  | inl e ↦ rw e (omega arith)
  | inr (k, e) ↦ ground (arith, lookup-insert k key a.scope m, eq_iff k key)
]

rank-le-held :
    (m : List (String × Scope)) (a : RolePermission) (key : String)
    → a.permission ≡ some key
    → rank a.scope ≤ held (add_assignment m a) key
unfolding add_assignment
rank-le-held m a key e = ground (arith, lookup-insert key key a.scope m, eq_iff key key)

held-add_assignments :
    (m : List (String × Scope)) (rest : List RolePermission) (key : String)
    → held m key ≤ held (add_assignments m rest) key
unfolding add_assignments
held-add_assignments m [] key = omega arith
held-add_assignments m (a ∷ rest) key =
    omega (arith, held-add_assignment m a key, held-add_assignments (add_assignment m a) rest key)

rank-le-add_assignments :
    (m : List (String × Scope)) (rest : List RolePermission) (a : RolePermission) (key : String)
    → Memᴰ a rest
    → a.permission ≡ some key
    → rank a.scope ≤ held (add_assignments m rest) key
unfolding add_assignments
rank-le-add_assignments m [] a key i e = elim i [ ]
rank-le-add_assignments m (b ∷ rest) a key (Memᴰ.head p) e = omega (
  arith,
  rank-le-held m b key (ap (λ (c : RolePermission). c.permission) (sym p) ∙ e),
  held-add_assignments (add_assignment m b) rest key,
  ap (λ (c : RolePermission). rank c.scope) p,
)
rank-le-add_assignments m (b ∷ rest) a key (Memᴰ.tail i) e =
    rank-le-add_assignments (add_assignment m b) rest a key i e

module _ (user : User) where
  abbrev after_role : List (String × Scope) → Role → List (String × Scope)
  after_role m role = if role_counts user role then add_assignments m role.permissions else m

  held-add_roles :
      (m : List (String × Scope)) (roles : List Role) (key : String)
      → held m key ≤ held (add_roles user m roles) key
  unfolding add_roles
  held-add_roles m [] key = omega arith
  held-add_roles m (role ∷ roles) key = ground (
    arith,
    held-add_assignments m role.permissions key,
    held-add_roles (after_role m role) roles key,
  )

  rank-le-add_roles :
      (m : List (String × Scope)) (roles : List Role) (role : Role) (a : RolePermission)
      (key : String)
      → Memᴰ role roles
      → role_counts user role ≡ true
      → Memᴰ a role.permissions
      → a.permission ≡ some key
      → rank a.scope ≤ held (add_roles user m roles) key
  unfolding add_roles
  rank-le-add_roles m [] role a key i live j e = elim i [ ]
  rank-le-add_roles m (r ∷ roles) role a key (Memᴰ.head p) live j e =
      let live' : role_counts user r ≡ true = rw (← p) live in
      let j' : Memᴰ a r.permissions = rw (← p) j in
      ground (
        arith,
        rank-le-add_assignments m r.permissions a key j' e,
        held-add_roles (add_assignments m r.permissions) roles key,
      )
  rank-le-add_roles m (r ∷ roles) role a key (Memᴰ.tail i) live j e =
      rank-le-add_roles (after_role m r) roles role a key i live j e

-- Where a scope in the dict comes from.
abbrev FromAssignment : List RolePermission → String → Scope → Type 0
FromAssignment rest key scope =
    (a : RolePermission) × Memᴰ a rest × (a.permission ≡ some key) × (a.scope ≡ scope)

abbrev pub FromRole : User → List Role → String → Scope → Type 0
FromRole user roles key scope =
    (role : Role) × Memᴰ role roles
    × (role_counts user role ≡ true)
    × FromAssignment role.permissions key scope

lookup-add_assignment :
    (m : List (String × Scope)) (a : RolePermission) (key : String) (scope : Scope)
    → lookup key (add_assignment m a) ≡ some scope
    → (lookup key m ≡ some scope) ⊎ ((a.permission ≡ some key) × (a.scope ≡ scope))
unfolding add_assignment
lookup-add_assignment m a key scope h = elim (Option-cases a.permission) [
  | inl e ↦ inl (rw (e, add_assignment) at h)
  | inr p ↦ ground (arith, lookup-insert p.0 key a.scope m, eq_iff p.0 key, p.1)
]

lookup-add_assignments :
    (m : List (String × Scope)) (rest : List RolePermission) (key : String) (scope : Scope)
    → lookup key (add_assignments m rest) ≡ some scope
    → (lookup key m ≡ some scope) ⊎ FromAssignment rest key scope
unfolding add_assignments
lookup-add_assignments m [] key scope h = inl h
lookup-add_assignments m (a ∷ rest) key scope h =
    elim (lookup-add_assignments (add_assignment m a) rest key scope h) [
      | inr (b, i, p, q) ↦ inr (b, Memᴰ.tail i, p, q)
      | inl earlier ↦ elim (lookup-add_assignment m a key scope earlier) [
        | inl before ↦ inl before
        | inr (p, q) ↦ inr (a, Memᴰ.head refl, p, q)
      ]
    ]

lookup-add_roles :
    (user : User) (m : List (String × Scope)) (roles : List Role) (key : String) (scope : Scope)
    → lookup key (add_roles user m roles) ≡ some scope
    → (lookup key m ≡ some scope) ⊎ FromRole user roles key scope
unfolding add_roles
lookup-add_roles user m [] key scope h = inl h
lookup-add_roles user m (role ∷ roles) key scope h =
    elim (lookup-add_roles user (after_role user m role) roles key scope h) [
      | inr (r, i, live, from) ↦ inr (r, Memᴰ.tail i, live, from)
      | inl earlier ↦ elim (Bool-cases (role_counts user role)) [
        | inr off ↦ inl (rw off at earlier)
        | inl live ↦
            elim (lookup-add_assignments m role.permissions key scope (rw live at earlier)) [
              | inl before ↦ inl before
              | inr from ↦ inr (role, Memᴰ.head refl, live, from)
            ]
      ]
    ]

get_effective_permissions_lem :
    (user : User) (role : Role) (rest : List Role)
    → user.roles ≡ role ∷ rest
    → get_effective_permissions user ≡ add_roles user [] user.roles
unfolding get_effective_permissions
get_effective_permissions_lem user role rest e = simp (e, get_effective_permissions)

-- For a user with role rows, each assignment of a live role ranks at most as high as the scope that
-- is listed for its key.
pub rank-le-get_effective_permissions :
    (user : User) (role : Role) (a : RolePermission) (key : String)
    → Memᴰ role user.roles
    → role_counts user role ≡ true
    → Memᴰ a role.permissions
    → a.permission ≡ some key
    → rank a.scope ≤ held (get_effective_permissions user) key
rank-le-get_effective_permissions user role a key i live j k = elim (List-cases user.roles) [
  | inl e ↦ absurd (not-Memᴰ-nil (rw e at i))
  | inr p ↦
      rw (get_effective_permissions_lem user p.0 p.1 p.2)
        (rank-le-add_roles user [] user.roles role a key i live j k)
]

from_nothing :
    (user : User) (key : String) (scope : Scope)
    → (lookup key [] ≡ some scope) ⊎ FromRole user user.roles key scope
    → FromRole user user.roles key scope
from_nothing user key scope (inl q) = absurd (cc q)
from_nothing user key scope (inr from) = from

-- For a user with role rows, a listed scope is the scope of an assignment of a live role.
pub get_effective_permissions-FromRole :
    (user : User) (key : String) (scope : Scope)
    → user.roles ≢ []
    → lookup key (get_effective_permissions user) ≡ some scope
    → FromRole user user.roles key scope
get_effective_permissions-FromRole user key scope h q = elim (List-cases user.roles) [
  | inl e ↦ absurd (h e)
  | inr p ↦ from_nothing user key scope (
      lookup-add_roles user [] user.roles key scope
        (rw (get_effective_permissions_lem user p.0 p.1 p.2) at q))
]
