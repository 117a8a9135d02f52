-- ===== src/Accounts.antt =====
-- The rows that authorization reads: src/models/user.py, src/models/rbac.py and the columns of
-- src/models/article.py that src/domain/rbac.py and src/domain/permissions.py look at.
-- A UUID is a number; a text column is a `String`; a nullable column is an `Option`.
use qnsc_kb_backend.Prelude.{ℕ, String, Bool, Option, List, nat_eq, string_eq, option_eq}

-- The `scope` column of a role permission; `other` is any text outside SCOPES.
pub data Scope : Type 0 where
  own department company global : Scope
  other : String → Scope

pub record Department : Type 0 where
  pub id : ℕ
  pub name : String
  pub company_domain : String
  pub active : Bool

pub record DepartmentManager : Type 0 where
  pub department : Department
  pub active : Bool

-- `permission` holds the key of the permission row, if the relationship is loaded.
pub record RolePermission : Type 0 where
  pub permission : Option String
  pub scope : Scope

pub record Role : Type 0 where
  pub id : ℕ
  pub name : String
  pub company_domain : Option String
  pub active : Bool
  pub permissions : List RolePermission

pub record User : Type 0 where
  pub id : ℕ
  pub company_domain : String
  pub dept : Option String
  pub role : String
  pub active : Bool
  pub departments : List Department
  pub department_ownerships : List DepartmentManager
  pub roles : List Role

-- What `getattr` reads of a resource. `company_domain` is `none` where the object has no such
-- attribute, and `owner_id` where it has none or the column is null.
pub record Resource : Type 0 where
  pub company_domain : Option String
  pub departments : List Department
  pub dept : Option String
  pub owner_id : Option ℕ

pub record UserPermission : Type 0 where
  pub user_id : ℕ
  pub effect : String
  pub source : Option String

-- An article; `source_systems` are the `source_system` columns of its `sources`.
pub record Article : Type 0 where
  pub resource : Resource
  pub status : String
  pub lifecycle_status : Option String
  pub visibility : String
  pub sensitivity : String
  pub user_permissions : List UserPermission
  pub source_systems : List String
