-- ===== src/Rbac/Examples.antt =====
-- A reader of one company, the company's articles, and the theorems on src/domain/rbac.py at them.
use qnsc_kb_backend.Prelude.{
  ◌≡◌, refl, ◌≢◌, ◌↔◌, true, some, [], ◌∷◌, Memᴰ, nat_eq, string_eq, option_eq, lookup,
}
use qnsc_kb_backend.Accounts.{company, Department, RolePermission, Role, User, Resource}
use qnsc_kb_backend.Rbac.{
  has_permission, get_effective_permissions, role_counts, restrict_article_metadata,
  member_department_names, has_full_company_article_access, add_roles, add_assignments,
  add_assignment, compatibility_scope, role_grants, scope_allows, has_privileged_role,
}
use qnsc_kb_backend.Rbac.Grants.{Granted, has_permission_iff_Granted}
use qnsc_kb_backend.Rbac.Metadata.{IsOrdinaryReader}

abbrev finance : Department
finance = record { id = 1; name = "Finance"; company_domain = "acme.vn"; active = true }

abbrev legal : Department
legal = record { id = 2; name = "Legal"; company_domain = "acme.vn"; active = true }

abbrev read_company : RolePermission
read_company = record { permission = some "article.read"; scope = company }

abbrev reader_role : Role
reader_role = record {
  id = 7;
  name = "Reader";
  company_domain = some "acme.vn";
  active = true;
  permissions = read_company ∷ [];
}

abbrev reader : User
reader = record {
  id = 5;
  company_domain = "acme.vn";
  dept = some "Finance";
  role = "Employee";
  active = true;
  departments = finance ∷ [];
  department_ownerships = [];
  roles = reader_role ∷ [];
}

abbrev report : Resource
report = record {
  company_domain = some "acme.vn";
  departments = legal ∷ finance ∷ [];
  dept = some "Legal";
  owner_id = some 9;
}

has_permission_iff_Granted_example :
    (has_permission reader "article.read" (some report) company ≡ true)
    ↔ Granted reader "article.read" (some report) company
has_permission_iff_Granted_example =
    has_permission_iff_Granted reader "article.read" (some report) company

reader_role_counts : role_counts reader reader_role ≡ true
unfolding role_counts
reader_role_counts = refl

reader_has_roles : reader.roles ≢ []
reader_has_roles h = cc h

reader_holds : lookup "article.read" (get_effective_permissions reader) ≡ some company
unfolding get_effective_permissions add_roles role_counts add_assignments add_assignment
reader_holds = refl

reader-IsOrdinaryReader : IsOrdinaryReader reader
unfolding has_permission has_full_company_article_access compatibility_scope role_grants role_counts
    scope_allows has_privileged_role
reader-IsOrdinaryReader = record { not_global = refl; not_full = refl }

shown_finance : Memᴰ finance (restrict_article_metadata reader report).departments
unfolding restrict_article_metadata has_permission compatibility_scope role_grants role_counts
    scope_allows has_full_company_article_access has_privileged_role member_department_names
shown_finance = Memᴰ.head refl
