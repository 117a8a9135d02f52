-- ===== src/Rbac/Metadata.antt =====
-- `restrict_article_metadata` of src/domain/rbac.py.
use qnsc_kb_backend.Prelude.{
  String, ◌≡◌, refl, true, false, none, some, List, ◌∷◌, Memᴰ, arith, filter, Memᴰ-filter, nat_eq,
  string_eq, option_eq, elem, elem-Memᴰ, Memᴰ-elem,
}
use qnsc_kb_backend.Accounts.{Department, User, Resource}
use qnsc_kb_backend.Rbac.{
  has_permission, has_full_company_article_access, member_department_names,
  restrict_article_metadata,
}
use qnsc_kb_backend.Accounts.{global}

-- The user is neither a global reader nor an Admin or CEO with company-wide access.
pub record IsOrdinaryReader (user : User) : Type 0 where
  pub not_global : has_permission user "article.read" none global ≡ false
  pub not_full : has_full_company_article_access user ≡ false

module _ (user : User) (r : Resource) (ordinary : IsOrdinaryReader user) where
  departments-restrict :
      (restrict_article_metadata user r).departments
      ≡ filter (λ d. elem d.name (member_department_names user)) r.departments
  unfolding restrict_article_metadata
  departments-restrict = ground arith

  -- Every department that an ordinary reader is shown is one that the article has and the reader
  -- is a member of.
  pub restrict-shows_members :
      (d : Department)
      → Memᴰ d (restrict_article_metadata user r).departments
      → Memᴰ d r.departments × Memᴰ d.name (member_department_names user)
  restrict-shows_members d m =
      let (i, e) = Memᴰ-filter _ r.departments (rw departments-restrict at m) in
      (i, elem-Memᴰ d.name (member_department_names user) e)

  filter-all :
      (d : Department) (rest : List Department)
      → (restrict_article_metadata user r).departments ≡ d ∷ rest
      → elem d.name (member_department_names user) ≡ true
  filter-all d rest e =
      Memᴰ-elem d.name (member_department_names user)
        (restrict-shows_members d (rw e (Memᴰ.head refl))).1

  -- Where an ordinary reader is shown a department at all, the primary label too is one of the
  -- reader's own departments.
  restrict-labels_member :
      (d : Department) (rest : List Department) (name : String)
      → (restrict_article_metadata user r).departments ≡ d ∷ rest
      → (restrict_article_metadata user r).dept ≡ some name
      → Memᴰ name (member_department_names user)
  unfolding restrict_article_metadata
  restrict-labels_member d rest name e q =
      elem-Memᴰ name (member_department_names user) (ground (arith, filter-all d rest e))
