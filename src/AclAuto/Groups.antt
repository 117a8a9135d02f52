-- ===== src/AclAuto/Groups.antt =====
-- Which departments src/domain/acl_auto.py grants.
use mathlib.Core.Path.{subst}
use qnsc_kb_backend.Prelude.{
  ℕ, ◌≡◌, refl, ◌⊎◌, inl, inr, Bool, true, false, Option, none, some, List, [], ◌∷◌, map, Memᴰ,
  if◌then◌else◌, Bool-cases, Option-cases, &&-eq-true, any, filter, Memᴰ-filter, Eq, nat_eq,
  string_eq, option_eq, elem, Each, Each-append, Each-map, Each-Memᴰ,
}
use qnsc_kb_backend.Text.{Text, text_eq, is_blank}
use qnsc_kb_backend.AclAuto.{
  Principal, Department, User, AutoResolution, unresolved, matching, match_department, only,
  normalize_group_name,
}
use qnsc_kb_backend.AclAuto.Resolution.{
  add, add_all, company_departments, is_pending, is_company, settle_group, settle_groups, groups_of,
  resolve_pending, auto_resolve, enabled,
}
use qnsc_kb_backend.AclAuto.Passes.{settle_company-keeps, settle_people-department_ids}

module _ {A : Type 0} ⦃keys : Eq A⦄ (P : A → Type 0) where
  Each-add : (x : A) (xs : List A) → P x → Each P xs → Each P (add x xs)
  unfolding add
  Each-add x xs p ps = elim (Bool-cases (elem x xs)) [
    | inl e ↦ rw e ps
    | inr e ↦ rw e (Each-append P xs (x ∷ []) ps (p, tt))
  ]

  Each-add_all : (ys xs : List A) → Each P ys → Each P xs → Each P (add_all ys xs)
  unfolding add_all
  Each-add_all [] xs _ ps = ps
  Each-add_all (y ∷ ys) xs (q, qs) ps = Each-add_all ys (add y xs) qs (Each-add y xs q ps)

-- A department with an id and a name among those of the company.
module _ (departments : List Department) (company : Text) where
  unfoldable pub IsDepartment : ℕ → Type 0
  IsDepartment id =
      (d : Department) × Memᴰ d departments
      × (d.active ≡ true)
      × (d.company_domain ≡ company)
      × (d.id ≡ id)

  company_departments-IsDepartment :
      Each (λ entry. IsDepartment entry.0) (company_departments departments company)
  unfolding company_departments IsDepartment
  company_departments-IsDepartment =
      Each-map (λ entry. IsDepartment entry.0) _ _
        (λ d m.
          let (n, e) = Memᴰ-filter _ departments m in
          let (c, a) = &&-eq-true _ _ e in
          (d, n, a, (text_eq.same_iff d.company_domain company).0 c, refl))

only-eq : (ids : List ℕ) {id : ℕ} → only ids ≡ some id → ids ≡ id ∷ []
unfolding only
only-eq [] e = absurd (cc e)
only-eq (x ∷ []) e = cc e
only-eq (x ∷ y ∷ rest) e = absurd (cc e)

found_only : (b : Bool) (o : Option ℕ) {id : ℕ} → (if b then none else o) ≡ some id → o ≡ some id
found_only true o e = absurd (cc e)
found_only false o e = e

match_department-matching :
    (fold : Text → Text) (group_name : Text) (known : List (ℕ × Text)) {id : ℕ}
    → match_department fold group_name known ≡ some id
    → matching fold (normalize_group_name fold group_name) known ≡ id ∷ []
unfolding match_department
match_department-matching fold group_name known e =
    only-eq _ (found_only (is_blank (normalize_group_name fold group_name)) _ e)

module _ (fold : Text → Text) (departments : List Department) (company : Text)
    (pending : List Principal) where
  -- The department is an active one of the company; and a pending principal stands for the whole
  -- company, or the name of a pending group is that of this department alone.
  unfoldable pub IsGranted : ℕ → Type 0
  IsGranted id =
      IsDepartment departments company id
      × ((any is_company pending ≡ true)
          ⊎ ((p : Principal) × Memᴰ p (groups_of pending)
              × (matching fold (normalize_group_name fold p.principal_name)
                    (company_departments departments company)
                  ≡ id ∷ [])))

  matched-IsDepartment :
      (wanted : Text) (known : List (ℕ × Text)) {id : ℕ}
      → Each (λ entry. IsDepartment departments company entry.0) known
      → matching fold wanted known ≡ id ∷ []
      → IsDepartment departments company id
  unfolding matching
  matched-IsDepartment wanted known h e =
      let each =
        Each-map (IsDepartment departments company) (λ d. d.0) _
          (λ d m. Each-Memᴰ _ known h (Memᴰ-filter _ known m).0) in
      (subst (Each (IsDepartment departments company)) e each).0

  settle_group-IsGranted :
      (p : Principal) (r : AutoResolution)
      → Memᴰ p (groups_of pending)
      → Each IsGranted r.department_ids
      → Each IsGranted
          (settle_group fold (company_departments departments company) p r).department_ids
  unfolding settle_group IsGranted
  settle_group-IsGranted p r m ps =
      let known = company_departments departments company in
      elim (Option-cases (match_department fold p.principal_name known)) [
        | inl e ↦ rw (settle_group, e) ps
        | inr (id, e) ↦
            let found = match_department-matching fold p.principal_name known e in
            rw (settle_group, e)
              (Each-add IsGranted id _
                (
                  matched-IsDepartment _ known
                      (company_departments-IsDepartment departments company) found,
                  inr (p, m, found),
                )
                ps)
      ]

  settle_groups-IsGranted :
      (groups : List Principal) (r : AutoResolution)
      → ((p : Principal) → Memᴰ p groups → Memᴰ p (groups_of pending))
      → Each IsGranted r.department_ids
      → Each IsGranted
          (settle_groups fold (company_departments departments company) groups r).department_ids
  unfolding settle_groups
  settle_groups-IsGranted [] r _ ps = ps
  settle_groups-IsGranted (p ∷ rest) r sub ps =
      settle_groups-IsGranted rest _ (λ q m. sub q (Memᴰ.tail m))
        (settle_group-IsGranted p r (sub p (Memᴰ.head refl)) ps)

  all-IsGranted :
      any is_company pending ≡ true
      → Each IsGranted (map (λ d. d.0) (company_departments departments company))
  unfolding IsGranted
  all-IsGranted c =
      Each-map IsGranted (λ d. d.0) _
        (λ d m. (Each-Memᴰ _ _ (company_departments-IsDepartment departments company) m, inl c))

module _ (fold : Text → Text) (lower : Text → Text) (addresses : Text → List Text)
    (departments : List Department) (users : List User) (company : Text)
    (principals : List Principal) (already_resolved : List (Text × Text))
    (matched_users : List (Text × ℕ)) where
  -- Each department that is granted is an active one of the connector's company; and a principal
  -- without an explicit mapping stands for the whole company, or the name of a group without one is
  -- that of this department alone.
  pub auto_resolve-IsGranted :
      (setting : Bool) (config : Option Bool)
      → Each
          (IsGranted fold departments company (filter (is_pending already_resolved) principals))
          (auto_resolve fold lower addresses setting config departments users company principals
            already_resolved matched_users).department_ids
  unfolding auto_resolve resolve_pending
  auto_resolve-IsGranted setting config = elim (Bool-cases (enabled setting config)) [
    | inr e ↦ rw e tt
    | inl e ↦
        let pending = filter (is_pending already_resolved) principals in
        let granted =
          settle_groups-IsGranted fold departments company pending (groups_of pending) _ (λ p m. m)
            (rw (settle_people-department_ids addresses)
              (rw (settle_company-keeps pending unresolved).1 tt)) in
        elim (Bool-cases (any is_company pending)) [
          | inl c ↦
              rw (e, c)
                (Each-add_all (IsGranted fold departments company pending) _ _
                  (all-IsGranted fold departments company pending c) granted)
          | inr c ↦ rw (e, c) granted
        ]
  ]
