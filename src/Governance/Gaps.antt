-- ===== src/Governance/Gaps.antt =====
-- The gaps that readers reported: `list_gaps`, `assign_gap` and `dismiss_gap` of
-- src/domain/governance.py with the queries of src/repositories/governance.py. `fold` stands for lower
-- case, `trim` for `.strip()`; the rows are in the order of the query, and a company that is
-- empty filters nothing.
use qnsc_kb_backend.Prelude.{
  ℕ, String, ◌≡◌, refl, ap, ◌≢◌, inl, inr, Bool, true, false, not, ◌&&◌, ◌||◌, Option, none, some,
  List, map, nat_beq, if◌then◌else◌, Option-cases, &&-eq-true, ||-eq-true, take, filter, ◌==◌,
  nat_eq, string_eq, option_eq, find, find-Memᴰ, eq_iff,
}
use qnsc_kb_backend.Accounts.{User, Department, company, global}
use qnsc_kb_backend.Rbac.{has_permission}
use qnsc_kb_backend.Governance.{Result, ok, err, ◌>>=◌, ◌>>◌, raise_if, forbidden, not_found}
use qnsc_kb_backend.Governance.Guards.{raise_if_ok, >>=-eq-ok, ok_eq}
use qnsc_kb_backend.Governance.Selection.{resolve_active_department}

pub record Gap : Type 0 where
  pub id : ℕ
  pub company_domain : String
  pub dept : Option String
  pub status : String

-- The company that the queries are held to; a global reader's are not.
pub gap_company : User → Option String
gap_company user =
    if has_permission user "governance.read" none global then none else some user.company_domain

pub is_of_company : Option String → Gap → Bool
is_of_company none gap = true
is_of_company (some company_domain) gap =
    company_domain == "" || gap.company_domain == company_domain

pub list_gaps : User → Option String → List Gap → Result (List Gap)
unfolding gap_company is_of_company
list_gaps user status rows = do
  raise_if (not (has_permission user "governance.read" none company)) forbidden
  ok (
      take 500 (
        filter
          (λ g.
            elim status [ none ↦ true | some s ↦ g.status == s ]
            && is_of_company (gap_company user) g)
          rows))

-- The gap where the user's scope holds it.
pub get_gap : User → ℕ → List Gap → Result Gap
unfolding gap_company is_of_company
get_gap user gap_id rows = do
  raise_if (not (has_permission user "governance.read" none company)) forbidden
  elim (find (λ g. nat_beq g.id gap_id && is_of_company (gap_company user) g) rows) [
    | none ↦ err not_found
    | some gap ↦ ok gap
  ]

pub save : Gap → List Gap → List Gap
save gap rows = map (λ g. if nat_beq g.id gap.id then gap else g) rows

-- The gap as it is stored, and the table.
pub assign_gap :
    (String → String)
    → (String → String)
    → List Department
    → User
    → ℕ
    → String
    → List Gap
    → Result (Gap × List Gap)
unfolding get_gap save
assign_gap fold trim departments user gap_id dept rows = do
  gap ← get_gap user gap_id rows
  department ← resolve_active_department fold trim departments gap.company_domain dept
  let assigned = record gap { dept = some department.name; status = "assigned" }
  ok (assigned, save assigned rows)

pub dismiss_gap : User → ℕ → List Gap → Result (Gap × List Gap)
unfolding get_gap save
dismiss_gap user gap_id rows = do
  gap ← get_gap user gap_id rows
  let dismissed = record gap { status = "dismissed" }
  ok (dismissed, save dismissed rows)

get_gap-same_company :
    (user : User) (gap_id : ℕ) (rows : List Gap) (gap : Gap)
    → user.company_domain ≢ ""
    → has_permission user "governance.read" none global ≡ false
    → get_gap user gap_id rows ≡ ok gap
    → gap.company_domain ≡ user.company_domain
unfolding get_gap gap_company is_of_company
get_gap-same_company user gap_id rows gap n e h =
    let (_, h1) = raise_if_ok _ _ _ h in
    elim (Option-cases
      (find (λ g. nat_beq g.id gap_id && is_of_company (gap_company user) g) rows)) [
        | inl m ↦ absurd (cc (rw (m) at h1))
        | inr q ↦
            let (_, k) =
              find-Memᴰ (λ g. nat_beq g.id gap_id && is_of_company (gap_company user) g) rows q.0
                q.1 in
            let same : q.0 ≡ gap = ok_eq q.0 gap (rw (q.1) at h1) in
            let (_, c) =
              &&-eq-true (nat_beq q.0.id gap_id) (is_of_company (gap_company user) q.0) k in
            let d : (user.company_domain == "" || q.0.company_domain == user.company_domain)
                ≡ true =
              rw (gap_company, e) at c in
            elim (||-eq-true (user.company_domain == "") _ d) [
              | inl z ↦ absurd (n ((eq_iff user.company_domain "").0 z))
              | inr z ↦ rw (← same) ((eq_iff q.0.company_domain user.company_domain).0 z)
            ]
      ]

-- The gap that a user assigns is one of their company, unless they read governance globally; it becomes
-- assigned and stays with its company.
pub assign_gap-same_company :
    (fold trim : String → String) (departments : List Department) (user : User) (gap_id : ℕ)
    (dept : String) (rows rows' : List Gap) (gap : Gap)
    → user.company_domain ≢ ""
    → has_permission user "governance.read" none global ≡ false
    → assign_gap fold trim departments user gap_id dept rows ≡ ok (gap, rows')
    → (gap.company_domain ≡ user.company_domain) × (gap.status ≡ "assigned")
unfolding assign_gap
assign_gap-same_company fold trim departments user gap_id dept rows rows' gap n e h =
    let (found, f, h1) = >>=-eq-ok (get_gap user gap_id rows) _ h in
    let (department, _, h2) =
      >>=-eq-ok (resolve_active_department fold trim departments found.company_domain dept) _ h1 in
    let q = ap (λ (x : Gap × List Gap). x.0) (ok_eq _ _ h2) in
    rw (← q) (get_gap-same_company user gap_id rows found n e f, refl)
