-- ===== src/AclAuto/Passes.antt =====
-- What each pass of `auto_resolve` in src/domain/acl_auto.py leaves as it is.
use qnsc_kb_backend.Prelude.{
  ℕ, ◌≡◌, refl, ◌∙◌, inl, inr, List, [], ◌∷◌, Bool-cases, Option-cases, nat_eq, string_eq,
  option_eq,
}
use qnsc_kb_backend.Text.{Text, text_eq}
use qnsc_kb_backend.AclAuto.{Principal, AutoResolution, match_department}
use qnsc_kb_backend.AclAuto.Resolution.{
  emails_of, is_company, is_ignored, settle_whole, settle_company, first_hit, settle_person,
  settle_people, settle_group, settle_groups,
}

settle_whole-keeps :
    (p : Principal) (r : AutoResolution)
    → ((settle_whole p r).users ≡ r.users) × ((settle_whole p r).department_ids ≡ r.department_ids)
unfolding settle_whole
settle_whole-keeps p r = elim (Bool-cases (is_company p)) [
  | inl e ↦ rw (settle_whole, e) (refl, refl)
  | inr e ↦ elim (Bool-cases (is_ignored p)) [
    | inl i ↦ rw (settle_whole, e, i) (refl, refl)
    | inr i ↦ rw (settle_whole, e, i) (refl, refl)
  ]
]

pub settle_company-keeps :
    (pending : List Principal) (r : AutoResolution)
    → ((settle_company pending r).users ≡ r.users)
      × ((settle_company pending r).department_ids ≡ r.department_ids)
unfolding settle_company
settle_company-keeps [] r = (refl, refl)
settle_company-keeps (p ∷ rest) r =
    let (u, d) = settle_whole-keeps p r in
    let (us, ds) = settle_company-keeps rest (settle_whole p r) in (us ∙ u, ds ∙ d)

settle_person-department_ids :
    (addresses : Text → List Text) (accounts : List (Text × ℕ)) (p : Principal) (r : AutoResolution)
    → (settle_person addresses accounts p r).department_ids ≡ r.department_ids
unfolding settle_person
settle_person-department_ids addresses accounts p r =
    elim (Option-cases (first_hit accounts (emails_of addresses p))) [
      | inl e ↦ rw (settle_person, e) refl
      | inr (u, e) ↦ rw (settle_person, e) refl
    ]

pub settle_people-department_ids :
    (addresses : Text → List Text) (accounts : List (Text × ℕ)) (people : List Principal)
    (r : AutoResolution)
    → (settle_people addresses accounts people r).department_ids ≡ r.department_ids
unfolding settle_people
settle_people-department_ids addresses accounts [] r = refl
settle_people-department_ids addresses accounts (p ∷ rest) r =
    settle_people-department_ids addresses accounts rest (settle_person addresses accounts p r)
    ∙ settle_person-department_ids addresses accounts p r

settle_group-users :
    (fold : Text → Text) (known : List (ℕ × Text)) (p : Principal) (r : AutoResolution)
    → (settle_group fold known p r).users ≡ r.users
unfolding settle_group
settle_group-users fold known p r =
    elim (Option-cases (match_department fold p.principal_name known)) [
      | inl e ↦ rw (settle_group, e) refl
      | inr (id, e) ↦ rw (settle_group, e) refl
    ]

pub settle_groups-users :
    (fold : Text → Text) (known : List (ℕ × Text)) (groups : List Principal) (r : AutoResolution)
    → (settle_groups fold known groups r).users ≡ r.users
unfolding settle_groups
settle_groups-users fold known [] r = refl
settle_groups-users fold known (p ∷ rest) r =
    settle_groups-users fold known rest (settle_group fold known p r)
    ∙ settle_group-users fold known p r
