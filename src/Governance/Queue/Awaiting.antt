-- ===== src/Governance/Queue/Awaiting.antt =====
-- What the Home card counts: `count_pending_for_user` of src/repositories/governance.py.
use qnsc_kb_backend.Prelude.{
  ℕ, ◌≡◌, refl, ◌⊎◌, inl, inr, Bool, true, false, not, ◌&&◌, ◌||◌, none, some, List, [], ◌∷◌, Memᴰ,
  arith, if◌then◌else◌, Bool-cases, Option-cases, &&-eq-true, ||-eq-true, is_some, length, any,
  filter, Memᴰ-filter, ◌==◌, nat_eq, string_eq, option_eq, nat_beq, nat_beq_iff, ap, ◌∙◌,
  not-Memᴰ-nil,
}
use qnsc_kb_backend.Accounts.{User, company, global}
use qnsc_kb_backend.Rbac.{has_permission}
use qnsc_kb_backend.Governance.{
  pending, Draft, same_status, is_global_publisher, may_self_approve, review_departments, text_in,
  may_load,
}
use qnsc_kb_backend.Governance.Queue.Visible.{may_self_approve-is_company_wide, reader-may_load}

unfoldable pub can_review : User → Bool
can_review user =
    any (λ key. has_permission user key none company || has_permission user key none global)
      ("article.review" ∷ "article.publish" ∷ [])

unfoldable pub global_access : User → Bool
global_access user =
    any (λ key. has_permission user key none global)
      ("governance.read" ∷ "article.review" ∷ "article.publish" ∷ [])

-- or_(assigned_approver_id.is_(None), assigned_approver_id == user.id)
pub is_free_or_mine : User → Draft → Bool
is_free_or_mine user draft =
    not (is_some draft.assigned_approver_id) || draft.assigned_approver_id == some user.id

unfoldable pub is_mine_or_department : User → Draft → Bool
is_mine_or_department user draft =
    draft.assigned_approver_id == some user.id
    || (not (is_some draft.assigned_approver_id) && text_in draft.dept (review_departments user))

-- `may_self_approve` has the tests of `company_lead`.
unfoldable pub is_awaiting : User → Draft → Bool
unfolding global_access is_free_or_mine is_mine_or_department
is_awaiting user draft =
    if global_access user
    then is_free_or_mine user draft
    else draft.company_domain == user.company_domain
      && (if may_self_approve user
          then is_free_or_mine user draft
          else is_mine_or_department user draft)

unfoldable pub pending_for_user : User → List Draft → List Draft
unfolding can_review is_awaiting
pending_for_user user rows =
    if can_review user
    then filter (λ d. same_status d.status pending && is_awaiting user d) rows
    else []

pub count_pending_for_user : User → List Draft → ℕ
unfolding pending_for_user
count_pending_for_user user rows = length (pending_for_user user rows)

is_free_or_mine-cases :
    (user : User) (draft : Draft)
    → is_free_or_mine user draft ≡ true
    → (draft.assigned_approver_id ≡ none) ⊎ (draft.assigned_approver_id ≡ some user.id)
unfolding is_free_or_mine
is_free_or_mine-cases user draft h = elim (Option-cases draft.assigned_approver_id) [
  | inl e ↦ inl e
  | inr (id, e) ↦
      let same : nat_beq id user.id ≡ true = rw (e) at h in
      inr (e ∙ ap some ((nat_beq_iff id user.id).0 same))
]

is_mine_or_department-is_free_or_mine :
    (user : User) (draft : Draft)
    → is_mine_or_department user draft ≡ true
    → is_free_or_mine user draft ≡ true
unfolding is_mine_or_department is_free_or_mine
is_mine_or_department-is_free_or_mine user draft h = ground arith

mine-may_load :
    (user : User) (draft : Draft)
    → (draft.company_domain == user.company_domain) ≡ true
    → (draft.assigned_approver_id == some user.id) ≡ true
    → may_load user draft ≡ true
unfolding may_load
mine-may_load user draft c m = rw (may_load, c, m) (ground arith)

global-may_load :
    (user : User) (draft : Draft)
    → has_permission user "article.review" none global ≡ false
    → global_access user ≡ true
    → may_load user draft ≡ true
unfolding global_access may_load is_global_publisher
global-may_load user draft r h =
    elim (Bool-cases (has_permission user "governance.read" none global)) [
      | inl e ↦ rw (may_load, e) refl
      | inr e ↦
          let p : has_permission user "article.publish" none global ≡ true = ground arith in
          rw (may_load, e, p) refl
    ]

department-may_load :
    (user : User) (draft : Draft)
    → (draft.company_domain == user.company_domain) ≡ true
    → is_mine_or_department user draft ≡ true
    → may_load user draft ≡ true
unfolding is_mine_or_department
department-may_load user draft c h =
    elim (||-eq-true (draft.assigned_approver_id == some user.id) _ h) [
      | inl e ↦ mine-may_load user draft c e
      | inr e ↦ reader-may_load user draft c (inr (&&-eq-true _ _ e).1)
    ]

is_awaiting-may_load :
    (user : User) (draft : Draft)
    → has_permission user "article.review" none global ≡ false
    → is_awaiting user draft ≡ true
    → (is_free_or_mine user draft ≡ true) × (may_load user draft ≡ true)
unfolding is_awaiting
is_awaiting-may_load user draft r h = elim (Bool-cases (global_access user)) [
  | inl g ↦ (rw (g) at h, global-may_load user draft r g)
  | inr g ↦
      let (c, a) = &&-eq-true (draft.company_domain == user.company_domain) _ (rw (g) at h) in
      elim (Bool-cases (may_self_approve user)) [
        | inl w ↦ (
          rw (w) at a,
          reader-may_load user draft c (inl (may_self_approve-is_company_wide user w)),
        )
        | inr w ↦
            let k : is_mine_or_department user draft ≡ true = rw (w) at a in
            (is_mine_or_department-is_free_or_mine user draft k, department-may_load user draft c k)
      ]
]

-- Every draft that the Home card counts for a user without the global review permission is pending,
-- without an approver or assigned to the user, and one that the user may load.
pub pending_for_user-may_load :
    (user : User) (rows : List Draft) (d : Draft)
    → has_permission user "article.review" none global ≡ false
    → Memᴰ d (pending_for_user user rows)
    → (same_status d.status pending ≡ true)
      × ((d.assigned_approver_id ≡ none) ⊎ (d.assigned_approver_id ≡ some user.id))
      × (may_load user d ≡ true)
unfolding pending_for_user
pending_for_user-may_load user rows d r m = elim (Bool-cases (can_review user)) [
  | inl e ↦
      let (_, w) =
        Memᴰ-filter (λ x. same_status x.status pending && is_awaiting user x) rows (rw (e) at m) in
      let (s, a) = &&-eq-true (same_status d.status pending) (is_awaiting user d) w in
      let (o, l) = is_awaiting-may_load user d r a in (s, is_free_or_mine-cases user d o, l)
  | inr e ↦ absurd (not-Memᴰ-nil (rw (e) at m))
]
