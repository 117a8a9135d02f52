-- ===== src/Governance/Queue/Visible.antt =====
-- The queue of drafts beside what a user may open: src/domain/governance.py and
-- src/repositories/governance.py.
use qnsc_kb_backend.Prelude.{
  Memᴰ-take, ℕ, zero, suc, String, ◌≡◌, refl, ap, ◌∙◌, ◌≢◌, ◌⊎◌, inl, inr, Bool, true, false, ◌&&◌,
  ◌||◌, Option, none, some, List, [], ◌∷◌, Memᴰ, arith, Bool-cases, &&-eq-true, ||-eq-true, get_or,
  any, any-Memᴰ, any_of_Memᴰ, Memᴰ-filter, ◌==◌, nat_eq, string_eq, option_eq, elem, eq_iff,
}
use qnsc_kb_backend.Accounts.{User, global}
use qnsc_kb_backend.Rbac.{has_permission}
use qnsc_kb_backend.Governance.{
  Status, ok, Draft, is_global_publisher, may_self_approve, review_departments, text_in,
  is_company_wide, may_load, is_lead_role, lead_names,
}
use qnsc_kb_backend.Governance.Guards.{>>=-eq-ok, ok_eq}
use qnsc_kb_backend.Governance.Queue.{
  QueueScope, can_company_review, draft_queue_scope, in_departments, is_mine, in_scope, has_status,
  skip, page, in_queue, list_drafts,
}

Memᴰ-skip : {A : Type 0} {a : A} (n : ℕ) (xs : List A) → Memᴰ a (skip n xs) → Memᴰ a xs
unfolding skip
Memᴰ-skip zero xs m = m
Memᴰ-skip (suc n) [] m = m
Memᴰ-skip (suc n) (x ∷ xs) m = Memᴰ.tail (Memᴰ-skip n xs m)

Memᴰ-page :
    {A : Type 0} {a : A} (limit : Option ℕ) (offset : ℕ) (xs : List A)
    → Memᴰ a (page limit offset xs)
    → Memᴰ a xs
unfolding page
Memᴰ-page limit offset xs m = Memᴰ-skip offset xs (Memᴰ-take (get_or limit 500) (skip offset xs) m)

or-true : (a : Bool) {b : Bool} → b ≡ true → a || b ≡ true
or-true true h = refl
or-true false h = h

-- Whoever may approve their own work is let through the company's drafts.
pub may_self_approve-is_company_wide :
    (user : User) → may_self_approve user ≡ true → is_company_wide user ≡ true
unfolding may_self_approve is_company_wide is_lead_role
may_self_approve-is_company_wide user h =
    elim (||-eq-true (elem user.role lead_names) (any (is_lead_role user) user.roles) h) [
      | inl e ↦ rw (is_company_wide, e) refl
      | inr e ↦
          let (r, m, q) = any-Memᴰ (is_lead_role user) user.roles e in
          let k : (r.active && elem r.name lead_names) ≡ true = ground arith in
          let w = any_of_Memᴰ (λ s. s.active && elem s.name lead_names) user.roles m k in
          or-true (elem user.role lead_names) w
    ]

pub publisher-may_load :
    (user : User) (draft : Draft) → is_global_publisher user ≡ true → may_load user draft ≡ true
unfolding may_load
publisher-may_load user draft h = rw (may_load, h) (ground arith)

pub reader-may_load :
    (user : User) (draft : Draft)
    → (draft.company_domain == user.company_domain) ≡ true
    → (is_company_wide user ≡ true) ⊎ (text_in draft.dept (review_departments user) ≡ true)
    → may_load user draft ≡ true
unfolding may_load
reader-may_load user draft c (inl w) = rw (may_load, c, w) (ground arith)
reader-may_load user draft c (inr t) = rw (may_load, c, t) (ground arith)

in_departments-text_in :
    (depts : List String) (draft : Draft)
    → depts ≢ []
    → in_departments depts draft ≡ true
    → text_in draft.dept depts ≡ true
unfolding in_departments
in_departments-text_in [] draft n h = absurd (n refl)
in_departments-text_in (d ∷ ds) draft n h = h

in_scope-same_company :
    (scope : QueueScope) (draft : Draft)
    → scope.company_domain ≢ ""
    → in_scope scope draft ≡ true
    → ((draft.company_domain == scope.company_domain) ≡ true)
      × (in_departments scope.depts draft ≡ true)
unfolding in_scope
in_scope-same_company scope draft n h =
    let (b, _) = &&-eq-true _ _ h in
    let (a, c) = &&-eq-true _ _ b in
    (
      elim (||-eq-true (scope.company_domain == "") _ a) [
        | inl e ↦ absurd (n ((eq_iff scope.company_domain "").0 e))
        | inr e ↦ e
      ],
      c,
    )

scope-may_load :
    (user : User) (scope : QueueScope) (draft : Draft)
    → user.company_domain ≢ ""
    → (may_self_approve user ≡ true) ⊎ (review_departments user ≢ [])
    → draft_queue_scope user ≡ ok scope
    → in_scope scope draft ≡ true
    → may_load user draft ≡ true
unfolding draft_queue_scope
scope-may_load user scope draft n d s h = elim (Bool-cases (is_global_publisher user)) [
  | inl e ↦ publisher-may_load user draft e
  | inr g ↦ elim (Bool-cases (can_company_review user)) [
    | inr e ↦ absurd (cc (rw (g, e, draft_queue_scope) at s))
    | inl c ↦ elim (Bool-cases (may_self_approve user)) [
      | inl e ↦
          let q = ok_eq _ scope (rw (g, c, e, draft_queue_scope) at s) in
          let same = ap QueueScope.company_domain q in
          let (k, _) = in_scope-same_company scope draft (λ z. n (same ∙ z)) h in
          reader-may_load user draft (rw (same) k) (inl (may_self_approve-is_company_wide user e))
      | inr e ↦
          let q = ok_eq _ scope (rw (g, c, e, draft_queue_scope) at s) in
          let same = ap QueueScope.company_domain q in
          let depts = ap QueueScope.depts q in
          let (k, t) = in_scope-same_company scope draft (λ z. n (same ∙ z)) h in
          let some_dept : review_departments user ≢ [] = elim d [
            | inl z ↦ absurd (cc)
            | inr z ↦ z
          ] in
          reader-may_load user draft (rw (same) k)
            (inr (in_departments-text_in (review_departments user) draft some_dept (rw (depts) t)))
    ]
  ]
]

-- Every draft on a page of the queue is one that the user may load, when the user has a company and is
-- an Admin or CEO or has a department.
pub list_drafts-may_load :
    (matches : Draft → Bool) (user : User) (status : Option Status) (limit : Option ℕ) (offset : ℕ)
    (rows ds : List Draft) (d : Draft)
    → user.company_domain ≢ ""
    → (may_self_approve user ≡ true) ⊎ (review_departments user ≢ [])
    → list_drafts matches user status limit offset rows ≡ ok ds
    → Memᴰ d ds
    → may_load user d ≡ true
unfolding list_drafts in_queue
list_drafts-may_load matches user status limit offset rows ds d n k h m =
    let (scope, s, h1) = >>=-eq-ok (draft_queue_scope user) _ h in
    let q : page limit offset (in_queue matches status scope rows) ≡ ds = ok_eq _ ds h1 in
    let listed : Memᴰ d (in_queue matches status scope rows) =
      Memᴰ-page limit offset (in_queue matches status scope rows) (rw (q) m) in
    let (_, e) =
      Memᴰ-filter (λ x. matches x && has_status status x && in_scope scope x) rows listed in
    let (_, e2) = &&-eq-true (matches d && has_status status d) (in_scope scope d) e in
    scope-may_load user scope d n k s e2

-- A user without departments who may review for the company, and is neither a global publisher nor an
-- Admin or CEO nor a global reader of governance, meets each draft of the company that is not
-- assigned, of any department, in the queue, but may not load it unless they created it.
departmentless-in_scope :
    (user : User) (draft : Draft)
    → is_global_publisher user ≡ false
    → has_permission user "governance.read" none global ≡ false
    → can_company_review user ≡ true
    → is_company_wide user ≡ false
    → review_departments user ≡ []
    → draft.company_domain ≡ user.company_domain
    → draft.assigned_approver_id ≡ none
    → (draft.created_by == some user.id) ≡ false
    → (scope : QueueScope) × (draft_queue_scope user ≡ ok scope)
      × (in_scope scope draft ≡ true)
      × (may_load user draft ≡ false)
unfolding draft_queue_scope in_scope in_departments is_mine may_load
departmentless-in_scope user draft g v c w d same a o = elim (Bool-cases (may_self_approve user)) [
  | inl e ↦ absurd (cc (may_self_approve-is_company_wide user e))
  | inr e ↦
      let here = (eq_iff draft.company_domain user.company_domain).1 same in
      (
        record {
          company_domain = user.company_domain;
          depts = [];
          assigned_approver_id = some user.id;
        },
        rw (draft_queue_scope, g, c, e, d) refl,
        rw (in_scope, here, a) (ground arith),
        rw (may_load, v, g, w, a, o, d) (ground arith),
      )
]
