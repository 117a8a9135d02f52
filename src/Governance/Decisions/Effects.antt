-- ===== src/Governance/Decisions/Effects.antt =====
-- What submission, assignment and rejection do to a draft: src/domain/governance.py.
use qnsc_kb_backend.Prelude.{
  ℕ, ◌≡◌, refl, ◌⊎◌, inl, inr, Bool, true, false, not, ◌&&◌, Option, none, some, List, Memᴰ, arith,
  nat_beq, Bool-cases, Option-cases, ◌==◌, nat_eq, string_eq, option_eq, find-Memᴰ,
}
use qnsc_kb_backend.Accounts.{User}
use qnsc_kb_backend.Governance.{
  authored, pending, rejected, ok, err, ◌>>=◌, raise_if, Draft, Review, transition_draft,
  in_preparation, can_approve_draft, can_review_draft, is_outside, load, may_load, not_found,
  notify,
}
use qnsc_kb_backend.Governance.Guards.{
  unraised, not-eq-false, raise_if_ok, >>=-eq-ok, ok_eq, same_status_eq, moved_to,
  transition_draft_ok,
}
use qnsc_kb_backend.Governance.Decisions.{
  ApproverRule, get_approver_rule, get_by_id, may_see_identity, may_be_assigned, assign,
  rule_approver, apply_rule, submit_draft, requested_approver, eligible, assign_approver,
  notify_previous, may_decide, notify_author, reject_draft,
}

get_by_id-Memᴰ :
    (users : List User) (viewer : User) (id : ℕ) (u : User)
    → get_by_id users viewer id ≡ some u
    → Memᴰ u users
unfolding get_by_id
get_by_id-Memᴰ users viewer id u h =
    (find-Memᴰ (λ v. nat_beq v.id id && may_see_identity viewer v) users u h).0

rule_approver-may_be_assigned :
    (users : List User) (rules : List ApproverRule) (user : User) (draft : Draft) (a : User)
    → rule_approver users rules user draft ≡ some a
    → Memᴰ a users × (may_be_assigned a draft ≡ true)
unfolding rule_approver
rule_approver-may_be_assigned users rules user draft a h =
    elim (Option-cases (get_approver_rule rules draft.company_domain draft.dept)) [
      | inl n ↦ absurd (cc (rw (n, rule_approver) at h))
      | inr q ↦ elim (Option-cases (get_by_id users user q.0.approver_id)) [
        | inl n ↦ absurd (cc (rw (q.1, n, rule_approver) at h))
        | inr p ↦
            let k = get_by_id-Memᴰ users user q.0.approver_id p.0 p.1 in
            elim (Bool-cases (
              p.0.active
              && p.0.company_domain == draft.company_domain
              && can_review_draft p.0 draft
              && may_be_assigned p.0 draft)) [
                | inr e ↦ absurd (cc (rw (q.1, p.1, e, rule_approver) at h))
                | inl e ↦
                    let same : some p.0 ≡ some a = rw (q.1, p.1, e, rule_approver) at h in
                    let s : p.0 ≡ a = cc same in rw (← s) (k, ground arith)
              ]
      ]
    ]

-- The approver stays, or is one of the users whom the draft may be assigned to.
abbrev pub IsAssigned : List User → Draft → Option ℕ → Type 0
IsAssigned users draft approver =
    (approver ≡ draft.assigned_approver_id)
    ⊎ ((a : User) × Memᴰ a users × (may_be_assigned a draft ≡ true) × (approver ≡ some a.id))

-- What stays of a review, and who may have come to decide on it.
abbrev pub KeepsReview : List User → Review → Review → Type 0
KeepsReview users r r' =
    (r'.draft.status ≡ r.draft.status)
    × (r'.draft.created_by ≡ r.draft.created_by)
    × (r'.transitions ≡ r.transitions)
    × IsAssigned users r.draft r'.draft.assigned_approver_id

apply_rule-KeepsReview :
    (users : List User) (rules : List ApproverRule) (user : User) (r : Review)
    → KeepsReview users r (apply_rule users rules user r)
unfolding apply_rule
apply_rule-KeepsReview users rules user r =
    elim (Option-cases (rule_approver users rules user r.draft)) [
      | inl n ↦ rw (n, apply_rule) (refl, refl, refl, inl refl)
      | inr q ↦
          let (m, e) = rule_approver-may_be_assigned users rules user r.draft q.0 q.1 in
          rw (q.1, apply_rule) (refl, refl, refl, inr (q.0, m, e, refl))
    ]

pub submit_draft_ok :
    (users : List User) (rules : List ApproverRule) (user : User) (r r' : Review)
    → submit_draft users rules user r ≡ ok r'
    → (r.draft.status ≡ authored) × KeepsReview users (moved_to user.id pending r) r'
unfolding submit_draft
submit_draft_ok users rules user r r' h =
    let (_, h1) = raise_if_ok _ _ _ h in
    let (_, h2) = raise_if_ok _ _ _ h1 in
    let (s, h3) = raise_if_ok _ _ _ h2 in
    let (m, t, h4) = >>=-eq-ok (transition_draft user.id pending r) _ h3 in
    let (_, e) = transition_draft_ok user.id pending r m t in
    let q = ok_eq _ _ h4 in
    (
      same_status_eq r.draft.status authored (not-eq-false _ s),
      rw (← q, e) (apply_rule-KeepsReview users rules user (moved_to user.id pending r)),
    )

eligible_ok :
    (users : List User) (user : User) (id : ℕ) (draft : Draft) (a : User)
    → eligible users user id draft ≡ ok a
    → Memᴰ a users × (may_be_assigned a draft ≡ true) × (can_review_draft a draft ≡ true)
unfolding eligible
eligible_ok users user id draft a h = elim (Option-cases (get_by_id users user id)) [
  | inl n ↦ absurd (cc (rw (n, eligible) at h))
  | inr q ↦
      let h0 = rw (q.1, eligible) at h in
      let (_, h1) = raise_if_ok _ _ _ h0 in
      let (b, h2) = raise_if_ok _ _ _ h1 in
      let (c, h3) = raise_if_ok _ _ _ h2 in
      let same : q.0 ≡ a = ok_eq q.0 a h3 in
      rw (← same) (get_by_id-Memᴰ users user id q.0 q.1, not-eq-false _ b, not-eq-false _ c)
]

reassign-KeepsReview :
    (users : List User) (previous : Option ℕ) (a : User) (by : ℕ) (r : Review)
    → Memᴰ a users
    → may_be_assigned a r.draft ≡ true
    → KeepsReview users r (notify_previous previous (assign a.id by r))
unfolding notify_previous notify assign
reassign-KeepsReview users none a by r m e = (refl, refl, refl, inr (a, m, e, refl))
reassign-KeepsReview users (some id) a by r m e = (refl, refl, refl, inr (a, m, e, refl))

pub assign_approver_ok :
    (users : List User) (rules : List ApproverRule) (user : User) (use_rule : Bool)
    (approver_id : Option ℕ) (r r' : Review)
    → assign_approver users rules user use_rule approver_id r ≡ ok r'
    → (r.draft.status ≡ pending) × KeepsReview users r r'
unfolding assign_approver
assign_approver_ok users rules user use_rule approver_id r r' h =
    let (_, h1) = raise_if_ok _ _ _ h in
    let (s, h2) = raise_if_ok _ _ _ h1 in
    let (_, h3) = raise_if_ok _ _ _ h2 in
    let (_, h4) = raise_if_ok _ _ _ h3 in
    let (id, _, h5) = >>=-eq-ok (requested_approver rules use_rule approver_id r.draft) _ h4 in
    let (a, g, h6) = >>=-eq-ok (eligible users user id r.draft) _ h5 in
    let (_, h7) = raise_if_ok _ _ _ h6 in
    let q = ok_eq _ _ h7 in
    let (m, e, _) = eligible_ok users user id r.draft a g in
    (
      same_status_eq r.draft.status pending (not-eq-false _ s),
      rw (← q) (reassign-KeepsReview users r.draft.assigned_approver_id a user.id r m e),
    )

-- What approval and rejection need of the draft and of whoever decides.
pub may_decide_ok :
    (user : User) (draft : Draft) (t : Unit {0})
    → may_decide user draft ≡ ok t
    → (draft.status ≡ pending)
      × (in_preparation draft ≡ false)
      × (is_outside user draft ≡ false)
      × (can_approve_draft user draft ≡ true)
unfolding may_decide
may_decide_ok user draft t h =
    let (s, h1) = raise_if_ok _ _ _ h in
    let (p, h2) = raise_if_ok _ _ _ h1 in
    let (o, h3) = raise_if_ok _ _ _ h2 in
    let c : not (can_approve_draft user draft) ≡ false = unraised _ _ _ h3 in
    (same_status_eq draft.status pending (not-eq-false _ s), p, o, not-eq-false _ c)

notify_author-KeepsReview :
    (users : List User) (author : Option ℕ) (r : Review)
    → KeepsReview users r (notify_author author r)
unfolding notify_author notify
notify_author-KeepsReview users none r = (refl, refl, refl, inl refl)
notify_author-KeepsReview users (some id) r = (refl, refl, refl, inl refl)

pub reject_draft_ok :
    (users : List User) (user : User) (r r' : Review)
    → reject_draft user r ≡ ok r'
    → (r.draft.status ≡ pending) × KeepsReview users (moved_to user.id rejected r) r'
unfolding reject_draft may_be_assigned
reject_draft_ok users user r r' h =
    let (_, h1) = raise_if_ok _ _ _ h in
    let (t, d, h2) = >>=-eq-ok (may_decide user r.draft) _ h1 in
    let (m, k, h3) = >>=-eq-ok (transition_draft user.id rejected r) _ h2 in
    let (_, e) = transition_draft_ok user.id rejected r m k in
    let q = ok_eq _ _ h3 in
    let (s, _, _, _) = may_decide_ok user r.draft t d in
    (
      s,
      rw (← q, e)
          (notify_author-KeepsReview users r.draft.created_by
            (record (moved_to user.id rejected r) {
              draft = record (moved_to user.id rejected r).draft { reviewed_by = some user.id };
            })),
    )

-- A submission by a user who may not load the draft raises, before anything changes.
pub submit_draft_not_found :
    (users : List User) (rules : List ApproverRule) (user : User) (r : Review)
    → may_load user r.draft ≡ false
    → submit_draft users rules user r ≡ err not_found
unfolding submit_draft load raise_if ◌>>=◌
submit_draft_not_found users rules user r h = rw (h) refl
