-- ===== src/Governance/Reading/Effects.antt =====
-- What a change of the reading view does to a draft: src/domain/governance.py.
use qnsc_kb_backend.Prelude.{
  String, ◌≡◌, refl, inl, inr, Bool-cases, Option-cases, ◌==◌, nat_eq, string_eq, option_eq,
}
use qnsc_kb_backend.Accounts.{User}
use qnsc_kb_backend.Governance.{pending, ok, Draft, Review}
use qnsc_kb_backend.Governance.Guards.{raise_if_ok, >>=-eq-ok, ok_eq, not-eq-false, same_status_eq}
use qnsc_kb_backend.Governance.Reading.{
  Decision, keep_ai, keep_lossless, unknown, RestructureResult, restructure_draft,
  decide_restructure, keep,
}

-- A pending draft of which the workflow's columns stay.
abbrev pub IsUnmoved : Draft → Draft → Type 0
IsUnmoved d d' =
    (d'.status ≡ d.status)
    × (d'.created_by ≡ d.created_by)
    × (d'.assigned_approver_id ≡ d.assigned_approver_id)
    × (d'.reviewed_by ≡ d.reviewed_by)

abbrev pub KeepsWorkflow : Review → Review → Type 0
KeepsWorkflow r r' =
    (r.draft.status ≡ pending) × IsUnmoved r.draft r'.draft × (r'.transitions ≡ r.transitions)

pub restructure_draft_ok :
    (result : RestructureResult) (user : User) (r r' : Review)
    → restructure_draft result user r ≡ ok r'
    → KeepsWorkflow r r'
unfolding restructure_draft
restructure_draft_ok result user r r' h =
    let (_, h1) = raise_if_ok _ _ _ h in
    let (s, h2) = raise_if_ok _ _ _ h1 in
    let (_, h3) = raise_if_ok _ _ _ h2 in
    let (_, h4) = raise_if_ok _ _ _ h3 in
    rw (← ok_eq _ _ h4)
      (same_status_eq r.draft.status pending (not-eq-false _ s), (refl, refl, refl, refl), refl)

keep-IsUnmoved :
    (fallback : String → String) (decision : Decision) (d d' : Draft)
    → keep fallback decision d ≡ ok d'
    → IsUnmoved d d'
unfolding keep
keep-IsUnmoved fallback unknown d d' h = cc
keep-IsUnmoved fallback keep_lossless d d' h = rw (← ok_eq _ _ h) (refl, refl, refl, refl)
keep-IsUnmoved fallback keep_ai d d' h = elim (Option-cases d.restructure_candidate_md) [
  | inl n ↦ absurd (cc (rw (n, keep) at h))
  | inr q ↦ elim (Bool-cases (q.0 == "")) [
    | inl e ↦ absurd (cc (rw (q.1, e, keep) at h))
    | inr e ↦ rw (← ok_eq _ _ (rw (q.1, e, keep) at h)) (refl, refl, refl, refl)
  ]
]

pub decide_restructure_ok :
    (fallback : String → String) (decision : Decision) (user : User) (r r' : Review)
    → decide_restructure fallback decision user r ≡ ok r'
    → KeepsWorkflow r r'
unfolding decide_restructure
decide_restructure_ok fallback decision user r r' h =
    let (_, h1) = raise_if_ok _ _ _ h in
    let (s, h2) = raise_if_ok _ _ _ h1 in
    let (_, h3) = raise_if_ok _ _ _ h2 in
    let (_, h4) = raise_if_ok _ _ _ h3 in
    let (_, h5) = raise_if_ok _ _ _ h4 in
    let (d, k, h6) = >>=-eq-ok (keep fallback decision r.draft) _ h5 in
    rw (← ok_eq _ _ h6) (
      same_status_eq r.draft.status pending (not-eq-false _ s),
      keep-IsUnmoved fallback decision r.draft d k,
      refl,
    )
