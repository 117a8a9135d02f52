-- ===== src/Governance/Decisions/Identity.antt =====
-- The approver rules at submission beside the scope of src/repositories/user.py.
use qnsc_kb_backend.Prelude.{
  ℕ, ◌≡◌, refl, sym, ap, ◌∙◌, inl, inr, false, not, ◌&&◌, none, List, [], ◌∷◌, arith, nat_beq,
  Option-cases, nat_eq, string_eq, option_eq,
}
use mathlib.Core.Path.{fun_ext}
use qnsc_kb_backend.Accounts.{User, company, global}
use qnsc_kb_backend.Rbac.{has_permission}
use qnsc_kb_backend.Governance.{
  ok, ◌>>=◌, ◌>>◌, raise_if, Draft, Review, load, forbidden, conflict, authored, pending,
  same_status, transition_draft, audit,
}
use qnsc_kb_backend.Governance.Decisions.{
  ApproverRule, get_approver_rule, may_see_identity, get_by_id, rule_approver, apply_rule,
  may_submit, submit_draft,
}

-- No permission to read or to manage users, for the company or beyond it.
abbrev pub IsBlind : User → Type 0
IsBlind viewer =
    (has_permission viewer "user.read" none global ≡ false)
    × (has_permission viewer "user.manage" none global ≡ false)
    × (has_permission viewer "user.read" none company ≡ false)
    × (has_permission viewer "user.manage" none company ≡ false)

get_by_id-none :
    (users : List User) (viewer : User) (id : ℕ) → IsBlind viewer → get_by_id users viewer id ≡ none
unfolding get_by_id may_see_identity
get_by_id-none [] viewer id b = refl
get_by_id-none (u ∷ users) viewer id b =
    let (g, m, c, n) = b in
    let hidden : nat_beq u.id id && may_see_identity viewer u ≡ false =
      rw (may_see_identity, g, m, c, n) (ground arith) in
    rw (hidden) (get_by_id-none users viewer id b)

rule_approver-none :
    (users : List User) (rules : List ApproverRule) (user : User) (draft : Draft)
    → IsBlind user
    → rule_approver users rules user draft ≡ none
unfolding rule_approver
rule_approver-none users rules user draft b =
    elim (Option-cases (get_approver_rule rules draft.company_domain draft.dept)) [
      | inl n ↦ rw (n, rule_approver) refl
      | inr q ↦ rw (q.1, rule_approver, get_by_id-none users user q.0.approver_id b) refl
    ]

apply_rule-none :
    (users : List User) (rules : List ApproverRule) (user : User) (r : Review)
    → IsBlind user
    → apply_rule users rules user r ≡ r
unfolding apply_rule
apply_rule-none users rules user r b =
    rw (apply_rule, rule_approver-none users rules user r.draft b) refl

-- The submission of a user who may neither read nor manage users goes as if there were no approver
-- rules.
pub submit_draft-ignores_rules :
    (users : List User) (rules : List ApproverRule) (user : User) (r : Review)
    → IsBlind user
    → submit_draft users rules user r ≡ submit_draft users [] user r
unfolding submit_draft
submit_draft-ignores_rules users rules user r b =
    ap
      (λ (assign_by_rule : Review → Review). do
        load user r
        raise_if (not (may_submit user r.draft)) forbidden
        raise_if (not (same_status r.draft.status authored)) conflict
        moved ← transition_draft user.id pending r
        ok (audit user "submit" (assign_by_rule moved)))
      (fun_ext
        (λ q. apply_rule-none users rules user q b ∙ sym (apply_rule-none users [] user q b)))
