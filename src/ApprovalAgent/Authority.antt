-- ===== src/ApprovalAgent/Authority.antt =====
-- What `decide` and `_apply` of src/domain/approval_agent.py may do.
use qnsc_kb_backend.Prelude.{
  ℕ, String, ◌≡◌, refl, sym, ap, ◌∙◌, inl, inr, true, false, Option, some, List, Memᴰ, arith,
  Bool-cases, Option-cases, nat_eq, string_eq, option_eq, eq_iff,
}
use qnsc_kb_backend.ApprovalAgent.Reply.{approve, parse_decision, Payload}
use qnsc_kb_backend.ApprovalAgent.{
  ApprovalRule, Draft, in_preparation, rule_applies, select_rule, Verdict, acts_approve,
  acts_reject, abstains, Model, weigh, consult, decide, Services, may_apply, apply_verdict,
}
use qnsc_kb_backend.ApprovalAgent.Scoping.{select_rule-applies}
use qnsc_kb_backend.ApprovalAgent.Scoping.{select_rule-applies}

consult-approve :
    (loads : List ℕ → Option Payload) (model : Model) (rule chosen : ApprovalRule)
    → consult loads model rule ≡ acts_approve chosen
    → (chosen ≡ rule)
      × (rule.can_approve ≡ true)
      × ((reply : List ℕ) × (model.reply ≡ some reply)
          × (parse_decision loads reply ≡ some approve))
unfolding consult weigh
consult-approve loads model rule chosen h = ground arith

consult-reject :
    (loads : List ℕ → Option Payload) (model : Model) (rule chosen : ApprovalRule)
    → consult loads model rule ≡ acts_reject chosen
    → (chosen ≡ rule) × (rule.can_reject ≡ true)
unfolding consult weigh
consult-reject loads model rule chosen h = ground arith

module _ (fold : String → String) (high_risk_departments : List String)
    (loads : List ℕ → Option Payload) (model : Model) (rules : List ApprovalRule) (draft : Draft)
    (connector_id : Option ℕ) (rule : ApprovalRule) where
  -- The agent decides to approve only under the selected rule, which covers the draft and grants
  -- approval, for a draft whose preparation is over, and where the model's reply reads as an approval.
  pub decide-acts_approve :
      decide fold high_risk_departments loads model rules draft connector_id ≡ acts_approve rule
      → (in_preparation draft ≡ false)
        × Memᴰ rule rules
        × (rule_applies fold high_risk_departments connector_id draft rule ≡ true)
        × (rule.can_approve ≡ true)
        × ((reply : List ℕ) × (model.reply ≡ some reply)
            × (parse_decision loads reply ≡ some approve))
  unfolding decide
  decide-acts_approve h = elim (Bool-cases (in_preparation draft)) [
    | inl busy ↦ absurd (cc (rw (busy, decide) at h))
    | inr ready ↦
        elim (Option-cases (select_rule fold high_risk_departments rules draft connector_id)) [
          | inl n ↦ absurd (cc (rw (ready, n, decide) at h))
          | inr p ↦
              let (same, grant, said) =
                consult-approve loads model p.0 rule (rw (ready, p.1, decide) at h) in
              let (m, a) =
                select_rule-applies fold high_risk_departments rules draft connector_id rule
                  (p.1 ∙ ap some (sym same)) in
              (ready, m, a, ap (λ (r : ApprovalRule). r.can_approve) same ∙ grant, said)
        ]
  ]

-- Whoever acts is the author of the rule, with an active account, on a draft that still waits.
pub may_apply-author :
    (services : Services) (draft : Draft) (rule : ApprovalRule) (author : ℕ)
    → may_apply services draft rule ≡ some author
    → (rule.created_by ≡ some author)
      × (services.author_active author ≡ true)
      × (draft.status ≡ "pending")
      × (in_preparation draft ≡ false)
unfolding may_apply
may_apply-author services draft rule author h = ground (arith, eq_iff draft.status "pending")

pub apply_verdict-approve :
    (services : Services) (draft : Draft) (verdict : Verdict)
    → apply_verdict services draft verdict ≡ some approve
    → (rule : ApprovalRule) × (author : ℕ) × (verdict ≡ acts_approve rule)
      × (may_apply services draft rule ≡ some author)
      × (services.approve_draft author draft ≡ true)
unfolding apply_verdict
apply_verdict-approve services draft (abstains reason rule) h = absurd (cc h)
apply_verdict-approve services draft (acts_approve rule) h =
    elim (Option-cases (may_apply services draft rule)) [
      | inl n ↦ absurd (cc (rw (n, apply_verdict) at h))
      | inr p ↦ (rule, p.0, refl, p.1, ground (arith, p.1))
    ]
apply_verdict-approve services draft (acts_reject rule) h = ground arith
