-- ===== src/ApprovalAgent/Scoping.antt =====
-- `rule_applies` and `select_rule` of src/domain/approval_agent.py.
use qnsc_kb_backend.Prelude.{
  ℕ, String, ◌≡◌, ap, ◌∙◌, ◌≢◌, inl, inr, true, false, Option, none, some, List, [], ◌∷◌, Memᴰ,
  arith, Bool-cases, Option-cases, get_or, Memᴰ-filter, filter_of_Memᴰ, nat_eq, string_eq,
  option_eq, elem,
}
use qnsc_kb_backend.ApprovalAgent.{
  ApprovalRule, Draft, top_similarity, rule_applies, ranks_before, first_rule, select_rule,
  is_empty, compute_draft_risk_tier, high_risk,
}

-- A rule with a similarity limit never covers a draft whose similarity was not measured.
pub unmeasured_is_out_of_scope :
    (fold : String → String) (high_risk_departments : List String) (connector_id : Option ℕ)
    (draft : Draft) (rule : ApprovalRule) (limit : ℕ)
    → rule.max_similarity_score ≡ some limit
    → top_similarity draft ≡ none
    → rule_applies fold high_risk_departments connector_id draft rule ≡ false
unfolding rule_applies
unmeasured_is_out_of_scope fold high_risk_departments connector_id draft rule limit m u =
    ground arith

-- A rule that lists risk tiers without "high" never covers a draft that is marked restricted or
-- confidential.
pub sensitive_is_out_of_scope :
    (fold : String → String) (high_risk_departments : List String) (connector_id : Option ℕ)
    (draft : Draft) (rule : ApprovalRule)
    → elem (fold (get_or draft.sensitivity "")) ("restricted" ∷ "confidential" ∷ []) ≡ true
    → is_empty rule.risk_tiers ≡ false
    → elem high_risk rule.risk_tiers ≡ false
    → rule_applies fold high_risk_departments connector_id draft rule ≡ false
unfolding rule_applies compute_draft_risk_tier
sensitive_is_out_of_scope fold high_risk_departments connector_id draft rule s t h = ground arith

first_rule-Memᴰ :
    (rules : List ApprovalRule) (best : ApprovalRule)
    → first_rule rules ≡ some best
    → Memᴰ best rules
unfolding first_rule
first_rule-Memᴰ [] best e = absurd (cc e)
first_rule-Memᴰ (rule ∷ rest) best e = elim (Option-cases (first_rule rest)) [
  | inl n ↦ Memᴰ.head (ground arith)
  | inr p ↦ elim (Bool-cases (ranks_before rule p.0)) [
    | inl first ↦ Memᴰ.head (ground (arith, p.1))
    | inr later ↦
        let same : p.0 ≡ best = ground (arith, p.1) in
        Memᴰ.tail (first_rule-Memᴰ rest best (p.1 ∙ ap some same))
  ]
]

ranks_before_trans :
    (a b c : ApprovalRule)
    → ranks_before a b ≡ true
    → ranks_before b c ≡ true
    → ranks_before a c ≡ true
unfolding ranks_before
ranks_before_trans a b c h k = ground arith

ranks_before_total : (a b : ApprovalRule) → ranks_before a b ≡ false → ranks_before b a ≡ true
unfolding ranks_before
ranks_before_total a b h = ground arith

ranks_before_refl : (a : ApprovalRule) → ranks_before a a ≡ true
unfolding ranks_before
ranks_before_refl a = ground arith

first_rule-ne-none : (x : ApprovalRule) (rest : List ApprovalRule) → first_rule (x ∷ rest) ≢ none
unfolding first_rule
first_rule-ne-none x rest e = ground arith

first_rule_head :
    (x best : ApprovalRule) (rest : List ApprovalRule)
    → first_rule (x ∷ rest) ≡ some best
    → ranks_before best x ≡ true
unfolding first_rule
first_rule_head x best rest e = elim (Option-cases (first_rule rest)) [
  | inl n ↦ ground arith
  | inr p ↦ ground (arith, p.1)
]

first_rule_tail :
    (x best next : ApprovalRule) (rest : List ApprovalRule)
    → first_rule (x ∷ rest) ≡ some best
    → first_rule rest ≡ some next
    → ranks_before best next ≡ true
unfolding first_rule
first_rule_tail x best next rest e n = ground arith

first_rule-ranks_before :
    (rules : List ApprovalRule) (best rule : ApprovalRule)
    → first_rule rules ≡ some best
    → Memᴰ rule rules
    → ranks_before best rule ≡ true
first_rule-ranks_before [] best rule e m = elim m [ ]
first_rule-ranks_before (x ∷ rest) best rule e (Memᴰ.head q) =
    ap (λ (r : ApprovalRule). ranks_before best r) q ∙ first_rule_head x best rest e
first_rule-ranks_before (x ∷ []) best rule e (Memᴰ.tail m) = elim m [ ]
first_rule-ranks_before (x ∷ y ∷ rest) best rule e (Memᴰ.tail m) =
    elim (Option-cases (first_rule (y ∷ rest))) [
      | inl n ↦ absurd (first_rule-ne-none y rest n)
      | inr p ↦
          ranks_before_trans best p.0 rule (first_rule_tail x best p.0 (y ∷ rest) e p.1)
            (first_rule-ranks_before (y ∷ rest) p.0 rule p.1 m)
    ]

module _ (fold : String → String) (high_risk_departments : List String) (rules : List ApprovalRule)
    (draft : Draft) (connector_id : Option ℕ) where
  -- The selected rule is one of the rules, and covers the draft.
  pub select_rule-applies :
      (rule : ApprovalRule)
      → select_rule fold high_risk_departments rules draft connector_id ≡ some rule
      → Memᴰ rule rules × (rule_applies fold high_risk_departments connector_id draft rule ≡ true)
  unfolding select_rule
  select_rule-applies rule e = Memᴰ-filter _ rules (first_rule-Memᴰ _ rule e)

  -- No rule that covers the draft comes before the selected one by priority and id.
  pub select_rule_first :
      (chosen rule : ApprovalRule)
      → select_rule fold high_risk_departments rules draft connector_id ≡ some chosen
      → Memᴰ rule rules
      → rule_applies fold high_risk_departments connector_id draft rule ≡ true
      → ranks_before chosen rule ≡ true
  unfolding select_rule
  select_rule_first chosen rule e m a =
      first_rule-ranks_before _ chosen rule e
        (filter_of_Memᴰ (rule_applies fold high_risk_departments connector_id draft) rules m a)
