-- ===== src/ApprovalAgent/Run.antt =====
-- `run` of src/domain/approval_agent.py as a whole: when a draft is published.
use qnsc_kb_backend.Prelude.{
  ℕ, String, ◌≡◌, refl, sym, ◌∙◌, inl, inr, Bool, true, false, ◌&&◌, Option, some, List, [], ◌∷◌,
  Memᴰ, filter, ◌==◌, nat_eq, string_eq, option_eq, List-cases, not-Memᴰ-nil,
}
use qnsc_kb_backend.ApprovalAgent.Reply.{approve, Payload}
use qnsc_kb_backend.ApprovalAgent.{
  ApprovalRule, Draft, rule_applies, Model, decide, Services, empty_summary, Entry, sweep,
  pending_batch, run,
}
use qnsc_kb_backend.ApprovalAgent.Authority.{
  decide-acts_approve, may_apply-author, apply_verdict-approve,
}
use qnsc_kb_backend.ApprovalAgent.Sweep.{sweep-Memᴰ}

module _ (fold : String → String) (high_risk_departments : List String)
    (loads : List ℕ → Option Payload) (model : Draft → Model) (services : Services)
    (company_domain : String) (limit : ℕ) where
  abbrev pub enabled_rules : List ApprovalRule → List ApprovalRule
  enabled_rules rules = filter (λ r. r.company_domain == company_domain && r.active) rules

  -- What it takes for the agent to approve a draft.
  pub record Approval (rules : List ApprovalRule) (draft : Draft) : Type 0 where
    pub rule : ApprovalRule
    pub author : ℕ
    pub listed : Memᴰ rule rules
    pub covers : rule_applies fold high_risk_departments draft.connector_id draft rule ≡ true
    pub grants : rule.can_approve ≡ true
    pub written_by : rule.created_by ≡ some author
    pub author_active : services.author_active author ≡ true
    pub waiting : draft.status ≡ "pending"
    pub carried_out : services.approve_draft author draft ≡ true

  swept :
      (dry_run : Bool) (rules : List ApprovalRule) (drafts : List Draft) (e : Entry)
      → Memᴰ e
          (sweep
            (λ d. decide fold high_risk_departments loads (model d) rules d d.connector_id)
            services
            dry_run
            drafts
            empty_summary).1
      → e.applied ≡ some approve
      → (dry_run ≡ false) × Approval rules e.draft
  swept true rules drafts e m h =
      let (i, v, a) = sweep-Memᴰ _ services true drafts empty_summary e m in absurd (cc (sym a ∙ h))
  swept false rules drafts e m h =
      let (i, v, a) = sweep-Memᴰ _ services false drafts empty_summary e m in
      let (rule, author, decided, may, done) =
        apply_verdict-approve services e.draft _ (sym a ∙ h) in
      let (ready, listed, covers, grants, said) =
        decide-acts_approve fold high_risk_departments loads (model e.draft) rules e.draft
          e.draft.connector_id rule decided in
      let (written, live, waiting, prepared) = may_apply-author services e.draft rule author may in
      (
        refl,
        record {
          rule = rule;
          author = author;
          listed = listed;
          covers = covers;
          grants = grants;
          written_by = written;
          author_active = live;
          waiting = waiting;
          carried_out = done;
        },
      )

  run-none :
      (dry_run : Bool) (rules : List ApprovalRule) (drafts : List Draft)
      → enabled_rules rules ≡ []
      → (run fold high_risk_departments loads model services true company_domain limit dry_run rules
          drafts).1
        ≡ []
  unfolding run
  run-none dry_run rules drafts n = simp n

  run-some :
      (dry_run : Bool) (rules : List ApprovalRule) (drafts : List Draft) (rule : ApprovalRule)
      (rest : List ApprovalRule)
      → enabled_rules rules ≡ rule ∷ rest
      → (run fold high_risk_departments loads model services true company_domain limit dry_run rules
          drafts).1
        ≡ (sweep
            (λ d.
              decide fold high_risk_departments loads
                (model d)
                (enabled_rules rules)
                d
                d.connector_id)
            services
            dry_run
            (pending_batch company_domain limit drafts)
            empty_summary).1
  unfolding run
  run-some dry_run rules drafts rule rest n = simp n

  -- The agent approves a draft only if it is switched on and not in a dry run, under an active rule
  -- of the company that covers the draft and grants approval, as the rule's author, whose account
  -- is active, while the draft is pending.
  pub run_approves :
      (enabled dry_run : Bool) (rules : List ApprovalRule) (drafts : List Draft) (e : Entry)
      → Memᴰ e
          (run fold high_risk_departments loads model services enabled company_domain limit dry_run
            rules drafts).1
      → e.applied ≡ some approve
      → (enabled ≡ true) × (dry_run ≡ false) × Approval (enabled_rules rules) e.draft
  run_approves false dry_run rules drafts e m h =
      let k : Memᴰ e [] = unfold run in m in absurd (not-Memᴰ-nil k)
  run_approves true dry_run rules drafts e m h = elim (List-cases (enabled_rules rules)) [
    | inl n ↦ absurd (not-Memᴰ-nil (rw (run-none dry_run rules drafts n) at m))
    | inr p ↦
        let (f, a) =
          swept dry_run (enabled_rules rules) (pending_batch company_domain limit drafts) e
            (rw (run-some dry_run rules drafts p.0 p.1 p.2) at m) h in
        (refl, f, a)
  ]
