-- ===== src/ApprovalAgent/Examples.antt =====
-- A rule, two drafts and a model that approves: the theorems on src/domain/approval_agent.py at them.
-- Characters are code points.
use qnsc_kb_backend.Prelude.{
  ℕ, String, ◌≡◌, refl, true, false, Option, none, some, List, [], ◌∷◌, Memᴰ, get_or, nat_eq,
  string_eq, option_eq, elem,
}
use qnsc_kb_backend.ApprovalAgent.{
  ApprovalRule, Draft, Verdict, Model, Services, empty_summary, Entry, acts_approve, rule_applies,
  select_rule, is_empty, high_risk, decide, sweep, run, top_similarity, first_rule, consult,
}
use qnsc_kb_backend.ApprovalAgent.Reply.{
  Payload, approve, parse_decision, braced, unfence, parse_decision-approve,
}
use qnsc_kb_backend.Text.{strip}
use qnsc_kb_backend.ApprovalAgent.Sweep.{IsBalanced}
use qnsc_kb_backend.ApprovalAgent.Run.{Approval, enabled_rules, run_approves}

abbrev same_text : String → String
same_text t = t

abbrev rule_of : ℕ → ℕ → ApprovalRule
rule_of id priority = record {
  id = id;
  company_domain = "acme.vn";
  active = true;
  priority = priority;
  connector_id = none;
  dept = none;
  file_extensions = [];
  max_similarity_score = some 50;
  risk_tiers = "standard" ∷ [];
  can_approve = true;
  can_reject = false;
  created_by = some 3;
}

abbrev draft_of : Option String → List ℕ → Draft
draft_of sensitivity scores = record {
  id = 11;
  company_domain = "acme.vn";
  dept = some "Finance";
  sensitivity = sensitivity;
  similarity_scores = scores;
  extension = some ".pdf";
  connector_id = none;
  status = "pending";
  restructure_status = "completed";
}

abbrev draft : Draft
draft = draft_of none (20 ∷ 35 ∷ [])

-- "{}"
abbrev braces : List ℕ
braces = 123 ∷ 125 ∷ []

abbrev loads : List ℕ → Option Payload
loads text = some (record { decision = some "approve"; reason = "matches the rule" })

abbrev model : Model
model = record { configured = true; reply = some braces }

abbrev services : Services
services = record {
  author_active = λ author. true;
  approve_draft = λ author d. true;
  reject_draft = λ author d. true;
}

abbrev rules : List ApprovalRule
rules = rule_of 2 20 ∷ rule_of 1 10 ∷ []

unmeasured : top_similarity (draft_of none []) ≡ none
unfolding top_similarity
unmeasured = refl

marked_confidential :
    elem
      (same_text (get_or (draft_of (some "confidential") []).sensitivity ""))
      ("restricted" ∷ "confidential" ∷ [])
    ≡ true
marked_confidential = refl

lists_tiers : is_empty (rule_of 1 10).risk_tiers ≡ false
unfolding is_empty
lists_tiers = refl

lists_no_high_risk : elem high_risk (rule_of 1 10).risk_tiers ≡ false
unfolding high_risk
lists_no_high_risk = refl

chosen : select_rule same_text [] rules draft none ≡ some (rule_of 1 10)
unfolding select_rule first_rule rule_applies top_similarity
chosen = refl

other_applies : rule_applies same_text [] none draft (rule_of 2 20) ≡ true
unfolding rule_applies top_similarity
other_applies = refl

reply_parses : parse_decision loads braces ≡ some approve
unfolding parse_decision
reply_parses = refl

parse_decision-approve_example :
    (object : List ℕ) × (payload : Payload) × (braced (unfence (strip braces)) ≡ some object)
    × (loads object ≡ some payload)
    × (payload.decision ≡ some "approve")
parse_decision-approve_example = parse_decision-approve loads braces reply_parses

abbrev judge : Draft → Verdict
judge d = decide same_text [] loads model rules d none

empty_summary-IsBalanced : IsBalanced empty_summary
unfolding IsBalanced
empty_summary-IsBalanced = refl

abbrev approved_entry : Entry
approved_entry = record {
  draft = draft;
  verdict = acts_approve (rule_of 1 10);
  applied = some approve;
}

run_logs_approval :
    Memᴰ approved_entry
      (run same_text [] loads (λ d. model) services true "acme.vn" 50 false rules (draft ∷ [])).1
unfolding run sweep decide select_rule first_rule rule_applies top_similarity consult parse_decision
run_logs_approval = Memᴰ.head refl

run_approves_example :
    (true ≡ true)
    × (false ≡ false)
    × Approval same_text [] loads
        (λ d. model)
        services
        "acme.vn"
        50
        (enabled_rules same_text [] loads (λ d. model) services "acme.vn" 50 rules)
        draft
run_approves_example =
    run_approves same_text [] loads (λ d. model) services "acme.vn" 50 true false rules (draft ∷ [])
      approved_entry run_logs_approval refl
