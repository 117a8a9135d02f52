-- ===== src/ApprovalAgent.antt =====
-- src/domain/approval_agent.py: rules, scoping, the decision on one draft and the sweep over the
-- queue. Similarity scores are whole numbers of a fixed scale. Arguments are `fold` for Python's
-- `.strip().lower()`, `loads` for `json.loads`, and `Services` for what the agent calls of
-- src/domain/governance.py and src/repositories/user.py.
pub mod Reply
pub mod Scoping
pub mod Authority
pub mod Sweep
pub mod Run
mod Examples
use qnsc_kb_backend.Prelude.{
  ℕ, zero, suc, ◌+◌, ◌-◌, ◌*◌, ◌/◌, ◌%◌, ◌^◌, ◌≤◌, ◌<◌, min, max, String, ◌≡◌, refl, sym, ap, ◌∙◌,
  ◌≢◌, ◌↔◌, ◌⊎◌, inl, inr, Bool, true, false, not, ◌&&◌, ◌||◌, Option, none, some, List, [], ◌∷◌,
  ◌++◌, map, Memᴰ, arith, ltb, leb, nat_beq, nat_beq_iff, if◌then◌else◌, ltb→lt, lt→ltb, leb→le,
  le→leb, tests, Bool-cases, Option-cases, &&-eq-true, ||-eq-true, is_some, get_or, length, take,
  length-append, any, all, filter, any-Memᴰ, any_of_Memᴰ, Memᴰ-filter, filter_of_Memᴰ,
  length-filter, Eq, ◌==◌, nat_eq, string_eq, option_eq, List-cases, not-Memᴰ-nil, find, find-Memᴰ,
  find-append, elem, elem-Memᴰ, Memᴰ-elem, lookup, insert, lookup-insert, option_beq_iff, eq_iff,
}
use qnsc_kb_backend.ApprovalAgent.Reply.{Decision, approve, reject, unsure, parse_decision, Payload}

pub record ApprovalRule : Type 0 where
  pub id : ℕ
  pub company_domain : String
  pub active : Bool
  pub priority : ℕ
  pub connector_id : Option ℕ
  pub dept : Option String
  pub file_extensions : List String
  pub max_similarity_score : Option ℕ
  pub risk_tiers : List String
  pub can_approve : Bool
  pub can_reject : Bool
  pub created_by : Option ℕ

pub record Draft : Type 0 where
  pub id : ℕ
  pub company_domain : String
  pub dept : Option String
  pub sensitivity : Option String
  pub similarity_scores : List ℕ
  pub extension : Option String
  pub connector_id : Option ℕ
  pub status : String
  pub restructure_status : String

-- restructure_status in {"queued", "processing", "deferred"}
pub in_preparation : Draft → Bool
in_preparation draft = elem draft.restructure_status ("queued" ∷ "processing" ∷ "deferred" ∷ [])

maximum : List ℕ → Option ℕ
maximum [] = none
maximum (x ∷ xs) = elim (maximum xs) [ none ↦ some x | some m ↦ some (max x m) ]

pub top_similarity : Draft → Option ℕ
unfolding maximum
top_similarity draft = maximum draft.similarity_scores

-- score is not None and score <= limit, where a limit is set
within_similarity : Option ℕ → Option ℕ → Bool
within_similarity none score = true
within_similarity (some limit) none = false
within_similarity (some limit) (some score) = leb score limit

-- rule.connector_id is None or str(rule.connector_id) == str(connector_id or "")
same_connector : Option ℕ → Option ℕ → Bool
same_connector none connector = true
same_connector (some wanted) none = false
same_connector (some wanted) (some connector) = nat_beq wanted connector

pub is_empty : List String → Bool
is_empty [] = true
is_empty (_ ∷ _) = false

standard_risk : String
standard_risk = "standard"

pub high_risk : String
high_risk = "high"

-- `high_risk_departments` is settings.approval_agent_high_risk_department_list
unfoldable pub compute_draft_risk_tier : (String → String) → List String → Draft → String
unfolding standard_risk high_risk
compute_draft_risk_tier fold high_risk_departments draft =
    let dept = fold (get_or draft.dept "") in
    if elem (fold (get_or draft.sensitivity "")) ("restricted" ∷ "confidential" ∷ [])
    then high_risk
    else if not (dept == "") && elem dept high_risk_departments
    then high_risk
    else standard_risk

same_department : (String → String) → Option String → Option String → Bool
same_department fold none dept = true
same_department fold (some wanted) dept = fold (get_or dept "") == fold wanted

-- The extension of a draft comes as `_extension` gives it, and `none` is in no set of texts.
allowed_extension : (String → String) → List String → Option String → Bool
unfolding is_empty
allowed_extension fold extensions none = is_empty extensions
allowed_extension fold extensions (some e) = is_empty extensions || elem e (map fold extensions)

pub rule_applies : (String → String) → List String → Option ℕ → Draft → ApprovalRule → Bool
unfolding same_connector same_department allowed_extension within_similarity is_empty
    compute_draft_risk_tier
rule_applies fold high_risk_departments connector_id draft rule =
    rule.active
    && rule.company_domain == draft.company_domain
    && same_connector rule.connector_id connector_id
    && same_department fold rule.dept draft.dept
    && allowed_extension fold rule.file_extensions draft.extension
    && within_similarity rule.max_similarity_score (top_similarity draft)
    && (is_empty rule.risk_tiers
        || elem (compute_draft_risk_tier fold high_risk_departments draft) rule.risk_tiers)

-- The order of `key=lambda rule: (rule.priority, str(rule.id))`.
pub ranks_before : ApprovalRule → ApprovalRule → Bool
ranks_before a b = ltb a.priority b.priority || nat_beq a.priority b.priority && leb a.id b.id

-- sorted(rules, key=...)[0]
pub first_rule : List ApprovalRule → Option ApprovalRule
unfolding ranks_before
first_rule [] = none
first_rule (rule ∷ rest) = elim (first_rule rest) [
  | none ↦ some rule
  | some best ↦ if ranks_before rule best then some rule else some best
]

pub select_rule :
    (String → String) → List String → List ApprovalRule → Draft → Option ℕ → Option ApprovalRule
select_rule fold high_risk_departments rules draft connector_id =
    first_rule (filter (rule_applies fold high_risk_departments connector_id draft) rules)

-- Why the agent abstains.
pub data Reason : Type 0 where
  preparing no_rule may_not_act no_provider unreachable unreadable : Reason
  may_not_approve may_not_reject model_unsure : Reason

pub data Verdict : Type 0 where
  acts_approve acts_reject : ApprovalRule → Verdict
  abstains : Reason → Option ApprovalRule → Verdict

-- The model's side of one decision: whether a provider is configured, and its reply, `none` where
-- the call raises.
pub record Model : Type 0 where
  pub configured : Bool
  pub reply : Option (List ℕ)

pub weigh : ApprovalRule → Option Decision → Verdict
weigh rule none = abstains unreadable (some rule)
weigh rule (some approve) =
    if rule.can_approve then acts_approve rule else abstains may_not_approve (some rule)
weigh rule (some reject) =
    if rule.can_reject then acts_reject rule else abstains may_not_reject (some rule)
weigh rule (some unsure) = abstains model_unsure (some rule)

pub consult : (List ℕ → Option Payload) → Model → ApprovalRule → Verdict
unfolding weigh
consult loads model rule =
    if not (rule.can_approve || rule.can_reject)
    then abstains may_not_act (some rule)
    else if not model.configured
    then abstains no_provider (some rule)
    else elim model.reply [
      | none ↦ abstains unreachable (some rule)
      | some reply ↦ weigh rule (parse_decision loads reply)
    ]

pub decide :
    (String → String)
    → List String
    → (List ℕ → Option Payload)
    → Model
    → List ApprovalRule
    → Draft
    → Option ℕ
    → Verdict
unfolding in_preparation
decide fold high_risk_departments loads model rules draft connector_id =
    if in_preparation draft
    then abstains preparing none
    else elim (select_rule fold high_risk_departments rules draft connector_id) [
      | none ↦ abstains no_rule none
      | some rule ↦ consult loads model rule
    ]

-- What `_apply` needs of the rest of the system: whether an account exists and is active, and
-- whether GovernanceService carries out the action as that account, or raises.
pub record Services : Type 0 where
  pub author_active : ℕ → Bool
  pub approve_draft : ℕ → Draft → Bool
  pub reject_draft : ℕ → Draft → Bool

pub may_apply : Services → Draft → ApprovalRule → Option ℕ
unfolding in_preparation
may_apply services draft rule =
    if not (draft.status == "pending") || in_preparation draft then none else elim rule.created_by [
      | none ↦ none
      | some author ↦ if services.author_active author then some author else none
    ]

-- The action that is carried out; `none` where `_apply` refuses or the service raises.
pub apply_verdict : Services → Draft → Verdict → Option Decision
unfolding may_apply
apply_verdict services draft (abstains reason rule) = none
apply_verdict services draft (acts_approve rule) = elim (may_apply services draft rule) [
  | none ↦ none
  | some author ↦ if services.approve_draft author draft then some approve else none
]
apply_verdict services draft (acts_reject rule) = elim (may_apply services draft rule) [
  | none ↦ none
  | some author ↦ if services.reject_draft author draft then some reject else none
]

pub record Summary : Type 0 where
  pub evaluated : ℕ
  pub approved : ℕ
  pub rejected : ℕ
  pub left_for_review : ℕ

abbrev pub empty_summary : Summary
empty_summary = record { evaluated = 0; approved = 0; rejected = 0; left_for_review = 0 }

pub count_action : Option Decision → Summary → Summary
count_action (some approve) s = record s { approved = s.approved + 1 }
count_action (some reject) s = record s { rejected = s.rejected + 1 }
count_action _ s = record s { left_for_review = s.left_for_review + 1 }

-- The record of what was carried out on a draft, which the audit log keeps.
pub record Entry : Type 0 where
  pub draft : Draft
  pub verdict : Verdict
  pub applied : Option Decision

pub sweep : (Draft → Verdict) → Services → Bool → List Draft → Summary → Summary × List Entry
unfolding count_action apply_verdict
sweep judge services dry_run [] summary = (summary, [])
sweep judge services dry_run (draft ∷ rest) summary =
    let verdict = judge draft in
    let applied = if dry_run then none else apply_verdict services draft verdict in
    let counted = count_action applied (record summary { evaluated = summary.evaluated + 1 }) in
    let (after, entries) = sweep judge services dry_run rest counted in
    (after, record { draft = draft; verdict = verdict; applied = applied } ∷ entries)

-- The query for the pending queue of the company, over rows in the order of their creation.
pub pending_batch : String → ℕ → List Draft → List Draft
unfolding in_preparation
pending_batch company_domain limit drafts = take limit (
    filter
      (λ d. d.company_domain == company_domain && d.status == "pending" && not (in_preparation d))
      drafts)

-- `model` gives the model's side for each draft.
pub run :
    (String → String)
    → List String
    → (List ℕ → Option Payload)
    → (Draft → Model)
    → Services
    → Bool
    → String
    → ℕ
    → Bool
    → List ApprovalRule
    → List Draft
    → Summary × List Entry
unfolding pending_batch
run fold high_risk_departments loads model services enabled company_domain limit dry_run rules
      drafts =
    let active = filter (λ r. r.company_domain == company_domain && r.active) rules in
    if not enabled then (empty_summary, []) else elim active [
      | [] ↦ (empty_summary, [])
      | rule ∷ rest ↦
          sweep
            (λ d. decide fold high_risk_departments loads (model d) (rule ∷ rest) d d.connector_id)
            services dry_run (pending_batch company_domain limit drafts) empty_summary
    ]
