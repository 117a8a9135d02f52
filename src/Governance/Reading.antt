-- ===== src/Governance/Reading.antt =====
-- The reading view of a draft: `restructure_draft` and `decide_restructure` of
-- src/domain/governance.py. What `restructure_document` answers, a call of the model, is an argument,
-- and so is `fallback` for `_fallback_text`.
pub mod Effects
use qnsc_kb_backend.Prelude.{
  String, Bool, false, not, Option, none, some, nat_beq, if◌then◌else◌, is_some, get_or, ◌==◌,
  nat_eq, string_eq, option_eq,
}
use qnsc_kb_backend.Accounts.{User}
use qnsc_kb_backend.Governance.{
  pending, bad_request, forbidden, conflict, unprocessable, Result, ok, err, raise_if, Draft,
  Review, same_status, can_review_draft, is_outside, load, audit, ◌>>=◌, ◌>>◌,
}

pub record RestructureResult : Type 0 where
  pub body_md : String
  pub candidate_body_md : Option String
  pub status : String

pub decision_of : RestructureResult → String
decision_of result =
    if is_some result.candidate_body_md
    then "pending_review"
    else if result.status == "llm"
    then "ai_ready"
    else "lossless_ready"

pub restructure_draft : RestructureResult → User → Review → Result Review
unfolding load decision_of audit
restructure_draft result user r = do
  load user r
  raise_if (not (same_status r.draft.status pending)) bad_request
  raise_if (is_outside user r.draft) forbidden
  raise_if (not (can_review_draft user r.draft)) forbidden
  ok (
      audit user "restructure" (record r {
        draft = record r.draft {
          restructured_body_md = some result.body_md;
          restructure_candidate_md = result.candidate_body_md;
          restructure_decision = decision_of result;
          restructure_status = result.status;
        };
      }))

pub data Decision : Type 0 where
  keep_ai keep_lossless unknown : Decision

-- Assigned to somebody else.
pub assigned_elsewhere : User → Draft → Bool
assigned_elsewhere user draft = elim draft.assigned_approver_id [
  | none ↦ false
  | some id ↦ not (nat_beq id user.id)
]

pub keep : (String → String) → Decision → Draft → Result Draft
keep fallback unknown draft = err unprocessable
keep fallback keep_ai draft = elim draft.restructure_candidate_md [
  | none ↦ err conflict
  | some candidate ↦
      if candidate == ""
      then err conflict
      else ok (record draft {
        restructured_body_md = some candidate;
        restructure_status = "llm_reviewed";
        restructure_decision = "ai_kept";
      })
]
keep fallback keep_lossless draft = ok (record draft {
  restructured_body_md = some (
      fallback (
        if get_or draft.summary "" == ""
        then get_or draft.restructured_body_md ""
        else get_or draft.summary ""));
  restructure_status = "fallback_formatting";
  restructure_decision = "lossless_kept";
})

pub decide_restructure : (String → String) → Decision → User → Review → Result Review
unfolding load assigned_elsewhere keep audit
decide_restructure fallback decision user r = do
  load user r
  raise_if (not (same_status r.draft.status pending)) bad_request
  raise_if (is_outside user r.draft) forbidden
  raise_if (assigned_elsewhere user r.draft) forbidden
  raise_if (not (can_review_draft user r.draft)) forbidden
  kept ← keep fallback decision r.draft
  ok (audit user "restructure" (record r { draft = kept }))
