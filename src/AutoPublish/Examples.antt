-- ===== src/AutoPublish/Examples.antt =====
-- A department without a review: the theorems on src/domain/department_auto_publish.py at drafts that are
-- published, refused, or published with a follow-up that fails.
use mathlib.Core.Path.{subst}
use qnsc_kb_backend.Prelude.{
  ℕ, ◌+◌, ◌≡◌, refl, Bool, true, false, Option, none, some, List, [], ◌∷◌, map, length, nat_eq,
  string_eq, option_eq, Each,
}
use qnsc_kb_backend.ApprovalAgent.{compute_draft_risk_tier}
use qnsc_kb_backend.Governance.Decisions.{may_decide, notify_author}
use qnsc_kb_backend.Governance.{
  in_preparation, pending, ◌>>=◌, raise_if, is_global_publisher, is_outside, can_approve_draft,
  may_self_approve,
}
use qnsc_kb_backend.Governance.Samples.{same, team, found, review}
use qnsc_kb_backend.Governance.Publication.{approve_draft}
use qnsc_kb_backend.Rbac.{has_permission, compatibility_scope, default_scope, scope_allows}
use qnsc_kb_backend.AutoPublish.{
  FollowUps, follow_up, after_approval, rolls_back, Outcome, Department, Row, Report, publishers,
  sweep_batch, run_auto_publish, publish_all, in_sweep, has_publisher, add_publisher, opted_out,
  publish_row, is_high_risk, risk_view, count_outcome, publish_by, publish_as,
}
use qnsc_kb_backend.AutoPublish.Sweep.{
  Continues, refused_draft_ends_sweep, run_auto_publish-IsSound,
}
use qnsc_kb_backend.AutoPublish.Rows.{IsSound}

abbrev open_finance : Department
open_finance = record {
  name = "Finance";
  company_domain = "acme.vn";
  active = true;
  review_required = false;
  auto_publish_by = some 2;
}

abbrev quiet : FollowUps
quiet = record {
  raises = false;
  contradictions_fail = false;
  metadata_fails = false;
  entities_fail = false;
}

abbrev rows : List Row
rows = record { review = review pending none; found = found; follow_ups = quiet } ∷ []

abbrev totals_of : Option Report → List ℕ
totals_of none = []
totals_of (some r) = r.totals.approved ∷ r.totals.left ∷ r.totals.skips ∷ []

one_published :
    totals_of (run_auto_publish same same [] team true "acme.vn" 10 (open_finance ∷ []) rows)
    ≡ 1 ∷ 0 ∷ 0 ∷ []
unfolding run_auto_publish publish_all sweep_batch in_sweep has_publisher publishers add_publisher
    opted_out in_preparation publish_row is_high_risk compute_draft_risk_tier risk_view
    count_outcome publish_by publish_as follow_up after_approval approve_draft may_decide
    notify_author raise_if ◌>>=◌ has_permission compatibility_scope default_scope scope_allows
    is_global_publisher is_outside can_approve_draft may_self_approve
one_published = refl

sensitive_skipped :
    totals_of
      (run_auto_publish same same ("Finance" ∷ []) team true "acme.vn" 10 (open_finance ∷ []) rows)
    ≡ 0 ∷ 0 ∷ 1 ∷ []
unfolding run_auto_publish publish_all sweep_batch in_sweep has_publisher publishers add_publisher
    opted_out in_preparation publish_row is_high_risk compute_draft_risk_tier risk_view
    count_outcome
sensitive_skipped = refl

-- The metadata of a published article fails: where rollbacks expire rows, the draft is published but
-- reported as left for review.
abbrev unlucky : List Row
unlucky =
    record {
      review = review pending none;
      found = found;
      follow_ups = record quiet { metadata_fails = true };
    }
    ∷ []

published_but_left :
    totals_of (run_auto_publish same same [] team true "acme.vn" 10 (open_finance ∷ []) unlucky)
    ≡ 0 ∷ 1 ∷ 0 ∷ []
unfolding run_auto_publish publish_all sweep_batch in_sweep has_publisher publishers add_publisher
    opted_out in_preparation publish_row is_high_risk compute_draft_risk_tier risk_view
    count_outcome publish_by publish_as follow_up after_approval approve_draft may_decide
    notify_author raise_if ◌>>=◌ has_permission compatibility_scope default_scope scope_allows
    is_global_publisher is_outside can_approve_draft may_self_approve
published_but_left = refl

abbrev none_rolls_back : Option Outcome → Bool
none_rolls_back none = false
none_rolls_back (some o) = rolls_back same same [] team o

never_refused :
    Continues "acme.vn"
      (open_finance ∷ [])
      same
      same
      []
      team
      true
      (record { review = review pending none; found = found; follow_ups = quiet })
unfolding run_auto_publish publish_all sweep_batch in_sweep has_publisher publishers add_publisher
    opted_out in_preparation publish_row is_high_risk compute_draft_risk_tier risk_view
    count_outcome publish_by publish_as follow_up after_approval approve_draft may_decide
    notify_author raise_if ◌>>=◌ has_permission compatibility_scope default_scope scope_allows
    is_global_publisher is_outside can_approve_draft may_self_approve Continues rolls_back
never_refused o e = subst (λ outcome. none_rolls_back outcome ≡ false) e refl

-- The first draft's external id is taken.
abbrev refused_row : Row
refused_row = record {
  review = review pending none;
  found = record found { external_id_taken = true };
  follow_ups = quiet;
}

refused_draft_ends_sweep_example :
    run_auto_publish same same [] team true "acme.vn" 10 (open_finance ∷ []) (refused_row ∷ rows)
    ≡ none
unfolding run_auto_publish publish_all sweep_batch in_sweep has_publisher publishers add_publisher
    opted_out in_preparation publish_row is_high_risk compute_draft_risk_tier risk_view
    count_outcome publish_by publish_as follow_up after_approval approve_draft may_decide
    notify_author raise_if ◌>>=◌ has_permission compatibility_scope default_scope scope_allows
    is_global_publisher is_outside can_approve_draft may_self_approve
refused_draft_ends_sweep_example =
    refused_draft_ends_sweep "acme.vn" (open_finance ∷ []) same same [] team 10 (refused_row ∷ rows)
      [] refused_row (record { review = review pending none; found = found; follow_ups = quiet }) []
      refl refl

run_auto_publish-IsSound_example :
    (report : Report) × (run_auto_publish same same [] team true "acme.vn" 10
        (open_finance ∷ [])
        rows
      ≡ some report)
    × Each (IsSound "acme.vn" (open_finance ∷ []) same same [] team) report.outcomes
    × (map (λ entry. entry.0) report.outcomes
        ≡ sweep_batch "acme.vn" (publishers "acme.vn" (open_finance ∷ []) []) 10 rows)
    × (report.totals.approved + report.totals.left + report.totals.skips
        ≡ length (sweep_batch "acme.vn" (publishers "acme.vn" (open_finance ∷ []) []) 10 rows))
unfolding run_auto_publish publish_all sweep_batch in_sweep has_publisher publishers add_publisher
    opted_out in_preparation publish_row is_high_risk compute_draft_risk_tier risk_view
    count_outcome publish_by publish_as follow_up after_approval approve_draft may_decide
    notify_author raise_if ◌>>=◌ has_permission compatibility_scope default_scope scope_allows
    is_global_publisher is_outside can_approve_draft may_self_approve
run_auto_publish-IsSound_example =
    run_auto_publish-IsSound "acme.vn" (open_finance ∷ []) same same [] team true 10 rows
      (never_refused, tt)
