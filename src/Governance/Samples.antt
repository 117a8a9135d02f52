-- ===== src/Governance/Samples.antt =====
-- A company, its people and its drafts, at which the theorems on src/domain/governance.py are applied.
use qnsc_kb_backend.Prelude.{
  ℕ, String, true, false, Option, none, some, List, [], ◌∷◌, nat_eq, string_eq, option_eq,
}
use qnsc_kb_backend.Accounts.{User, Department}
use qnsc_kb_backend.Governance.{
  create_draft, Status, authored, Result, ok, err, Metadata, Draft, Review,
}
use qnsc_kb_backend.Governance.Decisions.{ApproverRule, submit_draft}
use qnsc_kb_backend.Governance.Selection.{Request, Found}
use qnsc_kb_backend.Governance.Candidates.{CandidateStatus, DraftCandidate}

abbrev pub finance : Department
finance = record { id = 1; name = "Finance"; company_domain = "acme.vn"; active = true }

abbrev pub user : ℕ → String → List Department → User
user id role departments = record {
  id = id;
  company_domain = "acme.vn";
  dept = none;
  role = role;
  active = true;
  departments = departments;
  department_ownerships = [];
  roles = [];
}

abbrev pub author : User
author = user 5 "Staff" (finance ∷ [])

abbrev pub chief : User
chief = user 2 "CEO" []

abbrev pub reviewer : User
reviewer = user 3 "Reviewer" (finance ∷ [])

abbrev pub team : List User
team = author ∷ (chief ∷ (reviewer ∷ []))

abbrev pub metadata : Metadata
metadata = record {
  submission_kind = none;
  suggested_update_article_id = none;
  category = none;
  dept = none;
  sensitivity = none;
  visibility = none;
  department_ids = [];
  explicit_user_ids = [];
  denied_user_ids = [];
}

abbrev pub draft : Status → Option ℕ → Draft
draft status document = record {
  id = 9;
  company_domain = "acme.vn";
  dept = some "Finance";
  status = status;
  summary = some "Travel costs";
  restructured_body_md = none;
  restructure_candidate_md = none;
  restructure_decision = "not_reviewed";
  restructure_status = "lossless_ready";
  content_metadata = metadata;
  requires_update_confirmation = false;
  external_document_id = document;
  created_by = some 5;
  assigned_approver_id = none;
  assigned_by = none;
  reviewed_by = none;
}

abbrev pub review : Status → Option ℕ → Review
review status document = create_draft (draft status document)

abbrev pub value : {A : Type 0} → A → Result A → A
value default (ok a) = a
value default (err e) = default

abbrev pub same : String → String
same s = s

abbrev pub request : Request
request = record {
  category = none;
  dept = none;
  sensitivity = some "public";
  visibility = some "public";
  update_article_id = none;
  treat_as_new = false;
  department_ids = none;
  explicit_user_ids = some (5 ∷ (3 ∷ []));
  denied_user_ids = none;
}

abbrev pub found : Found
found = record {
  departments = finance ∷ [];
  users = team;
  document = some (record {
    unmapped = [];
    mapped_department_ids = 1 ∷ [];
    mapped_source_user_ids = 3 ∷ [];
    connector = some (record { company_domain = "acme.vn"; system = "sharepoint" });
  });
  active_candidates = 0;
  update_target = none;
  external_id_taken = false;
  review_date_valid = true;
}

abbrev pub submitted : Review
submitted = value (review authored none) (submit_draft team [] author (review authored none))

abbrev pub legal : Department
legal = record { id = 2; name = "Legal"; company_domain = "acme.vn"; active = true }

abbrev pub rule : ApproverRule
rule = record { company_domain = "acme.vn"; dept = "Finance"; approver_id = 2; active = true }

abbrev pub row : ℕ → ℕ → CandidateStatus → DraftCandidate
row id position status = record {
  id = id;
  position = position;
  title = 65 ∷ [];
  body_md = 66 ∷ (67 ∷ (68 ∷ []));
  source_start = 0;
  source_end = 3;
  department_ids = 2 ∷ [];
  status = status;
}
