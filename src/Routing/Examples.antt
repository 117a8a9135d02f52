-- ===== src/Routing/Examples.antt =====
-- A handbook with a hollow section, two departments and a model that answers: the theorems on
-- src/domain/department_routing.py at them.
use qnsc_kb_backend.Prelude.{
  nat_eq, ℕ, ◌≡◌, refl, ◌≢◌, true, Option, none, some, List, [], ◌∷◌, map, length, nat_eq,
  string_eq, option_eq,
}
use qnsc_kb_backend.Text.{Text, codes, text_beq, is_blank, strip}
use qnsc_kb_backend.Routing.{Department, Assignment, Candidate}
use qnsc_kb_backend.Routing.Grouping.{
  absorb_hollow_sections, finalize, has_owner, route_document_candidates, kept, absorb_all,
  absorb_one, is_hollow, held_before, extend_last, primary_id, extend, number_from, group,
  group_from, same_owner, suggest_section, prepend,
}
use qnsc_kb_backend.Routing.Grouping.Bodies.{joined, finalize-joined}
use qnsc_kb_backend.Routing.Grouping.Neighbours.{IsSequence, finalize-IsSequence}
use qnsc_kb_backend.Routing.Grouping.Owners.{AllAssigned}
use qnsc_kb_backend.Routing.Model.{
  RoutingModel, RoutingOutcome, attempt, answered, route_document_candidates_llm,
  llm_section_departments, is_applicable, read_reply, parse_assignments, look_up, choose_known,
  read_entry, as_int, object, no_object, integer, boolean, in_range, department_at,
  apply_model_from, baseline, apply_model, suggestion_for,
}
use qnsc_kb_backend.Routing.Model.Fallback.{without_answer-route_document_candidates}
use qnsc_kb_backend.Routing.Model.Known.{Names, route_document_candidates_llm-Names}
use qnsc_kb_backend.Routing.Sections.{major_sections, bodies, place}
use qnsc_kb_backend.ApprovalAgent.Reply.{braced, unfence}
use qnsc_kb_backend.Routing.Suggest.{
  suggest_departments, ranked, insert_ranked, comes_before, select_first, suggestion,
}

abbrev same_text : Text → Text
same_text t = t

abbrev payroll : Department
payroll = record { id = 5; name = codes "Payroll"; description = codes "salary" }

abbrev operations : Department
operations = record { id = 8; name = codes "Operations"; description = codes "shift" }

abbrev departments : List Department
departments = payroll ∷ operations ∷ []

abbrev handbook : Text
handbook = codes "# Handbook\n## Pay\nsalary\n## Hours\nshift"

abbrev unassigned : Assignment
unassigned = record { department_ids = []; department_suggestions = []; proposed_department = none }

abbrev item : Text → List ℕ → Candidate
item text ids = record {
  section = record {
    position = 1;
    title = codes "Section";
    body_md = text;
    source_start = 0;
    source_end = length text;
    heading = none;
  };
  assignment = record unassigned { department_ids = ids };
}

-- The second section is hollow, and the fourth belongs to the department of the third.
abbrev sections : List Candidate
sections =
    item (codes "## A\none") (5 ∷ [])
    ∷ item (codes "## B") (8 ∷ [])
    ∷ item (codes "## C\ntwo") (8 ∷ [])
    ∷ item (codes "## D\nthree") (8 ∷ [])
    ∷ []

count_candidates : length (finalize (codes "Handbook") handbook unassigned sections) ≡ 2
unfolding absorb_hollow_sections absorb_all absorb_one extend extend_last group group_from has_owner
    held_before is_hollow kept number_from prepend primary_id same_owner finalize is_blank
count_candidates = refl

finalize-joined_example :
    joined (finalize (codes "Handbook") handbook unassigned sections) ≡ joined sections
unfolding absorb_hollow_sections absorb_all absorb_one extend extend_last group group_from has_owner
    held_before is_hollow kept number_from prepend primary_id same_owner finalize is_blank
finalize-joined_example = finalize-joined (codes "Handbook") handbook unassigned sections refl

finalize-IsSequence_example :
    IsSequence 1 (finalize (codes "Handbook") handbook unassigned sections)
finalize-IsSequence_example = finalize-IsSequence (codes "Handbook") handbook unassigned sections

-- The model gives the first section to the second department.
abbrev model : RoutingModel
model = record {
  enabled = true;
  provider = some true;
  complete = λ system prompt. some (codes "{}");
  loads = λ text. some (
      object (integer 1) (integer 2)
      ∷ object (integer 9) (integer 1)
      ∷ object (boolean true) (integer 1)
      ∷ no_object
      ∷ []);
}

abbrev silent : RoutingModel
silent = record model { complete = λ system prompt. none }

abbrev routed : Option (List Candidate)
routed =
    route_document_candidates_llm same_text same_text true model true (codes "Handbook") handbook
      departments

owners : Option (List Candidate) → List (List ℕ)
owners none = []
owners (some candidates) = map (λ c. c.assignment.department_ids) candidates

model_decides : owners routed ≡ (8 ∷ []) ∷ []
unfolding absorb_hollow_sections absorb_all absorb_one extend extend_last group group_from has_owner
    held_before is_hollow kept number_from prepend primary_id same_owner finalize
    route_document_candidates suggest_section major_sections bodies place suggest_departments ranked
    insert_ranked comes_before select_first suggestion is_blank route_document_candidates_llm
    attempt llm_section_departments is_applicable read_reply parse_assignments braced unfence
    look_up choose_known read_entry as_int in_range department_at apply_model_from baseline
    apply_model suggestion_for owners strip text_beq
model_decides = refl

keywords_decide :
    map
      (λ c. c.assignment.department_ids)
      (route_document_candidates same_text same_text true (codes "Handbook") handbook departments)
    ≡ (5 ∷ []) ∷ (8 ∷ []) ∷ []
unfolding absorb_hollow_sections absorb_all absorb_one extend extend_last group group_from has_owner
    held_before is_hollow kept number_from prepend primary_id same_owner finalize
    route_document_candidates suggest_section major_sections bodies place suggest_departments ranked
    insert_ranked comes_before select_first suggestion is_blank text_beq
keywords_decide = refl

abbrev the_candidates : List Candidate
the_candidates = elim routed [ none ↦ [] | some candidates ↦ candidates ]

route_document_candidates_llm-Names_example : AllAssigned (Names departments) the_candidates
unfolding absorb_hollow_sections absorb_all absorb_one extend extend_last group group_from has_owner
    held_before is_hollow kept number_from prepend primary_id same_owner finalize
    route_document_candidates suggest_section major_sections bodies place suggest_departments ranked
    insert_ranked comes_before select_first suggestion is_blank route_document_candidates_llm
    attempt llm_section_departments is_applicable read_reply parse_assignments braced unfence
    look_up choose_known read_entry as_int in_range department_at apply_model_from baseline
    apply_model suggestion_for owners strip
route_document_candidates_llm-Names_example =
    route_document_candidates_llm-Names departments same_text same_text true model true
      (codes "Handbook") handbook refl

without_answer-route_document_candidates_example :
    (o : RoutingOutcome) × (attempt same_text same_text true silent true
        (codes "Handbook")
        handbook
        departments
      ≡ some o)
    × (o.state ≢ answered
        → route_document_candidates_llm same_text same_text true silent true
            (codes "Handbook")
            handbook
            departments
          ≡ some (
              route_document_candidates same_text same_text true
                (codes "Handbook")
                handbook
                departments))
without_answer-route_document_candidates_example =
    without_answer-route_document_candidates same_text same_text true silent true (codes "Handbook")
      handbook departments
