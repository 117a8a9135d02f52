-- ===== src/Routing/Model.antt =====
-- The routing by a language model in src/domain/department_routing.py. `loads` gives the entries of
-- the "assignments" of a reply's object; `none` is an exception, of `json.loads` or of reading the
-- assignments.
pub mod Fallback
pub mod Known
use qnsc_kb_backend.Prelude.{
  nat_eq, lookup, insert, ℕ, zero, suc, ◌+◌, ◌-◌, Bool, true, false, not, ◌&&◌, Option, none, some,
  List, [], ◌∷◌, ◌++◌, map, leb, nat_beq, if◌then◌else◌, get_or, length, take, filter, find,
}
use qnsc_kb_backend.Text.{Text, codes, is_blank, strip, join, decimal}
use qnsc_kb_backend.ApprovalAgent.Reply.{unfence, braced}
use qnsc_kb_backend.Routing.{Department, Suggestion, Section, Assignment, Candidate}
use qnsc_kb_backend.Routing.Suggest.{suggest_departments}
use qnsc_kb_backend.Routing.Sections.{major_sections}
use qnsc_kb_backend.Routing.Grouping.{finalize, suggest_section}

-- A value of a parsed JSON object, as far as its type is tested; `other` is also a missing one.
pub data JsonValue : Type 0 where
  other : JsonValue
  boolean : Bool → JsonValue
  integer negative : ℕ → JsonValue

-- An entry with what it has under "section" and "department"
pub data JsonEntry : Type 0 where
  no_object : JsonEntry
  object : JsonValue → JsonValue → JsonEntry

abbrev pub AssignmentEntry : Type 0
AssignmentEntry = Option ℕ × Option ℕ

-- The number if `type(value) is int`, which leaves out a bool; a negative number is in no range and is
-- left out here.
unfoldable pub as_int : JsonValue → Option ℕ
as_int other = none
as_int (boolean _) = none
as_int (integer n) = some n
as_int (negative _) = none

unfoldable pub read_entry : JsonEntry → AssignmentEntry
unfolding as_int
read_entry no_object = (none, none)
read_entry (object section department) = (as_int section, as_int department)

-- The settings and the client of the model; `none` for the provider or a reply is an exception.
pub record RoutingModel : Type 0 where
  pub enabled : Bool
  pub provider : Option Bool
  pub complete : Text → Text → Option Text
  pub loads : Text → Option (List JsonEntry)

pub data RoutingState : Type 0 where
  off not_applicable unavailable unreadable answered : RoutingState

-- The assignments by the number of the section.
pub record RoutingOutcome : Type 0 where
  pub state : RoutingState
  pub assignments : List (ℕ × Department)

unfoldable pub in_range : ℕ → ℕ → Bool
in_range n count = leb 1 n && leb n count

unfoldable pub choose_known : ℕ → ℕ → List AssignmentEntry → List (ℕ × ℕ) → List (ℕ × ℕ)
choose_known sections departments [] chosen = chosen
choose_known sections departments ((some s, some d) ∷ rest) chosen =
    let known = in_range s sections && in_range d departments in
    choose_known sections departments rest (if known then insert s d chosen else chosen)
choose_known sections departments ((_, _) ∷ rest) chosen =
    choose_known sections departments rest chosen

unfoldable pub parse_assignments :
    (Text → Option (List JsonEntry)) → Text → ℕ → ℕ → Option (List (ℕ × ℕ))
parse_assignments loads reply sections departments = elim (braced (unfence (strip reply))) [
  | none ↦ some []
  | some text ↦ elim (loads text) [
    | none ↦ none
    | some entries ↦ some (choose_known sections departments (map read_entry entries) [])
  ]
]

-- _ROUTING_SYSTEM_PROMPT
abbrev pub routing_system_prompt : Text
routing_system_prompt =
    codes
      "You assign sections of a document to the department that owns them in a company knowledge base. Reply with JSON only, no prose: {\"assignments\": [{\"section\": <int>, \"department\": <int>}]}. Use only the department numbers given. Use 0 when no listed department is a sensible owner. Include every section exactly once."

department_lines : ℕ → List Department → List Text
department_lines n [] = []
department_lines n (d ∷ rest) =
    let description = strip d.description in
    let suffix = if is_blank description then [] else codes " - " ++ take 300 description in
    (decimal n ++ (codes ". " ++ (d.name ++ suffix))) ∷ department_lines (n + 1) rest

section_lines : ℕ → List Section → List Text
section_lines n [] = []
section_lines n (s ∷ rest) =
    (codes "--- section " ++ (decimal n ++ (codes ": " ++ s.title)))
    ∷ take 1200 s.body_md
    ∷ section_lines (n + 1) rest

pub routing_prompt : Text → List Section → List Department → Text
unfolding department_lines section_lines
routing_prompt title sections departments = join (codes "\n") (
    (codes "DEPARTMENTS:" ∷ department_lines 1 departments)
    ++ ([] ∷ (codes "DOCUMENT: " ++ title) ∷ [] ∷ codes "SECTIONS:" ∷ section_lines 1 sections))

-- departments[index - 1] for an index of at least 1; `none` for an IndexError, and for 0, where
-- Python would read the last
unfoldable pub department_at : List Department → ℕ → Option Department
department_at [] n = none
department_at (d ∷ rest) zero = none
department_at (d ∷ rest) (suc zero) = some d
department_at (d ∷ rest) (suc (suc n)) = department_at rest (suc n)

unfoldable pub look_up : List Department → List (ℕ × ℕ) → Option (List (ℕ × Department))
look_up departments [] = some []
look_up departments ((section, index) ∷ rest) = elim (department_at departments index) [
  | none ↦ none
  | some department ↦ elim (look_up departments rest) [
    | none ↦ none
    | some others ↦ some ((section, department) ∷ others)
  ]
]

-- _LLM_MAX_SECTIONS
abbrev llm_max_sections : ℕ
llm_max_sections = 12

unfoldable pub is_applicable : List Section → List Department → Bool
is_applicable [] _ = false
is_applicable (_ ∷ _) [] = false
is_applicable (s ∷ sections) (_ ∷ _) = leb (length (s ∷ sections)) llm_max_sections

abbrev pub without : RoutingState → Option RoutingOutcome
without state = some (record { state = state; assignments = [] })

unfoldable pub read_reply :
    RoutingModel → Text → List Section → List Department → Option RoutingOutcome
read_reply model reply sections departments =
    elim (parse_assignments model.loads reply (length sections) (length departments)) [
      | none ↦ without unreadable
      | some chosen ↦ elim (look_up departments chosen) [
        | none ↦ none
        | some assignments ↦ some (record { state = answered; assignments = assignments })
      ]
    ]

-- `none` is an exception, which the code does not catch where it looks the departments up.
unfoldable pub llm_section_departments :
    RoutingModel → Text → List Section → List Department → Option RoutingOutcome
llm_section_departments model title sections departments =
    if not model.enabled
    then without off
    else if not (is_applicable sections departments)
    then without not_applicable
    else elim model.provider [
      | none ↦ without unavailable
      | some false ↦ without unavailable
      | some true ↦
          elim (model.complete routing_system_prompt (routing_prompt title sections departments)) [
            | none ↦ without unavailable
            | some reply ↦ read_reply model reply sections departments
          ]
    ]

unfoldable pub suggestion_for : Department → List Suggestion → Suggestion
suggestion_for d suggestions =
    get_or (find (λ s. nat_beq s.department_id d.id) suggestions)
      (record { department_id = d.id; name = d.name; description = d.description; score = 0 })

-- What the model's department, if there is one, makes of the suggestions for a section.
unfoldable pub apply_model : Option Department → Assignment → Assignment
apply_model none a = record a { department_suggestions = take 3 a.department_suggestions }
apply_model (some d) a = record {
  department_ids = d.id ∷ [];
  department_suggestions = take 3 (
      suggestion_for d a.department_suggestions
      ∷ filter (λ s. not (nat_beq s.department_id d.id)) a.department_suggestions);
  proposed_department = none;
}

-- The sections from the number `n` on, with the assignments that the ranking gives them
unfoldable pub apply_model_from :
    ℕ → List (ℕ × Department) → List (Section × Assignment) → List Candidate
apply_model_from n chosen [] = []
apply_model_from n chosen ((section, a) ∷ rest) =
    record { section = section; assignment = apply_model (lookup n chosen) a }
    ∷ apply_model_from (n + 1) chosen rest

module _ (lower : Text → Text) (clean_name : Text → Text) (auto_split : Bool) where
  unfoldable pub baseline : List Department → List Section → List (Section × Assignment)
  baseline departments sections =
      map (λ s. (s, suggest_section lower clean_name departments s)) sections

  unfoldable pub attempt :
      RoutingModel → Bool → Text → Text → List Department → Option RoutingOutcome
  attempt model use_llm title markdown departments =
      if use_llm
      then llm_section_departments model title (major_sections auto_split title markdown)
          departments
      else without off

  unfoldable pub route_document_candidates_llm :
      RoutingModel → Bool → Text → Text → List Department → Option (List Candidate)
  route_document_candidates_llm model use_llm title markdown departments =
      elim (attempt model use_llm title markdown departments) [
        | none ↦ none
        | some given ↦ some (
            finalize title markdown
              (suggest_departments lower clean_name title markdown departments)
              (apply_model_from 1 given.assignments
                (baseline departments (major_sections auto_split title markdown))))
      ]
