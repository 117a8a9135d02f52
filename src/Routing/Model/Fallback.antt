-- ===== src/Routing/Model/Fallback.antt =====
-- The routing of src/domain/department_routing.py when the language model says nothing.
use qnsc_kb_backend.Prelude.{
  insert, nat_eq, ℕ, zero, suc, ◌+◌, ◌≡◌, refl, ap, ◌≢◌, ◌⊎◌, inl, inr, Bool, true, false, ◌&&◌,
  Option, none, some, List, [], ◌∷◌, map, arith, nat_beq, Bool-cases, Option-cases, &&-eq-true,
  length, take, nat_eq, string_eq, option_eq,
}
use qnsc_kb_backend.Text.{Text, strip}
use qnsc_kb_backend.ApprovalAgent.Reply.{braced, unfence}
use qnsc_kb_backend.Routing.{Department, Section}
use qnsc_kb_backend.Routing.Suggest.{suggest_departments, suggestion}
use qnsc_kb_backend.Routing.Sections.{major_sections}
use qnsc_kb_backend.Routing.Grouping.{suggest_section, route_document_candidates}
use qnsc_kb_backend.Routing.Model.{
  JsonEntry, read_entry, AssignmentEntry, RoutingModel, RoutingState, off, not_applicable,
  unavailable, unreadable, answered, RoutingOutcome, in_range, choose_known, parse_assignments,
  department_at, look_up, is_applicable, without, attempt, routing_prompt, routing_system_prompt,
  read_reply, llm_section_departments, apply_model, apply_model_from, baseline,
  route_document_candidates_llm,
}

-- Every number of a department is that of one of `count`.
InRange : ℕ → List (ℕ × ℕ) → Type 0
InRange count [] = Unit
InRange count ((_, index) ∷ rest) = (in_range index count ≡ true) × InRange count rest

InRange-insert :
    (count k v : ℕ) (m : List (ℕ × ℕ))
    → in_range v count ≡ true
    → InRange count m
    → InRange count (insert k v m)
unfolding InRange
InRange-insert count k v [] h _ = (h, tt)
InRange-insert count k v ((j, w) ∷ m) h (p, ps) = elim (Bool-cases (nat_beq j k)) [
  | inl e ↦ rw e (h, ps)
  | inr e ↦ rw e (p, InRange-insert count k v m h ps)
]

InRange-choose_known :
    (sections departments : ℕ) (entries : List AssignmentEntry) (chosen : List (ℕ × ℕ))
    → InRange departments chosen
    → InRange departments (choose_known sections departments entries chosen)
unfolding choose_known
InRange-choose_known sections departments [] chosen h = h
InRange-choose_known sections departments ((some s, some d) ∷ rest) chosen h =
    elim (Bool-cases (in_range s sections && in_range d departments)) [
      | inl e ↦
          let (_, q) = &&-eq-true (in_range s sections) (in_range d departments) e in
          rw e (
            InRange-choose_known sections departments rest (insert s d chosen)
              (InRange-insert departments s d chosen q h))
      | inr e ↦ rw e (InRange-choose_known sections departments rest chosen h)
    ]
InRange-choose_known sections departments ((some s, none) ∷ rest) chosen h =
    InRange-choose_known sections departments rest chosen h
InRange-choose_known sections departments ((none, _) ∷ rest) chosen h =
    InRange-choose_known sections departments rest chosen h

department_at-some :
    (departments : List Department) (n : ℕ)
    → in_range n (length departments) ≡ true
    → (d : Department) × (department_at departments n ≡ some d)
unfolding department_at in_range
department_at-some [] n h = absurd (ground arith)
department_at-some (d ∷ rest) zero h = absurd (ground arith)
department_at-some (d ∷ rest) (suc zero) h = (d, refl)
department_at-some (d ∷ rest) (suc (suc n)) h = department_at-some rest (suc n) (ground arith)

look_up-some :
    (departments : List Department) (chosen : List (ℕ × ℕ))
    → InRange (length departments) chosen
    → (m : List (ℕ × Department)) × (look_up departments chosen ≡ some m)
unfolding look_up InRange
look_up-some departments [] _ = ([], refl)
look_up-some departments ((s, n) ∷ rest) (p, ps) =
    let (d, e) = department_at-some departments n p in
    let (m, f) = look_up-some departments rest ps in ((s, d) ∷ m, rw (look_up, e, f) refl)

-- An outcome is given, and without an answer it assigns nothing.
Given : Option RoutingOutcome → Type 0
Given outcome =
    (o : RoutingOutcome) × (outcome ≡ some o) × ((o.state ≡ answered) ⊎ (o.assignments ≡ []))

without-Given : (state : RoutingState) → Given (without state)
unfolding Given
without-Given state = (_, refl, inr refl)

parse_assignments-cases :
    (loads : Text → Option (List JsonEntry)) (reply : Text) (sections departments : ℕ)
    → (parse_assignments loads reply sections departments ≡ none)
      ⊎ ((chosen : List (ℕ × ℕ)) × (parse_assignments loads reply sections departments
            ≡ some chosen)
          × InRange departments chosen)
unfolding parse_assignments InRange
parse_assignments-cases loads reply sections departments =
    elim (Option-cases (braced (unfence (strip reply)))) [
      | inl e ↦ inr ([], rw (parse_assignments, e) refl, tt)
      | inr (object, e) ↦ elim (Option-cases (loads object)) [
        | inl f ↦ inl (rw (parse_assignments, e, f) refl)
        | inr (entries, f) ↦ inr (
          _,
          rw (parse_assignments, e, f) refl,
          InRange-choose_known sections departments (map read_entry entries) [] tt,
        )
      ]
    ]

read_reply-Given :
    (model : RoutingModel) (reply : Text) (sections : List Section) (departments : List Department)
    → Given (read_reply model reply sections departments)
unfolding read_reply Given
read_reply-Given model reply sections departments =
    elim (parse_assignments-cases model.loads reply (length sections) (length departments)) [
      | inl e ↦ rw (read_reply, e) (without-Given unreadable)
      | inr (chosen, e, h) ↦
          let (m, f) = look_up-some departments chosen h in
          rw (read_reply, e, f) (_, refl, inl refl)
    ]

-- What holds without an answer and of what a reply is read as holds of the attempt.
pub llm_section_departments_cases :
    (P : Option RoutingOutcome → Type 0) (model : RoutingModel) (title : Text)
    (sections : List Section) (departments : List Department)
    → ((state : RoutingState) → P (without state))
    → ((reply : Text) → P (read_reply model reply sections departments))
    → P (llm_section_departments model title sections departments)
unfolding llm_section_departments
llm_section_departments_cases P model title sections departments silent replied =
    elim (Bool-cases model.enabled) [
      | inr e ↦ rw (llm_section_departments, e) (silent off)
      | inl e ↦ elim (Bool-cases (is_applicable sections departments)) [
        | inr a ↦ rw (llm_section_departments, e, a) (silent not_applicable)
        | inl a ↦ elim (Option-cases model.provider) [
          | inl p ↦ rw (llm_section_departments, e, a, p) (silent unavailable)
          | inr (false, p) ↦ rw (llm_section_departments, e, a, p) (silent unavailable)
          | inr (true, p) ↦
              let prompt = routing_prompt title sections departments in
              elim (Option-cases (model.complete routing_system_prompt prompt)) [
                | inl c ↦ rw (llm_section_departments, e, a, p, c) (silent unavailable)
                | inr (reply, c) ↦ rw (llm_section_departments, e, a, p, c) (replied reply)
              ]
        ]
      ]
    ]

take-map-take :
    {A B : Type 0} (f : A → B) (n : ℕ) (xs : List A)
    → take n (map f (take n xs)) ≡ map f (take n xs)
take-map-take f zero xs = refl
take-map-take f (suc n) [] = refl
take-map-take f (suc n) (x ∷ xs) = ap (◌∷◌ (f x)) (take-map-take f n xs)

module _ (lower : Text → Text) (clean_name : Text → Text) (auto_split : Bool) where
  attempt-Given :
      (model : RoutingModel) (use_llm : Bool) (title markdown : Text)
      (departments : List Department)
      → Given (attempt lower clean_name auto_split model use_llm title markdown departments)
  unfolding attempt
  attempt-Given model false title markdown departments = without-Given off
  attempt-Given model true title markdown departments =
      llm_section_departments_cases Given model title (major_sections auto_split title markdown)
        departments without-Given (λ reply. read_reply-Given model reply _ departments)

  apply_model-none :
      (departments : List Department) (s : Section)
      → apply_model none (suggest_section lower clean_name departments s)
        ≡ suggest_section lower clean_name departments s
  unfolding apply_model suggest_section suggest_departments
  apply_model-none departments s =
      ap
        (λ given. record (suggest_section lower clean_name departments s) {
          department_suggestions = given;
        })
        (take-map-take suggestion 3 _)

  apply_model_from-none :
      (departments : List Department) (n : ℕ) (sections : List Section)
      → apply_model_from n [] (baseline lower clean_name auto_split departments sections)
        ≡ map
            (λ s. record {
              section = s;
              assignment = suggest_section lower clean_name departments s;
            })
            sections
  unfolding apply_model_from baseline
  apply_model_from-none departments n [] = refl
  apply_model_from-none departments n (s ∷ rest) =
      rw (apply_model-none departments s, apply_model_from-none departments (n + 1) rest) refl

  -- The routing asks the model, if it may, without an exception, and gives the candidates of the
  -- routing by keywords when the model gave no answer.
  pub without_answer-route_document_candidates :
      (model : RoutingModel) (use_llm : Bool) (title markdown : Text)
      (departments : List Department)
      → (o : RoutingOutcome) × (attempt lower clean_name auto_split model use_llm title markdown
            departments
          ≡ some o)
        × (o.state ≢ answered
            → route_document_candidates_llm lower clean_name auto_split model use_llm title markdown
                departments
              ≡ some (
                  route_document_candidates lower clean_name auto_split title markdown departments))
  unfolding Given route_document_candidates route_document_candidates_llm
  without_answer-route_document_candidates model use_llm title markdown departments =
      let (o, e, h) = attempt-Given model use_llm title markdown departments in
      (
        o,
        e,
        λ silent. elim h [
          | inl a ↦ absurd (silent a)
          | inr none_given ↦
              rw (route_document_candidates_llm, e, none_given, apply_model_from-none) refl
        ],
      )
