-- ===== src/Routing/Model/Known.antt =====
-- Which departments the candidates of src/domain/department_routing.py name.
use qnsc_kb_backend.Prelude.{
  lookup, nat_eq, ℕ, zero, suc, ◌+◌, ◌≡◌, refl, sym, inl, inr, Bool, true, false, Option, none,
  some, List, [], ◌∷◌, map, Memᴰ, nat_beq, Bool-cases, Option-cases, length, take, nat_eq,
  string_eq, option_eq, not-Memᴰ-nil,
}
use mathlib.Core.Path.{subst}
use qnsc_kb_backend.Text.{Text}
use qnsc_kb_backend.Routing.Model.Fallback.{llm_section_departments_cases}
use qnsc_kb_backend.Routing.{Department, Section, Assignment, Candidate}
use qnsc_kb_backend.Routing.Suggest.{
  suggest_departments, suggestion, select_first, ranked, insert_ranked, comes_before, score_of,
}
use qnsc_kb_backend.Routing.Sections.{major_sections}
use qnsc_kb_backend.Routing.Grouping.{suggest_section}
use qnsc_kb_backend.Routing.Grouping.Owners.{AllAssigned, finalize-AllAssigned}
use qnsc_kb_backend.Routing.Model.{
  RoutingModel, RoutingOutcome, department_at, look_up, read_reply, attempt, RoutingState, off,
  without, parse_assignments, apply_model, apply_model_from, baseline,
  route_document_candidates_llm,
}

module _ (departments : List Department) where
  -- Each selected id is the id of one of the departments.
  unfoldable pub Names : Assignment → Type 0
  Names a =
      (id : ℕ) → Memᴰ id a.department_ids → (d : Department) × Memᴰ d departments × (d.id ≡ id)

  -- Each department beside a number or a score is one of the departments.
  AllListed : List (ℕ × Department) → Type 0
  AllListed [] = Unit
  AllListed ((_, d) ∷ rest) = Memᴰ d departments × AllListed rest

  AllListed-insert_ranked :
      (lower : Text → Text) (x : ℕ × Department) (ys : List (ℕ × Department))
      → Memᴰ x.1 departments
      → AllListed ys
      → AllListed (insert_ranked lower x ys)
  unfolding AllListed insert_ranked
  AllListed-insert_ranked lower x [] m _ = (m, tt)
  AllListed-insert_ranked lower x (y ∷ ys) m (p, ps) = elim (Bool-cases (comes_before lower y x)) [
    | inl e ↦ rw e (p, AllListed-insert_ranked lower x ys m ps)
    | inr e ↦ rw e (m, (p, ps))
  ]

  AllListed-ranked :
      (lower : Text → Text) (document : List Text) (ds : List Department)
      → ((d : Department) → Memᴰ d ds → Memᴰ d departments)
      → AllListed (ranked lower document ds)
  unfolding AllListed ranked
  AllListed-ranked lower document [] sub = tt
  AllListed-ranked lower document (d ∷ ds) sub =
      let rest = AllListed-ranked lower document ds (λ e m. sub e (Memᴰ.tail m)) in
      elim (Bool-cases (nat_beq (score_of lower document d) 0)) [
        | inl e ↦ rw e rest
        | inr e ↦ rw e (
            AllListed-insert_ranked lower (score_of lower document d, d) _ (sub d (Memᴰ.head refl))
              rest)
      ]

  one-Names :
      (d : Department)
      → Memᴰ d departments
      → (id : ℕ) → Memᴰ id (d.id ∷ [])
      → (e : Department) × Memᴰ e departments × (e.id ≡ id)
  one-Names d m id (Memᴰ.head e) = (d, m, sym e)
  one-Names d m id (Memᴰ.tail n) = absurd (not-Memᴰ-nil n)

  first-Names :
      (ranking : List (ℕ × Department))
      → AllListed ranking
      → (id : ℕ) → Memᴰ id (select_first (map suggestion (take 3 ranking)))
      → (d : Department) × Memᴰ d departments × (d.id ≡ id)
  unfolding AllListed select_first suggestion
  first-Names [] _ id m = absurd (not-Memᴰ-nil m)
  first-Names ((score, d) ∷ rest) (p, _) id m = one-Names d p id m

  module _ (lower : Text → Text) (clean_name : Text → Text) where
    suggest_departments-Names :
        (title body_md : Text)
        → Names (suggest_departments lower clean_name title body_md departments)
    unfolding Names suggest_departments
    suggest_departments-Names title body_md =
        first-Names _ (AllListed-ranked lower _ departments (λ d m. m))

  AllNamed : List (Section × Assignment) → Type 0
  AllNamed [] = Unit
  AllNamed ((_, a) ∷ rest) = Names a × AllNamed rest

  -- What is there of the kinds above is among the departments.
  Known : Option Department → Type 0
  Known none = Unit
  Known (some d) = Memᴰ d departments

  Listed : Option (List (ℕ × Department)) → Type 0
  Listed none = Unit
  Listed (some m) = AllListed m

  Assigns : Option RoutingOutcome → Type 0
  Assigns none = Unit
  Assigns (some o) = AllListed o.assignments

  lookup-Known :
      (n : ℕ) (chosen : List (ℕ × Department)) → AllListed chosen → Known (lookup n chosen)
  unfolding AllListed Known
  lookup-Known n [] _ = tt
  lookup-Known n ((j, d) ∷ rest) (p, ps) = elim (Bool-cases (nat_beq j n)) [
    | inl b ↦ rw b p
    | inr b ↦ rw b (lookup-Known n rest ps)
  ]

  apply_model-Names :
      (given : Option Department) (a : Assignment)
      → Known given
      → Names a
      → Names (apply_model given a)
  unfolding apply_model Names Known
  apply_model-Names none a _ h = h
  apply_model-Names (some d) a known h = one-Names d known

  department_at-Memᴰ :
      (ds : List Department) (n : ℕ) {d : Department} → department_at ds n ≡ some d → Memᴰ d ds
  unfolding department_at
  department_at-Memᴰ [] n e = absurd (cc e)
  department_at-Memᴰ (x ∷ ds) zero e = absurd (cc e)
  department_at-Memᴰ (x ∷ ds) (suc zero) e = Memᴰ.head (cc e)
  department_at-Memᴰ (x ∷ ds) (suc (suc n)) e = Memᴰ.tail (department_at-Memᴰ ds (suc n) e)

  look_up-Listed : (chosen : List (ℕ × ℕ)) → Listed (look_up departments chosen)
  unfolding AllListed Listed look_up
  look_up-Listed [] = tt
  look_up-Listed ((s, n) ∷ rest) =
      let ih = look_up-Listed rest in
      elim (Option-cases (department_at departments n)) [
        | inl e ↦ rw (look_up, e) tt
        | inr (d, e) ↦ elim (Option-cases (look_up departments rest)) [
          | inl f ↦ rw (look_up, e, f) tt
          | inr (m, f) ↦ rw (look_up, e, f) (department_at-Memᴰ departments n e, subst Listed f ih)
        ]
      ]

  read_reply-Assigns :
      (model : RoutingModel) (reply : Text) (sections : List Section)
      → Assigns (read_reply model reply sections departments)
  unfolding Assigns Listed AllListed read_reply
  read_reply-Assigns model reply sections =
      elim (Option-cases
        (parse_assignments model.loads reply (length sections) (length departments))) [
          | inl e ↦ rw (read_reply, e) tt
          | inr (chosen, e) ↦
              let listed = look_up-Listed chosen in
              elim (Option-cases (look_up departments chosen)) [
                | inl f ↦ rw (read_reply, e, f) tt
                | inr (m, f) ↦ rw (read_reply, e, f) (subst Listed f listed)
              ]
        ]

  without-Assigns : (state : RoutingState) → Assigns (without state)
  unfolding Assigns AllListed
  without-Assigns state = tt

  apply_model_from-Names :
      (n : ℕ) (chosen : List (ℕ × Department)) (sections : List (Section × Assignment))
      → AllListed chosen
      → AllNamed sections
      → AllAssigned Names (apply_model_from n chosen sections)
  unfolding AllAssigned apply_model_from AllNamed
  apply_model_from-Names n chosen [] _ _ = tt
  apply_model_from-Names n chosen ((s, a) ∷ rest) h (p, ps) = (
    apply_model-Names (lookup n chosen) a (lookup-Known n chosen h) p,
    apply_model_from-Names (n + 1) chosen rest h ps,
  )

  module _ (lower : Text → Text) (clean_name : Text → Text) (auto_split : Bool) where
    baseline-AllNamed :
        (sections : List Section)
        → AllNamed (baseline lower clean_name auto_split departments sections)
    unfolding AllNamed baseline suggest_section
    baseline-AllNamed [] = tt
    baseline-AllNamed (s ∷ rest) =
        (suggest_departments-Names lower clean_name s.title s.body_md, baseline-AllNamed rest)

    attempt-Assigns :
        (model : RoutingModel) (use_llm : Bool) (title markdown : Text)
        → Assigns (attempt lower clean_name auto_split model use_llm title markdown departments)
    unfolding attempt
    attempt-Assigns model false title markdown = without-Assigns off
    attempt-Assigns model true title markdown =
        llm_section_departments_cases Assigns model title (major_sections auto_split title markdown)
          departments without-Assigns (λ reply. read_reply-Assigns model reply _)

    Routed : Option (List Candidate) → Type 0
    Routed none = Unit
    Routed (some candidates) = AllAssigned Names candidates

    route_document_candidates_llm-Routed :
        (model : RoutingModel) (use_llm : Bool) (title markdown : Text)
        → Routed (
            route_document_candidates_llm lower clean_name auto_split model use_llm title markdown
              departments)
    unfolding route_document_candidates_llm Assigns Routed
    route_document_candidates_llm-Routed model use_llm title markdown =
        let assigns = attempt-Assigns model use_llm title markdown in
        elim (Option-cases
          (attempt lower clean_name auto_split model use_llm title markdown departments)) [
            | inl e ↦ rw (route_document_candidates_llm, e) tt
            | inr (o, e) ↦
                rw (route_document_candidates_llm, e)
                  (finalize-AllAssigned Names title markdown _ _
                    (suggest_departments-Names lower clean_name title markdown)
                    (apply_model_from-Names 1 o.assignments _ (subst Assigns e assigns)
                      (baseline-AllNamed (major_sections auto_split title markdown))))
          ]

    -- Each department that is selected for a candidate is one of the departments given, whatever the
    -- model answers.
    pub route_document_candidates_llm-Names :
        (model : RoutingModel) (use_llm : Bool) (title markdown : Text)
        {candidates : List Candidate}
        → route_document_candidates_llm lower clean_name auto_split model use_llm title markdown
            departments
          ≡ some candidates
        → AllAssigned Names candidates
    unfolding Routed
    route_document_candidates_llm-Names model use_llm title markdown h =
        subst Routed h (route_document_candidates_llm-Routed model use_llm title markdown)
