-- ===== src/Governance/Selection.antt =====
-- What an approval publishes: the selections of `approve_draft` in src/domain/governance.py and
-- src/domain/departments.py. `fold` stands for lower case, `trim` for `.strip()`; what the queries find
-- is in `Found`.
use qnsc_kb_backend.Prelude.{
  ℕ, String, Bool, false, not, ◌&&◌, ◌||◌, Option, none, some, List, [], ◌∷◌, ◌++◌, ltb, nat_beq,
  if◌then◌else◌, is_some, get_or, length, any, filter, ◌==◌, nat_eq, string_eq, option_eq, find,
  elem,
}
use qnsc_kb_backend.Accounts.{User, Department, Article}
use qnsc_kb_backend.Governance.{
  conflict, unprocessable, Result, ok, err, raise_if, Draft, ◌>>=◌, ◌>>◌,
}

pub record Connector : Type 0 where
  pub company_domain : String
  pub system : String

-- The connector's record of a source document; `unmapped` is `_unmapped_external_acl_principals`.
pub record ExternalDocument : Type 0 where
  pub unmapped : List String
  pub mapped_department_ids : List ℕ
  pub mapped_source_user_ids : List ℕ
  pub connector : Option Connector

-- The arguments of the call.
pub record Request : Type 0 where
  pub category : Option String
  pub dept : Option String
  pub sensitivity : Option String
  pub visibility : Option String
  pub update_article_id : Option ℕ
  pub treat_as_new : Bool
  pub department_ids : Option (List ℕ)
  pub explicit_user_ids : Option (List ℕ)
  pub denied_user_ids : Option (List ℕ)

-- What the queries find: the tables of departments and users, the source document, how many
-- candidates are active, the article to update, if the user's scope holds it, whether another
-- article has the external id, and whether the review date parses.
pub record Found : Type 0 where
  pub departments : List Department
  pub users : List User
  pub document : Option ExternalDocument
  pub active_candidates : ℕ
  pub update_target : Option Article
  pub external_id_taken : Bool
  pub review_date_valid : Bool

-- The columns that decide who may read the published article.
pub record Publication : Type 0 where
  pub category : String
  pub dept : String
  pub departments : List Department
  pub sensitivity : String
  pub visibility : String
  pub allowed_users : List ℕ
  pub denied_users : List ℕ
  pub connector_source : Option String

-- list(dict.fromkeys(ids))
unfoldable pub unique : List ℕ → List ℕ
unique [] = []
unique (x ∷ xs) = x ∷ filter (λ y. not (nat_beq y x)) (unique xs)

unfoldable pub overlap : List ℕ → List ℕ → Bool
overlap xs ys = any (λ x. elem x ys) xs

-- `resolve_active_department` of src/domain/departments.py
pub resolve_active_department :
    (String → String) → (String → String) → List Department → String → String → Result Department
resolve_active_department fold trim departments company_domain name =
    if trim name == ""
    then err unprocessable
    else elim (find
        (λ d. d.company_domain == company_domain && d.active && fold d.name == fold (trim name))
        departments) [ none ↦ err unprocessable | some d ↦ ok d ]

-- [by_id[department_id] for department_id in unique_ids]
unfoldable pub departments_by_id : List Department → List ℕ → List Department
departments_by_id rows [] = []
departments_by_id rows (id ∷ ids) =
    let rest = departments_by_id rows ids in
    elim (find (λ d. nat_beq d.id id) rows) [ none ↦ rest | some d ↦ d ∷ rest ]

-- `resolve_active_departments` of src/domain/departments.py, for a selection that is not empty
pub resolve_active_departments : List Department → String → List ℕ → Result (List Department)
unfolding unique departments_by_id
resolve_active_departments departments company_domain ids =
    let rows =
      filter (λ d. elem d.id ids && d.company_domain == company_domain && d.active) departments in
    if nat_beq (length rows) (length (unique ids))
    then ok (departments_by_id rows (unique ids))
    else err unprocessable

-- `UserRepository.get_by_ids`, counted
pub count_by_ids : List User → String → List ℕ → ℕ
count_by_ids users company_domain ids =
    length (filter (λ u. elem u.id ids && u.company_domain == company_domain) users)

unfoldable pub all_in_company : List User → String → List ℕ → Bool
unfolding count_by_ids unique
all_in_company users company_domain ids =
    nat_beq (count_by_ids users company_domain ids) (length (unique ids))

abbrev pub categories : List String
categories =
    "POLICY" ∷ "SOP" ∷ "DECISION" ∷ "FAQ" ∷ "RCA" ∷ "HOWTO" ∷ "PLAYBOOK" ∷ "REFERENCE" ∷ "LESSON"
    ∷ []

abbrev pub sensitivities : List String
sensitivities = "public" ∷ "internal" ∷ "confidential" ∷ "restricted" ∷ []

abbrev pub visibilities : List String
visibilities = "public" ∷ "department" ∷ "users" ∷ []

abbrev pub either : Option String → Option String → String → String
either none second default = get_or second default
either (some first) second default = first

pub sensitivity_of : Request → Draft → String
sensitivity_of request draft =
    either request.sensitivity draft.content_metadata.sensitivity "public"

pub visibility_of : Request → Draft → String
unfolding sensitivity_of
visibility_of request draft =
    either request.visibility draft.content_metadata.visibility
      (if sensitivity_of request draft == "public" then "public" else "department")

-- The checks before the department is resolved.
unfoldable pub check_source : Request → Found → Draft → Result (Unit {0})
check_source request found draft = do
  raise_if (is_some draft.external_document_id && not (is_some found.document)) conflict
  raise_if
      (is_some draft.external_document_id
        && elim found.document [ none ↦ false | some d ↦ ltb 0 (length d.unmapped) ])
      conflict
  raise_if (ltb 1 found.active_candidates) conflict
  raise_if
      (draft.requires_update_confirmation
        && not (is_some request.update_article_id)
        && not request.treat_as_new)
      conflict
  raise_if
      (draft.content_metadata.submission_kind == some "manual_update"
        && (request.treat_as_new
            || not (is_some request.update_article_id)
            || not
                (request.update_article_id == draft.content_metadata.suggested_update_article_id)))
      unprocessable

pub select_departments :
    (String → String)
    → (String → String)
    → Request
    → Found
    → Draft
    → Result (String × List Department)
unfolding resolve_active_department resolve_active_departments
select_departments fold trim request found draft = do
  primary ←
      resolve_active_department fold trim found.departments draft.company_domain
        (either request.dept draft.content_metadata.dept (get_or draft.dept ""))
  raise_if (is_some draft.dept && not (draft.dept == some primary.name)) unprocessable
  elim (get_or request.department_ids draft.content_metadata.department_ids) [
    | [] ↦ ok (primary.name, primary ∷ [])
    | id ∷ ids ↦ do
      selected ← resolve_active_departments found.departments draft.company_domain (id ∷ ids)
      raise_if (not (any (λ d. d.name == primary.name) selected)) unprocessable
      ok (primary.name, selected)
  ]

-- What a draft without a source document publishes. The code's reset of the sensitivity, for a draft
-- without departments, is left out: the selection is never empty here.
unfoldable pub choose :
    (String → String) → (String → String) → Request → Found → Draft → Result Publication
unfolding select_departments sensitivity_of visibility_of all_in_company overlap unique
choose fold trim request found draft = do
  (name, selected) ← select_departments fold trim request found draft
  let category = either request.category draft.content_metadata.category "SOP"
  let sensitivity = sensitivity_of request draft
  let visibility = visibility_of request draft
  raise_if (not (elem category categories)) unprocessable
  raise_if (not (elem sensitivity sensitivities)) unprocessable
  raise_if (not (elem visibility visibilities)) unprocessable
  let allow = unique (get_or request.explicit_user_ids draft.content_metadata.explicit_user_ids)
  let deny = unique (get_or request.denied_user_ids draft.content_metadata.denied_user_ids)
  raise_if (overlap allow deny) unprocessable
  raise_if (not (all_in_company found.users draft.company_domain (allow ++ deny))) unprocessable
  raise_if (visibility == "users" && nat_beq (length allow) 0) unprocessable
  ok (record {
    category = category;
    dept = name;
    departments = selected;
    sensitivity = sensitivity;
    visibility = visibility;
    allowed_users = allow;
    denied_users = deny;
    connector_source = none;
  })
