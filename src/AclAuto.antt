-- ===== src/AclAuto.antt =====
-- src/domain/acl_auto.py: what a provider's access list means to the knowledge base, without an
-- administrator's mapping. A principal's fields are texts, empty where the provider gave none; the id of a
-- user or of a department is a number. `fold` is the function of that name, whose Unicode
-- decomposition is a library's, and `addresses` what `_EMAIL` finds in a text, in lower case.
pub mod Resolution
pub mod Passes
pub mod People
pub mod Groups
mod Examples
use qnsc_kb_backend.Prelude.{
  ℕ, zero, suc, ◌-◌, Bool, not, Option, none, some, List, [], ◌∷◌, map, nat_beq, if◌then◌else◌,
  is_some, length, filter, ◌==◌, nat_eq, string_eq, option_eq, elem,
}
use qnsc_kb_backend.Text.{text_eq, Text, codes, is_blank, words, join}

pub record Principal : Type 0 where
  pub principal_type : Text
  pub principal_id : Text
  pub principal_name : Text
  pub principal_login : Text
  pub principal_email : Text

pub record Department : Type 0 where
  pub id : ℕ
  pub name : Text
  pub company_domain : Text
  pub active : Bool

pub record User : Type 0 where
  pub id : ℕ
  pub email : Text
  pub company_domain : Text
  pub active : Bool

-- How a principal was resolved: a value of `resolved`.
pub data Via : Type 0 where
  via_company : Text → Via
  via_email : Text → ℕ → Via
  via_name : Text → ℕ → Via

pub record AutoResolution : Type 0 where
  pub users : List (Text × ℕ)
  pub department_ids : List ℕ
  pub resolved : List (Text × Via)
  pub without_account : List Text
  pub ignored : List Text

abbrev pub unresolved : AutoResolution
unresolved = record {
  users = [];
  department_ids = [];
  resolved = [];
  without_account = [];
  ignored = [];
}

abbrev user_types : List Text
user_types = map codes ("user" ∷ "siteUser" ∷ [])

abbrev group_types : List Text
group_types = map codes ("group" ∷ "siteGroup" ∷ [])

abbrev ignored_types : List Text
ignored_types = map codes ("application" ∷ "device" ∷ "unknown" ∷ [])

abbrev company_types : List Text
company_types = map codes ("domain" ∷ [])

abbrev company_links : List Text
company_links = map codes ("link:organization" ∷ "link:anonymous" ∷ [])

abbrev role_tokens : List Text
role_tokens = map codes (
    "members" ∷ "member" ∷ "owners" ∷ "owner" ∷ "visitors" ∷ "visitor" ∷ "thanh" ∷ "vien" ∷ "chu"
    ∷ "so" ∷ "huu" ∷ "khach" ∷ [])

abbrev role_phrases : List Text
role_phrases = map codes ("thanh vien" ∷ "chu so huu" ∷ "khach truy cap" ∷ "nguoi truy cap" ∷ [])

abbrev department_words : List Text
department_words = map codes (
    "phong" ∷ "ban" ∷ "bo" ∷ "phan" ∷ "department" ∷ "dept" ∷ "team" ∷ "group" ∷ "nhom" ∷ "division"
    ∷ [])

-- What is left of a text behind `part`, if it starts with it
after : Text → Text → Option Text
after [] s = some s
after (_ ∷ _) [] = none
after (a ∷ part) (b ∷ s) = let rest = after part s in if nat_beq a b then rest else none

-- text.replace(part, " ") for a `part` that is not empty. `skip` counts the characters of an
-- occurrence that are still to pass.
replace_from : Text → ℕ → Text → Text
unfolding after
replace_from part skip [] = []
replace_from part (suc skip) (c ∷ s) = replace_from part skip s
replace_from part zero (c ∷ s) =
    let found = is_some (after part (c ∷ s)) in
    let rest = replace_from part (if found then length part - 1 else 0) s in
    if found then 32 ∷ rest else c ∷ rest

unfoldable pub replace_phrases : List Text → Text → Text
unfolding replace_from
replace_phrases [] s = s
replace_phrases (phrase ∷ rest) s = replace_phrases rest (replace_from phrase 0 s)

-- while tokens and tokens[-1] in _ROLE_TOKENS: tokens.pop()
unfoldable pub drop_roles : List Text → List Text
drop_roles [] = []
drop_roles (t ∷ ts) = elim (drop_roles ts) [
  | [] ↦ if elem t role_tokens then [] else t ∷ []
  | u ∷ us ↦ t ∷ u ∷ us
]

-- The tokens that are no words for "department", with spaces between them
unfoldable pub join_names : List Text → Text
unfolding join
join_names tokens = join (codes " ") (filter (λ t. not (elem t department_words)) tokens)

-- matching[0] if len(matching) == 1 else None
unfoldable pub only : List ℕ → Option ℕ
only [] = none
only (id ∷ []) = some id
only (_ ∷ _ ∷ _) = none

module _ (fold : Text → Text) where
  unfoldable pub normalize_group_name : Text → Text
  unfolding replace_phrases drop_roles join_names words
  normalize_group_name name =
      join_names (drop_roles (words (replace_phrases role_phrases (fold name))))

  unfoldable pub normalize_department_name : Text → Text
  unfolding join_names words
  normalize_department_name name = join_names (words (fold name))

  unfoldable pub matching : Text → List (ℕ × Text) → List ℕ
  matching wanted departments =
      map (λ d. d.0) (filter (λ d. normalize_department_name d.1 == wanted) departments)

  -- The id of the one department with the group's name
  unfoldable pub match_department : Text → List (ℕ × Text) → Option ℕ
  match_department group_name departments =
      let wanted = normalize_group_name group_name in
      if is_blank wanted then none else only (matching wanted departments)

-- raw.rsplit("|", 1)[-1]
unfoldable pub after_bar : Text → Text
after_bar s = elim (bar_rest s) [ none ↦ s | some rest ↦ rest ]
  where
    -- What stands behind the last bar, if there is one
    bar_rest : Text → Option Text
    bar_rest [] = none
    bar_rest (c ∷ rest) = elim (bar_rest rest) [
      | some found ↦ some found
      | none ↦ if nat_beq c 124 then some rest else none
    ]
