-- ===== src/Routing/Grouping.antt =====
-- `_absorb_hollow_sections`, `_finalize` and `route_document_candidates` of
-- src/domain/department_routing.py.
pub mod Bodies
pub mod Owners
pub mod Neighbours
use qnsc_kb_backend.Prelude.{
  ℕ, ◌+◌, Bool, not, Option, none, some, List, [], ◌∷◌, ◌++◌, map, ltb, if◌then◌else◌, is_some,
  length, take, any, filter, ◌==◌, nat_eq, string_eq, option_eq,
}
use qnsc_kb_backend.Text.{Text, codes, is_blank, strip, splitlines}
use qnsc_kb_backend.Routing.{Department, Section, Assignment, Candidate}
use qnsc_kb_backend.Routing.Suggest.{suggest_departments}
use qnsc_kb_backend.Routing.Sections.{is_heading, lines_text, major_sections}

pub body_without_headings : Text → Text
unfolding is_heading lines_text splitlines
body_without_headings body_md =
    lines_text (filter (λ line. not (is_heading line)) (splitlines body_md))

unfoldable pub is_hollow : Candidate → Bool
unfolding body_without_headings is_blank
is_hollow item = is_blank (body_without_headings item.section.body_md)

-- The line break pair between bodies that are put together.
abbrev pub gap : Text
gap = codes "\n\n"

-- `first` before `second`, with the title and the heading of `first` where it has a heading.
unfoldable pub prepend : Candidate → Candidate → Candidate
prepend first second =
    let held = first.section in
    let own = second.section in
    let joined = record own {
      body_md = held.body_md ++ (gap ++ own.body_md);
      source_start = held.source_start;
    } in
    let named = record joined { heading = held.heading; title = held.title } in
    elim held.heading [
      | none ↦ record second { section = joined }
      | some text ↦ record second { section = if is_blank text then joined else named }
    ]

-- `second` at the end of `first`
unfoldable pub extend : Candidate → Candidate → Candidate
extend first second = record first {
  section = record first.section {
    body_md = first.section.body_md ++ (gap ++ second.section.body_md);
    source_end = second.section.source_end;
  };
}

-- The last of `merged` with `item` at its end
unfoldable pub extend_last : List Candidate → Candidate → List Candidate
extend_last [] item = []
extend_last (x ∷ []) item = extend x item ∷ []
extend_last (x ∷ y ∷ rest) item = x ∷ extend_last (y ∷ rest) item

unfoldable pub held_before : Option Candidate → Candidate → Candidate
held_before none item = item
held_before (some held) item = prepend held item

-- The loop's variables: the sections so far and the one that is carried forward.
abbrev pub Absorbed : Type 0
Absorbed = List Candidate × Option Candidate

unfoldable pub absorb_one : Absorbed → Candidate → Absorbed
absorb_one (merged, pending) item =
    let current = held_before pending item in
    if not (is_hollow current)
    then (merged ++ current ∷ [], none)
    else elim merged [ [] ↦ ([], some current) | x ∷ xs ↦ (extend_last (x ∷ xs) current, none) ]

unfoldable pub absorb_all : Absorbed → List Candidate → Absorbed
absorb_all state [] = state
absorb_all state (item ∷ rest) = absorb_all (absorb_one state item) rest

unfoldable pub kept : Absorbed → List Candidate
kept (merged, none) = merged
kept (merged, some pending) = merged ++ pending ∷ []

unfoldable pub absorb_hollow_sections : List Candidate → List Candidate
absorb_hollow_sections routed =
    if ltb (length routed) 2 then routed else kept (absorb_all ([], none) routed)

-- item["department_ids"][0], if there is one
unfoldable pub primary_id : Candidate → Option ℕ
primary_id item = elim item.assignment.department_ids [ [] ↦ none | id ∷ _ ↦ some id ]

-- Two neighbours that belong to one department, or both to none
unfoldable pub same_owner : Candidate → Candidate → Bool
same_owner a b = primary_id a == primary_id b

-- The loop over the sections after `last`, which is `grouped[-1]`.
unfoldable pub group_from : Candidate → List Candidate → List Candidate
group_from last [] = last ∷ []
group_from last (item ∷ rest) =
    let joins = same_owner item last in
    let others = group_from (if joins then extend last item else item) rest in
    if joins then others else last ∷ others

unfoldable pub group : List Candidate → List Candidate
group [] = []
group (item ∷ rest) = group_from item rest

unfoldable pub number_from : ℕ → List Candidate → List Candidate
number_from n [] = []
number_from n (item ∷ rest) =
    record item { section = record item.section { position = n } } ∷ number_from (n + 1) rest

pub whole_document : Text → Text → Assignment → Candidate
unfolding strip
whole_document title markdown assignment = record {
  section = record {
    position = 1;
    title = take 255 title;
    body_md = strip markdown;
    source_start = 0;
    source_end = length (strip markdown);
    heading = none;
  };
  assignment = assignment;
}

unfoldable pub has_owner : Candidate → Bool
has_owner item = is_some (primary_id item)

-- `whole` is what `suggest_departments` says of the whole document.
unfoldable pub finalize : Text → Text → Assignment → List Candidate → List Candidate
finalize title markdown whole sections =
    let routed = absorb_hollow_sections sections in
    if any has_owner routed
    then number_from 1 (group routed)
    else whole_document title markdown whole ∷ []

module _ (lower : Text → Text) (clean_name : Text → Text) where
  unfoldable pub suggest_section : List Department → Section → Assignment
  unfolding suggest_departments
  suggest_section departments section =
      suggest_departments lower clean_name section.title section.body_md departments

  unfoldable pub route_document_candidates : Bool → Text → Text → List Department → List Candidate
  unfolding major_sections suggest_departments
  route_document_candidates auto_split title markdown departments =
      finalize title markdown (suggest_departments lower clean_name title markdown departments) (
        map
          (λ section. record {
            section = section;
            assignment = suggest_section departments section;
          })
          (major_sections auto_split title markdown))
