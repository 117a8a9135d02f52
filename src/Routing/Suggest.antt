-- ===== src/Routing/Suggest.antt =====
-- `suggest_departments` of src/domain/department_routing.py. `lower` is str.lower.
use qnsc_kb_backend.Prelude.{
  ℕ, ◌+◌, min, Bool, not, ◌&&◌, ◌||◌, none, some, List, [], ◌∷◌, ◌++◌, map, ltb, leb, nat_beq,
  if◌then◌else◌, length, take, filter, ◌==◌, nat_eq, string_eq, option_eq, elem,
}
use qnsc_kb_backend.Text.{Text, codes, text_eq, precedes, is_blank, strip, words, join}
use qnsc_kb_backend.Routing.{Department, Suggestion, Proposal, Assignment}

abbrev stop_words : List Text
stop_words = map codes (
    "about" ∷ "and" ∷ "are" ∷ "for" ∷ "from" ∷ "into" ∷ "knowledge" ∷ "that" ∷ "the" ∷ "this"
    ∷ "with" ∷ "your" ∷ "document" ∷ "department" ∷ [])

-- [A-Za-zÀ-ỹ0-9]
starts_token : ℕ → Bool
starts_token c =
    leb 65 c && leb c 90 || leb 97 c && leb c 122 || leb 192 c && leb c 7929 || leb 48 c && leb c 57

-- The same with `_` and `-`
in_token : ℕ → Bool
unfolding starts_token
in_token c = starts_token c || nat_beq c 95 || nat_beq c 45

-- _TOKEN_RE.findall: a run of token characters is a token from three characters on. `cur` is the
-- run so far.
tokens_from : Text → Text → List Text
unfolding starts_token in_token is_blank
tokens_from cur [] = if leb 3 (length cur) then cur ∷ [] else []
tokens_from cur (c ∷ s) =
    let goes_on = if is_blank cur then starts_token c else in_token c in
    let rest = tokens_from (if goes_on then cur ++ c ∷ [] else []) s in
    if not goes_on && leb 3 (length cur) then cur ∷ rest else rest

-- The count_tokens that a Counter counts
pub count_tokens : (Text → Text) → Text → List Text
unfolding tokens_from
count_tokens lower value = filter (λ t. not (elem t stop_words)) (map lower (tokens_from [] value))

-- counter.get(token, 0)
pub occurrences : Text → List Text → ℕ
occurrences t ts = length (filter (λ other. t == other) ts)

-- The keys of a Counter
pub distinct : List Text → List Text
distinct [] = []
distinct (t ∷ ts) = let rest = distinct ts in if elem t ts then rest else t ∷ rest

pub sum_of : List ℕ → ℕ
sum_of [] = 0
sum_of (n ∷ ns) = n + sum_of ns

pub overlap_score : List Text → List Text → ℕ
unfolding sum_of occurrences distinct
overlap_score document reference =
    sum_of (map (λ t. min (occurrences t document) (occurrences t reference)) (distinct document))

pub score_of : (Text → Text) → List Text → Department → ℕ
unfolding count_tokens overlap_score
score_of lower document d =
    overlap_score document (count_tokens lower (join (codes " ") (d.name ∷ d.description ∷ [])))

-- (-score, name.lower()) in order
unfoldable pub comes_before : (Text → Text) → ℕ × Department → ℕ × Department → Bool
unfolding precedes
comes_before lower (m, d) (n, e) = ltb n m || nat_beq m n && precedes (lower d.name) (lower e.name)

-- Stable: the new element, which was before the others, goes before the first that is not less.
unfoldable pub insert_ranked :
    (Text → Text) → ℕ × Department → List (ℕ × Department) → List (ℕ × Department)
unfolding comes_before
insert_ranked lower x [] = x ∷ []
insert_ranked lower x (y ∷ ys) =
    let rest = insert_ranked lower x ys in if comes_before lower y x then y ∷ rest else x ∷ y ∷ ys

unfoldable pub ranked : (Text → Text) → List Text → List Department → List (ℕ × Department)
unfolding score_of insert_ranked
ranked lower document [] = []
ranked lower document (d ∷ ds) =
    let rest = ranked lower document ds in
    let score = score_of lower document d in
    if nat_beq score 0 then rest else insert_ranked lower (score, d) rest

unfoldable pub suggestion : ℕ × Department → Suggestion
suggestion (score, d) = record {
  department_id = d.id;
  name = d.name;
  description = d.description;
  score = score;
}

proposal_name : (Text → Text) → Text → Text
unfolding words join is_blank
proposal_name clean_name title =
    let name = take 100 (join (codes " ") (take 6 (words (clean_name title)))) in
    if is_blank name then codes "New department" else name

pub proposal : (Text → Text) → Text → Proposal
unfolding proposal_name strip is_blank
proposal clean_name title =
    let subject = take 180 (strip title) in
    record {
      name = proposal_name clean_name title;
      description =
          codes "Knowledge and procedures related to "
          ++ ((if is_blank subject then codes "this subject" else subject) ++ codes ".");
    }

unfoldable pub select_first : List Suggestion → List ℕ
select_first [] = []
select_first (s ∷ _) = s.department_id ∷ []

unfoldable pub suggest_departments :
    (Text → Text) → (Text → Text) → Text → Text → List Department → Assignment
unfolding ranked count_tokens suggestion select_first proposal join
suggest_departments lower clean_name title body_md departments =
    let document = count_tokens lower (join (codes " ") (title ∷ title ∷ body_md ∷ [])) in
    let suggestions = map suggestion (take 3 (ranked lower document departments)) in
    record {
      department_ids = select_first suggestions;
      department_suggestions = suggestions;
      proposed_department = elim suggestions [
        | [] ↦ some (proposal clean_name title)
        | _ ∷ _ ↦ none
      ];
    }
