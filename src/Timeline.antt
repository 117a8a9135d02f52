-- ===== src/Timeline.antt =====
-- src/domain/temporal.py and src/domain/conflict_decisions.py: what an answer quotes, given the dates
-- on which articles are in force and the conflicts that a reviewer resolved. A date is a number of
-- days, an article id a string. A decision is a pair of the articles in conflict and the article
-- kept; `load_decisions`, a query, is an argument.
pub mod Order
pub mod Supersession
pub mod Survivors
mod Examples
use qnsc_kb_backend.Prelude.{
  ℕ, zero, suc, ◌+◌, ◌-◌, ◌*◌, ◌/◌, ◌%◌, ◌^◌, ◌≤◌, ◌<◌, min, max, String, ◌≡◌, refl, sym, ap, ◌∙◌,
  ◌≢◌, ◌↔◌, ◌⊎◌, inl, inr, Bool, true, false, not, ◌&&◌, ◌||◌, Option, none, some, List, [], ◌∷◌,
  ◌++◌, map, Memᴰ, arith, ltb, leb, nat_beq, nat_beq_iff, if◌then◌else◌, ltb→lt, lt→ltb, leb→le,
  le→leb, tests, Bool-cases, Option-cases, &&-eq-true, ||-eq-true, is_some, get_or, length, take,
  length-append, any, all, filter, any-Memᴰ, any_of_Memᴰ, Memᴰ-filter, filter_of_Memᴰ,
  length-filter, Eq, ◌==◌, nat_eq, string_eq, option_eq, List-cases, not-Memᴰ-nil, find, find-Memᴰ,
  find-append, elem, elem-Memᴰ, Memᴰ-elem, lookup, insert, lookup-insert, option_beq_iff, eq_iff,
}

-- The part of a retrieved passage that is read.
pub record Passage : Type 0 where
  pub article_id : Option String
  pub content : String

pub record Validity : Type 0 where
  pub issue : Option ℕ
  pub expiry : Option ℕ

abbrev undated_validity : Validity
undated_validity = record { issue = none; expiry = none }

abbrev pub Decision : Type 0
Decision = List String × String

-- str(item.get("article_id"))
pub id_text : Passage → String
id_text item = get_or item.article_id "None"

-- IN_FORCE, UNDATED, OUT_OF_FORCE
abbrev pub in_force : ℕ
in_force = 0

abbrev pub undated : ℕ
undated = 1

abbrev pub out_of_force : ℕ
out_of_force = 2

issued_later : Validity → ℕ → Bool
issued_later v on = elim v.issue [ none ↦ false | some day ↦ ltb on day ]

pub expired_before : Validity → ℕ → Bool
expired_before v on = elim v.expiry [ none ↦ false | some day ↦ ltb day on ]

pub bucket : Validity → ℕ → ℕ
unfolding issued_later expired_before
bucket v on =
    if not (is_some v.issue) && not (is_some v.expiry)
    then undated
    else if issued_later v on
    then out_of_force
    else if expired_before v on
    then out_of_force
    else if is_some v.issue
    then in_force
    else undated

-- Python's `sorted` is stable: an element goes before the first that is greater.
pub insert_sorted : (Passage → ℕ) → Passage → List Passage → List Passage
insert_sorted key item [] = item ∷ []
insert_sorted key item (x ∷ xs) =
    let rest = insert_sorted key item xs in
    if ltb (key x) (key item) then x ∷ rest else item ∷ x ∷ xs

pub sorted : (Passage → ℕ) → List Passage → List Passage
unfolding insert_sorted
sorted key [] = []
sorted key (x ∷ xs) = insert_sorted key x (sorted key xs)

pub validity_of : List (String × Validity) → String → Validity
validity_of validity id = get_or (lookup id validity) undated_validity

pub key_on : ℕ → List (String × Validity) → Passage → ℕ
unfolding bucket validity_of id_text
key_on on validity item = bucket (validity_of validity (id_text item)) on

pub rank_by_time : List Passage → ℕ → List (String × Validity) → List Passage
unfolding sorted key_on
rank_by_time results on validity = sorted (key_on on validity) results

-- The expiry that a loser gets when the winner was issued the day after `end`.
pub ended : ℕ → Validity → Validity
ended end current = elim current.expiry [
  | none ↦ record current { expiry = some end }
  | some day ↦ if ltb end day then record current { expiry = some end } else current
]

pub end_losers : String → ℕ → List String → List (String × Validity) → List (String × Validity)
unfolding ended validity_of
end_losers kept end [] out = out
end_losers kept end (id ∷ rest) out =
    let after = if id == kept then out else insert id (ended end (validity_of out id)) out in
    end_losers kept end rest after

-- winner.issue, if the winner and its issue are known
pub winner_issue : List (String × Validity) → String → Option ℕ
winner_issue out kept = elim (lookup kept out) [ none ↦ none | some winner ↦ winner.issue ]

-- issue - timedelta(days=1); `none` is the OverflowError for date.min, which is day 1.
pub day_before : ℕ → Option ℕ
day_before zero = none
day_before (suc zero) = none
day_before (suc (suc n)) = some (suc n)

-- `none` is the OverflowError.
pub with_supersession : List (String × Validity) → List Decision → Option (List (String × Validity))
unfolding winner_issue day_before end_losers
with_supersession out [] = some out
with_supersession out (decision ∷ rest) = elim (winner_issue out decision.1) [
  | none ↦ with_supersession out rest
  | some issue ↦ elim (day_before issue) [
    | none ↦ none
    | some end ↦ with_supersession (end_losers decision.1 end decision.0 out) rest
  ]
]

-- One decision: nothing is dropped when the article kept is not there.
pub losers : List String → Decision → List String
losers present decision =
    if elem decision.1 present
    then filter (λ id. not (id == decision.1) && elem id present) decision.0
    else []

pub superseded_article_ids : List String → List Decision → List String
unfolding losers
superseded_article_ids present [] = []
superseded_article_ids present (decision ∷ rest) =
    losers present decision ++ superseded_article_ids present rest

pub drop_superseded : List String → List Passage → List Passage
unfolding id_text
drop_superseded dropped results = filter (λ item. not (elem (id_text item) dropped)) results

-- The ids of the passages that have one, an empty text counting as none.
pub present_ids : List Passage → List String
present_ids [] = []
present_ids (item ∷ rest) =
    let others = present_ids rest in
    elim item.article_id [
      | none ↦ others
      | some id ↦ if id == "" || elem id others then others else id ∷ others
    ]

-- `none` for the decisions is the failed query.
pub apply_conflict_decisions : Option (List Decision) → List Passage → List Passage
unfolding present_ids superseded_article_ids drop_superseded
apply_conflict_decisions decisions results =
    let present = present_ids results in
    if ltb (length present) 2 then results else elim decisions [
      | none ↦ results
      | some known ↦ drop_superseded (superseded_article_ids present known) results
    ]

-- The decisions that concern a passage; in `apply_time_focus` they are `none` when a query failed.
concerning : List String → List Decision → List Decision
concerning present decisions = filter (λ d. any (λ id. elem id present) d.0) decisions

-- The order in which an answer quotes the passages; `none` for the day is a question about no date, and
-- `none` for the answer an exception.
apply_time_focus :
    List Passage
    → Option ℕ
    → Option (List (String × Validity) × List Decision)
    → Option (List Passage)
unfolding with_supersession rank_by_time present_ids concerning
apply_time_focus results on loaded = elim on [
  | none ↦ some results
  | some day ↦ if ltb (length results) 2 then some results else elim loaded [
    | none ↦ some results
    | some (validity, decisions) ↦
        elim (with_supersession validity (concerning (present_ids results) decisions)) [
          | none ↦ none
          | some known ↦
              if not (any (λ entry. is_some entry.1.issue || is_some entry.1.expiry) known)
              then some results
              else some (rank_by_time results day known)
        ]
  ]
]
