-- ===== src/IndexRecovery.antt =====
-- src/domain/index_recovery.py: articles whose indexing was interrupted. A time is a number of seconds.
-- `attempt_of` stands for the search for `_ATTEMPT` and the reading of its digits, `digits` for the
-- digits that a number prints as.
pub mod Attempts
pub mod Passes
mod Examples
use text.Mathlib.Text.{starts_with}
use Prim.Native.String.{◌++◌ as append_text}
use qnsc_kb_backend.Prelude.{
  ℕ, zero, suc, ◌+◌, ◌-◌, ◌*◌, ◌/◌, ◌%◌, ◌^◌, ◌≤◌, ◌<◌, min, max, String, ◌≡◌, refl, sym, ap, ◌∙◌,
  ◌≢◌, ◌↔◌, ◌⊎◌, inl, inr, Bool, true, false, not, ◌&&◌, ◌||◌, Option, none, some, List, [], ◌∷◌,
  ◌++◌, map, Memᴰ, arith, ltb, leb, nat_beq, nat_beq_iff, if◌then◌else◌, ltb→lt, lt→ltb, leb→le,
  le→leb, tests, Bool-cases, Option-cases, &&-eq-true, ||-eq-true, is_some, get_or, length, take,
  length-append, any, all, filter, any-Memᴰ, any_of_Memᴰ, Memᴰ-filter, filter_of_Memᴰ,
  length-filter, Eq, ◌==◌, nat_eq, string_eq, option_eq, List-cases, not-Memᴰ-nil, find, find-Memᴰ,
  find-append, elem, elem-Memᴰ, Memᴰ-elem, lookup, insert, lookup-insert, option_beq_iff, eq_iff,
}

-- The columns of an article that the sweep reads or assigns.
pub record IndexedArticle : Type 0 where
  pub id : ℕ
  pub status : String
  pub lifecycle_status : String
  pub index_status : String
  pub index_error : Option String
  pub updated_at : ℕ

-- INDEX_RECOVERY_MAX_ATTEMPTS
abbrev pub max_attempts : ℕ
max_attempts = 2

abbrev pub batch_limit : ℕ
batch_limit = 20

abbrev pub interrupted_prefix : String
interrupted_prefix = "Interrupted while indexing"

pub interrupted_attempts : (String → Option ℕ) → Option String → ℕ
interrupted_attempts attempt_of index_error =
    let written = get_or index_error "" in
    if not (starts_with written interrupted_prefix) then 0 else get_or (attempt_of written) 0

-- The marker of an article that is queued again for the n-th time.
abbrev pub marker : (ℕ → String) → ℕ → String
marker digits n = append_text interrupted_prefix (
    append_text " (attempt " (
      append_text (digits n)
        (append_text " of " (append_text (digits max_attempts) "); queued again automatically."))))

pub failed_message : (ℕ → String) → String
failed_message digits = append_text "Indexing was interrupted " (
    append_text (digits (max_attempts + 1))
      " times (the worker restarted or ran out of memory) and did not complete. Check the worker, then reprocess this article.")

pub data Action : Type 0 where
  requeue fail : Action

pub next_step : (String → Option ℕ) → (ℕ → String) → Option String → Action × String
unfolding interrupted_attempts failed_message
next_step attempt_of digits index_error =
    let attempt = interrupted_attempts attempt_of index_error + 1 in
    if ltb max_attempts attempt
    then (fail, failed_message digits)
    else (requeue, marker digits attempt)

pub is_stuck : ℕ → ℕ → IndexedArticle → Bool
is_stuck now stuck_minutes a =
    a.status == "published"
    && a.lifecycle_status == "active"
    && a.index_status == "processing"
    && ltb (a.updated_at + stuck_minutes * 60) now

pub settle : ℕ → Action × String → IndexedArticle → IndexedArticle
settle now (requeue, written) a = record a {
  index_status = "processing";
  index_error = some written;
  updated_at = now;
}
settle now (fail, written) a = record a {
  index_status = "failed";
  index_error = some written;
  updated_at = now;
}

-- What a pass leaves: the rows, the articles to queue again and the failed ones.
pub record Pass : Type 0 where
  pub rows : List IndexedArticle
  pub to_requeue : List ℕ
  pub failed : List ℕ

pub listed : Action → ℕ → IndexedArticle → Pass → Pass
listed requeue id a rest = record {
  rows = a ∷ rest.rows;
  to_requeue = id ∷ rest.to_requeue;
  failed = rest.failed;
}
listed fail id a rest = record {
  rows = a ∷ rest.rows;
  to_requeue = rest.to_requeue;
  failed = id ∷ rest.failed;
}

-- The first `room` stuck rows; the rows come in the order of `updated_at`.
pub sweep : (String → Option ℕ) → (ℕ → String) → ℕ → ℕ → ℕ → List IndexedArticle → Pass
unfolding next_step is_stuck settle listed
sweep attempt_of digits now stuck_minutes room [] = record {
  rows = [];
  to_requeue = [];
  failed = [];
}
sweep attempt_of digits now stuck_minutes zero (a ∷ rest) = record {
  rows = a ∷ rest;
  to_requeue = [];
  failed = [];
}
sweep attempt_of digits now stuck_minutes (suc room) (a ∷ rest) =
    let claimed = sweep attempt_of digits now stuck_minutes room rest in
    let passed = sweep attempt_of digits now stuck_minutes (suc room) rest in
    let step = next_step attempt_of digits a.index_error in
    if is_stuck now stuck_minutes a
    then listed step.0 a.id (settle now step a) claimed
    else record passed { rows = a ∷ passed.rows }

pub recover_stuck_indexing : (String → Option ℕ) → (ℕ → String) → ℕ → ℕ → List IndexedArticle → Pass
unfolding sweep
recover_stuck_indexing attempt_of digits now stuck_minutes rows =
    sweep attempt_of digits now stuck_minutes batch_limit rows
