-- ===== src/IndexRecovery/Examples.antt =====
-- A reading of the markers and two stuck articles: the theorems on src/domain/index_recovery.py at
-- them.
use qnsc_kb_backend.Prelude.{
  ℕ, ◌≤◌, ◌++◌, map, take, not, String, ◌≡◌, refl, true, Option, none, some, List, [], ◌∷◌, nat_beq,
  if◌then◌else◌, ◌==◌, nat_eq, string_eq, option_eq,
}
use qnsc_kb_backend.IndexRecovery.{IndexedArticle, marker, recover_stuck_indexing}
use qnsc_kb_backend.IndexRecovery.Attempts.{passes, interrupted_article_fails}
use qnsc_kb_backend.IndexRecovery.Passes.{stuck, has_attempt, ids_of, recover_stuck_indexing_lem}

abbrev digits : ℕ → String
digits n = if nat_beq n 1 then "1" else "2"

abbrev attempt_of : String → Option ℕ
attempt_of written =
    if written == marker digits 1
    then some 1
    else if written == marker digits 2
    then some 2
    else none

reads_first : attempt_of (marker digits 1) ≡ some 1
reads_first = refl

reads_second : attempt_of (marker digits 2) ≡ some 2
reads_second = refl

interrupted_article_fails_example :
    ((passes attempt_of digits 3 none).1 ≡ true) × ((passes attempt_of digits 3 none).0 ≤ 2)
interrupted_article_fails_example =
    interrupted_article_fails attempt_of digits reads_first reads_second none

abbrev rows : List IndexedArticle
rows =
    record {
      id = 4;
      status = "published";
      lifecycle_status = "active";
      index_status = "processing";
      index_error = none;
      updated_at = 100;
    }
    ∷ record {
      id = 5;
      status = "published";
      lifecycle_status = "active";
      index_status = "processing";
      index_error = some (marker digits 2);
      updated_at = 100;
    }
    ∷ []

one_of_each :
    ((recover_stuck_indexing attempt_of digits 9000 70 rows).to_requeue ≡ 4 ∷ [])
    × ((recover_stuck_indexing attempt_of digits 9000 70 rows).failed ≡ 5 ∷ [])
unfolding recover_stuck_indexing
one_of_each = (refl, refl)

recover_stuck_indexing_lem_example :
    ((recover_stuck_indexing attempt_of digits 9000 70 rows).to_requeue
      ≡ ids_of attempt_of digits 9000 70
          (has_attempt attempt_of digits 9000 70)
          (take 20 (stuck attempt_of digits 9000 70 rows)))
    × ((recover_stuck_indexing attempt_of digits 9000 70 rows).failed
        ≡ ids_of attempt_of digits 9000 70
            (λ a. not (has_attempt attempt_of digits 9000 70 a))
            (take 20 (stuck attempt_of digits 9000 70 rows)))
    × (map (λ a. a.id) (recover_stuck_indexing attempt_of digits 9000 70 rows).rows
        ≡ map (λ a. a.id) rows)
    × (take 20 (stuck attempt_of digits 9000 70 rows)
          ++ stuck attempt_of digits 9000 70
              (recover_stuck_indexing attempt_of digits 9000 70 rows).rows
        ≡ stuck attempt_of digits 9000 70 rows)
recover_stuck_indexing_lem_example = recover_stuck_indexing_lem attempt_of digits 9000 70 rows
