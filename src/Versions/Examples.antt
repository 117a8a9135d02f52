-- ===== src/Versions/Examples.antt =====
-- Three stored versions: the theorems on the selection in src/domain/article_changes.py at them.
use qnsc_kb_backend.Prelude.{
  ℕ, ◌-◌, ◌≡◌, refl, none, some, List, [], ◌∷◌, nat_eq, string_eq, option_eq,
}
use qnsc_kb_backend.Versions.{
  refused, unknown_to, numbers_of, insert_number, last_number, earlier, select_among,
  select_versions, Description, compared, by_number, versions_covered, compare_selected,
  describe_changes,
}
use qnsc_kb_backend.Versions.Choice.{IsOutcome, select_versions-IsOutcome}
use qnsc_kb_backend.Versions.Comparison.{describe_changes_total}

abbrev kept_versions : List (ℕ × ℕ)
kept_versions = (4, 40) ∷ (1, 10) ∷ (2, 20) ∷ []

abbrev difference : ℕ → ℕ → ℕ
difference old new = new - old

latest_change :
    describe_changes difference kept_versions none none ≡ some (compared 2 4 (4 ∷ []) 4 20)
unfolding describe_changes select_versions select_among numbers_of insert_number last_number earlier
    compare_selected by_number versions_covered
latest_change = refl

missing_version : select_versions (4 ∷ 1 ∷ []) none (some 3) ≡ refused unknown_to
unfolding select_versions select_among numbers_of insert_number last_number
missing_version = refl

select_versions-IsOutcome_example :
    IsOutcome
      (numbers_of (4 ∷ 1 ∷ 2 ∷ []))
      (some 1)
      none
      (select_versions (4 ∷ 1 ∷ 2 ∷ []) (some 1) none)
select_versions-IsOutcome_example = select_versions-IsOutcome (4 ∷ 1 ∷ 2 ∷ []) (some 1) none

describe_changes_total_example :
    (a : Description difference) × (describe_changes difference kept_versions (some 1) none
      ≡ some a)
describe_changes_total_example = describe_changes_total difference kept_versions (some 1) none
