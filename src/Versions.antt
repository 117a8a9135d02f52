-- ===== src/Versions.antt =====
-- src/domain/article_changes.py: which two versions of an article a question about changes compares.
-- `diff` is `diff_versions`, whose comparison is difflib's.
pub mod Order
pub mod Choice
pub mod Comparison
mod Examples
use qnsc_kb_backend.Prelude.{
  ℕ, not, ◌&&◌, Option, none, some, List, [], ◌∷◌, map, ltb, leb, nat_beq, if◌then◌else◌, get_or,
  filter, nat_eq, string_eq, option_eq, elem, lookup, insert,
}

-- The messages of the ValueErrors
pub data VersionError : Type 0 where
  no_versions unknown_to unknown_from not_older : VersionError

pub record Selection : Type 0 where
  pub numbers : List ℕ
  pub latest : ℕ
  pub new_number : ℕ
  pub from_version : Option ℕ

pub data Selected : Type 0 where
  selected : Selection → Selected
  refused : VersionError → Selected

-- Into an ascending list without duplicates
unfoldable pub insert_number : ℕ → List ℕ → List ℕ
insert_number n [] = n ∷ []
insert_number n (m ∷ rest) =
    let later = insert_number n rest in
    if nat_beq m n then m ∷ rest else if ltb m n then m ∷ later else n ∷ m ∷ rest

-- sorted({item.version for item in versions})
unfoldable pub numbers_of : List ℕ → List ℕ
numbers_of [] = []
numbers_of (n ∷ rest) = insert_number n (numbers_of rest)

-- numbers[-1]
unfoldable pub last_number : List ℕ → Option ℕ
last_number [] = none
last_number (n ∷ rest) = elim (last_number rest) [ none ↦ some n | some m ↦ some m ]

unfoldable pub earlier : ℕ → List ℕ → List ℕ
earlier n numbers = filter (λ m. ltb m n) numbers

-- The choice among `numbers`, which are not empty and end in `latest`
unfoldable pub select_among : List ℕ → ℕ → Option ℕ → ℕ → Selected
select_among numbers latest from_version new_number =
    if not (elem new_number numbers) then refused unknown_to else elim from_version [
      | none ↦ selected (record {
        numbers = numbers;
        latest = latest;
        new_number = new_number;
        from_version = last_number (earlier new_number numbers);
      })
      | some old ↦
          if not (elem old numbers)
          then refused unknown_from
          else if leb new_number old
          then refused not_older
          else selected (record {
            numbers = numbers;
            latest = latest;
            new_number = new_number;
            from_version = some old;
          })
    ]

unfoldable pub select_versions : List ℕ → Option ℕ → Option ℕ → Selected
select_versions versions from_version to_version = elim (last_number (numbers_of versions)) [
  | none ↦ refused no_versions
  | some latest ↦ select_among (numbers_of versions) latest from_version (get_or to_version latest)
]

module _ {S D : Type 0} (diff : S → S → D) where
  pub data Description : Type 0 where
    first_version : ℕ → Description
    compared : ℕ → ℕ → List ℕ → ℕ → D → Description
    invalid : VersionError → Description

  -- The dict of the versions by their number; a later item replaces an earlier one.
  unfoldable pub by_number : List (ℕ × S) → List (ℕ × S) → List (ℕ × S)
  by_number [] found = found
  by_number ((n, s) ∷ rest) found = by_number rest (insert n s found)

  -- The numbers from the old version, which is left out, to the new one
  unfoldable pub versions_covered : ℕ → ℕ → List ℕ → List ℕ
  versions_covered old new numbers = filter (λ n. ltb old n && leb n new) numbers

  unfoldable pub compare_selected : List (ℕ × S) → Selection → Option Description
  compare_selected stored s = elim (lookup s.new_number stored) [
    | none ↦ none
    | some new ↦ elim s.from_version [
      | none ↦ some (first_version s.new_number)
      | some number ↦ elim (lookup number stored) [
        | none ↦ none
        | some old ↦ some (
            compared number s.new_number (versions_covered number s.new_number s.numbers) s.latest
              (diff old new))
      ]
    ]
  ]

  -- `none` is a KeyError.
  unfoldable pub describe_changes : List (ℕ × S) → Option ℕ → Option ℕ → Option Description
  describe_changes versions from_version to_version =
      elim (select_versions (map (λ v. v.0) versions) from_version to_version) [
        | refused e ↦ some (invalid e)
        | selected s ↦ compare_selected (by_number versions []) s
      ]
