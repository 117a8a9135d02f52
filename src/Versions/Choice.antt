-- ===== src/Versions/Choice.antt =====
-- Which versions `select_versions` of src/domain/article_changes.py names.
use mathlib.Core.Path.{subst}
use qnsc_kb_backend.Prelude.{
  ℕ, ◌≤◌, ◌<◌, ◌≡◌, refl, ◌⊎◌, inl, inr, true, false, Option, none, some, List, [], Memᴰ, arith,
  ltb, leb, ltb→lt, leb→le, Bool-cases, Option-cases, get_or, Memᴰ-filter, filter_of_Memᴰ, nat_eq,
  string_eq, option_eq, not-Memᴰ-nil, elem, elem-Memᴰ, Memᴰ-elem, Each, Each-Memᴰ, Memᴰ-Each,
}
use qnsc_kb_backend.Versions.{
  no_versions, unknown_to, unknown_from, not_older, Selected, selected, refused, numbers_of,
  last_number, earlier, select_among, select_versions,
}
use qnsc_kb_backend.Versions.Order.{
  IsAscending, numbers_of-IsAscending, IsGreatest, last_number-IsGreatest, earlier-IsAscending,
}

-- The old version is the one asked for; without one asked for, it is the greatest stored number below
-- `new_number`, and there is none only if no stored number is below.
unfoldable pub IsOld : List ℕ → ℕ → Option ℕ → Option ℕ → Type 0
IsOld numbers new_number (some asked) old =
    (old ≡ some asked) × Memᴰ asked numbers × (asked < new_number)
IsOld numbers new_number none none = Each (λ n. new_number ≤ n) numbers
IsOld numbers new_number none (some old) =
    Memᴰ old numbers × (old < new_number) × Each (λ n. (n ≤ old) ⊎ (new_number ≤ n)) numbers

-- The new version is the one asked for, or else the greatest.
unfoldable pub IsNew : List ℕ → Option ℕ → ℕ → Type 0
IsNew numbers (some asked) new_number = (new_number ≡ asked) × Memᴰ asked numbers
IsNew numbers none new_number = Memᴰ new_number numbers × Each (λ n. n ≤ new_number) numbers

-- What an outcome says of the numbers and the versions asked for
unfoldable pub IsOutcome : List ℕ → Option ℕ → Option ℕ → Selected → Type 0
IsOutcome numbers from_version to_version (selected s) =
    (s.numbers ≡ numbers)
    × IsNew numbers to_version s.new_number
    × IsOld numbers s.new_number from_version s.from_version
IsOutcome numbers from_version to_version (refused no_versions) = numbers ≡ []
IsOutcome numbers from_version to_version (refused unknown_to) =
    (n : ℕ) × (to_version ≡ some n) × ¬ Memᴰ n numbers
IsOutcome numbers from_version to_version (refused unknown_from) =
    (n : ℕ) × (from_version ≡ some n) × ¬ Memᴰ n numbers
IsOutcome numbers from_version to_version (refused not_older) =
    (n : ℕ) × (m : ℕ) × (from_version ≡ some n) × IsNew numbers to_version m × (m ≤ n)

not_elem : (n : ℕ) (numbers : List ℕ) → elem n numbers ≡ false → ¬ Memᴰ n numbers
not_elem n numbers e m = cc (Memᴰ-elem n numbers m, e)

-- Of the versions below `new_number` the last is the nearest.
earlier-IsOld :
    (numbers : List ℕ) (new_number : ℕ)
    → IsAscending numbers
    → IsOld numbers new_number none (last_number (earlier new_number numbers))
unfolding IsGreatest earlier IsOld
earlier-IsOld numbers new_number a =
    let below =
      last_number-IsGreatest (earlier new_number numbers)
        (earlier-IsAscending new_number numbers a) in
    go (last_number (earlier new_number numbers)) below
  where
    at_least : (n : ℕ) → ltb n new_number ≡ false → new_number ≤ n
    at_least n e = ground (arith, e)

    go :
        (old : Option ℕ)
        → IsGreatest (earlier new_number numbers) old
        → IsOld numbers new_number none old
    go none empty =
        Memᴰ-Each (λ n. new_number ≤ n) numbers
          (λ n m. elim (Bool-cases (ltb n new_number)) [
            | inl l ↦ absurd (not-Memᴰ-nil (subst (Memᴰ n) empty (filter_of_Memᴰ _ numbers m l)))
            | inr l ↦ at_least n l
          ])
    go (some old) (m, greatest) =
        let (member, l) = Memᴰ-filter _ numbers m in
        (
          member,
          ltb→lt old new_number l,
          Memᴰ-Each (λ n. (n ≤ old) ⊎ (new_number ≤ n)) numbers
              (λ n k. elim (Bool-cases (ltb n new_number)) [
                | inl b ↦ inl (Each-Memᴰ (λ j. j ≤ old) _ greatest (filter_of_Memᴰ _ numbers k b))
                | inr b ↦ inr (at_least n b)
              ]),
        )

select_among-IsOutcome :
    (numbers : List ℕ) (latest new_number : ℕ) (from_version to_version : Option ℕ)
    → IsAscending numbers
    → elem new_number numbers ≡ true
    → IsNew numbers to_version new_number
    → IsOutcome numbers from_version to_version
        (select_among numbers latest from_version new_number)
unfolding IsOutcome select_among
select_among-IsOutcome numbers latest new_number none to_version a e new =
    rw (select_among, e) (refl, new, earlier-IsOld numbers new_number a)
select_among-IsOutcome numbers latest new_number (some old) to_version a e new =
    elim (Bool-cases (elem old numbers)) [
      | inr o ↦ rw (select_among, e, o) (old, refl, not_elem old numbers o)
      | inl o ↦ elim (Bool-cases (leb new_number old)) [
        | inl l ↦ rw (select_among, e, o, l) (old, new_number, refl, new, leb→le new_number old l)
        | inr l ↦ rw (select_among, e, o, l) (refl, new, older old o l)
      ]
    ]
  where
    older :
        (old : ℕ)
        → elem old numbers ≡ true
        → leb new_number old ≡ false
        → IsOld numbers new_number (some old) (some old)
    older old o l = unfold IsOld in (refl, elem-Memᴰ old numbers o, ground (arith, l))

select_latest-IsOutcome :
    (numbers : List ℕ) (latest : ℕ) (from_version to_version : Option ℕ)
    → IsAscending numbers
    → IsGreatest numbers (some latest)
    → IsOutcome numbers from_version to_version
        (select_among numbers latest from_version (get_or to_version latest))
unfolding IsGreatest IsNew IsOutcome select_among
select_latest-IsOutcome numbers latest from_version none a (m, greatest) =
    select_among-IsOutcome numbers latest latest from_version none a (Memᴰ-elem latest numbers m)
      (m, greatest)
select_latest-IsOutcome numbers latest from_version (some asked) a _ =
    elim (Bool-cases (elem asked numbers)) [
      | inr e ↦ rw (select_among, e) (asked, refl, not_elem asked numbers e)
      | inl e ↦
          select_among-IsOutcome numbers latest asked from_version (some asked) a e
            (refl, elem-Memᴰ asked numbers e)
    ]

-- Of the stored numbers, a selection names the one asked for or the greatest as the new version, and as
-- the old one the one asked for, which is smaller, or the nearest below, and none only if there is
-- none below; a refusal says that nothing is stored, that a number asked for is not stored, or that the
-- old one asked for is not smaller.
pub select_versions-IsOutcome :
    (versions : List ℕ) (from_version to_version : Option ℕ)
    → IsOutcome
        (numbers_of versions)
        from_version
        to_version
        (select_versions versions from_version to_version)
unfolding IsGreatest IsOutcome select_versions
select_versions-IsOutcome versions from_version to_version =
    let a = numbers_of-IsAscending versions in
    let greatest = last_number-IsGreatest (numbers_of versions) a in
    elim (Option-cases (last_number (numbers_of versions))) [
      | inl e ↦ rw (select_versions, e) (subst (IsGreatest (numbers_of versions)) e greatest)
      | inr (latest, e) ↦
          rw (select_versions, e)
            (select_latest-IsOutcome (numbers_of versions) latest from_version to_version a
              (subst (IsGreatest (numbers_of versions)) e greatest))
    ]
