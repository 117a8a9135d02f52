-- ===== src/Versions/Comparison.antt =====
-- `describe_changes` of src/domain/article_changes.py finds the versions that it compares.
use mathlib.Core.Path.{subst}
use qnsc_kb_backend.Prelude.{
  ℕ, ◌≡◌, refl, sym, ◌⊎◌, inl, inr, Option, none, some, List, [], ◌∷◌, map, Memᴰ, ltb, nat_beq,
  nat_beq_iff, Bool-cases, Option-cases, nat_eq, string_eq, option_eq, not-Memᴰ-nil, lookup, insert,
  lookup-insert, Each, Each-Memᴰ,
}
use qnsc_kb_backend.Versions.{
  VersionError, Selection, Selected, selected, refused, numbers_of, insert_number, select_versions,
  Description, first_version, compared, versions_covered, by_number, compare_selected,
  describe_changes,
}
use qnsc_kb_backend.Versions.Choice.{IsOutcome, IsNew, IsOld, select_versions-IsOutcome}

module _ (P : ℕ → Type 0) where
  insert_number-Each :
      (n : ℕ) (numbers : List ℕ) → P n → Each P numbers → Each P (insert_number n numbers)
  unfolding insert_number
  insert_number-Each n [] p _ = (p, tt)
  insert_number-Each n (k ∷ rest) p (q, qs) = elim (Bool-cases (nat_beq k n)) [
    | inl e ↦ rw e (q, qs)
    | inr e ↦ elim (Bool-cases (ltb k n)) [
      | inl l ↦ rw (e, l) (q, insert_number-Each n rest p qs)
      | inr l ↦ rw (e, l) (p, (q, qs))
    ]
  ]

  numbers_of-Each :
      (versions : List ℕ) → ((n : ℕ) → Memᴰ n versions → P n) → Each P (numbers_of versions)
  unfolding numbers_of
  numbers_of-Each [] h = tt
  numbers_of-Each (n ∷ rest) h =
      insert_number-Each n _ (h n (Memᴰ.head refl))
        (numbers_of-Each rest (λ m k. h m (Memᴰ.tail k)))

numbers_of-Memᴰ : (versions : List ℕ) {n : ℕ} → Memᴰ n (numbers_of versions) → Memᴰ n versions
numbers_of-Memᴰ versions m =
    Each-Memᴰ (λ n. Memᴰ n versions) _ (numbers_of-Each (λ n. Memᴰ n versions) versions (λ n k. k))
      m

IsNew-Memᴰ :
    (numbers : List ℕ) (to_version : Option ℕ) (n : ℕ) → IsNew numbers to_version n → Memᴰ n numbers
unfolding IsNew
IsNew-Memᴰ numbers none n (m, _) = m
IsNew-Memᴰ numbers (some asked) n (e, m) = rw e m

IsOld-Memᴰ :
    (numbers : List ℕ) (new_number : ℕ) (from_version : Option ℕ) (n : ℕ)
    → IsOld numbers new_number from_version (some n)
    → Memᴰ n numbers
unfolding IsOld
IsOld-Memᴰ numbers new_number none n (m, _, _) = m
IsOld-Memᴰ numbers new_number (some asked) n (e, m, _) = let s : n ≡ asked = cc e in rw s m

module _ {S : Type 0} where
  -- A version with the number is in the dict.
  IsStored : ℕ → List (ℕ × S) → Type 0
  IsStored n stored = (s : S) × (lookup n stored ≡ some s)

  insert-IsStored :
      (n m : ℕ) (s : S) (stored : List (ℕ × S))
      → (m ≡ n) ⊎ IsStored m stored
      → IsStored m (insert n s stored)
  unfolding IsStored
  insert-IsStored n m s stored h =
      rw (lookup-insert n m s stored) (elim (Bool-cases (nat_beq n m)) [
        | inl b ↦ rw b (s, refl)
        | inr b ↦ elim h [
          | inl e ↦ absurd (cc (b, (nat_beq_iff n m).1 (sym e)))
          | inr (t, l) ↦ rw b (t, l)
        ]
      ])

  by_number-IsStored :
      {D : Type 0} (diff : S → S → D) (versions found : List (ℕ × S)) (n : ℕ)
      → Memᴰ n (map (λ v. v.0) versions) ⊎ IsStored n found
      → IsStored n (by_number diff versions found)
  unfolding by_number
  by_number-IsStored diff [] found n (inl m) = absurd (not-Memᴰ-nil m)
  by_number-IsStored diff [] found n (inr h) = h
  by_number-IsStored diff ((k, s) ∷ rest) found n (inr h) =
      by_number-IsStored diff rest _ n (inr (insert-IsStored k n s found (inr h)))
  by_number-IsStored diff ((k, s) ∷ rest) found n (inl (Memᴰ.head e)) =
      by_number-IsStored diff rest _ n (inr (insert-IsStored k n s found (inl e)))
  by_number-IsStored diff ((k, s) ∷ rest) found n (inl (Memᴰ.tail m)) =
      by_number-IsStored diff rest _ n (inl m)

Selected-cases :
    (o : Selected) → ((s : Selection) × (o ≡ selected s)) ⊎ ((e : VersionError) × (o ≡ refused e))
Selected-cases (selected s) = inl (s, refl)
Selected-cases (refused e) = inr (e, refl)

module _ {S D : Type 0} (diff : S → S → D) where
  compare_selected_total :
      (versions : List (ℕ × S)) (from_version to_version : Option ℕ) (s : Selection)
      → IsOutcome (numbers_of (map (λ v. v.0) versions)) from_version to_version (selected s)
      → (a : Description diff) × (compare_selected diff (by_number diff versions []) s ≡ some a)
  unfolding IsOutcome IsStored compare_selected
  compare_selected_total versions from_version to_version s (_, new, old) =
      let numbers = numbers_of (map (λ v. v.0) versions) in
      let stored : (n : ℕ) → Memᴰ n numbers → IsStored n (by_number diff versions []) =
        λ n m. by_number-IsStored diff versions [] n (inl (numbers_of-Memᴰ _ m)) in
      let (snapshot, e) = stored s.new_number (IsNew-Memᴰ numbers to_version s.new_number new) in
      elim (Option-cases s.from_version) [
        | inl n ↦ (first_version s.new_number, rw (compare_selected, e, n) refl)
        | inr (number, f) ↦
            let (before, g) = stored number (
              IsOld-Memᴰ numbers s.new_number from_version number
                (subst (IsOld numbers s.new_number from_version) f old)) in
            (
              compared number s.new_number (versions_covered diff number s.new_number s.numbers)
                  s.latest (diff before snapshot),
              rw (compare_selected, e, f, g) refl,
            )
      ]

  -- A question about changes is answered or refused with a message, without a KeyError.
  pub describe_changes_total :
      (versions : List (ℕ × S)) (from_version to_version : Option ℕ)
      → (a : Description diff) × (describe_changes diff versions from_version to_version ≡ some a)
  unfolding describe_changes
  describe_changes_total versions from_version to_version =
      let outcome = select_versions-IsOutcome (map (λ v. v.0) versions) from_version to_version in
      elim (Selected-cases (select_versions (map (λ v. v.0) versions) from_version to_version)) [
        | inr (x, e) ↦ rw (describe_changes, e) (_, refl)
        | inl (s, e) ↦
            rw (describe_changes, e)
              (compare_selected_total versions from_version to_version s (
                subst (IsOutcome (numbers_of (map (λ v. v.0) versions)) from_version to_version) e
                  outcome))
      ]
