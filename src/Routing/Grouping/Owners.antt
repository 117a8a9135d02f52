-- ===== src/Routing/Grouping/Owners.antt =====
-- Whose departments the candidates of src/domain/department_routing.py name.
use qnsc_kb_backend.Prelude.{
  ℕ, ◌+◌, ◌≡◌, inl, inr, Option, none, some, List, [], ◌∷◌, ◌++◌, arith, ltb, Bool-cases, length,
  any, nat_eq, string_eq, option_eq,
}
use qnsc_kb_backend.Text.{Text}
use qnsc_kb_backend.Routing.{Assignment, Candidate}
use qnsc_kb_backend.Routing.Grouping.{
  prepend, extend, extend_last, held_before, Absorbed, absorb_one, absorb_all, kept, is_hollow,
  absorb_hollow_sections, group_from, group, number_from, has_owner, same_owner, finalize,
  whole_document,
}

-- `P` holds of the assignment of each candidate.
module _ (P : Assignment → Type 0) where
  unfoldable pub AllAssigned : List Candidate → Type 0
  AllAssigned [] = Unit
  AllAssigned (item ∷ rest) = P item.assignment × AllAssigned rest

  AllAssigned-append :
      (xs ys : List Candidate) → AllAssigned xs → AllAssigned ys → AllAssigned (xs ++ ys)
  unfolding AllAssigned
  AllAssigned-append [] ys _ q = q
  AllAssigned-append (x ∷ xs) ys (p, ps) q = (p, AllAssigned-append xs ys ps q)

  AllAssigned-extend_last :
      (xs : List Candidate) (item : Candidate) → AllAssigned xs → AllAssigned (extend_last xs item)
  unfolding AllAssigned extend_last extend
  AllAssigned-extend_last [] item p = p
  AllAssigned-extend_last (x ∷ []) item p = p
  AllAssigned-extend_last (x ∷ y ∷ rest) item (p, ps) =
      (p, AllAssigned-extend_last (y ∷ rest) item ps)

  Held : Option Candidate → Type 0
  Held none = Unit
  Held (some item) = P item.assignment

  AllAbsorbed : Absorbed → Type 0
  unfolding Held
  AllAbsorbed (merged, pending) = AllAssigned merged × Held pending

  prepend-assignment : (a b : Candidate) → (prepend a b).assignment ≡ b.assignment
  unfolding prepend
  prepend-assignment a b = ground arith

  look_up-held_before :
      (pending : Option Candidate) (item : Candidate)
      → P item.assignment
      → P (held_before pending item).assignment
  unfolding held_before
  look_up-held_before none item p = p
  look_up-held_before (some held) item p = rw prepend-assignment p

  AllAbsorbed-absorb_one :
      (state : Absorbed) (item : Candidate)
      → AllAbsorbed state
      → P item.assignment
      → AllAbsorbed (absorb_one state item)
  unfolding absorb_one AllAbsorbed AllAssigned Held
  AllAbsorbed-absorb_one ([], pending) item (ps, h) p =
      let q = look_up-held_before pending item p in
      elim (Bool-cases (is_hollow (held_before pending item))) [
        | inl e ↦ rw e (tt, q)
        | inr e ↦ rw e ((q, tt), tt)
      ]
  AllAbsorbed-absorb_one (x ∷ xs, pending) item (ps, h) p =
      let q = look_up-held_before pending item p in
      elim (Bool-cases (is_hollow (held_before pending item))) [
        | inl e ↦ rw e (AllAssigned-extend_last (x ∷ xs) _ ps, tt)
        | inr e ↦ rw e (AllAssigned-append (x ∷ xs) _ ps (q, tt), tt)
      ]

  AllAbsorbed-absorb_all :
      (state : Absorbed) (items : List Candidate)
      → AllAbsorbed state
      → AllAssigned items
      → AllAbsorbed (absorb_all state items)
  unfolding absorb_all AllAssigned
  AllAbsorbed-absorb_all state [] h _ = h
  AllAbsorbed-absorb_all state (item ∷ rest) h (p, ps) =
      AllAbsorbed-absorb_all (absorb_one state item) rest (AllAbsorbed-absorb_one state item h p) ps

  AllAssigned-kept : (state : Absorbed) → AllAbsorbed state → AllAssigned (kept state)
  unfolding kept AllAbsorbed Held AllAssigned
  AllAssigned-kept (merged, none) (h, _) = h
  AllAssigned-kept (merged, some item) (h, p) = AllAssigned-append merged _ h (p, tt)

  AllAssigned-absorb :
      (items : List Candidate) → AllAssigned items → AllAssigned (absorb_hollow_sections items)
  unfolding absorb_hollow_sections AllAbsorbed AllAssigned Held
  AllAssigned-absorb items h = elim (Bool-cases (ltb (length items) 2)) [
    | inl e ↦ rw e h
    | inr e ↦ rw e (
        AllAssigned-kept (absorb_all ([], none) items)
          (AllAbsorbed-absorb_all ([], none) items (tt, tt) h))
  ]

  AllAssigned-group_from :
      (last : Candidate) (rest : List Candidate)
      → P last.assignment
      → AllAssigned rest
      → AllAssigned (group_from last rest)
  unfolding group_from AllAssigned extend
  AllAssigned-group_from last [] p _ = (p, tt)
  AllAssigned-group_from last (item ∷ rest) p (q, qs) = elim (Bool-cases (same_owner item last)) [
    | inl e ↦ rw e (AllAssigned-group_from (extend last item) rest p qs)
    | inr e ↦ rw e (p, AllAssigned-group_from item rest q qs)
  ]

  AllAssigned-group : (items : List Candidate) → AllAssigned items → AllAssigned (group items)
  unfolding group AllAssigned
  AllAssigned-group [] _ = tt
  AllAssigned-group (item ∷ rest) (p, ps) = AllAssigned-group_from item rest p ps

  AllAssigned-number_from :
      (n : ℕ) (items : List Candidate) → AllAssigned items → AllAssigned (number_from n items)
  unfolding number_from AllAssigned
  AllAssigned-number_from n [] _ = tt
  AllAssigned-number_from n (item ∷ rest) (p, ps) = (p, AllAssigned-number_from (n + 1) rest ps)

  -- What holds of the assignment of the whole document and of each section's assignment holds of each
  -- candidate's.
  pub finalize-AllAssigned :
      (title markdown : Text) (whole : Assignment) (sections : List Candidate)
      → P whole
      → AllAssigned sections
      → AllAssigned (finalize title markdown whole sections)
  unfolding finalize AllAssigned whole_document
  finalize-AllAssigned title markdown whole sections p h =
      elim (Bool-cases (any has_owner (absorb_hollow_sections sections))) [
        | inl e ↦
            rw e (AllAssigned-number_from 1 _ (AllAssigned-group _ (AllAssigned-absorb sections h)))
        | inr e ↦ rw e (p, tt)
      ]
