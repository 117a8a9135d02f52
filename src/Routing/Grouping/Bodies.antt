-- ===== src/Routing/Grouping/Bodies.antt =====
-- What the grouping of src/domain/department_routing.py makes of the text of the sections.
use qnsc_kb_backend.Prelude.{
  ℕ, ◌+◌, ◌≡◌, refl, sym, ap, inl, inr, true, Option, none, some, List, [], ◌∷◌, ◌++◌, map, ltb,
  Bool-cases, Option-cases, length, any, nat_eq, string_eq, option_eq,
}
use qnsc_kb_backend.Text.{Text, join, is_blank, drop}
use qnsc_kb_backend.Routing.{Assignment, Candidate}
use qnsc_kb_backend.Routing.Grouping.{
  gap, prepend, extend, extend_last, held_before, Absorbed, absorb_one, absorb_all, kept,
  absorb_hollow_sections, group_from, group, number_from, has_owner, same_owner, is_hollow,
  finalize,
}
use mathlib.Core.List.{append_assoc, append-nil}

abbrev pub joined : List Candidate → Text
joined items = join gap (map (λ item. item.section.body_md) items)

-- Every body behind a gap: a form of `joined` that appends.
spelled : List Candidate → Text
spelled [] = []
spelled (item ∷ rest) = gap ++ (item.section.body_md ++ spelled rest)

spelled-joined :
    (item : Candidate) (rest : List Candidate) → spelled (item ∷ rest) ≡ gap ++ joined (item ∷ rest)
unfolding spelled join
spelled-joined item [] = simp append-nil
spelled-joined item (next ∷ rest) =
    let ih = spelled-joined next rest in ap (λ t. gap ++ (item.section.body_md ++ t)) ih

spelled-append : (xs ys : List Candidate) → spelled (xs ++ ys) ≡ spelled xs ++ spelled ys
unfolding spelled
spelled-append [] ys = refl
spelled-append (x ∷ xs) ys = simp (spelled-append xs ys, append_assoc)

spelled-extend_last :
    (x : Candidate) (xs : List Candidate) (item : Candidate)
    → spelled (extend_last (x ∷ xs) item) ≡ spelled (x ∷ xs) ++ spelled (item ∷ [])
unfolding spelled extend_last extend
spelled-extend_last x [] item = simp append_assoc
spelled-extend_last x (y ∷ rest) item =
    let ih = spelled-extend_last y rest item in simp (ih, append_assoc)

spelled-prepend :
    (held item : Candidate) → spelled (prepend held item ∷ []) ≡ spelled (held ∷ item ∷ [])
unfolding spelled prepend
spelled-prepend held item = elim (Option-cases held.section.heading) [
  | inl e ↦ rw (prepend, e) simp append_assoc
  | inr (text, e) ↦ elim (Bool-cases (is_blank text)) [
    | inl b ↦ rw (prepend, e, b) simp append_assoc
    | inr b ↦ rw (prepend, e, b) simp append_assoc
  ]
]

of_option : Option Candidate → List Candidate
of_option none = []
of_option (some item) = item ∷ []

spelled-held_before :
    (pending : Option Candidate) (item : Candidate)
    → spelled (held_before pending item ∷ []) ≡ spelled (of_option pending) ++ spelled (item ∷ [])
spelled-held_before none item = unfold held_before of_option spelled in refl
spelled-held_before (some held) item =
    unfold held_before of_option in rw spelled-prepend (spelled-append (held ∷ []) (item ∷ []))

spelled-kept :
    (state : Absorbed) → spelled (kept state) ≡ spelled state.0 ++ spelled (of_option state.1)
unfolding kept of_option spelled
spelled-kept (merged, none) = sym (append-nil _)
spelled-kept (merged, some pending) = spelled-append merged (pending ∷ [])

absorb_one-kept :
    (state : Absorbed) (item : Candidate)
    → spelled (kept (absorb_one state item))
      ≡ spelled state.0 ++ spelled (held_before state.1 item ∷ [])
unfolding absorb_one kept spelled
absorb_one-kept ([], pending) item = elim (Bool-cases (is_hollow (held_before pending item))) [
  | inr h ↦ rw h refl
  | inl h ↦ rw h refl
]
absorb_one-kept (x ∷ xs, pending) item = elim (Bool-cases (is_hollow (held_before pending item))) [
  | inr h ↦ rw h (spelled-append (x ∷ xs) _)
  | inl h ↦ rw h (spelled-extend_last x xs _)
]

spelled-absorb_one :
    (state : Absorbed) (item : Candidate)
    → spelled (kept (absorb_one state item)) ≡ spelled (kept state) ++ spelled (item ∷ [])
spelled-absorb_one state item =
    rw (absorb_one-kept state item, spelled-held_before, spelled-kept state) simp append_assoc

spelled-absorb_all :
    (state : Absorbed) (items : List Candidate)
    → spelled (kept (absorb_all state items)) ≡ spelled (kept state) ++ spelled items
unfolding absorb_all spelled
spelled-absorb_all state [] = sym (append-nil _)
spelled-absorb_all state (item ∷ rest) =
    rw
      (
        spelled-absorb_all (absorb_one state item) rest,
        spelled-absorb_one,
        append_assoc,
        ← spelled-append,
      )
      refl

spelled-absorb : (items : List Candidate) → spelled (absorb_hollow_sections items) ≡ spelled items
unfolding absorb_hollow_sections kept spelled
spelled-absorb items = elim (Bool-cases (ltb (length items) 2)) [
  | inl h ↦ rw h refl
  | inr h ↦ rw h (spelled-absorb_all ([], none) items)
]

spelled_cong :
    (item : Candidate) (xs ys : List Candidate)
    → spelled xs ≡ spelled ys
    → spelled (item ∷ xs) ≡ spelled (item ∷ ys)
unfolding spelled
spelled_cong item xs ys e = ap (λ t. gap ++ (item.section.body_md ++ t)) e

spelled-extend :
    (last item : Candidate) (rest : List Candidate)
    → spelled (extend last item ∷ rest) ≡ spelled (last ∷ item ∷ rest)
unfolding spelled extend
spelled-extend last item rest = simp append_assoc

spelled-group_from :
    (last : Candidate) (rest : List Candidate)
    → spelled (group_from last rest) ≡ spelled (last ∷ rest)
unfolding group_from
spelled-group_from last [] = refl
spelled-group_from last (item ∷ rest) = elim (Bool-cases (same_owner item last)) [
  | inl h ↦ rw (h, spelled-group_from (extend last item) rest) (spelled-extend last item rest)
  | inr h ↦ rw h (spelled_cong last _ _ (spelled-group_from item rest))
]

spelled-group : (items : List Candidate) → spelled (group items) ≡ spelled items
unfolding group
spelled-group [] = refl
spelled-group (item ∷ rest) = spelled-group_from item rest

spelled-number_from :
    (n : ℕ) (items : List Candidate) → spelled (number_from n items) ≡ spelled items
unfolding number_from spelled
spelled-number_from n [] = refl
spelled-number_from n (item ∷ rest) = simp (spelled-number_from (n + 1) rest)

joined-spelled : (items : List Candidate) → joined items ≡ drop 2 (spelled items)
unfolding spelled drop join
joined-spelled [] = refl
joined-spelled (item ∷ rest) = ap (drop 2) (sym (spelled-joined item rest))

-- When a department is found for a section that is left after the hollow ones joined their
-- neighbours, the candidates' bodies, with a blank line between them, spell the sections' bodies with a
-- blank line between them.
pub finalize-joined :
    (title markdown : Text) (whole : Assignment) (sections : List Candidate)
    → any has_owner (absorb_hollow_sections sections) ≡ true
    → joined (finalize title markdown whole sections) ≡ joined sections
unfolding finalize
finalize-joined title markdown whole sections h =
    rw
      (
        h,
        joined-spelled,
        joined-spelled sections,
        spelled-number_from,
        spelled-group,
        spelled-absorb,
      )
      refl
