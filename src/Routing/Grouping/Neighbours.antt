-- ===== src/Routing/Grouping/Neighbours.antt =====
-- The candidates that the grouping of src/domain/department_routing.py leaves side by side.
use qnsc_kb_backend.Prelude.{
  ℕ, ◌+◌, ◌≡◌, refl, sym, ◌∙◌, ◌≢◌, inl, inr, false, List, [], ◌∷◌, Bool-cases, any, nat_eq,
  string_eq, option_eq, option_beq_iff,
}
use qnsc_kb_backend.Text.{Text}
use qnsc_kb_backend.Routing.{Assignment, Candidate}
use qnsc_kb_backend.Routing.Grouping.{
  extend, absorb_hollow_sections, group_from, group, number_from, has_owner, same_owner, primary_id,
  finalize, whole_document,
}

-- The positions count up from `n`, and no two neighbours belong to the same department or both to
-- none.
unfoldable pub IsSequence : ℕ → List Candidate → Type 0
IsSequence n [] = Unit
IsSequence n (x ∷ []) = x.section.position ≡ n
IsSequence n (x ∷ y ∷ rest) =
    (x.section.position ≡ n) × (primary_id y ≢ primary_id x) × IsSequence (n + 1) (y ∷ rest)

same_owner-eq : (x y : Candidate) → same_owner y x ≡ false → primary_id y ≢ primary_id x
unfolding same_owner
same_owner-eq x y h e = absurd (cc (h, (option_beq_iff (primary_id y) (primary_id x)).1 e))

-- A list of candidates that starts with the department of `last` and is numbered from `n`.
Continues : Candidate → ℕ → List Candidate → Type 0
unfolding IsSequence
Continues last n items =
    (head : Candidate) × (tail : List Candidate) × (items ≡ head ∷ tail)
    × (primary_id head ≡ primary_id last)
    × IsSequence n (head ∷ tail)

-- last with the position `n`
numbered : ℕ → Candidate → Candidate
numbered n item = record item { section = record item.section { position = n } }

apart :
    (last item head : Candidate)
    → same_owner item last ≡ false
    → primary_id head ≡ primary_id item
    → primary_id head ≢ primary_id last
apart last item head h p e = same_owner-eq last item h (sym p ∙ e)

IsSequence-cons :
    (n : ℕ) (x : Candidate) {head : Candidate} {tail items : List Candidate}
    → items ≡ head ∷ tail
    → x.section.position ≡ n
    → primary_id head ≢ primary_id x
    → IsSequence (n + 1) (head ∷ tail)
    → IsSequence n (x ∷ items)
unfolding IsSequence
IsSequence-cons n x e p d s = rw e (p, d, s)

group_from-Continues :
    (rest : List Candidate) (last : Candidate) (n : ℕ)
    → Continues last n (number_from n (group_from last rest))
unfolding group_from number_from Continues IsSequence primary_id extend numbered
group_from-Continues [] last n = (_, _, refl, refl, refl)
group_from-Continues (item ∷ rest) last n = elim (Bool-cases (same_owner item last)) [
  | inl h ↦ rw h (group_from-Continues rest (extend last item) n)
  | inr h ↦
      let (head, tail, e, p, s) = group_from-Continues rest item (n + 1) in
      rw h
        (_, _, refl, refl, IsSequence-cons n (numbered n last) e refl (apart last item head h p) s)
]

group-IsSequence : (items : List Candidate) → IsSequence 1 (number_from 1 (group items))
unfolding group number_from IsSequence Continues
group-IsSequence [] = tt
group-IsSequence (item ∷ rest) =
    let (head, tail, e, p, s) = group_from-Continues rest item 1 in rw e s

-- The candidates are numbered 1, 2, ... in order, and no two neighbours belong to the same department
-- or both to none.
pub finalize-IsSequence :
    (title markdown : Text) (whole : Assignment) (sections : List Candidate)
    → IsSequence 1 (finalize title markdown whole sections)
unfolding finalize IsSequence whole_document
finalize-IsSequence title markdown whole sections =
    elim (Bool-cases (any has_owner (absorb_hollow_sections sections))) [
      | inl h ↦ rw h (group-IsSequence (absorb_hollow_sections sections))
      | inr h ↦ rw h refl
    ]
