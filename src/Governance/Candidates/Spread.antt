-- ===== src/Governance/Candidates/Spread.antt =====
-- How `review_candidate` of src/domain/governance.py leaves the positions of the candidates.
use qnsc_kb_backend.Prelude.{
  length-filter-append, ℕ, ◌+◌, ◌≤◌, ◌≡◌, refl, ap, ◌∙◌, inl, inr, false, ◌||◌, Option, none, some,
  List, [], ◌∷◌, map, Memᴰ, arith, ltb, leb, nat_beq, nat_beq_iff, if◌then◌else◌, Bool-cases,
  Option-cases, length, take, filter, filter_of_Memᴰ, nat_eq, string_eq, option_eq,
}
use qnsc_kb_backend.Accounts.{User}
use qnsc_kb_backend.Governance.{Result, ok, Review}
use qnsc_kb_backend.Governance.Guards.{raise_if_ok, >>=-eq-ok, ok_eq}
use qnsc_kb_backend.Governance.Candidates.{
  discarded, is_active, DraftCandidate, Operation, rename, set_departments, discard, merge, split,
  unsupported, update, find_active, make_room, shifted, merged, merge_pair, left_half, right_half,
  split_rows, boundary_of, operate, review_candidate,
}
use qnsc_kb_backend.Governance.Candidates.Positions.{
  IsSpread, update-occupancy, update-IsSpread, make_room-at, make_room-IsSpread, append-IsSpread,
}

Memᴰ-map :
    {d : DraftCandidate} (f : DraftCandidate → DraftCandidate) (rows : List DraftCandidate)
    → Memᴰ d rows
    → Memᴰ (f d) (map f rows)
Memᴰ-map f [] m = elim m [ ]
Memᴰ-map f (c ∷ rows) (Memᴰ.head e) = Memᴰ.head (ap f e)
Memᴰ-map f (c ∷ rows) (Memᴰ.tail m) = Memᴰ.tail (Memᴰ-map f rows m)

Memᴰ-length : {d : DraftCandidate} (rows : List DraftCandidate) → Memᴰ d rows → 1 ≤ length rows
Memᴰ-length [] m = elim m [ ]
Memᴰ-length (c ∷ rows) m = omega arith

update-position :
    (id : ℕ) (f : DraftCandidate → DraftCandidate) (c : DraftCandidate)
    → (f c).position ≡ c.position
    → (if nat_beq c.id id then f c else c).position ≡ c.position
update-position id f c e = elim (Bool-cases (nat_beq c.id id)) [
  | inl d ↦ rw (d) e
  | inr d ↦ rw (d) refl
]

module _ (lstrip rstrip : List ℕ → List ℕ) (blank_line continued : List ℕ)
    (resolve : List ℕ → Result (List ℕ)) where
  merge_pair-IsSpread :
      (title : Option (List ℕ)) (first second : DraftCandidate) (rows : List DraftCandidate)
      → IsSpread rows
      → IsSpread (merge_pair lstrip rstrip blank_line continued resolve title first second rows)
  unfolding merge_pair merged
  merge_pair-IsSpread title first second rows s =
      update-IsSpread second.id (λ c. record c { status = discarded })
        (update first.id (λ c. merged lstrip rstrip blank_line continued resolve title c second)
          rows)
        (λ c. (refl, inr refl))
        (update-IsSpread first.id
          (λ c. merged lstrip rstrip blank_line continued resolve title c second) rows
          (λ c. (refl, inl refl)) s)

  split_rows-IsSpread :
      (new_id boundary : ℕ) (title : Option (List ℕ)) (c : DraftCandidate)
      (rows : List DraftCandidate)
      → IsSpread rows
      → IsSpread
          (split_rows lstrip rstrip blank_line continued resolve new_id boundary title c rows)
  unfolding split_rows left_half right_half
  split_rows-IsSpread new_id boundary title c rows s =
      append-IsSpread
        (update c.id (left_half lstrip rstrip blank_line continued resolve boundary)
          (make_room c.position rows))
        (right_half lstrip rstrip blank_line continued resolve new_id boundary title c)
        (update-IsSpread c.id (left_half lstrip rstrip blank_line continued resolve boundary)
          (make_room c.position rows) (λ d. (refl, inl refl))
          (make_room-IsSpread c.position rows s))
        (omega (
          arith,
          update-occupancy c.id (left_half lstrip rstrip blank_line continued resolve boundary)
              (make_room c.position rows) (λ d. (refl, inl refl)) (c.position + 1),
          make_room-at c.position rows,
        ))

  operate-IsSpread :
      (new_id : ℕ) (operation : Operation) (c : DraftCandidate) (rows rows' : List DraftCandidate)
      → IsSpread rows
      → operate lstrip rstrip blank_line continued resolve new_id operation c rows ≡ ok rows'
      → IsSpread rows'
  unfolding operate
  operate-IsSpread new_id unsupported c rows rows' s h = cc
  operate-IsSpread new_id discard c rows rows' s h =
      rw (← ok_eq _ rows' h)
        (update-IsSpread c.id (λ d. record d { status = discarded }) rows (λ d. (refl, inr refl)) s)
  operate-IsSpread new_id (set_departments ids) c rows rows' s h =
      let (departments, _, h1) = >>=-eq-ok (resolve ids) _ h in
      rw (← ok_eq _ rows' h1) (
        update-IsSpread c.id (λ d. record d { department_ids = departments }) rows
          (λ d. (refl, inl refl)) s)
  operate-IsSpread new_id (rename title) c rows rows' s h =
      elim (Bool-cases (nat_beq (length (lstrip (rstrip title))) 0)) [
        | inl e ↦ absurd (cc (rw (e, operate) at h))
        | inr e ↦ rw (← ok_eq _ rows' (rw (e, operate) at h)) (
            update-IsSpread c.id (λ d. record d { title = take 255 (lstrip (rstrip title)) }) rows
              (λ d. (refl, inl refl)) s)
      ]
  operate-IsSpread new_id (split split_at title) c rows rows' s h =
      elim (Bool-cases (
        ltb (boundary_of lstrip rstrip blank_line continued resolve split_at c) 1
        || leb (length c.body_md)
            (boundary_of lstrip rstrip blank_line continued resolve split_at c))) [
              | inl e ↦ absurd (cc (rw (e, operate) at h))
              | inr e ↦ rw (← ok_eq _ rows' (rw (e, operate) at h)) (
                  split_rows-IsSpread new_id
                    (boundary_of lstrip rstrip blank_line continued resolve split_at c) title c rows
                    s)
            ]
  operate-IsSpread new_id (merge none title) c rows rows' s h = cc
  operate-IsSpread new_id (merge (some id) title) c rows rows' s h =
      elim (Option-cases (find_active id rows)) [
        | inl n ↦ absurd (cc (rw (n, operate) at h))
        | inr o ↦ elim (Bool-cases (nat_beq o.0.id c.id)) [
          | inl e ↦ absurd (cc (rw (o.1, e, operate) at h))
          | inr e ↦ elim (Bool-cases (leb c.position o.0.position)) [
            | inl l ↦
                rw (← ok_eq _ rows' (rw (o.1, e, l, operate) at h))
                  (merge_pair-IsSpread title c o.0 rows s)
            | inr l ↦
                rw (← ok_eq _ rows' (rw (o.1, e, l, operate) at h))
                  (merge_pair-IsSpread title o.0 c rows s)
          ]
        ]
      ]

  -- Where no two active candidates of a document share a position, none do after an operation of the
  -- batch review that succeeds.
  pub review_candidate-IsSpread :
      (new_id : ℕ) (user : User) (operation : Operation) (candidate_id : ℕ) (r : Review)
      (rows rows' : List DraftCandidate)
      → IsSpread rows
      → review_candidate lstrip rstrip blank_line continued resolve new_id user operation
          candidate_id r rows
        ≡ ok rows'
      → IsSpread rows'
  unfolding review_candidate
  review_candidate-IsSpread new_id user operation candidate_id r rows rows' s h =
      let (_, h1) = raise_if_ok _ _ _ h in
      let (_, h2) = raise_if_ok _ _ _ h1 in
      let (_, h3) = raise_if_ok _ _ _ h2 in
      let (_, h4) = raise_if_ok _ _ _ h3 in
      elim (Option-cases (find_active candidate_id rows)) [
        | inl n ↦ absurd (cc (rw (n) at h4))
        | inr c ↦ operate-IsSpread new_id operation c.0 rows rows' s (rw (c.1) at h4)
      ]

  -- When a discarded or committed candidate stands right behind a candidate, a split of that
  -- candidate leaves two rows of the document at that position, which the table does not take.
  pub split_rows-collides :
      (new_id boundary : ℕ) (title : Option (List ℕ)) (c d : DraftCandidate)
      (rows : List DraftCandidate)
      → Memᴰ d rows
      → is_active d.status ≡ false
      → d.position ≡ c.position + 1
      → 2
        ≤ length (
            filter
              (λ x. nat_beq x.position (c.position + 1))
              (split_rows lstrip rstrip blank_line continued resolve new_id boundary title c rows))
  unfolding split_rows right_half left_half update make_room shifted
  split_rows-collides new_id boundary title c d rows m a e =
      let shrink = left_half lstrip rstrip blank_line continued resolve boundary in
      let f : DraftCandidate → DraftCandidate = λ x. if nat_beq x.id c.id then shrink x else x in
      let moved = shifted c.position d in
      let stays : moved ≡ d = rw (shifted, a) refl in
      let there : (f moved).position ≡ c.position + 1 =
        update-position c.id shrink moved refl ∙ (ap DraftCandidate.position stays ∙ e) in
      let listed = Memᴰ-map f (make_room c.position rows) (Memᴰ-map (shifted c.position) rows m) in
      let kept =
        filter_of_Memᴰ (λ x. nat_beq x.position (c.position + 1))
          (update c.id shrink (make_room c.position rows)) listed
          ((nat_beq_iff (f moved).position (c.position + 1)).1 there) in
      let last = (nat_beq_iff (c.position + 1) (c.position + 1)).1 refl in
      rw
        (
          length-filter-append (λ x. nat_beq x.position (c.position + 1))
              (update c.id shrink (make_room c.position rows))
              (right_half lstrip rstrip blank_line continued resolve new_id boundary title c ∷ []),
          last,
        )
        (omega (arith, Memᴰ-length _ kept))
