-- ===== src/Governance/Candidates/Positions.antt =====
-- The positions of a document's candidates: `review_candidate` of src/domain/governance.py and the
-- `UniqueConstraint` of src/models/governance.py.
use qnsc_kb_backend.Prelude.{
  length-filter-append, ℕ, ◌+◌, ◌-◌, ◌≤◌, ◌≡◌, ◌⊎◌, inl, inr, Bool, true, false, ◌&&◌, List, [],
  ◌∷◌, ◌++◌, map, arith, ltb, leb, nat_beq, nat_beq_iff, if◌then◌else◌, leb→le, Bool-cases, length,
  filter, nat_eq, string_eq, option_eq,
}
use qnsc_kb_backend.Governance.Candidates.{
  discarded, is_active, DraftCandidate, update, make_room, shifted,
}

abbrev pub occupies : ℕ → DraftCandidate → Bool
occupies p c = is_active c.status && nat_beq c.position p

-- How many active candidates have a position.
abbrev pub occupancy : ℕ → List DraftCandidate → ℕ
occupancy p rows = length (filter (occupies p) rows)

abbrev pub IsSpread : List DraftCandidate → Type 0
IsSpread rows = (p : ℕ) → occupancy p rows ≤ 1

-- Rows that pass after a change were rows that pass another test before it.
count-map :
    (q q' : DraftCandidate → Bool) (f : DraftCandidate → DraftCandidate)
    → ((c : DraftCandidate) → q (f c) ≡ true → q' c ≡ true)
    → (rows : List DraftCandidate) → length (filter q (map f rows)) ≤ length (filter q' rows)
count-map q q' f k [] = omega arith
count-map q q' f k (c ∷ rows) =
    let rest = count-map q q' f k rows in
    elim (Bool-cases (q (f c))) [
      | inl e ↦ rw (e, k c e) (omega arith)
      | inr e ↦ elim (Bool-cases (q' c)) [
        | inl d ↦ rw (e, d) (omega arith)
        | inr d ↦ rw (e, d) (omega arith)
      ]
    ]

-- A change that leaves a row where it is, active or not as before or discarded.
abbrev pub IsInPlace : (DraftCandidate → DraftCandidate) → Type 0
IsInPlace f =
    (c : DraftCandidate)
    → ((f c).position ≡ c.position) × (((f c).status ≡ c.status) ⊎ ((f c).status ≡ discarded))

kept-occupies :
    (p : ℕ) (c d : DraftCandidate)
    → d.position ≡ c.position
    → (d.status ≡ c.status) ⊎ (d.status ≡ discarded)
    → occupies p d ≡ true
    → occupies p c ≡ true
kept-occupies p c d e (inl s) h = rw (← e, ← s) h
kept-occupies p c d e (inr s) h = absurd (cc (rw (s) at h))

pub update-occupancy :
    (id : ℕ) (f : DraftCandidate → DraftCandidate) (rows : List DraftCandidate)
    → IsInPlace f
    → (p : ℕ) → occupancy p (update id f rows) ≤ occupancy p rows
unfolding update
update-occupancy id f rows k p =
    count-map (occupies p) (occupies p) (λ c. if nat_beq c.id id then f c else c)
      (λ c h. elim (Bool-cases (nat_beq c.id id)) [
        | inl e ↦ kept-occupies p c (f c) (k c).0 (k c).1 (rw (e) at h)
        | inr e ↦ rw (e) at h
      ])
      rows

pub update-IsSpread :
    (id : ℕ) (f : DraftCandidate → DraftCandidate) (rows : List DraftCandidate)
    → IsInPlace f
    → IsSpread rows
    → IsSpread (update id f rows)
update-IsSpread id f rows k s p = omega (arith, update-occupancy id f rows k p, s p)

shifted-below :
    (q p : ℕ) (c : DraftCandidate) → p ≤ q → occupies p (shifted q c) ≡ true → occupies p c ≡ true
unfolding shifted
shifted-below q p c b h = elim (Bool-cases (is_active c.status && ltb q c.position)) [
  | inl e ↦
      let k : occupies p (record c { position = c.position + 1 }) ≡ true = rw (e, shifted) at h in
      ground arith
  | inr e ↦ rw (e, shifted) at h
]

shifted-at : (q : ℕ) (c : DraftCandidate) → occupies (q + 1) (shifted q c) ≡ true → false ≡ true
unfolding shifted
shifted-at q c h = elim (Bool-cases (is_active c.status && ltb q c.position)) [
  | inl e ↦
      let k : occupies (q + 1) (record c { position = c.position + 1 }) ≡ true =
        rw (e, shifted) at h in
      ground arith
  | inr e ↦ let k : occupies (q + 1) c ≡ true = rw (e, shifted) at h in ground arith
]

shifted-above :
    (q p : ℕ) (c : DraftCandidate)
    → q + 1 ≤ p
    → occupies (p + 1) (shifted q c) ≡ true
    → occupies p c ≡ true
unfolding shifted
shifted-above q p c b h = elim (Bool-cases (is_active c.status && ltb q c.position)) [
  | inl e ↦
      let k : occupies (p + 1) (record c { position = c.position + 1 }) ≡ true =
        rw (e, shifted) at h in
      ground arith
  | inr e ↦ let k : occupies (p + 1) c ≡ true = rw (e, shifted) at h in ground arith
]

-- What making room leaves at a position before, at and after the free one.
make_room-below :
    (q p : ℕ) (rows : List DraftCandidate)
    → p ≤ q
    → occupancy p (make_room q rows) ≤ occupancy p rows
unfolding make_room
make_room-below q p rows b =
    count-map (occupies p) (occupies p) (shifted q) (λ c h. shifted-below q p c b h) rows

make_room-above :
    (q p : ℕ) (rows : List DraftCandidate)
    → q + 1 ≤ p
    → occupancy (p + 1) (make_room q rows) ≤ occupancy p rows
unfolding make_room
make_room-above q p rows b =
    count-map (occupies (p + 1)) (occupies p) (shifted q) (λ c h. shifted-above q p c b h) rows

none-counted : (rows : List DraftCandidate) → length (filter (λ _. false) rows) ≤ 0
none-counted [] = omega arith
none-counted (c ∷ rows) = none-counted rows

pub make_room-at : (q : ℕ) (rows : List DraftCandidate) → occupancy (q + 1) (make_room q rows) ≤ 0
unfolding make_room
make_room-at q rows = omega (
  arith,
  count-map (occupies (q + 1)) (λ _. false) (shifted q) (λ c h. shifted-at q c h) rows,
  none-counted rows,
)

pub make_room-IsSpread :
    (q : ℕ) (rows : List DraftCandidate) → IsSpread rows → IsSpread (make_room q rows)
make_room-IsSpread q rows s p = elim (Bool-cases (leb p q)) [
  | inl e ↦ omega (arith, make_room-below q p rows (leb→le p q e), s p)
  | inr e ↦ elim (Bool-cases (nat_beq p (q + 1))) [
    | inl d ↦
        let here : p ≡ q + 1 = (nat_beq_iff p (q + 1)).0 d in
        rw (here) (omega (arith, make_room-at q rows))
    | inr d ↦
        let here : (p - 1) + 1 ≡ p = ground arith in
        let k : q + 1 ≤ p - 1 = ground arith in
        let w : occupancy p (make_room q rows) ≤ occupancy (p - 1) rows =
          rw (here) at (make_room-above q (p - 1) rows k) in
        omega (arith, w, s (p - 1))
  ]
]

-- A row at a free position joins the others.
pub append-IsSpread :
    (rows : List DraftCandidate) (c : DraftCandidate)
    → IsSpread rows
    → occupancy c.position rows ≤ 0
    → IsSpread (rows ++ c ∷ [])
append-IsSpread rows c s f p = elim (Bool-cases (occupies p c)) [
  | inl o ↦
      let here : p ≡ c.position = ground arith in
      rw (length-filter-append (occupies p) rows (c ∷ []), o, here) (omega (arith, f))
  | inr o ↦ rw (length-filter-append (occupies p) rows (c ∷ []), o) (omega (arith, s p))
]
