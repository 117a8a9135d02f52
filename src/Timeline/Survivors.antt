-- ===== src/Timeline/Survivors.antt =====
-- Which passages the resolved conflicts leave: src/domain/conflict_decisions.py.
use qnsc_kb_backend.Prelude.{
  ℕ, zero, suc, ◌<◌, String, ◌≡◌, refl, ◌≢◌, ◌⊎◌, inl, inr, Bool, true, false, not, ◌&&◌, ◌||◌,
  some, List, [], ◌∷◌, ◌++◌, Memᴰ, arith, ltb, Bool-cases, Option-cases, length, Memᴰ-filter,
  filter_of_Memᴰ, ◌==◌, nat_eq, string_eq, option_eq, not-Memᴰ-nil, elem, elem-Memᴰ, eq_iff,
}
use qnsc_kb_backend.Timeline.{
  Passage, Decision, id_text, losers, superseded_article_ids, drop_superseded, present_ids,
  apply_conflict_decisions,
}

losers-Memᴰ :
    (present : List String) (d : Decision) (id : String)
    → Memᴰ id (losers present d)
    → Memᴰ d.1 present × Memᴰ id d.0 × (id ≢ d.1)
unfolding losers
losers-Memᴰ present d id m = elim (Bool-cases (elem d.1 present)) [
  | inl e ↦
      let (k, t) = Memᴰ-filter (λ j. not (j == d.1) && elem j present) d.0 (rw (e, losers) at m) in
      (elem-Memᴰ d.1 present e, k, ground (arith, eq_iff id d.1))
  | inr e ↦ absurd (not-Memᴰ-nil (rw (e, losers) at m))
]

-- `Memᴰ` of an appended list, on either side.
Memᴰ-append : {A : Type 0} {a : A} (xs ys : List A) → Memᴰ a (xs ++ ys) → Memᴰ a xs ⊎ Memᴰ a ys
Memᴰ-append [] ys m = inr m
Memᴰ-append (x ∷ xs) ys (Memᴰ.head q) = inl (Memᴰ.head q)
Memᴰ-append (x ∷ xs) ys (Memᴰ.tail m) = elim (Memᴰ-append xs ys m) [
  | inl k ↦ inl (Memᴰ.tail k)
  | inr k ↦ inr k
]

superseded-Memᴰ :
    (present : List String) (decisions : List Decision) (id : String)
    → Memᴰ id (superseded_article_ids present decisions)
    → (d : Decision) × Memᴰ d decisions × Memᴰ d.1 present × Memᴰ id d.0 × (id ≢ d.1)
unfolding superseded_article_ids
superseded-Memᴰ present [] id m = elim m [ ]
superseded-Memᴰ present (d ∷ rest) id m =
    elim (Memᴰ-append (losers present d) (superseded_article_ids present rest) m) [
      | inl k ↦ let (p, i, n) = losers-Memᴰ present d id k in (d, Memᴰ.head refl, p, i, n)
      | inr k ↦ let (c, q, p, i, n) = superseded-Memᴰ present rest id k in (c, Memᴰ.tail q, p, i, n)
    ]

present_ids-Memᴰ :
    (results : List Passage) (id : String)
    → Memᴰ id (present_ids results)
    → (item : Passage) × Memᴰ item results × (item.article_id ≡ some id)
unfolding present_ids
present_ids-Memᴰ [] id m = elim m [ ]
present_ids-Memᴰ (item ∷ rest) id m = elim (Option-cases item.article_id) [
  | inl n ↦
      let (t, k, e) = present_ids-Memᴰ rest id (rw (n, present_ids) at m) in (t, Memᴰ.tail k, e)
  | inr q ↦ elim (Bool-cases (q.0 == "" || elem q.0 (present_ids rest))) [
    | inl h ↦ let (t, k, e) = present_ids-Memᴰ rest id (rw (q.1, h) at m) in (t, Memᴰ.tail k, e)
    | inr h ↦
        let m2 : Memᴰ id (q.0 ∷ present_ids rest) = rw (q.1, h) at m in
        elim m2 [
          | Memᴰ.head s ↦ (item, Memᴰ.head refl, rw s q.1)
          | Memᴰ.tail k ↦ let (t, r, e) = present_ids-Memᴰ rest id k in (t, Memᴰ.tail r, e)
        ]
  ]
]

dropped : List Passage → List Decision → Passage → Bool
dropped results decisions item =
    elem (id_text item) (superseded_article_ids (present_ids results) decisions)

drops_less :
    (decisions : List Decision) (results : List Passage) (item : Passage)
    → Memᴰ item results
    → dropped results decisions item ≡ false
    → Memᴰ item (apply_conflict_decisions (some decisions) results)
unfolding apply_conflict_decisions drop_superseded dropped
drops_less decisions results item m h = elim (Bool-cases (ltb (length (present_ids results)) 2)) [
  | inl e ↦ rw e m
  | inr e ↦ rw e (
      filter_of_Memᴰ
        (λ t. not (elem (id_text t) (superseded_article_ids (present_ids results) decisions)))
        results m (rw h refl))
]

dropped-loses :
    (decisions : List Decision) (results : List Passage) (item : Passage) (id : String)
    → item.article_id ≡ some id
    → dropped results decisions item ≡ true
    → (d : Decision) × (winner : Passage) × Memᴰ d decisions
      × Memᴰ id d.0
      × (id ≢ d.1)
      × Memᴰ winner results
      × (winner.article_id ≡ some d.1)
unfolding dropped id_text
dropped-loses decisions results item id e h =
    let here : id_text item ≡ id = simp (e, id_text) in
    let present = present_ids results in
    let m = elem-Memᴰ (id_text item) (superseded_article_ids present decisions) h in
    let (d, k, p, i, n) = superseded-Memᴰ present decisions id (rw here at m) in
    let (winner, r, w) = present_ids-Memᴰ results d.1 p in (d, winner, k, i, n, r, w)

module _ (decisions : List Decision) (results : List Passage) where
  -- A passage that the resolved conflicts take from an answer belongs to an article that lost a
  -- conflict to another one, and a passage of the article kept is among those retrieved.
  pub dropped_only_beside_winner :
      (item : Passage) (id : String)
      → item.article_id ≡ some id
      → Memᴰ item results
      → ¬ Memᴰ item (apply_conflict_decisions (some decisions) results)
      → (d : Decision) × (winner : Passage) × Memᴰ d decisions
        × Memᴰ id d.0
        × (id ≢ d.1)
        × Memᴰ winner results
        × (winner.article_id ≡ some d.1)
  dropped_only_beside_winner item id e m gone = elim (Bool-cases (dropped results decisions item)) [
    | inl h ↦ dropped-loses decisions results item id e h
    | inr h ↦ absurd (gone (drops_less decisions results item m h))
  ]

  module _ (rank : String → ℕ) where
    survivor :
        (fuel : ℕ) (item : Passage) (id : String)
        → ((d : Decision) (loser : String)
            → Memᴰ d decisions
            → Memᴰ loser d.0
            → loser ≢ d.1
            → rank d.1 < rank loser)
        → item.article_id ≡ some id
        → Memᴰ item results
        → rank id < fuel
        → (kept : Passage) × Memᴰ kept (apply_conflict_decisions (some decisions) results)
    survivor zero item id better e m h = absurd (omega (arith, h))
    survivor (suc fuel) item id better e m h = elim (Bool-cases (dropped results decisions item)) [
      | inr k ↦ (item, drops_less decisions results item m k)
      | inl k ↦
          let (d, winner, q, i, n, r, w) = dropped-loses decisions results item id e k in
          survivor fuel winner d.1 better w r (omega (arith, better d id q i n, h))
    ]

    -- When no decision, or chain of them, comes round to an article that it put aside, so that the
    -- kept article of each has a lower rank than the others, an answer never loses all its passages.
    pub some_passage_survives :
        (item : Passage) (id : String)
        → ((d : Decision) (loser : String)
            → Memᴰ d decisions
            → Memᴰ loser d.0
            → loser ≢ d.1
            → rank d.1 < rank loser)
        → item.article_id ≡ some id
        → Memᴰ item results
        → (kept : Passage) × Memᴰ kept (apply_conflict_decisions (some decisions) results)
    some_passage_survives item id better e m =
        survivor (suc (rank id)) item id better e m (omega arith)
