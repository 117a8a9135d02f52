-- ===== src/Timeline/Supersession.antt =====
-- The end of a superseded article's validity: `with_supersession` of src/domain/temporal.py.
use qnsc_kb_backend.Prelude.{
  ℕ, zero, suc, ◌≤◌, ◌<◌, String, ◌≡◌, refl, sym, ◌∙◌, ◌≢◌, inl, inr, true, false, some, List, [],
  ◌∷◌, Memᴰ, arith, ltb, ltb→lt, lt→ltb, Bool-cases, Option-cases, get_or, ◌==◌, nat_eq, string_eq,
  option_eq, lookup, insert, lookup-insert, eq_iff, Each, Each-Memᴰ,
}
use qnsc_kb_backend.Timeline.{
  Validity, Decision, expired_before, bucket, validity_of, ended, end_losers, winner_issue,
  day_before, with_supersession, out_of_force,
}

module _ (id : String) where
  insert-issue :
      (j : String) (v : Validity) (out : List (String × Validity))
      → (v.issue ≡ (validity_of out j).issue)
      → (validity_of (insert j v out) id).issue ≡ (validity_of out id).issue
  unfolding validity_of
  insert-issue j v out h = elim (Bool-cases (j == id)) [
    | inl e ↦ let s : j ≡ id = (eq_iff j id).0 e in rw (lookup-insert j id v out, e, ← s) h
    | inr e ↦ rw (lookup-insert j id v out, e) refl
  ]

  ended-issue : (end : ℕ) (v : Validity) → (ended end v).issue ≡ v.issue
  unfolding ended
  ended-issue end v = ground arith

  end_losers-issue :
      (kept : String) (end : ℕ) (ids : List String) (out : List (String × Validity))
      → (validity_of (end_losers kept end ids out) id).issue ≡ (validity_of out id).issue
  unfolding end_losers
  end_losers-issue kept end [] out = refl
  end_losers-issue kept end (j ∷ rest) out = elim (Bool-cases (j == kept)) [
    | inl e ↦ rw e (end_losers-issue kept end rest out)
    | inr e ↦ rw e (
        end_losers-issue kept end rest (insert j (ended end (validity_of out j)) out)
        ∙ insert-issue j (ended end (validity_of out j)) out (ended-issue end (validity_of out j)))
  ]

-- An article whose validity ends before the day.
module _ (on : ℕ) where
  ended-expired :
      (end : ℕ) (v : Validity) → expired_before v on ≡ true → expired_before (ended end v) on ≡ true
  unfolding ended expired_before
  ended-expired end v h = elim (Option-cases v.expiry) [
    | inl n ↦ absurd (cc (rw (n, expired_before) at h))
    | inr q ↦ elim (Bool-cases (ltb end q.0)) [
      | inl e ↦
          let k : ltb q.0 on ≡ true = rw (q.1, expired_before) at h in
          simp (
            q.1,
            e,
            ended,
            expired_before,
            lt→ltb end on (omega (arith, ltb→lt end q.0 e, ltb→lt q.0 on k)),
          )
      | inr e ↦ simp (q.1, e, ended, expired_before, (rw (q.1, expired_before) at h))
    ]
  ]

  ended-expires : (end : ℕ) (v : Validity) → end < on → expired_before (ended end v) on ≡ true
  unfolding ended expired_before
  ended-expires end v h = elim (Option-cases v.expiry) [
    | inl n ↦ simp (n, ended, expired_before, lt→ltb end on h)
    | inr q ↦ elim (Bool-cases (ltb end q.0)) [
      | inl e ↦ simp (q.1, e, ended, expired_before, lt→ltb end on h)
      | inr e ↦ let k : ltb q.0 on ≡ true = ground arith in simp (q.1, e, ended, expired_before, k)
    ]
  ]

  module _ (id : String) where
    end_loser-expired :
        (j : String) (end : ℕ) (out : List (String × Validity))
        → expired_before (validity_of out id) on ≡ true
        → expired_before (validity_of (insert j (ended end (validity_of out j)) out) id) on ≡ true
    unfolding validity_of
    end_loser-expired j end out h = elim (Bool-cases (j == id)) [
      | inl e ↦
          let s : j ≡ id = (eq_iff j id).0 e in
          let k = ended-expired end (validity_of out id) h in
          rw (lookup-insert j id (ended end (validity_of out j)) out, e, s) k
      | inr e ↦ rw (lookup-insert j id (ended end (validity_of out j)) out, e) h
    ]

    end_loser-expires :
        (end : ℕ) (out : List (String × Validity))
        → end < on
        → expired_before (validity_of (insert id (ended end (validity_of out id)) out) id) on ≡ true
    unfolding validity_of
    end_loser-expires end out h =
        let e : (id == id) ≡ true = (eq_iff id id).1 refl in
        rw (lookup-insert id id (ended end (validity_of out id)) out, e)
          (ended-expires end (validity_of out id) h)

    end_losers-expired :
        (kept : String) (end : ℕ) (ids : List String) (out : List (String × Validity))
        → expired_before (validity_of out id) on ≡ true
        → expired_before (validity_of (end_losers kept end ids out) id) on ≡ true
    unfolding end_losers
    end_losers-expired kept end [] out h = h
    end_losers-expired kept end (j ∷ rest) out h = elim (Bool-cases (j == kept)) [
      | inl e ↦ rw e (end_losers-expired kept end rest out h)
      | inr e ↦ rw e (
          end_losers-expired kept end rest (insert j (ended end (validity_of out j)) out)
            (end_loser-expired j end out h))
    ]

    end_losers-expires :
        (kept : String) (end : ℕ) (ids : List String) (out : List (String × Validity))
        → Memᴰ id ids
        → id ≢ kept
        → end < on
        → expired_before (validity_of (end_losers kept end ids out) id) on ≡ true
    unfolding end_losers
    end_losers-expires kept end [] out m d h = elim m [ ]
    end_losers-expires kept end (j ∷ rest) out (Memᴰ.head q) d h =
        let e : (j == kept) ≡ false = ground (arith, eq_iff j kept) in
        rw (e, ← q)
          (end_losers-expired kept end rest (insert id (ended end (validity_of out id)) out)
            (end_loser-expires end out h))
    end_losers-expires kept end (j ∷ rest) out (Memᴰ.tail m) d h = elim (Bool-cases (j == kept)) [
      | inl e ↦ rw e (end_losers-expires kept end rest out m d h)
      | inr e ↦
          rw e
            (end_losers-expires kept end rest (insert j (ended end (validity_of out j)) out) m d h)
    ]

    with_supersession-expired :
        (decisions : List Decision) (out after : List (String × Validity))
        → expired_before (validity_of out id) on ≡ true
        → with_supersession out decisions ≡ some after
        → expired_before (validity_of after id) on ≡ true
    unfolding with_supersession
    with_supersession-expired [] out after h r = let same : out ≡ after = cc r in rw (← same) h
    with_supersession-expired (d ∷ rest) out after h r =
        elim (Option-cases (winner_issue out d.1)) [
          | inl n ↦ with_supersession-expired rest out after h (rw (with_supersession, n) at r)
          | inr (issue, q) ↦ elim (Option-cases (day_before issue)) [
            | inl n ↦ absurd (cc (rw (with_supersession, q, n) at r))
            | inr (end, e) ↦
                with_supersession-expired rest (end_losers d.1 end d.0 out) after
                  (end_losers-expired d.1 end d.0 out h) (rw (with_supersession, q, e) at r)
          ]
        ]

day_before_lem : (issue : ℕ) → 1 < issue → (end : ℕ) × (day_before issue ≡ some end) × (end < issue)
unfolding day_before
day_before_lem zero h = absurd (omega (arith, h))
day_before_lem (suc zero) h = absurd (omega (arith, h))
day_before_lem (suc (suc n)) h = (suc n, refl, omega arith)

winner_issue_lem :
    (out : List (String × Validity)) (kept : String)
    → winner_issue out kept ≡ (validity_of out kept).issue
unfolding winner_issue validity_of
winner_issue_lem out kept = elim (Option-cases (lookup kept out)) [
  | inl n ↦ rw (winner_issue, n, get_or) refl
  | inr (v, q) ↦ rw (winner_issue, q, get_or) refl
]

-- The winners were issued after the first day of the calendar, where their issue is known.
abbrev pub IsLate : List (String × Validity) → Decision → Type 0
IsLate out d = (issue : ℕ) → (validity_of out d.1).issue ≡ some issue → 1 < issue

end_losers-IsLate :
    (kept : String) (end : ℕ) (ids : List String) (out : List (String × Validity))
    (decisions : List Decision)
    → Each (IsLate out) decisions
    → Each (IsLate (end_losers kept end ids out)) decisions
end_losers-IsLate kept end ids out [] h = tt
end_losers-IsLate kept end ids out (d ∷ rest) (h, hs) = (
  λ issue e. h issue (sym (end_losers-issue d.1 kept end ids out) ∙ e),
  end_losers-IsLate kept end ids out rest hs,
)

with_supersession_total :
    (decisions : List Decision) (out : List (String × Validity))
    → Each (IsLate out) decisions
    → (after : List (String × Validity)) × (with_supersession out decisions ≡ some after)
unfolding with_supersession
with_supersession_total [] out h = (out, refl)
with_supersession_total (d ∷ rest) out (h, hs) = elim (Option-cases (winner_issue out d.1)) [
  | inl n ↦ rw (with_supersession, n) (with_supersession_total rest out hs)
  | inr (issue, q) ↦
      let (end, e, _) = day_before_lem issue (h issue (sym (winner_issue_lem out d.1) ∙ q)) in
      rw (with_supersession, q, e)
        (with_supersession_total rest (end_losers d.1 end d.0 out)
          (end_losers-IsLate d.1 end d.0 out rest hs))
]

superseded-expired :
    (on : ℕ) (id : String) (decisions : List Decision) (d : Decision) (issue : ℕ)
    (out after : List (String × Validity))
    → Memᴰ d decisions
    → Memᴰ id d.0
    → id ≢ d.1
    → (validity_of out d.1).issue ≡ some issue
    → 1 < issue
    → issue ≤ on
    → with_supersession out decisions ≡ some after
    → expired_before (validity_of after id) on ≡ true
unfolding with_supersession
superseded-expired on id [] d issue out after m k n w p h r = elim m [ ]
superseded-expired on id (c ∷ rest) d issue out after (Memᴰ.head q) k n w p h r =
    let (end, e, before) = day_before_lem issue p in
    let f : winner_issue out c.1 ≡ some issue = winner_issue_lem out c.1 ∙ (rw (← q) w) in
    with_supersession-expired on id rest (end_losers c.1 end c.0 out) after
      (end_losers-expires on id c.1 end c.0 out (rw (← q) k) (rw (← q) n) (omega arith))
      (rw (with_supersession, f, e) at r)
superseded-expired on id (c ∷ rest) d issue out after (Memᴰ.tail m) k n w p h r =
    elim (Option-cases (winner_issue out c.1)) [
      | inl e ↦
          superseded-expired on id rest d issue out after m k n w p h
            (rw (with_supersession, e) at r)
      | inr (first, q) ↦ elim (Option-cases (day_before first)) [
        | inl e ↦ absurd (cc (rw (with_supersession, q, e) at r))
        | inr (end, e) ↦
            superseded-expired on id rest d issue (end_losers c.1 end c.0 out) after m k n
              (end_losers-issue d.1 c.1 end c.0 out ∙ w) p h (rw (with_supersession, q, e) at r)
      ]
    ]

bucket-expired : (v : Validity) (on : ℕ) → expired_before v on ≡ true → bucket v on ≡ out_of_force
unfolding bucket
bucket-expired v on h = elim (Option-cases v.expiry) [
  | inl n ↦ absurd (cc (rw (n, expired_before) at h))
  | inr q ↦ ground (arith, q.1, h)
]

-- Where the articles kept were issued after the first day of the calendar, or at unknown dates, no
-- subtraction overflows, and of the articles of a resolved conflict each but the one kept is out of
-- force on every day from the issue of the one kept on, if that is known, whatever the other decisions
-- are and in whatever order they come.
pub loser_is_out_of_force :
    (validity : List (String × Validity)) (decisions : List Decision) (d : Decision) (id : String)
    (issue on : ℕ)
    → Each (IsLate validity) decisions
    → Memᴰ d decisions
    → Memᴰ id d.0
    → id ≢ d.1
    → (validity_of validity d.1).issue ≡ some issue
    → issue ≤ on
    → (after : List (String × Validity)) × (with_supersession validity decisions ≡ some after)
      × (bucket (validity_of after id) on ≡ out_of_force)
loser_is_out_of_force validity decisions d id issue on late m k n w h =
    let (after, r) = with_supersession_total decisions validity late in
    let p = Each-Memᴰ (IsLate validity) decisions late m issue w in
    (
      after,
      r,
      bucket-expired (validity_of after id) on
          (superseded-expired on id decisions d issue validity after m k n w p h r),
    )
