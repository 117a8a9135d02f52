-- ===== src/Timeline/Examples.antt =====
-- Three versions of a policy, and the theorems on src/domain/temporal.py and
-- src/domain/conflict_decisions.py at them.
use qnsc_kb_backend.Prelude.{
  ℕ, ◌<◌, String, ◌≡◌, refl, sym, ◌∙◌, Each, ap, ◌≢◌, false, none, some, List, [], ◌∷◌, Memᴰ, arith,
  if◌then◌else◌, get_or, ◌==◌, nat_eq, string_eq, option_eq, not-Memᴰ-nil, eq_iff,
}
use qnsc_kb_backend.Timeline.{
  Passage, Validity, Decision, out_of_force, bucket, validity_of, with_supersession,
  apply_conflict_decisions,
}
use qnsc_kb_backend.Timeline.Supersession.{IsLate, loser_is_out_of_force}
use qnsc_kb_backend.Timeline.Survivors.{some_passage_survives}

abbrev passage : String → Passage
passage id = record { article_id = some id; content = "Leave policy" }

abbrev results : List Passage
results = passage "old" ∷ passage "undated" ∷ passage "new" ∷ []

abbrev validity : List (String × Validity)
validity =
    ("old", record { issue = some 100; expiry = none })
    ∷ ("new", record { issue = some 200; expiry = none })
    ∷ []

abbrev decision : Decision
decision = ("old" ∷ "new" ∷ [], "new")

abbrev decisions : List Decision
decisions = decision ∷ []

abbrev old_id : String
old_id = "old"

abbrev new_id : String
new_id = "new"

old-new : old_id ≢ new_id
old-new h = ground (arith, eq_iff old_id new_id)

new_issue : (validity_of validity new_id).issue ≡ some 200
unfolding validity_of
new_issue = refl

decisions-IsLate : Each (IsLate validity) decisions
decisions-IsLate =
    (λ issue e. let q : 200 ≡ issue = cc (sym new_issue ∙ e) in rw (← q) (omega arith), tt)

-- The first day of the calendar has none before it.
overflows :
    with_supersession (("new", record { issue = some 1; expiry = none }) ∷ []) decisions ≡ none
unfolding with_supersession
overflows = refl

loser_is_out_of_force_example :
    (after : List (String × Validity)) × (with_supersession validity decisions ≡ some after)
    × (bucket (validity_of after old_id) 250 ≡ out_of_force)
loser_is_out_of_force_example =
    loser_is_out_of_force validity decisions decision old_id 200 250 decisions-IsLate
      (Memᴰ.head refl) (Memᴰ.head refl) old-new new_issue (omega arith)

passages_differ : (a b : String) → (a == b) ≡ false → passage a ≢ passage b
passages_differ a b e h =
    let q : a ≡ b = ap (λ p. get_or p.article_id "") h in ground (arith, eq_iff a b)

old_is_gone : ¬ Memᴰ (passage old_id) (apply_conflict_decisions (some decisions) results)
unfolding apply_conflict_decisions
old_is_gone m = elim m [
  | Memᴰ.head q ↦ passages_differ old_id "undated" refl q
  | Memᴰ.tail k ↦ elim k [
    | Memᴰ.head q ↦ passages_differ old_id new_id refl q
    | Memᴰ.tail n ↦ not-Memᴰ-nil n
  ]
]

-- The newer, the lower.
abbrev age : String → ℕ
age id = if id == new_id then 0 else 1

newer_first :
    (d : Decision) (loser : String)
    → Memᴰ d decisions
    → Memᴰ loser d.0
    → loser ≢ d.1
    → age d.1 < age loser
newer_first d loser m k n = elim m [
  | Memᴰ.tail t ↦ absurd (not-Memᴰ-nil t)
  | Memᴰ.head q ↦
      let k2 : Memᴰ loser decision.0 = rw q at k in
      let n2 : loser ≢ new_id = rw q at n in
      elim k2 [
        | Memᴰ.head e ↦ rw (q, e) (omega arith)
        | Memᴰ.tail t ↦ elim t [
          | Memᴰ.head e ↦ absurd (n2 e)
          | Memᴰ.tail u ↦ absurd (not-Memᴰ-nil u)
        ]
      ]
]

some_passage_survives_example :
    (kept : Passage) × Memᴰ kept (apply_conflict_decisions (some decisions) results)
some_passage_survives_example =
    some_passage_survives decisions results age (passage old_id) old_id newer_first refl
      (Memᴰ.head refl)
