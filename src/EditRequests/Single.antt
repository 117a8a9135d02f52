-- ===== src/EditRequests/Single.antt =====
-- The open requests of a reader for an article: src/domain/article_edit_requests.py.
use qnsc_kb_backend.Prelude.{
  length-filter-append, ℕ, ◌≤◌, String, ◌≡◌, refl, inl, inr, Bool, ◌&&◌, Option, none, some, List,
  [], ◌∷◌, ◌++◌, map, arith, nat_beq, nat_beq_iff, if◌then◌else◌, Bool-cases, Option-cases,
  &&-eq-true, length, filter, nat_eq, string_eq, option_eq, find,
}
use qnsc_kb_backend.Accounts.{User, Article}
use qnsc_kb_backend.Governance.{ok}
use qnsc_kb_backend.Governance.Guards.{raise_if_ok, ok_eq}
use qnsc_kb_backend.EditRequests.{
  EditRequest, Outcome, is_open_for, record_request, create_article_edit_request,
}

abbrev pub open_count : ℕ → ℕ → List EditRequest → ℕ
open_count article_id user_id rows = length (filter (is_open_for article_id user_id) rows)

-- No reader has two open requests for one article.
abbrev pub IsSingle : List EditRequest → Type 0
IsSingle rows = (article_id user_id : ℕ) → open_count article_id user_id rows ≤ 1

count-map :
    (q : EditRequest → Bool) (f : EditRequest → EditRequest)
    → ((r : EditRequest) → q (f r) ≡ q r)
    → (rows : List EditRequest) → length (filter q (map f rows)) ≡ length (filter q rows)
count-map q f k [] = refl
count-map q f k (r ∷ rows) = elim (Bool-cases (q r)) [
  | inl e ↦ rw (k r, e) (omega (arith, count-map q f k rows))
  | inr e ↦ rw (k r, e) (count-map q f k rows)
]

find-none-count :
    (q : EditRequest → Bool) (rows : List EditRequest)
    → find q rows ≡ none
    → length (filter q rows) ≡ 0
find-none-count q [] h = refl
find-none-count q (r ∷ rows) h = elim (Bool-cases (q r)) [
  | inl e ↦ absurd (cc (rw (e) at h))
  | inr e ↦ rw (e) (find-none-count q rows (rw (e) at h))
]

retext-is_open_for :
    (a u id : ℕ) (text : String) (r : EditRequest)
    → is_open_for a u (if nat_beq r.id id then record r { request_text = text } else r)
      ≡ is_open_for a u r
unfolding is_open_for
retext-is_open_for a u id text r = elim (Bool-cases (nat_beq r.id id)) [
  | inl e ↦ rw (e) refl
  | inr e ↦ rw (e) refl
]

-- One more row is one more open request only for those whom it is from.
added-count :
    (rows : List EditRequest) (r : EditRequest) (a u : ℕ)
    → length (filter (is_open_for a u) rows) ≤ 1
    → open_count r.article_id r.requested_by rows ≡ 0
    → open_count a u (rows ++ r ∷ []) ≤ 1
unfolding is_open_for
added-count rows r a u s z = elim (Bool-cases (is_open_for a u r)) [
  | inr e ↦ rw (length-filter-append (is_open_for a u) rows (r ∷ []), e) (omega (arith, s))
  | inl e ↦
      let (b, _) = &&-eq-true (nat_beq r.article_id a && nat_beq r.requested_by u) _ e in
      let (c, d) = &&-eq-true (nat_beq r.article_id a) (nat_beq r.requested_by u) b in
      let at_a = (nat_beq_iff r.article_id a).0 c in
      let at_u = (nat_beq_iff r.requested_by u).0 d in
      let free : open_count a u rows ≡ 0 = rw (at_a, at_u) at z in
      rw (length-filter-append (is_open_for a u) rows (r ∷ []), e, free) (omega arith)
]

record_request-IsSingle :
    (new_id article_id : ℕ) (user : User) (article : Article) (text : String)
    (rows : List EditRequest)
    → IsSingle rows
    → IsSingle (record_request new_id article_id user article text rows).0
unfolding record_request
record_request-IsSingle new_id article_id user article text rows s a u =
    elim (Option-cases (find (is_open_for article_id user.id) rows)) [
      | inr q ↦
          rw
            (
              record_request,
              q.1,
              count-map (is_open_for a u)
                  (λ r. if nat_beq r.id q.0.id then record r { request_text = text } else r)
                  (retext-is_open_for a u q.0.id text) rows,
            )
            (s a u)
      | inl n ↦
          rw (record_request, n)
            (added-count rows _ a u (s a u)
              (find-none-count (is_open_for article_id user.id) rows n))
    ]

-- When no reader has two open requests for one article, none does after a call that succeeds.
pub create_article_edit_request-IsSingle :
    (trim : String → String) (new_id : ℕ) (users : List User) (current_user : User) (article_id : ℕ)
    (found : Option Article) (request_text : String) (rows : List EditRequest) (outcome : Outcome)
    → IsSingle rows
    → create_article_edit_request trim new_id users current_user article_id found request_text rows
      ≡ ok outcome
    → IsSingle outcome.rows
unfolding create_article_edit_request
create_article_edit_request-IsSingle trim new_id users current_user article_id none text rows
      outcome s h =
    cc
create_article_edit_request-IsSingle trim new_id users current_user article_id (some article) text
      rows outcome s h =
    let (_, h1) = raise_if_ok _ _ _ h in
    let (_, h2) = raise_if_ok _ _ _ h1 in
    rw (← ok_eq _ _ h2)
      (record_request-IsSingle new_id article_id current_user article (trim text) rows s)
