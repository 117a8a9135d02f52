-- ===== src/Governance/Guards.antt =====
-- What an operation of the review has passed when it succeeds.
use qnsc_kb_backend.Prelude.{
  ℕ, ◌≡◌, refl, sym, ap, ◌⊎◌, inl, inr, Bool, true, false, not, none, some, List, [], ◌∷◌, Memᴰ,
  Bool-cases, any, any-Memᴰ, nat_eq, string_eq, option_eq, eq_iff,
}
use qnsc_kb_backend.Governance.{
  Status, HttpError, Result, ok, err, ◌>>=◌, raise_if, DraftTransition, Review, allowed,
  same_status, transition_draft, authored, pending, approved, rejected, other,
}

pub raise_if_ok :
    {B : Type 0} (b : Bool) (e : HttpError) (next : Unit {0} → Result B) {v : B}
    → (raise_if b e >>= next) ≡ ok v
    → (b ≡ false) × (next tt ≡ ok v)
unfolding raise_if ◌>>=◌
raise_if_ok true e next h = cc
raise_if_ok false e next h = (refl, h)

pub unraised : (b : Bool) (e : HttpError) (t : Unit {0}) → raise_if b e ≡ ok t → b ≡ false
unfolding raise_if
unraised true e t h = cc
unraised false e t h = refl

pub >>=-eq-ok :
    {A B : Type 0} (first : Result A) (next : A → Result B) {v : B}
    → (first >>= next) ≡ ok v
    → (a : A) × (first ≡ ok a) × (next a ≡ ok v)
unfolding ◌>>=◌
>>=-eq-ok (ok a) next h = (a, refl, h)
>>=-eq-ok (err e) next h = cc

pub not-eq-false : (b : Bool) → not b ≡ false → b ≡ true
not-eq-false true h = refl
not-eq-false false h = cc

pub ok_eq : {A : Type 0} (a b : A) → ok a ≡ ok b → a ≡ b
ok_eq a b h = cc

pub Result-cases :
    {A : Type 0} (a : Result A) → ((x : A) × (a ≡ ok x)) ⊎ ((e : HttpError) × (a ≡ err e))
Result-cases (ok x) = inl (x, refl)
Result-cases (err e) = inr (e, refl)

pub same_status_eq : (s t : Status) → same_status s t ≡ true → s ≡ t
same_status_eq authored authored h = refl
same_status_eq pending pending h = refl
same_status_eq approved approved h = refl
same_status_eq rejected rejected h = refl
same_status_eq (other s) (other t) h = ap other ((eq_iff s t).0 h)
same_status_eq authored pending h = cc
same_status_eq authored approved h = cc
same_status_eq authored rejected h = cc
same_status_eq authored (other t) h = cc
same_status_eq pending authored h = cc
same_status_eq pending approved h = cc
same_status_eq pending rejected h = cc
same_status_eq pending (other t) h = cc
same_status_eq approved authored h = cc
same_status_eq approved pending h = cc
same_status_eq approved rejected h = cc
same_status_eq approved (other t) h = cc
same_status_eq rejected authored h = cc
same_status_eq rejected pending h = cc
same_status_eq rejected approved h = cc
same_status_eq rejected (other t) h = cc
same_status_eq (other s) authored h = cc
same_status_eq (other s) pending h = cc
same_status_eq (other s) approved h = cc
same_status_eq (other s) rejected h = cc

-- The review after a transition.
abbrev pub moved_to : ℕ → Status → Review → Review
moved_to actor to_status r = record r {
  draft = record r.draft { status = to_status };
  transitions =
      record { from_status = some r.draft.status; to_status = to_status; actor_id = some actor }
      ∷ r.transitions;
}

pub transition_draft_ok :
    (actor : ℕ) (to_status : Status) (r r' : Review)
    → transition_draft actor to_status r ≡ ok r'
    → Memᴰ to_status (allowed r.draft.status) × (r' ≡ moved_to actor to_status r)
unfolding transition_draft
transition_draft_ok actor to_status r r' h =
    elim (Bool-cases (any (λ s. same_status s to_status) (allowed r.draft.status))) [
      | inr e ↦ absurd (cc (rw (e, transition_draft) at h))
      | inl e ↦
          let (s, m, q) = any-Memᴰ (λ t. same_status t to_status) (allowed r.draft.status) e in
          (
            rw (← same_status_eq s to_status q) m,
            sym (ok_eq (moved_to actor to_status r) r' (rw (e, transition_draft) at h)),
          )
    ]

-- The transitions, the newest first, start with the creation of the authored draft and lead from
-- there to the status, each from where the one before it ended to a status that is allowed there.
abbrev pub IsPath : List DraftTransition → Status → Type 0
IsPath [] status = ⊥
IsPath (t ∷ rest) status = (t.to_status ≡ status) × elim t.from_status [
  | none ↦ (status ≡ authored) × (rest ≡ [])
  | some before ↦ Memᴰ status (allowed before) × IsPath rest before
]
