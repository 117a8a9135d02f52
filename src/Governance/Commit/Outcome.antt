-- ===== src/Governance/Commit/Outcome.antt =====
-- What a commit of candidates stores and answers: src/domain/governance.py.
use qnsc_kb_backend.Prelude.{
  ℕ, String, ◌≡◌, refl, sym, ap, ◌∙◌, false, List, ◌∷◌, filter, nat_eq, string_eq, option_eq,
}
use qnsc_kb_backend.Accounts.{User, Department}
use qnsc_kb_backend.Governance.{
  pending, rejected, not_found, Result, ok, err, Draft, Review, transition_draft, audit, may_load,
}
use qnsc_kb_backend.Governance.Guards.{
  raise_if_ok, >>=-eq-ok, ok_eq, not-eq-false, same_status_eq, transition_draft_ok, moved_to,
}
use qnsc_kb_backend.Governance.Decisions.{ApproverRule}
use qnsc_kb_backend.Governance.Decisions.Effects.{submit_draft_not_found}
use qnsc_kb_backend.Governance.Candidates.{DraftCandidate, is_active}
use qnsc_kb_backend.Governance.Commit.{
  sorted, children_of, commit_rows, submit_all, Committed, stored, commit_candidates,
}

-- What stands in the database of the review of the parent.
abbrev pub IsMoved : User → Review → Review → Type 0
IsMoved user r r' =
    (r'.draft ≡ (moved_to user.id rejected r).draft)
    × (r'.transitions ≡ (moved_to user.id rejected r).transitions)

stored-IsMoved :
    (user : User) (r : Review) (rows : List DraftCandidate)
    (submitted : List Review × Result (Unit {0}))
    → IsMoved user r (stored user rows (moved_to user.id rejected r) submitted).parent
unfolding stored audit
stored-IsMoved user r rows (children, ok _) = (refl, refl)
stored-IsMoved user r rows (children, err _) = (refl, refl)

pub commit_candidates_ok :
    (text : List ℕ → String) (departments : List Department) (users : List User)
    (rules : List ApproverRule) (user : User) (new_id : ℕ) (r : Review) (rows : List DraftCandidate)
    (c : Committed)
    → commit_candidates text departments users rules user new_id r rows ≡ ok c
    → (r.draft.status ≡ pending)
      × (c
          ≡ stored user (commit_rows departments r.draft rows) (moved_to user.id rejected r) (
              submit_all users rules user (
                children_of text departments user.id r.draft new_id
                  (sorted (filter (λ d. is_active d.status) rows)))))
unfolding commit_candidates
commit_candidates_ok text departments users rules user new_id r rows c h =
    let (_, h1) = raise_if_ok _ _ _ h in
    let (s, h2) = raise_if_ok _ _ _ h1 in
    let (_, h3) = raise_if_ok _ _ _ h2 in
    let (_, h4) = raise_if_ok _ _ _ h3 in
    let (_, h5) = raise_if_ok _ _ _ h4 in
    let (_, h6) = raise_if_ok _ _ _ h5 in
    let (moved, k, h7) = >>=-eq-ok (transition_draft user.id rejected r) _ h6 in
    let (_, q) = transition_draft_ok user.id rejected r moved k in
    let same = ok_eq _ c h7 in
    let children =
      children_of text departments user.id r.draft new_id
        (sorted (filter (λ d. is_active d.status) rows)) in
    (
      same_status_eq r.draft.status pending (not-eq-false _ s),
      sym same
          ∙ ap
              (λ m.
                stored user (commit_rows departments r.draft rows) m
                  (submit_all users rules user children))
              q,
    )

pub commit_candidates-IsMoved :
    (text : List ℕ → String) (departments : List Department) (users : List User)
    (rules : List ApproverRule) (user : User) (new_id : ℕ) (r : Review) (rows : List DraftCandidate)
    (c : Committed)
    → commit_candidates text departments users rules user new_id r rows ≡ ok c
    → (r.draft.status ≡ pending) × IsMoved user r c.parent
commit_candidates-IsMoved text departments users rules user new_id r rows c h =
    let (s, e) = commit_candidates_ok text departments users rules user new_id r rows c h in
    (s, rw (e) (stored-IsMoved user r (commit_rows departments r.draft rows) _))

-- After a commit that succeeds no commit of the same document does, whoever asks for it, whatever
-- candidates are left.
pub commit_candidates-once :
    (text : List ℕ → String) (departments : List Department) (users : List User)
    (rules : List ApproverRule) (user other : User) (new_id later_id : ℕ) (r : Review)
    (rows left : List DraftCandidate) (c c' : Committed)
    → commit_candidates text departments users rules user new_id r rows ≡ ok c
    → ¬ (commit_candidates text departments users rules other later_id c.parent left ≡ ok c')
commit_candidates-once text departments users rules user other new_id later_id r rows left c c' h
      k =
    let (_, (d, _)) =
      commit_candidates-IsMoved text departments users rules user new_id r rows c h in
    let (s, _) =
      commit_candidates-IsMoved text departments users rules other later_id c.parent left c' k in
    let status : c.parent.draft.status ≡ rejected = ap Draft.status d in cc

-- When the user may not load the first draft that a commit creates, the call answers not found, but
-- the document is rejected all the same and every new draft is left unsubmitted.
pub commit_candidates-unloadable :
    (text : List ℕ → String) (departments : List Department) (users : List User)
    (rules : List ApproverRule) (user : User) (new_id : ℕ) (r : Review) (rows : List DraftCandidate)
    (child : Review) (children : List Review) (c : Committed)
    → commit_candidates text departments users rules user new_id r rows ≡ ok c
    → children_of text departments user.id r.draft new_id
        (sorted (filter (λ d. is_active d.status) rows))
      ≡ child ∷ children
    → may_load user child.draft ≡ false
    → (c.answer ≡ err not_found)
      × (c.parent.draft.status ≡ rejected)
      × (c.children ≡ child ∷ children)
unfolding submit_all stored
commit_candidates-unloadable text departments users rules user new_id r rows child children c h q
      n =
    let (_, e) = commit_candidates_ok text departments users rules user new_id r rows c h in
    rw (e, q, submit_all, submit_draft_not_found users rules user child n) (refl, refl, refl)
