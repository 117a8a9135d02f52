-- ===== src/Governance/Workflow/Children.antt =====
-- The drafts that a commit creates in the workflow: src/domain/governance.py.
use qnsc_kb_backend.Prelude.{
  ℕ, ◌+◌, String, ◌≡◌, refl, inl, inr, some, List, [], ◌∷◌, Memᴰ, Bool-cases, nat_eq, string_eq,
  option_eq,
}
use qnsc_kb_backend.Accounts.{User, Department}
use qnsc_kb_backend.Governance.{ok, Draft, Review}
use qnsc_kb_backend.Governance.Decisions.{ApproverRule, submit_draft}
use qnsc_kb_backend.Governance.Candidates.{DraftCandidate}
use qnsc_kb_backend.Governance.Commit.{
  Committed, commit_candidates, child_of, children_of, submit_all, fails, stored,
}
use qnsc_kb_backend.Governance.Commit.Outcome.{commit_candidates_ok}
use qnsc_kb_backend.Governance.Guards.{Result-cases}
use qnsc_kb_backend.Governance.Workflow.{submit, Reach, start, next}

child_of-Reach :
    (users : List User) (text : List ℕ → String) (departments : List Department) (actor : ℕ)
    (parent : Draft) (new_id : ℕ) (item : DraftCandidate)
    → Reach users (child_of text departments actor parent new_id item)
unfolding child_of
child_of-Reach users text departments actor parent new_id item = start (some actor) refl refl refl

abbrev IsReached : List User → List Review → Type 0
IsReached users rows = (d : Review) → Memᴰ d rows → Reach users d

cons-IsReached :
    (users : List User) (r : Review) (rest : List Review)
    → Reach users r
    → IsReached users rest
    → IsReached users (r ∷ rest)
cons-IsReached users r rest h k d (Memᴰ.head e) = rw (e) h
cons-IsReached users r rest h k d (Memᴰ.tail m) = k d m

children_of-IsReached :
    (users : List User) (text : List ℕ → String) (departments : List Department) (actor : ℕ)
    (parent : Draft) (new_id : ℕ) (items : List DraftCandidate)
    → IsReached users (children_of text departments actor parent new_id items)
unfolding children_of
children_of-IsReached users text departments actor parent new_id [] d m = elim m [ ]
children_of-IsReached users text departments actor parent new_id (item ∷ items) d m =
    elim (Bool-cases (fails departments parent item)) [
      | inl e ↦
          children_of-IsReached users text departments actor parent new_id items d (rw (e) at m)
      | inr e ↦
          cons-IsReached users (child_of text departments actor parent new_id item)
            (children_of text departments actor parent (new_id + 1) items)
            (child_of-Reach users text departments actor parent new_id item)
            (children_of-IsReached users text departments actor parent (new_id + 1) items) d
            (rw (e) at m)
    ]

submit_all-IsReached :
    (users : List User) (rules : List ApproverRule) (user : User) (children : List Review)
    → IsReached users children
    → IsReached users (submit_all users rules user children).0
unfolding submit_all
submit_all-IsReached users rules user [] k d m = k d m
submit_all-IsReached users rules user (child ∷ children) k d m =
    elim (Result-cases (submit_draft users rules user child)) [
      | inr e ↦ k d (rw (submit_all, e.1) at m)
      | inl s ↦
          cons-IsReached users s.0 (submit_all users rules user children).0
            (next (k child (Memᴰ.head refl)) (submit rules user s.1))
            (submit_all-IsReached users rules user children (λ c j. k c (Memᴰ.tail j))) d
            (rw (submit_all, s.1) at m)
    ]

-- Every draft that a commit leaves is in the workflow: an authored draft, or one that its submission
-- made of it.
pub commit_candidates-Reach :
    (text : List ℕ → String) (departments : List Department) (users : List User)
    (rules : List ApproverRule) (user : User) (new_id : ℕ) (r : Review) (rows : List DraftCandidate)
    (c : Committed) (child : Review)
    → commit_candidates text departments users rules user new_id r rows ≡ ok c
    → Memᴰ child c.children
    → Reach users child
unfolding stored
commit_candidates-Reach text departments users rules user new_id r rows c child h m =
    let (_, e) = commit_candidates_ok text departments users rules user new_id r rows c h in
    submit_all-IsReached users rules user _
      (children_of-IsReached users text departments user.id r.draft new_id _) child
      (rw (e, stored) at m)
