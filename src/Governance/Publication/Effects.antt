-- ===== src/Governance/Publication/Effects.antt =====
-- What approval does to a draft, and what it publishes: `approve_draft` of src/domain/governance.py.
use qnsc_kb_backend.Prelude.{
  ℕ, String, ◌≡◌, refl, Bool, true, false, Option, none, some, if◌then◌else◌, ◌==◌, nat_eq,
  string_eq, option_eq,
}
use qnsc_kb_backend.Accounts.{User}
use qnsc_kb_backend.Governance.{
  pending, approved, ok, Review, transition_draft, audit, notify, in_preparation, can_approve_draft,
}
use qnsc_kb_backend.Governance.Decisions.{may_decide, notify_author}
use qnsc_kb_backend.Governance.Decisions.Effects.{may_decide_ok}
use qnsc_kb_backend.Governance.Guards.{raise_if_ok, >>=-eq-ok, ok_eq, moved_to, transition_draft_ok}
use qnsc_kb_backend.Governance.Selection.{Request, Found, Publication, check_source}
use qnsc_kb_backend.Governance.Publication.{publication, check_target, approve_draft}

-- What approval leaves of a review that moves to approved.
abbrev pub KeepsApproved : User → Review → Review → Type 0
KeepsApproved user moved r' =
    (r'.draft.status ≡ moved.draft.status)
    × (r'.draft.created_by ≡ moved.draft.created_by)
    × (r'.draft.assigned_approver_id ≡ moved.draft.assigned_approver_id)
    × (r'.draft.reviewed_by ≡ some user.id)
    × (r'.transitions ≡ moved.transitions)

notify_author-KeepsApproved :
    (user : User) (author : Option ℕ) (moved r : Review)
    → KeepsApproved user moved r
    → KeepsApproved user moved (notify_author author r)
unfolding notify_author notify
notify_author-KeepsApproved user none moved r k = k
notify_author-KeepsApproved user (some id) moved r k = k

announced-KeepsApproved :
    (user : User) (own_work : Bool) (author : Option ℕ) (moved r : Review)
    → KeepsApproved user moved r
    → KeepsApproved user moved (if own_work then r else notify_author author r)
announced-KeepsApproved user true author moved r k = k
announced-KeepsApproved user false author moved r k =
    notify_author-KeepsApproved user author moved r k

pub approve_draft_ok :
    (fold trim : String → String) (user : User) (request : Request) (found : Found) (r : Review)
    (result : Review × Publication)
    → approve_draft fold trim user request found r ≡ ok result
    → (r.draft.status ≡ pending)
      × (in_preparation r.draft ≡ false)
      × (can_approve_draft user r.draft ≡ true)
      × (check_source request found r.draft ≡ ok tt)
      × (publication fold trim request found r.draft ≡ ok result.1)
      × KeepsApproved user (moved_to user.id approved r) result.0
unfolding approve_draft audit
approve_draft_ok fold trim user request found r result h =
    let (_, h1) = raise_if_ok _ _ _ h in
    let (t, d, h2) = >>=-eq-ok (may_decide user r.draft) _ h1 in
    let (_, v, h3) = >>=-eq-ok (check_source request found r.draft) _ h2 in
    let (p, e, h4) = >>=-eq-ok (publication fold trim request found r.draft) _ h3 in
    let (_, _, h5) = >>=-eq-ok (check_target user request found) _ h4 in
    let (_, h6) = raise_if_ok _ _ _ h5 in
    let (_, h7) = raise_if_ok _ _ _ h6 in
    let (moved, k, h8) = >>=-eq-ok (transition_draft user.id approved r) _ h7 in
    let (_, q) = transition_draft_ok user.id approved r moved k in
    let same = ok_eq _ _ h8 in
    let (s, prepared, _, c) = may_decide_ok user r.draft t d in
    rw (← same) (
      s,
      prepared,
      c,
      v,
      e,
      rw (q) (
          announced-KeepsApproved user (r.draft.created_by == some user.id) r.draft.created_by
            (moved_to user.id approved r)
            (record (moved_to user.id approved r) {
              draft = record (moved_to user.id approved r).draft { reviewed_by = some user.id };
            })
            (refl, refl, refl, refl, refl)),
    )
