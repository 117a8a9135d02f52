-- ===== src/Governance/Decisions/Approvers.antt =====
-- The users whom a draft may be assigned to: `eligible_approvers` of src/domain/governance.py with
-- `list_users` of src/repositories/user.py, the users being in the order of the query.
use qnsc_kb_backend.Prelude.{
  Memᴰ-take, String, ◌≡◌, refl, true, not, ◌&&◌, some, List, Memᴰ, &&-eq-true, take, filter,
  Memᴰ-filter, ◌==◌, nat_eq, string_eq, option_eq,
}
use qnsc_kb_backend.Accounts.{User}
use qnsc_kb_backend.Governance.{
  Result, ok, ◌>>=◌, ◌>>◌, raise_if, forbidden, Draft, Review, can_review_draft, is_outside, load,
}
use qnsc_kb_backend.Governance.Guards.{raise_if_ok, ok_eq}
use qnsc_kb_backend.Governance.Decisions.{may_see_identity, get_by_id, may_be_assigned, eligible}

pub list_users : List User → User → String → List User
list_users users viewer company_domain = take 500 (
    filter (λ u. may_see_identity viewer u && u.company_domain == company_domain && u.active) users)

unfoldable pub eligible_approvers : List User → User → Review → Result (List User)
unfolding load list_users
eligible_approvers users user r = do
  load user r
  raise_if (is_outside user r.draft) forbidden
  raise_if (not (can_review_draft user r.draft)) forbidden
  ok (
      filter (λ u. may_be_assigned u r.draft && can_review_draft u r.draft)
        (list_users users user r.draft.company_domain))

accepted :
    (users : List User) (user a : User) (draft : Draft)
    → get_by_id users user a.id ≡ some a
    → a.active ≡ true
    → (a.company_domain == draft.company_domain) ≡ true
    → may_be_assigned a draft ≡ true
    → can_review_draft a draft ≡ true
    → eligible users user a.id draft ≡ ok a
unfolding eligible raise_if ◌>>=◌
accepted users user a draft g v c m w = rw (eligible, g, c, m, w, v) refl

-- Every user whom the list of approvers offers passes the tests of an assignment, when the lookup of
-- their id finds them.
pub eligible_approvers-eligible :
    (users : List User) (user : User) (r : Review) (offered : List User) (a : User)
    → eligible_approvers users user r ≡ ok offered
    → Memᴰ a offered
    → get_by_id users user a.id ≡ some a
    → eligible users user a.id r.draft ≡ ok a
unfolding eligible_approvers list_users
eligible_approvers-eligible users user r offered a h m g =
    let (_, h1) = raise_if_ok _ _ _ h in
    let (_, h2) = raise_if_ok _ _ _ h1 in
    let (_, h3) = raise_if_ok _ _ _ h2 in
    let listed : Memᴰ a (
        filter (λ u. may_be_assigned u r.draft && can_review_draft u r.draft)
          (list_users users user r.draft.company_domain)) =
      rw (ok_eq _ offered h3) m in
    let (k, e) =
      Memᴰ-filter (λ u. may_be_assigned u r.draft && can_review_draft u r.draft)
        (list_users users user r.draft.company_domain) listed in
    let (b, w) = &&-eq-true (may_be_assigned a r.draft) (can_review_draft a r.draft) e in
    let q =
      (Memᴰ-filter
        (λ u. may_see_identity user u && u.company_domain == r.draft.company_domain && u.active)
        users (Memᴰ-take 500 _ k)).1 in
    let (x, v) =
      &&-eq-true (may_see_identity user a && a.company_domain == r.draft.company_domain) a.active
        q in
    let (_, c) =
      &&-eq-true (may_see_identity user a) (a.company_domain == r.draft.company_domain) x in
    accepted users user a r.draft g v c b w
