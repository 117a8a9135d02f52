-- ===== src/Governance/Publication/Readers.antt =====
-- Who may read what an approval publishes: src/domain/governance.py.
use qnsc_kb_backend.Prelude.{
  ℕ, String, ◌≡◌, refl, ◌≢◌, inl, inr, true, false, not, ◌&&◌, some, List, ltb, nat_beq, Bool-cases,
  Option-cases, is_some, length, filter, ◌==◌, nat_eq, string_eq, option_eq, elem,
}
use qnsc_kb_backend.Accounts.{User, Department}
use qnsc_kb_backend.Governance.{ok, Draft, Review}
use qnsc_kb_backend.Governance.Guards.{raise_if_ok, >>=-eq-ok, ok_eq, not-eq-false}
use qnsc_kb_backend.Governance.Selection.{
  Request, Found, Publication, check_source, choose, overlap, ExternalDocument, select_departments,
  visibilities, sensitivities,
}
use qnsc_kb_backend.Governance.Publication.{publication, approve_draft, restrict, acl_visibility}
use qnsc_kb_backend.Governance.Publication.Effects.{approve_draft_ok}

-- What holds of every publication.
abbrev pub IsConsistent : Publication → Type 0
IsConsistent p =
    (overlap p.allowed_users p.denied_users ≡ false)
    × (elem p.sensitivity sensitivities ≡ true)
    × (elem p.visibility visibilities ≡ true)

choose-IsConsistent :
    (fold trim : String → String) (request : Request) (found : Found) (draft : Draft)
    (p : Publication)
    → choose fold trim request found draft ≡ ok p
    → IsConsistent p
unfolding choose
choose-IsConsistent fold trim request found draft p h =
    let (chosen, _, h1) = >>=-eq-ok (select_departments fold trim request found draft) _ h in
    let (_, h2) = raise_if_ok _ _ _ h1 in
    let (s, h3) = raise_if_ok _ _ _ h2 in
    let (v, h4) = raise_if_ok _ _ _ h3 in
    let (o, h5) = raise_if_ok _ _ _ h4 in
    let (_, h6) = raise_if_ok _ _ _ h5 in
    let (_, h7) = raise_if_ok _ _ _ h6 in
    rw (← ok_eq _ _ h7) (o, not-eq-false _ s, not-eq-false _ v)

-- What the provider's ACL leaves.
abbrev pub IsRestricted : Publication → Type 0
IsRestricted p = (p.sensitivity ≡ "restricted") × (p.visibility ≢ "public")

acl_visibility_lem :
    (document : ExternalDocument) (selected : List Department)
    → (elem (acl_visibility document selected) visibilities ≡ true)
      × (acl_visibility document selected ≢ "public")
unfolding acl_visibility
acl_visibility_lem document selected =
    elim (Bool-cases
      (ltb 0 (length document.mapped_source_user_ids) && nat_beq (length selected) 0)) [
        | inl e ↦ rw (e, acl_visibility) (refl, λ h. cc)
        | inr e ↦ rw (e, acl_visibility) (refl, λ h. cc)
      ]

restrict-IsRestricted :
    (found : Found) (draft : Draft) (document : ExternalDocument) (chosen p : Publication)
    → restrict found draft document chosen ≡ ok p
    → IsConsistent p × IsRestricted p
unfolding restrict
restrict-IsRestricted found draft document chosen p h =
    let (_, h1) = raise_if_ok _ _ _ h in
    let (_, h2) = raise_if_ok _ _ _ h1 in
    let (o, h3) = raise_if_ok _ _ _ h2 in
    let (_, h4) = raise_if_ok _ _ _ h3 in
    elim (Option-cases document.connector) [
      | inl n ↦ absurd (cc (rw (n) at h4))
      | inr q ↦
          let (_, h5) = raise_if_ok _ _ _ (rw (q.1) at h4) in
          let (v, w) = acl_visibility_lem document (
            filter
              (λ d.
                elem d.id document.mapped_department_ids
                && d.company_domain == draft.company_domain)
              found.departments) in
          rw (← ok_eq _ _ h5) ((o, refl, v), (refl, w))
    ]

publication-IsConsistent :
    (fold trim : String → String) (request : Request) (found : Found) (draft : Draft)
    (p : Publication)
    → publication fold trim request found draft ≡ ok p
    → IsConsistent p
unfolding publication
publication-IsConsistent fold trim request found draft p h =
    let (chosen, e, h1) = >>=-eq-ok (choose fold trim request found draft) _ h in
    let k = choose-IsConsistent fold trim request found draft chosen e in
    elim (Option-cases draft.external_document_id) [
      | inl n ↦ rw (← ok_eq chosen p (rw (n) at h1)) k
      | inr q ↦ elim (Option-cases found.document) [
        | inl n ↦ rw (← ok_eq chosen p (rw (q.1, n) at h1)) k
        | inr d ↦ (restrict-IsRestricted found draft d.0 chosen p (rw (q.1, d.1) at h1)).0
      ]
    ]

-- A source document that approval publishes was found.
check_source-is_some :
    (request : Request) (found : Found) (draft : Draft) (t : Unit {0})
    → check_source request found draft ≡ ok t
    → is_some draft.external_document_id && not (is_some found.document) ≡ false
unfolding check_source
check_source-is_some request found draft t h = (raise_if_ok _ _ _ h).0

publication-IsRestricted :
    (fold trim : String → String) (request : Request) (found : Found) (draft : Draft) (id : ℕ)
    (p : Publication)
    → draft.external_document_id ≡ some id
    → check_source request found draft ≡ ok tt
    → publication fold trim request found draft ≡ ok p
    → IsRestricted p
unfolding publication
publication-IsRestricted fold trim request found draft id p q c h =
    let (chosen, e, h1) = >>=-eq-ok (choose fold trim request found draft) _ h in
    let s = check_source-is_some request found draft tt c in
    elim (Option-cases found.document) [
      | inl n ↦ absurd (cc (rw (q, n) at s))
      | inr d ↦ (restrict-IsRestricted found draft d.0 chosen p (rw (q, d.1) at h1)).1
    ]

-- What an approval publishes allows no user whom it denies, and its sensitivity and its visibility
-- are among the known ones.
pub approved-IsConsistent :
    (fold trim : String → String) (user : User) (request : Request) (found : Found) (r r' : Review)
    (p : Publication)
    → approve_draft fold trim user request found r ≡ ok (r', p)
    → IsConsistent p
approved-IsConsistent fold trim user request found r r' p h =
    let (_, _, _, _, e, _) = approve_draft_ok fold trim user request found r (r', p) h in
    publication-IsConsistent fold trim request found r.draft p e

-- When the approved draft has a source document, what is published has the sensitivity restricted and
-- is not visible to the public, whatever the request asks for.
pub approved_source-IsRestricted :
    (fold trim : String → String) (user : User) (request : Request) (found : Found) (r r' : Review)
    (p : Publication) (id : ℕ)
    → approve_draft fold trim user request found r ≡ ok (r', p)
    → r.draft.external_document_id ≡ some id
    → IsRestricted p
approved_source-IsRestricted fold trim user request found r r' p id h q =
    let (_, _, _, c, e, _) = approve_draft_ok fold trim user request found r (r', p) h in
    publication-IsRestricted fold trim request found r.draft id p q c e
