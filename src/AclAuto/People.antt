-- ===== src/AclAuto/People.antt =====
-- To which accounts src/domain/acl_auto.py gives a provider's people.
use mathlib.Core.Path.{subst}
use qnsc_kb_backend.Prelude.{
  ℕ, ◌≡◌, refl, inl, inr, Bool, true, Option, none, some, List, [], ◌∷◌, Memᴰ, Bool-cases,
  Option-cases, &&-eq-true, any, filter, Memᴰ-filter, nat_eq, string_eq, option_eq, lookup,
  AllItems, AllItems-insert, lookup-AllItems,
}
use qnsc_kb_backend.Text.{Text, text_eq}
use qnsc_kb_backend.AclAuto.{Principal, Department, User, AutoResolution, unresolved}
use qnsc_kb_backend.AclAuto.Resolution.{
  emails_of, index_rows, users_by_email, is_pending, is_company, settle_company, first_hit,
  settle_person, settle_people, unmatched_people, resolve_pending, auto_resolve, enabled,
}
use qnsc_kb_backend.AclAuto.Passes.{settle_company-keeps, settle_groups-users}

module _ (lower : Text → Text) (users : List User) (company : Text) where
  -- The address is that of an active account of the company with the id.
  unfoldable pub IsAccount : Text → ℕ → Type 0
  IsAccount address id =
      (u : User) × Memᴰ u users
      × (u.active ≡ true)
      × (u.company_domain ≡ company)
      × (lower u.email ≡ address)
      × (u.id ≡ id)

  index_rows-IsAccount :
      (rows : List User) (found : List (Text × ℕ))
      → ((u : User) → Memᴰ u rows → IsAccount (lower u.email) u.id)
      → AllItems IsAccount found
      → AllItems IsAccount (index_rows lower rows found)
  unfolding index_rows
  index_rows-IsAccount [] found _ h = h
  index_rows-IsAccount (u ∷ rest) found sub h =
      index_rows-IsAccount rest _ (λ v m. sub v (Memᴰ.tail m))
        (AllItems-insert IsAccount (lower u.email) u.id found (sub u (Memᴰ.head refl)) h)

  users_by_email-IsAccount :
      (emails : List Text) → AllItems IsAccount (users_by_email lower users company emails)
  unfolding users_by_email IsAccount
  users_by_email-IsAccount emails =
      index_rows-IsAccount _ []
        (λ u m.
          let (n, e) = Memᴰ-filter _ users m in
          let (_, f) = &&-eq-true _ _ e in
          let (c, a) = &&-eq-true _ _ f in
          (u, n, a, (text_eq.same_iff u.company_domain company).0 c, refl, refl))
        tt

  -- The account is that of one of the addresses.
  HasAccount : List Text → Option ℕ → Type 0
  HasAccount emails none = Unit
  HasAccount emails (some id) = (address : Text) × Memᴰ address emails × IsAccount address id

  HasAccount-cons :
      (a : Text) (emails : List Text) (hit : Option ℕ)
      → HasAccount emails hit
      → HasAccount (a ∷ emails) hit
  unfolding HasAccount
  HasAccount-cons a emails none _ = tt
  HasAccount-cons a emails (some id) (address, m, h) = (address, Memᴰ.tail m, h)

  first_hit-HasAccount :
      (accounts : List (Text × ℕ)) (emails : List Text)
      → AllItems IsAccount accounts
      → HasAccount emails (first_hit accounts emails)
  unfolding first_hit HasAccount
  first_hit-HasAccount accounts [] h = tt
  first_hit-HasAccount accounts (a ∷ rest) h = elim (Option-cases (lookup a accounts)) [
    | inl n ↦ rw (first_hit, n) (HasAccount-cons a rest _ (first_hit-HasAccount accounts rest h))
    | inr (u, s) ↦ rw (first_hit, s) (a, Memᴰ.head refl, lookup-AllItems IsAccount a u accounts s h)
  ]

  module _ (addresses : Text → List Text) (principals : List Principal)
      (already_resolved : List (Text × Text)) where
    -- A pending person with the provider's id has an address of the account.
    unfoldable pub IsPerson : Text → ℕ → Type 0
    IsPerson principal_id id =
        (p : Principal) × Memᴰ p principals
        × (is_pending already_resolved p ≡ true)
        × (p.principal_id ≡ principal_id)
        × (address : Text) × Memᴰ address (emails_of addresses p)
        × IsAccount address id

    settle_person-IsPerson :
        (accounts : List (Text × ℕ)) (p : Principal) (r : AutoResolution)
        → AllItems IsAccount accounts
        → Memᴰ p principals
        → is_pending already_resolved p ≡ true
        → AllItems IsPerson r.users
        → AllItems IsPerson (settle_person addresses accounts p r).users
    unfolding settle_person IsPerson HasAccount
    settle_person-IsPerson accounts p r h m pending ps =
        let found = first_hit-HasAccount accounts (emails_of addresses p) h in
        elim (Option-cases (first_hit accounts (emails_of addresses p))) [
          | inl e ↦ rw (settle_person, e) ps
          | inr (u, e) ↦
              let (address, n, account) = subst (HasAccount (emails_of addresses p)) e found in
              rw (settle_person, e)
                (AllItems-insert IsPerson p.principal_id u r.users
                  (p, m, pending, refl, address, n, account) ps)
        ]

    settle_people-IsPerson :
        (accounts : List (Text × ℕ)) (people : List Principal) (r : AutoResolution)
        → AllItems IsAccount accounts
        → ((p : Principal)
            → Memᴰ p people
            → Memᴰ p principals × (is_pending already_resolved p ≡ true))
        → AllItems IsPerson r.users
        → AllItems IsPerson (settle_people addresses accounts people r).users
    unfolding settle_people
    settle_people-IsPerson accounts [] r _ _ ps = ps
    settle_people-IsPerson accounts (p ∷ rest) r h sub ps =
        let (m, pending) = sub p (Memᴰ.head refl) in
        settle_people-IsPerson accounts rest _ h (λ q n. sub q (Memᴰ.tail n))
          (settle_person-IsPerson accounts p r h m pending ps)

unmatched_people-Memᴰ :
    (matched_users : List (Text × ℕ)) (pending : List Principal) {p : Principal}
    → Memᴰ p (unmatched_people matched_users pending)
    → Memᴰ p pending
unfolding unmatched_people
unmatched_people-Memᴰ matched_users pending m = (Memᴰ-filter _ pending m).0

module _ (fold : Text → Text) (lower : Text → Text) (addresses : Text → List Text)
    (departments : List Department) (users : List User) (company : Text)
    (principals : List Principal) (already_resolved : List (Text × Text))
    (matched_users : List (Text × ℕ)) where
  -- Each provider id that gets an account of its own is that of a principal without an explicit
  -- mapping, and the account is an active one of the connector's company with an address of that
  -- principal.
  pub auto_resolve-IsPerson :
      (setting : Bool) (config : Option Bool)
      → AllItems
          (IsPerson lower users company addresses principals already_resolved)
          (auto_resolve fold lower addresses setting config departments users company principals
            already_resolved matched_users).users
  unfolding auto_resolve resolve_pending
  auto_resolve-IsPerson setting config = elim (Bool-cases (enabled setting config)) [
    | inr e ↦ rw e tt
    | inl e ↦
        let pending = filter (is_pending already_resolved) principals in
        let sub : (p : Principal)
            → Memᴰ p (unmatched_people matched_users pending)
            → Memᴰ p principals × (is_pending already_resolved p ≡ true) =
          λ p m. Memᴰ-filter _ principals ((unmatched_people-Memᴰ matched_users pending m)) in
        let people =
          settle_people-IsPerson lower users company addresses principals already_resolved _
            (unmatched_people matched_users pending) (settle_company pending unresolved)
            (users_by_email-IsAccount lower users company _) sub
            (rw (settle_company-keeps pending unresolved).0 tt) in
        elim (Bool-cases (any is_company (filter (is_pending already_resolved) principals))) [
          | inl c ↦ rw (e, c, settle_groups-users) people
          | inr c ↦ rw (e, c, settle_groups-users) people
        ]
  ]
