-- ===== src/AclAuto/Resolution.antt =====
-- `emails_of`, `users_by_email`, `company_departments` and `auto_resolve` of src/domain/acl_auto.py.
-- `lower` is SQL's lower.
use qnsc_kb_backend.Prelude.{
  ℕ, Bool, true, not, ◌&&◌, ◌||◌, Option, none, some, List, [], ◌∷◌, ◌++◌, map, if◌then◌else◌,
  is_some, get_or, any, filter, Eq, ◌==◌, nat_eq, string_eq, option_eq, elem, lookup, insert,
}
use qnsc_kb_backend.Text.{Text, codes, text_eq, is_blank}
use qnsc_kb_backend.AclAuto.{
  Principal, Department, User, via_company, via_email, via_name, AutoResolution, unresolved,
  user_types, group_types, ignored_types, company_types, company_links, match_department, after_bar,
}

-- set.add, and the guarded append of `emails_of`
unfoldable pub add {ℓ} : {A : Type ℓ} ⦃keys : Eq A⦄ → A → List A → List A
add x xs = if elem x xs then xs else xs ++ x ∷ []

unfoldable pub add_all {ℓ} : {A : Type ℓ} ⦃keys : Eq A⦄ → List A → List A → List A
add_all [] xs = xs
add_all (y ∷ ys) xs = add_all ys (add y xs)

-- str(item.get("principal_type") or "unknown")
unfoldable pub kind_of : Principal → Text
kind_of p = if is_blank p.principal_type then codes "unknown" else p.principal_type

unfoldable pub principal_key : Text → Text → Text
principal_key principal_type principal_id = principal_type ++ (codes ":" ++ principal_id)

unfoldable pub addresses_in : (Text → List Text) → Text → List Text
addresses_in addresses raw = if is_blank raw then [] else addresses raw

unfoldable pub emails_of : (Text → List Text) → Principal → List Text
emails_of addresses p = add_all (addresses_in addresses p.principal_name) (
    add_all (addresses_in addresses p.principal_id) (
      add_all (if is_blank p.principal_login then [] else addresses (after_bar p.principal_login))
        (add_all (addresses_in addresses p.principal_email) [])))

unfoldable pub company_departments : List Department → Text → List (ℕ × Text)
company_departments rows company =
    map (λ d. (d.id, d.name)) (filter (λ d. d.company_domain == company && d.active) rows)

-- The dict of the rows, by address; a later row replaces an earlier one.
unfoldable pub index_rows : (Text → Text) → List User → List (Text × ℕ) → List (Text × ℕ)
index_rows lower [] found = found
index_rows lower (u ∷ rest) found = index_rows lower rest (insert (lower u.email) u.id found)

unfoldable pub users_by_email : (Text → Text) → List User → Text → List Text → List (Text × ℕ)
users_by_email lower rows company emails =
    index_rows lower
      (filter (λ u. elem (lower u.email) emails && (u.company_domain == company && u.active)) rows)
      []

unfoldable pub is_pending : List (Text × Text) → Principal → Bool
is_pending already_resolved p =
    not (is_blank p.principal_id)
    && not (any (λ entry. entry.0 == kind_of p && entry.1 == p.principal_id) already_resolved)

unfoldable pub is_company : Principal → Bool
is_company p = elem (kind_of p) company_types || elem p.principal_id company_links

unfoldable pub is_ignored : Principal → Bool
is_ignored p =
    elem (kind_of p) ignored_types
    || kind_of p == codes "link" && not (elem p.principal_id company_links)

-- A whole-organisation principal is resolved, and one that grants nothing ignored.
unfoldable pub settle_whole : Principal → AutoResolution → AutoResolution
settle_whole p r =
    let key = principal_key (kind_of p) p.principal_id in
    if is_company p
    then record r { resolved = insert key (via_company p.principal_name) r.resolved }
    else if is_ignored p
    then record r { ignored = add key r.ignored }
    else r

unfoldable pub settle_company : List Principal → AutoResolution → AutoResolution
settle_company [] r = r
settle_company (p ∷ rest) r = settle_company rest (settle_whole p r)

-- The first address that has an account
unfoldable pub first_hit : List (Text × ℕ) → List Text → Option ℕ
first_hit accounts [] = none
first_hit accounts (a ∷ rest) =
    let later = first_hit accounts rest in
    elim (lookup a accounts) [ none ↦ later | some u ↦ some u ]

unfoldable pub settle_person :
    (Text → List Text) → List (Text × ℕ) → Principal → AutoResolution → AutoResolution
settle_person addresses accounts p r =
    let key = principal_key p.principal_type p.principal_id in
    elim (first_hit accounts (emails_of addresses p)) [
      | none ↦ record r { without_account = add p.principal_id r.without_account }
      | some u ↦ record r {
        users = insert p.principal_id u r.users;
        resolved = insert key (via_email p.principal_name u) r.resolved;
      }
    ]

unfoldable pub settle_people :
    (Text → List Text) → List (Text × ℕ) → List Principal → AutoResolution → AutoResolution
settle_people addresses accounts [] r = r
settle_people addresses accounts (p ∷ rest) r =
    settle_people addresses accounts rest (settle_person addresses accounts p r)

unfoldable pub settle_group :
    (Text → Text) → List (ℕ × Text) → Principal → AutoResolution → AutoResolution
settle_group fold departments p r =
    let key = principal_key p.principal_type p.principal_id in
    elim (match_department fold p.principal_name departments) [
      | none ↦ r
      | some id ↦ record r {
        department_ids = add id r.department_ids;
        resolved = insert key (via_name p.principal_name id) r.resolved;
      }
    ]

unfoldable pub settle_groups :
    (Text → Text) → List (ℕ × Text) → List Principal → AutoResolution → AutoResolution
settle_groups fold departments [] r = r
settle_groups fold departments (p ∷ rest) r =
    settle_groups fold departments rest (settle_group fold departments p r)

unfoldable pub unmatched_people : List (Text × ℕ) → List Principal → List Principal
unmatched_people matched_users pending =
    filter
      (λ p. elem p.principal_type user_types && not (is_some (lookup p.principal_id matched_users)))
      pending

unfoldable pub groups_of : List Principal → List Principal
groups_of pending = filter (λ p. elem p.principal_type group_types) pending

unfoldable pub wanted_emails : (Text → List Text) → List Principal → List Text → List Text
wanted_emails addresses [] found = found
wanted_emails addresses (p ∷ rest) found =
    wanted_emails addresses rest (add_all (emails_of addresses p) found)

-- The setting CONNECTOR_ACL_AUTO_RESOLVE, and "acl_auto_resolve" of the connector's configuration
unfoldable pub enabled : Bool → Option Bool → Bool
enabled setting config = setting && get_or config true

-- AutoResolution.keys
unfoldable pub keys_of : AutoResolution → List Text
keys_of r = add_all r.ignored (map (λ item. item.0) r.resolved)

module _ (fold : Text → Text) (lower : Text → Text) (addresses : Text → List Text) where
  unfoldable pub resolve_pending :
      List Department → List User → Text → List (Text × ℕ) → List Principal → AutoResolution
  resolve_pending departments users company matched_users pending =
      let marked = settle_company pending unresolved in
      let people = unmatched_people matched_users pending in
      let accounts = users_by_email lower users company (wanted_emails addresses people []) in
      let settled = settle_people addresses accounts people marked in
      let known = company_departments departments company in
      let grouped = settle_groups fold known (groups_of pending) settled in
      if any is_company pending
      then record grouped { department_ids = add_all (map (λ d. d.0) known) grouped.department_ids }
      else grouped

  unfoldable pub auto_resolve :
      Bool
      → Option Bool
      → List Department
      → List User
      → Text
      → List Principal
      → List (Text × Text)
      → List (Text × ℕ)
      → AutoResolution
  auto_resolve setting config departments users company principals already_resolved matched_users =
      if enabled setting config
      then resolve_pending departments users company matched_users
          (filter (is_pending already_resolved) principals)
      else unresolved
