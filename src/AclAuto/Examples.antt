-- ===== src/AclAuto/Examples.antt =====
-- A person, a group and a sharing link: the theorems on src/domain/acl_auto.py at them. `fold` is the
-- identity, and the whole text is an address if there is one.
use qnsc_kb_backend.Prelude.{
  String, ◌≡◌, refl, true, none, List, [], ◌∷◌, length, filter, nat_eq, string_eq, option_eq,
  AllItems, Each,
}
use qnsc_kb_backend.Text.{Text, codes, text_eq, text_beq, is_blank, words, join}
use qnsc_kb_backend.AclAuto.{
  Principal, Department, User, AutoResolution, after_bar, match_department, matching,
  normalize_group_name, normalize_department_name, only, replace_phrases, drop_roles, join_names,
}
use qnsc_kb_backend.AclAuto.Resolution.{
  add, add_all, kind_of, is_pending, is_company, auto_resolve, enabled, keys_of, resolve_pending,
  settle_company, settle_whole, settle_people, settle_person, settle_groups, settle_group,
  groups_of, unmatched_people, wanted_emails, emails_of, addresses_in, users_by_email, index_rows,
  company_departments, first_hit, is_ignored, principal_key,
}
use qnsc_kb_backend.AclAuto.People.{IsPerson, auto_resolve-IsPerson}
use qnsc_kb_backend.AclAuto.Groups.{IsGranted, auto_resolve-IsGranted}

abbrev same_text : Text → Text
same_text t = t

abbrev whole_text : Text → List Text
whole_text t = t ∷ []

abbrev acme : Text
acme = codes "acme.vn"

abbrev principal_of : String → String → String → Principal
principal_of kind id name_text = record {
  principal_type = codes kind;
  principal_id = codes id;
  principal_name = codes name_text;
  principal_login = [];
  principal_email = [];
}

abbrev principals : List Principal
principals =
    principal_of "user" "an@acme.vn" "An"
    ∷ principal_of "siteGroup" "g1" "finance members"
    ∷ principal_of "link" "link:users" "Link"
    ∷ []

abbrev departments : List Department
departments =
    record { id = 5; name = codes "finance"; company_domain = acme; active = true }
    ∷ record { id = 6; name = codes "sales"; company_domain = acme; active = true }
    ∷ []

abbrev users : List User
users = record { id = 3; email = codes "an@acme.vn"; company_domain = acme; active = true } ∷ []

abbrev resolution : AutoResolution
resolution =
    auto_resolve same_text same_text whole_text true none departments users acme principals [] []

granted : (resolution.department_ids ≡ 5 ∷ []) × (resolution.users ≡ (codes "an@acme.vn", 3) ∷ [])
unfolding auto_resolve enabled resolve_pending settle_company settle_whole settle_people
    settle_person settle_groups settle_group groups_of unmatched_people wanted_emails emails_of
    addresses_in after_bar users_by_email index_rows company_departments first_hit is_ignored
    is_company is_pending kind_of principal_key add add_all match_department matching
    normalize_group_name normalize_department_name only replace_phrases drop_roles join_names
    text_beq is_blank words join
granted = (refl, refl)

count_keys : length (keys_of resolution) ≡ 3
unfolding keys_of auto_resolve enabled resolve_pending settle_company settle_whole settle_people
    settle_person settle_groups settle_group groups_of unmatched_people wanted_emails emails_of
    addresses_in after_bar users_by_email index_rows company_departments first_hit is_ignored
    is_company is_pending kind_of principal_key add add_all match_department matching
    normalize_group_name normalize_department_name only replace_phrases drop_roles join_names
    text_beq is_blank words join
count_keys = refl

auto_resolve-IsPerson_example :
    AllItems (IsPerson same_text users acme whole_text principals []) resolution.users
auto_resolve-IsPerson_example =
    auto_resolve-IsPerson same_text same_text whole_text departments users acme principals [] []
      true none

auto_resolve-IsGranted_example :
    Each
      (IsGranted same_text departments acme (filter (is_pending []) principals))
      resolution.department_ids
auto_resolve-IsGranted_example =
    auto_resolve-IsGranted same_text same_text whole_text departments users acme principals [] []
      true none
