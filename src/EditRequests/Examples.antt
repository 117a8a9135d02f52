-- ===== src/EditRequests/Examples.antt =====
-- A reader who asks twice for a correction, and the theorem on src/domain/article_edit_requests.py at
-- the second request.
use qnsc_kb_backend.Prelude.{
  ℕ, String, ◌≡◌, refl, true, none, some, [], ◌∷◌, arith, nat_eq, string_eq, option_eq,
}
use qnsc_kb_backend.Accounts.{User, Article}
use qnsc_kb_backend.Governance.{ok, ◌>>=◌, raise_if}
use qnsc_kb_backend.EditRequests.{EditRequest, Outcome, create_article_edit_request}
use qnsc_kb_backend.EditRequests.Single.{IsSingle, create_article_edit_request-IsSingle}
use qnsc_kb_backend.Permissions.{can_edit_article}
use qnsc_kb_backend.Rbac.{has_permission, compatibility_scope, default_scope, scope_allows}

abbrev user : ℕ → String → User
user id role = record {
  id = id;
  company_domain = "acme.vn";
  dept = none;
  role = role;
  active = true;
  departments = [];
  department_ownerships = [];
  roles = [];
}

abbrev article : Article
article = record {
  resource = record {
    company_domain = some "acme.vn";
    departments = [];
    dept = none;
    owner_id = some 9;
  };
  status = "published";
  lifecycle_status = some "active";
  visibility = "public";
  sensitivity = "public";
  user_permissions = [];
  source_systems = [];
}

abbrev request : String → EditRequest
request text = record {
  id = 1;
  company_domain = some "acme.vn";
  article_id = 30;
  requested_by = 5;
  request_text = text;
  status = "open";
}

abbrev repeated : Outcome
repeated = record {
  rows = request "The rate is 8 percent." ∷ [];
  notified = 2 ∷ [];
  deduplicated = true;
}

repeated_ok :
    create_article_edit_request
      (λ t. t)
      2
      (user 5 "Staff" ∷ user 2 "CEO" ∷ [])
      (user 5 "Staff")
      30
      (some article)
      "The rate is 8 percent."
      (request "The rate is wrong." ∷ [])
    ≡ ok repeated
unfolding create_article_edit_request ◌>>=◌ raise_if can_edit_article has_permission
    compatibility_scope default_scope scope_allows
repeated_ok = refl

asked-IsSingle : IsSingle (request "The rate is wrong." ∷ [])
asked-IsSingle a u = ground arith

create_article_edit_request-IsSingle_example : IsSingle repeated.rows
create_article_edit_request-IsSingle_example =
    create_article_edit_request-IsSingle (λ t. t) 2 (user 5 "Staff" ∷ user 2 "CEO" ∷ [])
      (user 5 "Staff") 30 (some article) "The rate is 8 percent."
      (request "The rate is wrong." ∷ []) repeated asked-IsSingle repeated_ok
