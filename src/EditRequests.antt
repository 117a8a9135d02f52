-- ===== src/EditRequests.antt =====
-- `create_article_edit_request` of src/domain/article_edit_requests.py. `trim` is Python's `.strip()`,
-- `found` the article where the reader's scope holds it. A null requester never asks.
pub mod Single
mod Examples
use Prim.Native.String.{count}
use qnsc_kb_backend.Prelude.{
  ℕ, String, Bool, true, false, not, ◌&&◌, Option, none, some, List, [], ◌∷◌, ◌++◌, map, ltb,
  nat_beq, if◌then◌else◌, take, filter, ◌==◌, nat_eq, string_eq, option_eq, find,
}
use qnsc_kb_backend.Accounts.{User, Article}
use qnsc_kb_backend.Permissions.{can_edit_article}
use qnsc_kb_backend.Governance.{
  not_found, conflict, unprocessable, Result, ok, err, raise_if, ◌>>=◌, ◌>>◌,
}

pub record EditRequest : Type 0 where
  pub id : ℕ
  pub company_domain : Option String
  pub article_id : ℕ
  pub requested_by : ℕ
  pub request_text : String
  pub status : String

-- What the call leaves: the table, whom it notifies, and whether it took an open request on.
pub record Outcome : Type 0 where
  pub rows : List EditRequest
  pub notified : List ℕ
  pub deduplicated : Bool

pub is_open_for : ℕ → ℕ → EditRequest → Bool
is_open_for article_id user_id r =
    nat_beq r.article_id article_id && nat_beq r.requested_by user_id && r.status == "open"

pub in_company : Option String → User → Bool
in_company none user = true
in_company (some company_domain) user = user.company_domain == company_domain

-- The first 500 active users of the company who may edit the article.
pub editors : List User → User → Article → List User
unfolding in_company
editors users current_user article =
    filter (λ u. not (nat_beq u.id current_user.id) && can_edit_article u article)
      (take 500 (filter (λ u. in_company article.resource.company_domain u && u.active) users))

-- The open request gets the new text, or a new one is added.
pub record_request : ℕ → ℕ → User → Article → String → List EditRequest → List EditRequest × Bool
unfolding is_open_for
record_request new_id article_id current_user article text rows =
    elim (find (is_open_for article_id current_user.id) rows) [
      | some existing ↦ (
        map (λ r. if nat_beq r.id existing.id then record r { request_text = text } else r) rows,
        true,
      )
      | none ↦ (
        rows
            ++ record {
              id = new_id;
              company_domain = article.resource.company_domain;
              article_id = article_id;
              requested_by = current_user.id;
              request_text = text;
              status = "open";
            }
              ∷ [],
        false,
      )
    ]

pub create_article_edit_request :
    (String → String)
    → ℕ
    → List User
    → User
    → ℕ
    → Option Article
    → String
    → List EditRequest
    → Result Outcome
unfolding editors record_request
create_article_edit_request trim new_id users current_user article_id found request_text rows =
    elim found [
      | none ↦ err not_found
      | some article ↦ do
        raise_if (can_edit_article current_user article) conflict
        raise_if (ltb (count (trim request_text)) 5) unprocessable
        let recorded =
            record_request new_id article_id current_user article (trim request_text) rows
        ok (record {
          rows = recorded.0;
          notified = map User.id (editors users current_user article);
          deduplicated = recorded.1;
        })
    ]
