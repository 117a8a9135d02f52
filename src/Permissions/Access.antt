-- ===== src/Permissions/Access.antt =====
-- Whom `can_view_article` of src/domain/permissions.py lets in.
use qnsc_kb_backend.Prelude.{
  String, ◌==◌, refl, sym, ◌∙◌, inl, inr, Bool-cases, ◌≡◌, ◌≢◌, Bool, true, false, not, ◌&&◌, ◌||◌,
  arith, nat_eq, string_eq, option_eq, eq_iff,
}
use qnsc_kb_backend.Accounts.{User, Article}
use qnsc_kb_backend.Rbac.{has_full_company_article_access, can_access_article_departments}
use qnsc_kb_backend.Permissions.{
  source_allows, unset, is_allow, is_deny, explicit_user_effect, shares_department,
  source_acl_allows, is_live, is_unpublished, allowed_at, all_scopes, may_inspect, audience_allows,
  can_view_article,
}

-- What every view passes before the audience is looked at.
abbrev passes_gates : User → Article → Bool
passes_gates user article =
    is_live article
    && allowed_at user "article.read" article all_scopes
    && not (is_deny (explicit_user_effect user article))
    && source_acl_allows user article

-- An article for selected users is shown to exactly the users with an allow override who pass the
-- gates, whatever its publication status is.
users_visibility :
    (user : User) (article : Article)
    → article.visibility ≡ "users"
    → can_view_article user article
      ≡ (passes_gates user article && is_allow (explicit_user_effect user article))
unfolding can_view_article
users_visibility user article e = ground (arith, eq_iff article.visibility "users")

-- For any other visibility, the view is the gates, the publication rule and the audience.
audience_visibility :
    (user : User) (article : Article)
    → article.visibility ≢ "users"
    → can_view_article user article ≡ (
        passes_gates user article
        && (not (is_unpublished article) || may_inspect user article)
        && audience_allows user article (explicit_user_effect user article))
unfolding can_view_article
audience_visibility user article e = ground (arith, eq_iff article.visibility "users")

-- An ordinary reader with no allow override views a restricted article only through a department
-- that the article names explicitly, and only as a member of its audience.
pub restricted_needs_department :
    (user : User) (article : Article)
    → article.sensitivity ≡ "restricted"
    → article.visibility ≢ "users"
    → has_full_company_article_access user ≡ false
    → explicit_user_effect user article ≡ unset
    → can_view_article user article ≡ true
    → (shares_department user article ≡ true)
      × (can_access_article_departments user article.resource ≡ true)
unfolding can_view_article audience_allows
restricted_needs_department user article r v f u h =
    ground (arith, eq_iff article.visibility "users", eq_iff article.sensitivity "restricted")

not_deleted : (status : String) → status ≢ "deleted" → (status == "deleted") ≡ false
not_deleted status n = elim (Bool-cases (status == "deleted")) [
  | inl e ↦ absurd (n ((eq_iff status "deleted").0 e))
  | inr e ↦ e
]

-- For an article for selected users, the publication status does not matter to any user: with any two
-- statuses but "deleted", a draft's or an archived article's among them, the answer is the same.
pub can_view_article-ignores_status :
    (user : User) (article : Article) (status : String)
    → article.visibility ≡ "users"
    → article.status ≢ "deleted"
    → status ≢ "deleted"
    → can_view_article user (record article { status = status }) ≡ can_view_article user article
unfolding is_live explicit_user_effect source_acl_allows allowed_at source_allows shares_department
can_view_article-ignores_status user article status e n k =
    let other = users_visibility user (record article { status = status }) e in
    let same = users_visibility user article e in
    other ∙ (rw (not_deleted status k, not_deleted article.status n) refl) ∙ sym same
