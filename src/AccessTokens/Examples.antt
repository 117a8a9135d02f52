-- ===== src/AccessTokens/Examples.antt =====
-- A user with two tokens, and the theorems on src/domain/access_tokens.py at them.
use qnsc_kb_backend.Prelude.{
  ℕ, ◌+◌, ◌*◌, ◌<◌, String, ◌≡◌, refl, ◌≢◌, true, none, some, List, [], ◌∷◌, ◌++◌, Memᴰ, arith,
  nat_eq, string_eq, option_eq,
}
use qnsc_kb_backend.AccessTokens.{
  PersonalAccessToken, Owner, TokenPrincipal, revoke_token, create_token, principal,
  authenticate_token,
}
use qnsc_kb_backend.AccessTokens.RoundTrip.{created_token-authenticates}
use qnsc_kb_backend.AccessTokens.Lifetime.{authenticate_sound, revoked_token_is_refused}

abbrev token : ℕ → String → PersonalAccessToken
token id hash = record {
  id = id;
  user_id = 3;
  name = "laptop";
  token_prefix = "kbpat_abcd";
  token_hash = hash;
  scope = "read";
  expires_at = 5000;
  last_used_at = none;
  revoked_at = none;
}

abbrev tokens : List PersonalAccessToken
tokens = token 1 "kbpat_first" ∷ token 2 "kbpat_second" ∷ []

abbrev owner : Owner
owner = record { id = 3; email = "an@acme.vn"; auth_version = 1; active = true }

abbrev same_text : String → String
same_text t = t

abbrev second_principal : TokenPrincipal
second_principal = record {
  token_id = 2;
  user_id = 3;
  email = "an@acme.vn";
  auth_version = 1;
  scope = "read";
}

second_authenticates :
    (authenticate_token same_text same_text 400 (owner ∷ []) (some "kbpat_second") tokens).1
    ≡ some second_principal
unfolding authenticate_token
second_authenticates = refl

authenticate_sound_example :
    (item : PersonalAccessToken) × (user : Owner) × Memᴰ item tokens
    × (item.token_hash ≡ "kbpat_second")
    × (item.revoked_at ≡ none)
    × (400 < item.expires_at)
    × Memᴰ user (owner ∷ [])
    × (user.id ≡ item.user_id)
    × (user.active ≡ true)
    × (second_principal ≡ principal same_text item user)
authenticate_sound_example =
    authenticate_sound same_text same_text 400 (owner ∷ []) (some "kbpat_second") tokens
      second_principal second_authenticates

second_authenticates_still :
    (authenticate_token same_text same_text 400
      (owner ∷ [])
      (some "kbpat_second")
      (revoke_token 300 3 1 tokens).0).1
    ≡ some second_principal
unfolding authenticate_token revoke_token
second_authenticates_still = refl

revoked_token_is_refused_example : second_principal.token_id ≢ 1
revoked_token_is_refused_example =
    revoked_token_is_refused same_text same_text 400 (owner ∷ []) 300 3 1 (some "kbpat_second")
      tokens second_principal second_authenticates_still refl

abbrev third : PersonalAccessToken
third = record {
  id = 7;
  user_id = 3;
  name = "desktop";
  token_prefix = "kbpat_thir";
  token_hash = "kbpat_third";
  scope = "write";
  expires_at = 400 + 30 * 86_400;
  last_used_at = none;
  revoked_at = none;
}

third_created :
    create_token same_text same_text 90 400 7 3 "third" "desktop" "write" 30 tokens
    ≡ some (tokens ++ third ∷ [], third, "kbpat_third")
unfolding create_token
third_created = refl

created_token-authenticates_example :
    (authenticate_token same_text same_text 500
      (owner ∷ [])
      (some "kbpat_third")
      (tokens ++ third ∷ [])).1
    ≡ some (record {
      token_id = 7;
      user_id = 3;
      email = "an@acme.vn";
      auth_version = 1;
      scope = "write";
    })
created_token-authenticates_example =
    created_token-authenticates same_text same_text same_text 90 400 500 7 3 "third" "desktop"
      "write" 30 tokens (tokens ++ third ∷ []) third "kbpat_third" (owner ∷ []) owner third_created
      (omega arith) refl (omega arith) refl refl
