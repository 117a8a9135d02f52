-- ===== src/AccessTokens.antt =====
-- src/domain/access_tokens.py: personal access tokens. A time is a number of seconds. `hash` stands
-- for SHA-256, `fold` for `.strip().lower()` and `trim` for `.strip()`; the random part of a new
-- token is an argument.
pub mod Lifetime
pub mod RoundTrip
mod Examples
use Prim.Native.String.{count, slice, ◌++◌ as append_text}
use text.Mathlib.Text.{starts_with}
use Prim.Native.String
use qnsc_kb_backend.Prelude.{
  ℕ, zero, suc, ◌+◌, ◌-◌, ◌*◌, ◌/◌, ◌%◌, ◌^◌, ◌≤◌, ◌<◌, min, max, String, ◌≡◌, refl, sym, ap, ◌∙◌,
  ◌≢◌, ◌↔◌, ◌⊎◌, inl, inr, Bool, true, false, not, ◌&&◌, ◌||◌, Option, none, some, List, [], ◌∷◌,
  ◌++◌, map, Memᴰ, arith, ltb, leb, nat_beq, nat_beq_iff, if◌then◌else◌, ltb→lt, lt→ltb, leb→le,
  le→leb, tests, Bool-cases, Option-cases, &&-eq-true, ||-eq-true, is_some, get_or, length, take,
  length-append, any, all, filter, any-Memᴰ, any_of_Memᴰ, Memᴰ-filter, filter_of_Memᴰ,
  length-filter, Eq, ◌==◌, nat_eq, string_eq, option_eq, List-cases, not-Memᴰ-nil, find, find-Memᴰ,
  find-append, elem, elem-Memᴰ, Memᴰ-elem, lookup, insert, lookup-insert, option_beq_iff, eq_iff,
}

pub record PersonalAccessToken : Type 0 where
  pub id : ℕ
  pub user_id : ℕ
  pub name : String
  pub token_prefix : String
  pub token_hash : String
  pub scope : String
  pub expires_at : ℕ
  pub last_used_at : Option ℕ
  pub revoked_at : Option ℕ

-- The columns of the owner that are read.
pub record Owner : Type 0 where
  pub id : ℕ
  pub email : String
  pub auth_version : ℕ
  pub active : Bool

pub record TokenPrincipal : Type 0 where
  pub token_id : ℕ
  pub user_id : ℕ
  pub email : String
  pub auth_version : ℕ
  pub scope : String

can_write : TokenPrincipal → Bool
can_write p = p.scope == "write"

abbrev pub token_prefix_text : String
token_prefix_text = "kbpat_"

abbrev scopes : List String
scopes = "read" ∷ "write" ∷ []

-- LAST_USED_RESOLUTION, in seconds
abbrev last_used_resolution : ℕ
last_used_resolution = 300

abbrev day : ℕ
day = 86_400

pub looks_like_token : Option String → Bool
looks_like_token none = false
looks_like_token (some raw) = starts_with raw token_prefix_text && leb (count raw) 128

-- `random` stands for `secrets.token_urlsafe(32)`.
pub new_token : String → String
new_token random = append_text token_prefix_text random

pub is_live : ℕ → PersonalAccessToken → Bool
is_live now item = not (is_some item.revoked_at) && ltb now item.expires_at

-- The `revoked` and `expired` fields of `token_view`.
token_view : ℕ → PersonalAccessToken → Bool × Bool
token_view now item = (is_some item.revoked_at, leb item.expires_at now)

list_tokens : ℕ → List PersonalAccessToken → List PersonalAccessToken
list_tokens user_id rows = filter (λ t. nat_beq t.user_id user_id) rows

count_live_tokens : ℕ → ℕ → List PersonalAccessToken → ℕ
unfolding list_tokens is_live
count_live_tokens now user_id rows = length (filter (is_live now) (list_tokens user_id rows))

-- max(1, min(expires_in_days, settings.MCP_TOKEN_MAX_DAYS))
clamp_days : ℕ → ℕ → ℕ
clamp_days max_days expires_in_days = max 1 (min expires_in_days max_days)

-- The rows, the new token and its raw value; `none` is the ValueError for an unknown scope.
pub create_token :
    (String → String)
    → (String → String)
    → ℕ
    → ℕ
    → ℕ
    → ℕ
    → String
    → String
    → String
    → ℕ
    → List PersonalAccessToken
    → Option (List PersonalAccessToken × PersonalAccessToken × String)
unfolding clamp_days new_token
create_token hash trim max_days now id user_id random name scope expires_in_days rows =
    let raw = new_token random in
    let item : PersonalAccessToken = record {
      id = id;
      user_id = user_id;
      name = trim name;
      token_prefix = slice raw 0 10;
      token_hash = hash raw;
      scope = scope;
      expires_at = now + clamp_days max_days expires_in_days * day;
      last_used_at = none;
      revoked_at = none;
    } in
    if elem scope scopes then some (rows ++ item ∷ [], item, raw) else none

pub revoke : ℕ → PersonalAccessToken → PersonalAccessToken
revoke now item = elim item.revoked_at [
  | none ↦ record item { revoked_at = some now }
  | some _ ↦ item
]

pub is_token : ℕ → ℕ → PersonalAccessToken → Bool
is_token user_id token_id item = nat_beq item.id token_id && nat_beq item.user_id user_id

-- The rows afterwards, and the token, if the user has it.
pub revoke_token :
    ℕ → ℕ → ℕ → List PersonalAccessToken → List PersonalAccessToken × Option PersonalAccessToken
unfolding is_token revoke
revoke_token now user_id token_id rows = elim (find (is_token user_id token_id) rows) [
  | none ↦ (rows, none)
  | some item ↦ (
    map (λ t. if is_token user_id token_id t then revoke now t else t) rows,
    some (revoke now item),
  )
]

pub matches : (String → String) → ℕ → String → PersonalAccessToken → Bool
unfolding is_live
matches hash now raw item = item.token_hash == hash raw && is_live now item

needs_touch : ℕ → PersonalAccessToken → Bool
needs_touch now item = elim item.last_used_at [
  | none ↦ true
  | some used ↦ ltb last_used_resolution (now - used)
]

-- UPDATE ... SET last_used_at WHERE id
touch : ℕ → PersonalAccessToken → List PersonalAccessToken → List PersonalAccessToken
unfolding needs_touch
touch now item rows =
    if needs_touch now item
    then map (λ t. if nat_beq t.id item.id then record t { last_used_at = some now } else t) rows
    else rows

pub principal : (String → String) → PersonalAccessToken → Owner → TokenPrincipal
principal fold item user = record {
  token_id = item.id;
  user_id = user.id;
  email = fold user.email;
  auth_version = user.auth_version;
  scope = item.scope;
}

-- The join with the owner's row, and the test on it.
pub admit :
    (String → String)
    → ℕ
    → List Owner
    → List PersonalAccessToken
    → PersonalAccessToken
    → List PersonalAccessToken × Option TokenPrincipal
unfolding touch principal
admit fold now users rows item = elim (find (λ u. nat_beq u.id item.user_id) users) [
  | none ↦ (rows, none)
  | some user ↦
      if not user.active
      then (rows, none)
      else (touch now item rows, some (principal fold item user))
]

pub authenticate_token :
    (String → String)
    → (String → String)
    → ℕ
    → List Owner
    → Option String
    → List PersonalAccessToken
    → List PersonalAccessToken × Option TokenPrincipal
unfolding looks_like_token matches admit
authenticate_token hash fold now users raw rows =
    if not (looks_like_token raw)
    then (rows, none)
    else elim (find (matches hash now (get_or raw "")) rows) [
      | none ↦ (rows, none)
      | some item ↦ admit fold now users rows item
    ]
