-- ===== src/AccessTokens/RoundTrip.antt =====
-- A new token and the credential that its user is given: src/domain/access_tokens.py.
use qnsc_kb_backend.Prelude.{
  ℕ, ◌+◌, ◌*◌, ◌≤◌, ◌<◌, String, ◌≡◌, refl, sym, ap, ◌∙◌, inl, inr, Bool, true, false, none, some,
  List, [], ◌∷◌, ◌++◌, arith, ltb, nat_beq, lt→ltb, le→leb, Bool-cases, &&-eq-true, any, ◌==◌,
  nat_eq, string_eq, option_eq, find, find-append, elem, eq_iff,
}
use Prim.Native.String.{count, slice}
use text.Mathlib.TextPositions.{starts_with-append}
use text.Mathlib.TextLemmas.{length-append}
use qnsc_kb_backend.AccessTokens.{
  PersonalAccessToken, Owner, looks_like_token, is_live, matches, principal, admit,
  authenticate_token, create_token, new_token, token_prefix_text, clamp_days, day, scopes,
}

any-weaken :
    {A : Type 0} (p q : A → Bool)
    → ((a : A) → q a ≡ true → p a ≡ true)
    → (xs : List A) → any p xs ≡ false
    → any q xs ≡ false
any-weaken p q k [] h = refl
any-weaken p q k (x ∷ xs) h = elim (Bool-cases (q x)) [
  | inl e ↦ absurd (cc (rw (k x e) at h))
  | inr e ↦ elim (Bool-cases (p x)) [
    | inl d ↦ absurd (cc (rw (d) at h))
    | inr d ↦ rw (e) (any-weaken p q k xs (rw (d) at h))
  ]
]

-- A token lives for at least a day.
clamp_days-lifetime :
    (max_days days now later : ℕ) → later < now + day → later < now + clamp_days max_days days * day
unfolding clamp_days
clamp_days-lifetime max_days days now later h =
    let least : 1 ≤ clamp_days max_days days = omega arith in omega arith

new_token-looks :
    (random : String) → count random ≤ 122 → looks_like_token (some (new_token random)) ≡ true
unfolding looks_like_token new_token
new_token-looks random h =
    let size = length-append token_prefix_text random in
    rw (looks_like_token, starts_with-append token_prefix_text random, size)
      (le→leb _ 128 (omega (arith, h)))

module _ (hash fold trim : String → String) where
  find_created :
      (later : ℕ) (raw : String) (rows : List PersonalAccessToken) (item : PersonalAccessToken)
      → any (λ t. t.token_hash == hash raw) rows ≡ false
      → matches hash later raw item ≡ true
      → find (matches hash later raw) (rows ++ item ∷ []) ≡ some item
  unfolding matches
  find_created later raw rows item fresh m =
      let unmatched =
        any-weaken (λ t. t.token_hash == hash raw) (matches hash later raw)
          (λ t h. (&&-eq-true (t.token_hash == hash raw) (is_live later t) h).0) rows fresh in
      find-append (matches hash later raw) rows (item ∷ []) unmatched ∙ (rw (m) refl)

  admit-principal :
      (later : ℕ) (users : List Owner) (rows : List PersonalAccessToken)
      (item : PersonalAccessToken) (user : Owner)
      → find (λ u. nat_beq u.id item.user_id) users ≡ some user
      → user.active ≡ true
      → (admit fold later users rows item).1 ≡ some (principal fold item user)
  unfolding admit
  admit-principal later users rows item user f a = rw (admit, f, a) refl

  create_token_ok :
      (max_days now id user_id : ℕ) (random name scope : String) (days : ℕ)
      (rows rows' : List PersonalAccessToken) (item : PersonalAccessToken) (raw : String)
      → create_token hash trim max_days now id user_id random name scope days rows
        ≡ some (rows', item, raw)
      → (raw ≡ new_token random)
        × (rows' ≡ rows ++ item ∷ [])
        × (item.id ≡ id)
        × (item.user_id ≡ user_id)
        × (item.token_hash ≡ hash (new_token random))
        × (item.scope ≡ scope)
        × (item.expires_at ≡ now + clamp_days max_days days * day)
        × (item.revoked_at ≡ none)
  unfolding create_token new_token
  create_token_ok max_days now id user_id random name scope days rows rows' item raw h =
      elim (Bool-cases (elem scope scopes)) [
        | inr e ↦ absurd (cc (rw (create_token, e) at h))
        | inl e ↦
            let made : PersonalAccessToken = record {
              id = id;
              user_id = user_id;
              name = trim name;
              token_prefix = slice (new_token random) 0 10;
              token_hash = hash (new_token random);
              scope = scope;
              expires_at = now + clamp_days max_days days * day;
              last_used_at = none;
              revoked_at = none;
            } in
            let same : some (rows ++ made ∷ [], made, new_token random) ≡ some (rows', item, raw) =
              rw (create_token, e) at h in
            let pair : (rows ++ made ∷ [], made, new_token random) ≡ (rows', item, raw) = cc same in
            let q : made ≡ item =
              ap (λ (x : List PersonalAccessToken × PersonalAccessToken × String). x.1) pair in
            let l : rows' ≡ rows ++ made ∷ [] =
              sym
                (ap (λ (x : List PersonalAccessToken × PersonalAccessToken × String). x.0) pair) in
            let t : raw ≡ new_token random =
              sym
                (ap (λ (x : List PersonalAccessToken × PersonalAccessToken × String). x.2) pair) in
            rw (← q) (t, l, refl, refl, refl, refl, refl, refl)
      ]

  -- The raw value that the creation of a token returns authenticates as its user with the token's
  -- scope, for a day at least, when the random part has at most 122 characters (it has 43), no older
  -- token has the same hash, and the user is found and active.
  pub created_token-authenticates :
      (max_days now later id user_id : ℕ) (random name scope : String) (days : ℕ)
      (rows rows' : List PersonalAccessToken) (item : PersonalAccessToken) (raw : String)
      (users : List Owner) (user : Owner)
      → create_token hash trim max_days now id user_id random name scope days rows
        ≡ some (rows', item, raw)
      → count random ≤ 122
      → any (λ t. t.token_hash == hash raw) rows ≡ false
      → later < now + day
      → find (λ u. nat_beq u.id user_id) users ≡ some user
      → user.active ≡ true
      → (authenticate_token hash fold later users (some raw) rows').1
        ≡ some (record {
          token_id = id;
          user_id = user.id;
          email = fold user.email;
          auth_version = user.auth_version;
          scope = scope;
        })
  unfolding authenticate_token matches is_live principal
  created_token-authenticates max_days now later id user_id random name scope days rows rows' item
        raw users user h short fresh soon f a =
      let (t, e, i, u, k0, s, x, r) =
        create_token_ok max_days now id user_id random name scope days rows rows' item raw h in
      let k : item.token_hash ≡ hash raw = rw (t) k0 in
      let looks : looks_like_token (some raw) ≡ true = rw (t) (new_token-looks random short) in
      let lives : later < item.expires_at =
        rw (x) (clamp_days-lifetime max_days days now later soon) in
      let same_hash : (item.token_hash == hash raw) ≡ true =
        (eq_iff item.token_hash (hash raw)).1 k in
      let live : ltb later item.expires_at ≡ true = lt→ltb later item.expires_at lives in
      let m : matches hash later raw item ≡ true = rw (matches, same_hash, is_live, r, live) refl in
      let found = find_created later raw rows item fresh m in
      rw (authenticate_token, looks, e, found)
        (admit-principal later users rows' item user (rw (u) f) a ∙ rw (principal, i, s) refl)
