-- ===== src/AccessTokens/Lifetime.antt =====
-- From creation to revocation: src/domain/access_tokens.py.
use qnsc_kb_backend.Prelude.{
  ℕ, ◌<◌, String, ◌≡◌, ◌≢◌, inl, inr, Bool, true, false, not, Option, none, some, List, [], ◌∷◌,
  map, Memᴰ, arith, ltb, nat_beq, nat_beq_iff, if◌then◌else◌, ltb→lt, Bool-cases, Option-cases,
  &&-eq-true, is_some, get_or, ◌==◌, nat_eq, string_eq, option_eq, find, find-Memᴰ, eq_iff,
}
use qnsc_kb_backend.AccessTokens.{
  PersonalAccessToken, Owner, TokenPrincipal, looks_like_token, is_live, revoke, is_token,
  revoke_token, matches, principal, admit, authenticate_token,
}

module _ (hash fold : String → String) (now : ℕ) (users : List Owner) where
  admitted :
      (rows : List PersonalAccessToken) (item : PersonalAccessToken) (p : TokenPrincipal)
      → (admit fold now users rows item).1 ≡ some p
      → (user : Owner) × Memᴰ user users
        × (user.id ≡ item.user_id)
        × (user.active ≡ true)
        × (p ≡ principal fold item user)
  unfolding admit
  admitted rows item p h = elim (Option-cases (find (λ u. nat_beq u.id item.user_id) users)) [
    | inl n ↦ absurd (cc (rw (n, admit) at h))
    | inr q ↦
        let (m, e) = find-Memᴰ (λ u. nat_beq u.id item.user_id) users q.0 q.1 in
        (q.0, m, (nat_beq_iff q.0.id item.user_id).0 e, ground (arith, q.1), ground (arith, q.1))
  ]

  matches_lem :
      (raw : String) (item : PersonalAccessToken)
      → matches hash now raw item ≡ true
      → (item.token_hash ≡ hash raw) × (item.revoked_at ≡ none) × (now < item.expires_at)
  unfolding matches is_live
  matches_lem raw item h =
      let (same_hash, live) = &&-eq-true (item.token_hash == hash raw) (is_live now item) h in
      let (kept, fresh) =
        &&-eq-true (not (is_some item.revoked_at)) (ltb now item.expires_at) live in
      (
        (eq_iff item.token_hash (hash raw)).0 same_hash,
        elim (Option-cases item.revoked_at) [
          | inl n ↦ n
          | inr q ↦ absurd (cc (rw (q.1, is_some) at kept))
        ],
        ltb→lt now item.expires_at fresh,
      )

  -- Whoever authenticates presents a token whose hash is stored, that is neither revoked nor
  -- expired, and acts as its owner, who is active, at the scope of the token.
  pub authenticate_sound :
      (raw : Option String) (rows : List PersonalAccessToken) (p : TokenPrincipal)
      → (authenticate_token hash fold now users raw rows).1 ≡ some p
      → (item : PersonalAccessToken) × (user : Owner) × Memᴰ item rows
        × (item.token_hash ≡ hash (get_or raw ""))
        × (item.revoked_at ≡ none)
        × (now < item.expires_at)
        × Memᴰ user users
        × (user.id ≡ item.user_id)
        × (user.active ≡ true)
        × (p ≡ principal fold item user)
  unfolding authenticate_token
  authenticate_sound raw rows p h = elim (Bool-cases (looks_like_token raw)) [
    | inr e ↦ absurd (cc (rw (e, authenticate_token) at h))
    | inl e ↦ elim (Option-cases (find (matches hash now (get_or raw "")) rows)) [
      | inl n ↦ absurd (cc (rw (e, n, authenticate_token) at h))
      | inr q ↦
          let (m, t) = find-Memᴰ (matches hash now (get_or raw "")) rows q.0 q.1 in
          let (user, i, s, a, same) = admitted rows q.0 p (rw (e, q.1, authenticate_token) at h) in
          let (k, r, l) = matches_lem (get_or raw "") q.0 t in
          (q.0, user, m, k, r, l, i, s, a, same)
    ]
  ]

  revoke-IsRevoked :
      (when : ℕ) (t : PersonalAccessToken) → is_some (revoke when t).revoked_at ≡ true
  unfolding revoke
  revoke-IsRevoked when t = elim (Option-cases t.revoked_at) [
    | inl n ↦ simp (n, revoke)
    | inr u ↦ simp (u.1, revoke)
  ]

  revoked :
      (when user_id token_id : ℕ) (rows : List PersonalAccessToken) (item : PersonalAccessToken)
      → Memᴰ item (map (λ t. if is_token user_id token_id t then revoke when t else t) rows)
      → is_token user_id token_id item ≡ true
      → is_some item.revoked_at ≡ true
  unfolding is_token revoke
  revoked when user_id token_id [] item m h = elim m [ ]
  revoked when user_id token_id (t ∷ rest) item (Memᴰ.tail m) h =
      revoked when user_id token_id rest item m h
  revoked when user_id token_id (t ∷ rest) item (Memᴰ.head q) h =
      elim (Bool-cases (is_token user_id token_id t)) [
        | inr e ↦ let k : item ≡ t = rw e at q in absurd (cc (rw (k, e) at h))
        | inl e ↦ let k : item ≡ revoke when t = rw e at q in rw k (revoke-IsRevoked when t)
      ]

  missing :
      (p : PersonalAccessToken → Bool) (rows : List PersonalAccessToken)
      (item : PersonalAccessToken)
      → find p rows ≡ none
      → Memᴰ item rows
      → p item ≡ false
  missing p [] item h m = elim m [ ]
  missing p (t ∷ rest) item h m = elim (Bool-cases (p t)) [
    | inl e ↦ absurd (cc (rw e at h))
    | inr e ↦ elim m [ Memᴰ.head q ↦ rw q e | Memᴰ.tail k ↦ missing p rest item (rw e at h) k ]
  ]

  -- Once a user has revoked a token of theirs, no credential authenticates as that token any more,
  -- at whatever time it is presented.
  pub revoked_token_is_refused :
      (when user_id token_id : ℕ) (raw : Option String) (rows : List PersonalAccessToken)
      (p : TokenPrincipal)
      → (authenticate_token hash fold now users raw (revoke_token when user_id token_id rows).0).1
        ≡ some p
      → p.user_id ≡ user_id
      → p.token_id ≢ token_id
  unfolding revoke_token is_token matches is_live principal
  revoked_token_is_refused when user_id token_id raw rows p h u t =
      let (item, owner, m, _, live, _, _, owned, _, same) =
        authenticate_sound raw (revoke_token when user_id token_id rows).0 p h in
      let i : item.id ≡ token_id = cc in
      let o : item.user_id ≡ user_id = cc in
      let own : is_token user_id token_id item ≡ true = ground arith in
      elim (Option-cases (find (is_token user_id token_id) rows)) [
        | inl n ↦ cc (missing (is_token user_id token_id) rows item n (rw (n, revoke_token) at m))
        | inr q ↦
            let r = revoked when user_id token_id rows item (rw (q.1, revoke_token) at m) own in
            ground arith
      ]
