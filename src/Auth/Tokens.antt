-- ===== src/Auth/Tokens.antt =====
-- backend/internal/auth/service.go: what the two tokens of a pair are good for.
use trabalho_radio_px.Prelude.{
  ℕ, ◌+◌, String, ◌≡◌, sym, ◌∙◌, refl, true, false, not, Bool-cases, Option-cases, inl, inr, some,
  ltb, if◌then◌else◌, ◌==◌, eq_refl,
}
use trabalho_radio_px.Auth.{
  AuthUser, Claims, TokenPair, ok, err, invalid_token, token_expired, Jwt, UserService, parsed,
  expired, token_expiry, refresh_expiry, key_of, validate_token, validate_access_token,
  access_claims, refresh_claims, generate_token_pair, login, refresh_token,
}

module _ (j : Jwt) where
  open j use {numeric_date, signed_string, parse_with_claims}

  pub validate_token-signed :
      (secret token : String) (now : ℕ) (c : Claims)
      → signed_string secret c ≡ some token
      → validate_token j secret now token
        ≡ (if ltb now c.expires_at then ok c else err token_expired)
  unfolding validate_token
  validate_token-signed secret token now c h =
      let p : parse_with_claims now (key_of j secret) token
          ≡ (if ltb now c.expires_at then parsed c true else expired) =
        j.parse-signed now (key_of j secret) secret token c h ∙ rw (eq_refl secret) refl in
      elim (Bool-cases (ltb now c.expires_at)) [
        | inl e ↦ rw (validate_token, p, e) refl
        | inr e ↦ rw (validate_token, p, e) refl
      ]

  pub signed-pair :
      (secret : String) (now : ℕ) (u : AuthUser) (pair : TokenPair)
      → generate_token_pair j secret now u ≡ ok pair
      → (signed_string secret (access_claims j now u) ≡ some pair.access_token)
        × (signed_string secret (refresh_claims j now u) ≡ some pair.refresh_token)
  unfolding generate_token_pair
  signed-pair secret now u pair =
      elim (Option-cases (signed_string secret (access_claims j now u))) [
        | inl e ↦ rw (generate_token_pair, e) (λ h. cc)
        | inr (access, e) ↦ elim (Option-cases (signed_string secret (refresh_claims j now u))) [
          | inl f ↦ rw (generate_token_pair, e, f) (λ h. cc)
          | inr (refresh, f) ↦ rw (generate_token_pair, e, f) (λ h. (cc, cc))
        ]
      ]

  access_checked :
      (secret token : String) (now : ℕ) (c : Claims)
      → signed_string secret c ≡ some token
      → validate_access_token j secret now token ≡ (
          if ltb now c.expires_at
          then (if not (c.token_type == "access") then err invalid_token else ok c.user_id)
          else err token_expired)
  unfolding validate_access_token
  access_checked secret token now c h =
      let p = validate_token-signed secret token now c h in
      elim (Bool-cases (ltb now c.expires_at)) [
        | inl e ↦ rw (validate_access_token, p, e) refl
        | inr e ↦ rw (validate_access_token, p, e) refl
      ]

  refresh_refused :
      (users : UserService) (secret token : String) (now : ℕ) (c : Claims)
      → signed_string secret c ≡ some token
      → (c.token_type == "refresh") ≡ false
      → refresh_token j users secret now token
        ≡ (if ltb now c.expires_at then err invalid_token else err token_expired)
  unfolding refresh_token
  refresh_refused users secret token now c h t =
      let p = validate_token-signed secret token now c h in
      elim (Bool-cases (ltb now c.expires_at)) [
        | inl e ↦ rw (refresh_token, p, e, t) refl
        | inr e ↦ rw (refresh_token, p, e) refl
      ]

  pub login-generate_token_pair :
      (users : UserService) (secret email password : String) (now : ℕ) (u : AuthUser)
      → users.authenticate email password ≡ some u
      → login j users secret now email password ≡ generate_token_pair j secret now u
  unfolding login
  login-generate_token_pair users secret email password now u a = rw (login, a) refl

  pub generate_token_pair-validate_access_token :
      (secret : String) (now later : ℕ) (u : AuthUser) (pair : TokenPair)
      → generate_token_pair j secret now u ≡ ok pair
      → validate_access_token j secret later pair.access_token
        ≡ (if ltb later (numeric_date (now + token_expiry)) then ok u.id else err token_expired)
  generate_token_pair-validate_access_token secret now later u pair h =
      access_checked secret pair.access_token later (access_claims j now u)
        (signed-pair secret now u pair h).0

  -- The access token that a user gets at a login names the user until it expires, and is expired
  -- from then on; the refresh token is never taken for an access token, nor the access token for a
  -- refresh token.
  pub login-validate_access_token :
      (users : UserService) (secret email password : String) (now later : ℕ) (u : AuthUser)
      (pair : TokenPair)
      → users.authenticate email password ≡ some u
      → login j users secret now email password ≡ ok pair
      → (validate_access_token j secret later pair.access_token
          ≡ (if ltb later (numeric_date (now + token_expiry)) then ok u.id else err token_expired))
        × (validate_access_token j secret later pair.refresh_token ≡ (
            if ltb later (numeric_date (now + refresh_expiry))
            then err invalid_token
            else err token_expired))
        × (refresh_token j users secret later pair.access_token ≡ (
            if ltb later (numeric_date (now + token_expiry))
            then err invalid_token
            else err token_expired))
  login-validate_access_token users secret email password now later u pair a h =
      let made = sym (login-generate_token_pair users secret email password now u a) ∙ h in
      let (access, refresh) = signed-pair secret now u pair made in
      (
        access_checked secret pair.access_token later (access_claims j now u) access,
        access_checked secret pair.refresh_token later (refresh_claims j now u) refresh,
        refresh_refused users secret pair.access_token later (access_claims j now u) access refl,
      )
