-- ===== src/Session/Identity.antt =====
-- Who a protected handler is told that a request is from.
use trabalho_radio_px.Prelude.{
  ℕ, ◌+◌, String, ◌≡◌, ◌≢◌, refl, ap, ◌∙◌, true, false, ◌==◌, eq_iff, arith, Option, none, some,
  Bool-cases, Option-cases, inl, inr, ◌⊎◌, ltb,
}
use trabalho_radio_px.Http.{Request, fail, Handler, set_header}
use trabalho_radio_px.Http.Text.{cut, equal_fold, to_lower}
use trabalho_radio_px.Http.Text.Folding.{equal_fold-to_lower}
use trabalho_radio_px.Auth.{Jwt, AuthUser, TokenPair, ok, generate_token_pair, token_expiry}
use trabalho_radio_px.Auth.Tokens.{generate_token_pair-validate_access_token}
use trabalho_radio_px.Session.{
  space, extract_bearer_token, extract_token, auth_middleware, injected, injector, validator,
}

equal_fold-bearer : (scheme : String) → equal_fold scheme "Bearer" ≡ (to_lower scheme == "bearer")
unfolding to_lower
equal_fold-bearer scheme = equal_fold-to_lower scheme "Bearer"

-- The middleware and the server read the same token from a request.
pub extract_bearer_token-extract_token : (r : Request) → extract_bearer_token r ≡ extract_token r
unfolding extract_bearer_token extract_token
extract_bearer_token-extract_token r = elim (Bool-cases (r.header "Authorization" == "")) [
  | inl e ↦ rw (extract_bearer_token, extract_token, e) refl
  | inr e ↦ elim (Option-cases (cut space (r.header "Authorization"))) [
    | inl f ↦ rw (extract_bearer_token, extract_token, e, f) refl
    | inr ((scheme, token), f) ↦
        let folds : equal_fold scheme "Bearer" ≡ (to_lower scheme == "bearer") =
          equal_fold-bearer scheme in
        rw (extract_bearer_token, extract_token, e, f, folds) refl
  ]
]

extract_token-set_header :
    (r : Request) (user : String) → extract_token (set_header r "X-User-ID" user) ≡ extract_token r
unfolding extract_token
extract_token-set_header r user = refl

injected-set_header :
    (validate : String → Option String) (r : Request) (user : String)
    → (extract_token r == "") ≡ false
    → validate (extract_token r) ≡ some user
    → (user == "") ≡ false
    → injected validate r ≡ set_header r "X-User-ID" user
unfolding injected
injected-set_header validate r user e v u = rw (injected, e, v, u) refl

extract_token-injected :
    (validate : String → Option String) (r : Request)
    → extract_token (injected validate r) ≡ extract_token r
unfolding injected
extract_token-injected validate r = elim (Bool-cases (extract_token r == "")) [
  | inl e ↦ rw (injected, e) refl
  | inr e ↦ elim (Option-cases (validate (extract_token r))) [
    | inl v ↦ rw (injected, e, v) refl
    | inr (user, v) ↦ elim (Bool-cases (user == "")) [
      | inl u ↦ rw (injected, e, v, u) refl
      | inr u ↦
          ap extract_token (injected-set_header validate r user e v u)
          ∙ extract_token-set_header r user
    ]
  ]
]

extract_bearer_token-injected :
    (validate : String → Option String) (r : Request)
    → extract_bearer_token (injected validate r) ≡ extract_token r
extract_bearer_token-injected validate r =
    extract_bearer_token-extract_token (injected validate r) ∙ extract_token-injected validate r

module _ {State Body : Type 0} (at_injector at_middleware : String → Option String)
    (next : Handler State Body) where
  auth_middleware-next :
      (q : Request) (s : State) (token user : String)
      → extract_bearer_token q ≡ token
      → (token == "") ≡ false
      → at_middleware token ≡ some user
      → auth_middleware at_middleware next q s ≡ next q s
  unfolding auth_middleware
  auth_middleware-next q s token user read e m = rw (auth_middleware, read, e, m) refl

  auth_middleware-refused :
      (q : Request) (s : State) (token : String)
      → extract_bearer_token q ≡ token
      → (token == "") ≡ false
      → at_middleware token ≡ none
      → auth_middleware at_middleware next q s ≡ (s, fail 401 "Invalid or expired token")
  unfolding auth_middleware
  auth_middleware-refused q s token read e m = rw (auth_middleware, read, e, m) refl

  auth_middleware-required :
      (q : Request) (s : State) (token : String)
      → extract_bearer_token q ≡ token
      → (token == "") ≡ true
      → auth_middleware at_middleware next q s ≡ (s, fail 401 "Authorization header required")
  unfolding auth_middleware
  auth_middleware-required q s token read e = rw (auth_middleware, read, e) refl

  -- A token that both accept gets the request to the handler as its user's.
  injector-next :
      (r : Request) (s : State) (token user : String)
      → extract_token r ≡ token
      → (token == "") ≡ false
      → at_injector token ≡ some user
      → at_middleware token ≡ some user
      → (user == "") ≡ false
      → injector at_injector at_middleware next r s ≡ next (set_header r "X-User-ID" user) s
  unfolding injector
  injector-next r s token user t e i m u =
      let read = extract_bearer_token-injected at_injector r ∙ t in
      let e' = ap (λ x. x == "") t ∙ e in
      let i' = ap at_injector t ∙ i in
      auth_middleware-next (injected at_injector r) s token user read e m
      ∙ ap (λ q. next q s) (injected-set_header at_injector r user e' i' u)

  -- Where the middleware accepts no token that the injector refused, and no token is of the user with
  -- the empty identifier, a request to a protected route either is refused with status 401 and changes
  -- nothing, or carries a token that both accept, and then the handler sees it with the header
  -- X-User-ID set to the user of that token, whatever the request had there.
  pub injector-cases :
      (r : Request) (s : State)
      → ((token user : String) → at_middleware token ≡ some user → at_injector token ≡ some user)
      → ((token user : String) → at_injector token ≡ some user → user ≢ "")
      → ((token user : String) × (extract_token r ≡ token)
          × (at_injector token ≡ some user)
          × (at_middleware token ≡ some user)
          × (injector at_injector at_middleware next r s ≡ next (set_header r "X-User-ID" user) s))
        ⊎ (message : String) × (injector at_injector at_middleware next r s ≡ (s, fail 401 message))
  unfolding injector
  injector-cases r s later named_user =
      let read = extract_bearer_token-injected at_injector r in
      elim (Bool-cases (extract_token r == "")) [
        | inl e ↦ inr (
          "Authorization header required",
          auth_middleware-required (injected at_injector r) s (extract_token r) read e,
        )
        | inr e ↦ elim (Option-cases (at_middleware (extract_token r))) [
          | inl m ↦ inr (
            "Invalid or expired token",
            auth_middleware-refused (injected at_injector r) s (extract_token r) read e m,
          )
          | inr (user, m) ↦
              let i = later (extract_token r) user m in
              let filled : (user == "") ≡ false =
                ground (arith, eq_iff user "", named_user (extract_token r) user i) in
              inl (
                extract_token r,
                user,
                refl,
                i,
                m,
                injector-next r s (extract_token r) user refl e i m filled,
              )
        ]
      ]

extract_token-cut :
    (r : Request) (token : String)
    → cut space (r.header "Authorization") ≡ some ("Bearer", token)
    → extract_token r ≡ token
unfolding extract_token cut to_lower
extract_token-cut r token parts = elim (Bool-cases (r.header "Authorization" == "")) [
  | inl e ↦
      let nothing : cut space (r.header "Authorization") ≡ none =
        ap (cut space) ((eq_iff (r.header "Authorization") "").0 e) in
      cc
  | inr e ↦ rw (extract_token, e, parts) refl
]

validator-generate_token_pair :
    (j : Jwt) (secret : String) (now at : ℕ) (u : AuthUser) (pair : TokenPair)
    → generate_token_pair j secret now u ≡ ok pair
    → ltb at (j.numeric_date (now + token_expiry)) ≡ true
    → validator j secret at pair.access_token ≡ some u.id
unfolding validator
validator-generate_token_pair j secret now at u pair made live =
    let v = generate_token_pair-validate_access_token j secret now at u pair made in
    rw (validator, v, live) refl

-- A request with the scheme Bearer and the access token of a new pair reaches a protected handler as
-- the request of the user that the pair was made for, until the token expires.
pub injector-generate_token_pair :
    {State Body : Type 0} (j : Jwt) (secret : String) (now first second : ℕ) (u : AuthUser)
    (pair : TokenPair) (next : Handler State Body) (r : Request) (s : State)
    → generate_token_pair j secret now u ≡ ok pair
    → ltb first (j.numeric_date (now + token_expiry)) ≡ true
    → ltb second (j.numeric_date (now + token_expiry)) ≡ true
    → (u.id == "") ≡ false
    → (pair.access_token == "") ≡ false
    → cut space (r.header "Authorization") ≡ some ("Bearer", pair.access_token)
    → injector (validator j secret first) (validator j secret second) next r s
      ≡ next (set_header r "X-User-ID" u.id) s
injector-generate_token_pair j secret now first second u pair next r s made live1 live2 id token
      parts =
    let valid1 = validator-generate_token_pair j secret now first u pair made live1 in
    let valid2 = validator-generate_token_pair j secret now second u pair made live2 in
    injector-next (validator j secret first) (validator j secret second) next r s pair.access_token
      u.id (extract_token-cut r pair.access_token parts) token valid1 valid2 id
