-- ===== src/Server/Entry.antt =====
-- What opening a session gives: registration, login and refresh.
use trabalho_radio_px.Prelude.{
  ℕ, ◌+◌, String, ◌≡◌, ◌⊎◌, ap, sym, ◌∙◌, refl, true, ◌==◌, some, inl, inr, ltb, eq_iff,
}
use trabalho_radio_px.Prelude.Map.{Map}
use trabalho_radio_px.Http.{Request, Response, respond, fail}
use trabalho_radio_px.User.{User, UserError, error_text, CreateUserRequest}
use trabalho_radio_px.User
use trabalho_radio_px.User.Service
use trabalho_radio_px.User.Service.{Accounts, create_user}
use trabalho_radio_px.User.Service.Access.{result-cases, create_user-authenticate}
use trabalho_radio_px.Auth.{
  AuthUser, AuthError, invalid_credentials, TokenPair, Jwt, Result, ok, err, login,
  generate_token_pair, token_expiry, access_claims,
}
use trabalho_radio_px.Auth.Tokens.{signed-pair, validate_token-signed, login-generate_token_pair}
use trabalho_radio_px.Server.{
  SessionBody, registered, session, LoginRequest, auth_user, adapted, auth_user_service_adapter,
  opened, handle_register, handle_login, register_status,
}

token-cases : {A : Type 0} (r : Result A) → ((e : AuthError) × (r ≡ err e)) ⊎ ((x : A) × (r ≡ ok x))
token-cases (err e) = inl (e, refl)
token-cases (ok x) = inr (x, refl)

module _ (a : Accounts) {Float : Type 0} (j : Jwt) (secret : String) where
  -- The pair made for an account, as an answer to a login; `refused` stands where there is none.
  abbrev pub answered : Result TokenPair → AuthUser → String → Response (SessionBody Float)
  answered (err e) u refused = fail 401 refused
  answered (ok pair) u refused =
      respond 200 (session pair.access_token pair.refresh_token u.id u.email u.name)

  opened-answered :
      (now later : ℕ) (u : AuthUser) (refused : String)
      → ltb later (j.numeric_date (now + token_expiry)) ≡ true
      → (r : Result TokenPair) → generate_token_pair j secret now u ≡ r
      → opened a j secret later r refused ≡ answered r u refused
  opened-answered now later u refused live (err e) made = refl
  opened-answered now later u refused live (ok pair) made =
      let signed = (signed-pair j secret now u pair made).0 in
      let p =
        validate_token-signed j secret pair.access_token later (access_claims j now u) signed in
      rw (opened, p, live) refl

  login-adapted :
      (now : ℕ) (s : Map (User Float)) (email password : String) (u : User Float)
      → Service.authenticate a s email password ≡ User.ok u
      → login j (auth_user_service_adapter a s) secret now email password
        ≡ generate_token_pair j secret now (auth_user u)
  unfolding auth_user_service_adapter
  login-adapted now s email password u p =
      login-generate_token_pair j (auth_user_service_adapter a s) secret email password now
        (auth_user u) (ap adapted p)

  login-refused :
      (now : ℕ) (s : Map (User Float)) (email password : String) (e : UserError)
      → Service.authenticate a s email password ≡ User.err e
      → login j (auth_user_service_adapter a s) secret now email password ≡ err invalid_credentials
  unfolding login auth_user_service_adapter
  login-refused now s email password e p = rw (login, auth_user_service_adapter, p) refl

  -- While the new access token lives, a login by POST answers with a pair of tokens made for the account
  -- that Authenticate finds under the trimmed e-mail, and with that account's identifier, e-mail and
  -- name; where it finds none, or the account is suspended, the status is 401. Nothing is changed.
  pub handle_login-authenticate :
      (now later : ℕ) (req : LoginRequest) (r : Request) (s : Map (User Float))
      → r.method ≡ "POST"
      → ltb later (j.numeric_date (now + token_expiry)) ≡ true
      → handle_login a j secret now later (some req) r s ≡ (
        s,
        elim (Service.authenticate a s (a.trim_space req.email) req.password) [
          | User.err e ↦ fail 401 "E-mail ou senha inválidos"
          | User.ok u ↦
              answered
                (generate_token_pair j secret now (auth_user u))
                (auth_user u)
                "E-mail ou senha inválidos"
        ],
      )
  unfolding handle_login
  handle_login-authenticate now later req r s post live =
      let email = a.trim_space req.email in
      let refused : String = "E-mail ou senha inválidos" in
      let by_post : (r.method == "POST") ≡ true = (eq_iff r.method "POST").1 post in
      rw (handle_login, by_post)
        (elim (result-cases (Service.authenticate a s email req.password)) [
          | inl (e, p) ↦ rw p (
              ap (λ x. (s, opened a j secret later x refused))
                (login-refused now s email req.password e p))
          | inr (u, p) ↦ rw p (
              ap (λ x. (s, opened a j secret later x refused))
                (login-adapted now s email req.password u p)
              ∙ ap (λ x. (s, x)) (opened-answered now later (auth_user u) refused live _ refl))
        ])

  -- What is written for a new account and the pair of tokens made for it.
  abbrev pub begun : Result TokenPair → User Float → Response (SessionBody Float)
  begun (err e) u = fail 500 "Failed to generate token"
  begun (ok pair) u = respond 201 (registered pair.access_token pair.refresh_token u)

  -- A registration by POST does to the accounts what CreateUser does. Its error is answered with the
  -- status for it; otherwise the new account can log in with the e-mail and the password of the
  -- request, and the answer is the account with a pair of tokens made for it, with status 201, or
  -- status 500 where no pair can be made.
  pub handle_register-create_user :
      (id salt : String) (now : ℕ) (req : CreateUserRequest) (r : Request) (s : Map (User Float))
      → r.method ≡ "POST"
      → let (s', response) = handle_register a j secret id salt now (some req) r s in
        (s' ≡ (create_user a id salt now s req).0)
        × (((e : UserError) × ((create_user a id salt now s req).1 ≡ User.err e)
              × (response ≡ fail (register_status e) (error_text e)))
            ⊎ (u : User Float) × ((create_user a id salt now s req).1 ≡ User.ok u)
              × (Service.authenticate a s' req.email req.password ≡ User.ok u)
              × (response ≡ begun (generate_token_pair j secret now (auth_user u)) u))
  unfolding handle_register
  handle_register-create_user id salt now req r s post =
      let by_post : (r.method == "POST") ≡ true = (eq_iff r.method "POST").1 post in
      let s' = (create_user a id salt now s req).0 in
      let made = login j (auth_user_service_adapter a s') secret now req.email req.password in
      elim (result-cases (create_user a id salt now s req).1) [
        | inl (e, p) ↦ rw (handle_register, by_post, p) (refl, inl (e, refl, refl))
        | inr (u, p) ↦
            let known = create_user-authenticate a id salt now s req u p in
            let same = login-adapted now s' req.email req.password u known in
            elim (token-cases made) [
              | inl (e, q) ↦
                  let pair : generate_token_pair j secret now (auth_user u) ≡ err e =
                    sym same ∙ q in
                  rw (handle_register, by_post, p, q) (refl, inr (u, refl, known, rw pair refl))
              | inr (tokens, q) ↦
                  let pair : generate_token_pair j secret now (auth_user u) ≡ ok tokens =
                    sym same ∙ q in
                  rw (handle_register, by_post, p, q) (refl, inr (u, refl, known, rw pair refl))
            ]
      ]
