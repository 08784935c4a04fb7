-- ===== src/Server.antt =====
-- backend/cmd/server/main.go: the requests that open a session, and the routes.
pub mod Routes
pub mod Entry
pub mod Anonymous
use trabalho_radio_px.Prelude.{ℕ, String, Bool, not, Option, none, some, if◌then◌else◌, ◌==◌}
use trabalho_radio_px.Prelude.Map.{Map}
use trabalho_radio_px.Http.{Request, Response, respond, fail, Handler}
use trabalho_radio_px.User.{
  User, CreateUserRequest, UserError, error_text, user_not_found, user_already_exists,
  invalid_credentials, email_required, password_required, invalid_email, password_too_short,
  user_inactive, admin_self_action, password_not_hashed,
}
use trabalho_radio_px.User
use trabalho_radio_px.User.Service
use trabalho_radio_px.User.Service.{Accounts, create_user}
use trabalho_radio_px.Auth.{
  AuthUser, TokenPair, Jwt, UserService, Claims, Result, ok, err, login, refresh_token,
  validate_token,
}
use trabalho_radio_px.Hub.{Hub, get_client_count}

pub record LoginRequest : Type 0 where
  pub email : String
  pub password : String

-- What a handler encodes in the response: the two tokens, with the new account or with what the
-- claims say of the user.
pub data SessionBody (Float : Type 0) : Type 0 where
  registered : String → String → User Float → SessionBody Float
  session : String → String → String → String → String → SessionBody Float

-- The status of an error of CreateUser.
unfoldable pub register_status : UserError → ℕ
register_status user_not_found = 409
register_status user_already_exists = 409
register_status invalid_credentials = 409
register_status email_required = 400
register_status password_required = 400
register_status invalid_email = 400
register_status password_too_short = 400
register_status user_inactive = 409
register_status admin_self_action = 409
register_status password_not_hashed = 409

abbrev pub auth_user : {Float : Type 0} → User Float → AuthUser
auth_user u = record { id = u.id; email = u.email; name = u.name; provider = u.provider }

abbrev pub adapted : {Float : Type 0} → User.Result (User Float) → Option AuthUser
adapted (User.err e) = none
adapted (User.ok u) = some (auth_user u)

module _ (a : Accounts) {Float : Type 0} where
  -- authUserServiceAdapter
  unfoldable pub auth_user_service_adapter : Map (User Float) → UserService
  auth_user_service_adapter s = record {
    authenticate = λ email password. adapted (Service.authenticate a s email password);
    get_user = λ id. adapted (Service.get_user a s id);
  }

  module _ (j : Jwt) (secret : String) where
    -- What is written once there is a pair of tokens: what the claims of the access token say.
    abbrev pub opened : ℕ → Result TokenPair → String → Response (SessionBody Float)
    opened later (err e) refused = fail 401 refused
    opened later (ok pair) refused = elim (validate_token j secret later pair.access_token) [
      | err e ↦ fail 500 "Falha ao gerar token"
      | ok c ↦ respond 200 (session pair.access_token pair.refresh_token c.user_id c.email c.name)
    ]

    unfoldable pub handle_register :
        String
        → String
        → ℕ
        → Option CreateUserRequest
        → Handler (Map (User Float)) (SessionBody Float)
    unfolding error_text register_status
    handle_register id salt now body r s =
        if not (r.method == "POST") then (s, fail 405 "Method not allowed") else elim body [
          | none ↦ (s, fail 400 "Corpo da requisição inválido")
          | some req ↦
              let (s', result) = create_user a id salt now s req in
              elim result [
                | User.err e ↦ (s', fail (register_status e) (error_text e))
                | User.ok u ↦
                    elim (login j (auth_user_service_adapter s') secret now req.email
                      req.password) [
                        | err e ↦ (s', fail 500 "Failed to generate token")
                        | ok pair ↦
                            (s', respond 201 (registered pair.access_token pair.refresh_token u))
                      ]
              ]
        ]

    -- `later` is the clock's reading when the new token is validated.
    unfoldable pub handle_login :
        ℕ → ℕ → Option LoginRequest → Handler (Map (User Float)) (SessionBody Float)
    handle_login now later body r s =
        if not (r.method == "POST") then (s, fail 405 "Method not allowed") else elim body [
          | none ↦ (s, fail 400 "Corpo da requisição inválido")
          | some req ↦
              let pair =
                login j (auth_user_service_adapter s) secret now (a.trim_space req.email)
                  req.password in
              (s, opened later pair "E-mail ou senha inválidos")
        ]

    unfoldable pub handle_refresh :
        ℕ → ℕ → Option String → Handler (Map (User Float)) (SessionBody Float)
    handle_refresh now later body r s =
        if not (r.method == "POST") then (s, fail 405 "Method not allowed") else elim body [
          | none ↦ (s, fail 400 "Corpo da requisição inválido")
          | some token ↦
              let pair = refresh_token j (auth_user_service_adapter s) secret now token in
              (s, opened later pair "Token inválido ou expirado")
        ]

-- The number that healthHandler writes.
unfoldable pub health_handler : Request → Hub → ℕ
health_handler r hub = get_client_count hub
