-- ===== src/Session.antt =====
-- backend/internal/middleware/auth.go and the routes of backend/cmd/server/main.go: who a request is
-- from. A handler is a function of the request and of the state that it works on, and a middleware
-- wraps one. The identifier that AuthMiddleware puts in the request's context is read by no handler,
-- and is left out. The clock's readings at the injector and at the middleware are arguments.
pub mod Identity
use Prim.Native.Char.{Char, char}
use trabalho_radio_px.Prelude.{
  ℕ, String, Bool, true, false, not, ◌&&◌, ◌||◌, Option, none, some, if◌then◌else◌, ◌==◌,
}
use trabalho_radio_px.Http.{Request, Handler, Response, respond, fail, set_header, set_query}
use trabalho_radio_px.Http.Text.{cut, equal_fold, to_lower}
use trabalho_radio_px.Auth.{Jwt, Result, ok, err, validate_access_token}

abbrev pub space : Char
space = char 32 tt

-- The two parts of the header around its first space, if the test accepts the first one.
abbrev pub second_part : (String → Bool) → Option (String × String) → String
second_part test none = ""
second_part test (some (scheme, token)) = if not (test scheme) then "" else token

-- extractBearerToken, of the middleware
unfoldable pub extract_bearer_token : Request → String
extract_bearer_token r =
    let auth_header = r.header "Authorization" in
    if auth_header == ""
    then ""
    else second_part (λ scheme. equal_fold scheme "Bearer") (cut space auth_header)

-- extractToken, of the server
unfoldable pub extract_token : Request → String
extract_token r =
    let auth_header = r.header "Authorization" in
    if auth_header == ""
    then ""
    else second_part (λ scheme. to_lower scheme == "bearer") (cut space auth_header)

-- The request that the injectors of setupRoutes pass on.
unfoldable pub injected : (String → Option String) → Request → Request
injected validate r =
    let token = extract_token r in
    if token == "" then r else elim (validate token) [
      | none ↦ r
      | some user_id ↦ if user_id == "" then r else set_header r "X-User-ID" user_id
    ]

module _ {State Body : Type 0} where
  -- `validate` gives the user of a token, `none` for an error.
  unfoldable pub auth_middleware :
      (String → Option String) → Handler State Body → Handler State Body
  auth_middleware validate next r s =
      let token = extract_bearer_token r in
      if token == "" then (s, fail 401 "Authorization header required") else elim (validate token) [
        | none ↦ (s, fail 401 "Invalid or expired token")
        | some _ ↦ next r s
      ]

  unfoldable pub require_admin : (State → String → Bool) → Handler State Body → Handler State Body
  require_admin is_admin next r s =
      let user_id = r.header "X-User-ID" in
      if user_id == ""
      then (s, fail 401 "Authorization header required")
      else if not (is_admin s user_id)
      then (s, fail 403 "Acesso negado: apenas administradores")
      else next r s

  -- An injector in front of the middleware: the chain of the protected routes, and with
  -- require_admin as the handler that of the admin's
  unfoldable pub injector :
      (String → Option String) → (String → Option String) → Handler State Body → Handler State Body
  unfolding auth_middleware injected
  injector at_injector at_middleware next r s =
      auth_middleware at_middleware next (injected at_injector r) s

  unfoldable pub web_socket_auth_middleware :
      (String → Option String) → Handler State Body → Handler State Body
  web_socket_auth_middleware validate next r s = elim (validate (r.query "token")) [
    | none ↦ (s, fail 401 "Não autorizado")
    | some user_id ↦
        if user_id == ""
        then (s, fail 401 "Não autorizado")
        else next (set_query r "user_id" user_id) s
  ]

-- The service of sessions as the TokenValidator.
unfoldable pub validator : Jwt → String → ℕ → String → Option String
validator j secret now token = elim (validate_access_token j secret now token) [
  | err e ↦ none
  | ok user_id ↦ some user_id
]
