-- ===== src/Tests/Requests.antt =====
-- Inputs for the theorems about the requests over HTTP.
use trabalho_radio_px.Prelude.{
  ℕ, String, ◌≡◌, ◌≢◌, ◌⊎◌, refl, ◌∙◌, true, false, ◌==◌, eq_iff, Bool-cases, inl, inr, Option,
  none, some, [], ◌∷◌, if◌then◌else◌,
}
use trabalho_radio_px.Prelude.Map.{Map, find}
use trabalho_radio_px.Prelude.Sets.{String_comparable}
use trabalho_radio_px.Http.{Request, Handler, respond, fail, set_header}
use trabalho_radio_px.Http.Text.{cut, contains_char}
use trabalho_radio_px.Session.{
  extract_bearer_token, extract_token, injector, validator, web_socket_auth_middleware,
}
use trabalho_radio_px.Session.Identity.{
  injector-cases, injector-generate_token_pair, extract_bearer_token-extract_token,
}
use trabalho_radio_px.Auth.{generate_token_pair}
use trabalho_radio_px.User
use trabalho_radio_px.User.{User, UserError, error_text}
use trabalho_radio_px.User.Store.{has_email}
use trabalho_radio_px.User.Service
use trabalho_radio_px.User.Service.Spares.{Spares}
use trabalho_radio_px.Channel.Store.{new_store, get_by_id, is_member}
use trabalho_radio_px.Channel.Handler.{
  Numbers, ChannelHandler, extract_channel_id, handle_join_channel,
}
use trabalho_radio_px.Channel.Handler.Paths.{extract_channel_id-append}
use trabalho_radio_px.Channel.Handler.Outcomes.{Joined, join_answer, handle_join_channel-refusal}
use trabalho_radio_px.Channel.Store.Members.{refusal}
use trabalho_radio_px.Http.Text.{split}
use trabalho_radio_px.Hub.{new_hub}
use trabalho_radio_px.Voice.{new_voice_service}
use trabalho_radio_px.Client.{World, new_client_with_guard, connect, new_endpoint}
use trabalho_radio_px.Buffer.{new_audio_buffer_service}
use trabalho_radio_px.Voice.Handler.{handle_web_socket}
use trabalho_radio_px.Voice.Handler.Handshake.{web_socket-connect}
use trabalho_radio_px.Admin.{AdminHandler, is_admin}
use trabalho_radio_px.Admin.Gate.{admin_api, admin_api-cases}
use trabalho_radio_px.Server.{
  auth_user, LoginRequest, handle_login, handle_register, register_status,
}
use trabalho_radio_px.Server.Routes.{Bodies, Draws, protected}
use trabalho_radio_px.Server.Anonymous.{protected-anonymous}
use trabalho_radio_px.Server.Entry.{
  answered, begun, handle_login-authenticate, handle_register-create_user,
}
use trabalho_radio_px.Tests.Places.{whole, places}
use trabalho_radio_px.Tests.Accounts.{
  accounts, ana, bia, users, sign_up, tokens, ana_login, session,
}

abbrev headers : String → String
headers name =
    if name == "Authorization" then "Bearer access" else if name == "X-User-ID" then "u2" else ""

abbrev queries : String → String
queries name = if name == "channel" then "c1" else if name == "token" then "access" else ""

-- A request with a token of the user "u1" that claims to be from "u2".
abbrev request : Request
request = record {
  method = "POST";
  path = "/api/v1/channels/c1/join";
  remote_addr = "10.0.0.5:4000";
  header = headers;
  query = queries;
}

abbrev validate : String → Option String
validate token = if token == "access" then some "u1" else none

validate-u1 : (token user : String) → validate token ≡ some user → user ≢ ""
validate-u1 token user = elim (Bool-cases (token == "access")) [
  | inl e ↦ rw e (λ h p.
      let q : "u1" ≡ user = cc in let same : ("u1" == "") ≡ true = (eq_iff "u1" "").1 (q ∙ p) in cc)
  | inr e ↦ rw e (λ h p. cc)
]

-- A handler that writes who the request is from.
abbrev who : Handler ℕ String
who r s = (s, respond 200 (r.header "X-User-ID"))

extract_bearer_token-extract_token_example : extract_bearer_token request ≡ extract_token request
extract_bearer_token-extract_token_example = extract_bearer_token-extract_token request

injector-cases_example :
    ((token user : String) × (extract_token request ≡ token)
      × (validate token ≡ some user)
      × (validate token ≡ some user)
      × (injector validate validate who request 0 ≡ who (set_header request "X-User-ID" user) 0))
    ⊎ (text : String) × (injector validate validate who request 0 ≡ (0, fail 401 text))
injector-cases_example =
    injector-cases validate validate who request 0 (λ token user h. h) validate-u1

injector-generate_token_pair_example :
    injector (validator tokens "k" 150) (validator tokens "k" 160) who request 0
    ≡ who (set_header request "X-User-ID" "u1") 0
unfolding generate_token_pair cut
injector-generate_token_pair_example =
    injector-generate_token_pair tokens "k" 100 150 160 ana_login session who request 0 refl refl
      refl refl refl refl

abbrev administrator : User ℕ
administrator = record ana { is_admin = true }

abbrev administration : AdminHandler ℕ
administration = record {
  users = ("u1", administrator) ∷ ("u2", bia) ∷ [];
  channels = new_store;
  hub = new_hub (λ c. new_endpoint);
  voice = new_voice_service;
}

abbrev deletion : Request
deletion = record request { method = "DELETE"; path = "/api/v1/admin/users/u2" }

admin_api-cases_example :
    let h = (admin_api accounts validate validate 5 none deletion administration).0 in
    ((user : String) × (validate (extract_token deletion) ≡ some user)
      × (is_admin accounts administration user ≡ true)
      × Spares user administration.users h.users)
    ⊎ (h ≡ administration)
unfolding has_email find
admin_api-cases_example =
    admin_api-cases accounts validate validate 5 none deletion administration (λ token user h. h)
      validate-u1 (refl, refl, refl, (refl, refl, refl, tt))

abbrev channel_handler : ChannelHandler ℕ
channel_handler = record { channel_service = places; locations = [] }

handle_join_channel-refusal_example :
    let (h, response) = handle_join_channel whole accounts 5 request channel_handler in
    (response
      ≡ join_answer whole accounts (refusal (get_by_id places "c1") (is_member places "c1" "u2")))
    × Joined whole accounts 5 "c1" "u2" channel_handler (h, response)
unfolding extract_channel_id split
handle_join_channel-refusal_example =
    handle_join_channel-refusal whole accounts 5 request channel_handler refl refl refl

extract_channel_id-append_example :
    (extract_channel_id "/api/v1/channels/c1" ≡ "c1")
    × (extract_channel_id "/api/v1/channels/c1/join" ≡ "c1")
unfolding contains_char
extract_channel_id-append_example = extract_channel_id-append "c1" "join" refl

abbrev world : World
world = record {
  hub = new_hub (λ c. new_endpoint);
  voice = new_voice_service;
  buffer = new_audio_buffer_service none;
  broadcasts = [];
}

web_socket-connect_example :
    let result =
      web_socket_auth_middleware validate (handle_web_socket 1 "k1" none) request world in
    ((user : String) × (validate "access" ≡ some user)
      × ((user == "") ≡ false)
      × (result ≡ (
        connect world (new_client_with_guard 1 "k1" user) "c1",
        respond 101 (new_client_with_guard 1 "k1" user),
      )))
    ⊎ (status : ℕ) × (text : String) × (result ≡ (world, fail status text))
web_socket-connect_example = web_socket-connect validate 1 "k1" none request world

abbrev credentials : LoginRequest
credentials = record { email = "ana@px"; password = "12345678" }

handle_login-authenticate_example :
    handle_login accounts tokens "k" 100 150 (some credentials) request users ≡ (
      users,
      elim (Service.authenticate accounts users "ana@px" "12345678") [
        | User.err e ↦ fail 401 "E-mail ou senha inválidos"
        | User.ok u ↦
            answered accounts tokens "k"
              (generate_token_pair tokens "k" 100 (auth_user u))
              (auth_user u)
              "E-mail ou senha inválidos"
      ],
    )
handle_login-authenticate_example =
    handle_login-authenticate accounts tokens "k" 100 150 credentials request users refl refl

abbrev nobody : Map (User ℕ)
nobody = []

handle_register-create_user_example :
    let (s, response) =
      handle_register accounts tokens "k" "u1" "" 100 (some sign_up) request nobody in
    let created = Service.create_user accounts "u1" "" 100 nobody sign_up in
    (s ≡ created.0)
    × (((e : UserError) × (created.1 ≡ User.err e)
          × (response ≡ fail (register_status e) (error_text e)))
        ⊎ (u : User ℕ) × (created.1 ≡ User.ok u)
          × (Service.authenticate accounts s "ana@px" "12345678" ≡ User.ok u)
          × (response
              ≡ begun accounts tokens "k" (generate_token_pair tokens "k" 100 (auth_user u)) u))
handle_register-create_user_example =
    handle_register-create_user accounts tokens "k" "u1" "" 100 sign_up request nobody refl

abbrev numbers : Numbers ℕ
numbers = record { trim_space = λ s. s; parse = λ s. some 7 }

abbrev draws : Draws
draws = record { id = "c3"; salt = ""; now = 5 }

abbrev bodies : Bodies ℕ
bodies = record {
  create_channel = some (record { name = "road"; description = ""; latitude = 1; longitude = 2 });
  update_user = none;
  change_password = none;
}

-- A request for the channels nearby from nobody.
abbrev anonymous : Request
anonymous = record {
  method = "GET";
  path = "/api/v1/channels/nearby";
  remote_addr = "";
  header = λ name. "";
  query = λ name. "7";
}

protected-anonymous_example :
    (protected whole accounts numbers draws bodies anonymous channel_handler).0 ≡ channel_handler
protected-anonymous_example =
    protected-anonymous whole accounts anonymous channel_handler refl numbers draws bodies
