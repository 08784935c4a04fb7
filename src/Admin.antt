-- ===== src/Admin.antt =====
-- backend/internal/admin/handler.go: the requests of administrators. A handler gets the request, its
-- body decoded (`none` where it does not decode), the clock, and the state of the four services.
pub mod Safety
pub mod Gate
use Prim.Native.Char.{Char, char}
use trabalho_radio_px.Prelude.{
  ℕ, suc, String, Bool, true, false, not, ◌||◌, ◌&&◌, ◌==◌, Option, none, some, List, [], ◌∷◌,
  length, if◌then◌else◌,
}
use trabalho_radio_px.Prelude.Map.{Map}
use trabalho_radio_px.Http.{Request, Response, respond, fail, Handler}
use trabalho_radio_px.Http.Text.{has_prefix, trim_prefix, trim_char, contains_char}
use trabalho_radio_px.User.{
  User, UserError, error_text, Result, ok, err, user_not_found, user_already_exists,
  invalid_credentials, email_required, password_required, invalid_email, password_too_short,
  user_inactive, admin_self_action, password_not_hashed,
}
use trabalho_radio_px.User.Service.{
  Accounts, get_user, set_user_active, set_user_admin, delete_user, list_users,
}
use trabalho_radio_px.Channel.Store.{ChannelStore, count}
use trabalho_radio_px.Hub.{Hub, get_client_count, get_live_room_count}
use trabalho_radio_px.Voice.{VoiceHub, active_channels_count}

-- The status of writeServiceError.
unfoldable pub error_status : UserError → ℕ
error_status user_not_found = 404
error_status user_already_exists = 500
error_status invalid_credentials = 500
error_status email_required = 500
error_status password_required = 500
error_status invalid_email = 500
error_status password_too_short = 500
error_status user_inactive = 500
error_status admin_self_action = 403
error_status password_not_hashed = 500

pub record StatsResponse : Type 0 where
  pub users_total : ℕ
  pub users_active : ℕ
  pub channels_total : ℕ
  pub ws_connections : ℕ
  pub live_rooms : ℕ
  pub transmitting_channels : ℕ

-- The fields of HandleUser's body, `none` where one is missing.
pub record UserPatch : Type 0 where
  pub is_active : Option Bool
  pub is_admin : Option Bool

-- What a handler encodes in the response.
pub data AdminBody (Float : Type 0) : Type 0 where
  stats : StatsResponse → AdminBody Float
  users : List (User Float) → AdminBody Float
  one_user : User Float → AdminBody Float
  message : String → AdminBody Float

-- The state of the services behind the handler.
pub record AdminHandler (Float : Type 0) : Type 0 where
  pub users : Map (User Float)
  pub channels : ChannelStore Float
  pub hub : Hub
  pub voice : VoiceHub

abbrev pub slash : Char
slash = char 47 tt

-- Where the payload of a request succeeds, the handler goes on; else the error is written.
abbrev pub service_error : {Float : Type 0} → UserError → Response (AdminBody Float)
service_error e = fail (error_status e) (error_text e)

unfoldable pub count_active_users : {Float : Type 0} → List (User Float) → ℕ
count_active_users [] = 0
count_active_users (u ∷ us) = let n = count_active_users us in if u.is_active then suc n else n

abbrev pub is_missing : Option Bool → Bool
is_missing none = true
is_missing (some _) = false

module _ {Float : Type 0} (a : Accounts) where
  unfoldable pub is_admin : AdminHandler Float → String → Bool
  is_admin h id = elim (get_user a h.users id) [ err e ↦ false | ok u ↦ u.is_admin ]

  unfoldable pub handle_stats : Handler (AdminHandler Float) (AdminBody Float)
  unfolding count_active_users
  handle_stats r h =
      if not (r.method == "GET")
      then (h, fail 405 "Method not allowed")
      else (let found = list_users a h.users in
          (
            h,
            respond 200 (
                stats (record {
                  users_total = length found;
                  users_active = count_active_users found;
                  channels_total = count h.channels;
                  ws_connections = get_client_count h.hub;
                  live_rooms = get_live_room_count h.hub;
                  transmitting_channels = active_channels_count h.voice;
                })),
          ))

  unfoldable pub handle_users : Handler (AdminHandler Float) (AdminBody Float)
  handle_users r h =
      if not (r.method == "GET")
      then (h, fail 405 "Method not allowed")
      else (h, respond 200 (users (list_users a h.users)))

  -- One of the two changes of HandleUser: nothing where its field is missing.
  abbrev pub optional :
      (Map (User Float) → Bool → Map (User Float) × Option UserError)
      → Option Bool
      → Map (User Float)
      → Map (User Float) × Option UserError
  optional set none s = (s, none)
  optional set (some b) s = set s b

  -- What HandleUser writes after both changes.
  abbrev pub updated :
      AdminHandler Float → Result (User Float) → AdminHandler Float × Response (AdminBody Float)
  updated h (err e) = (h, service_error e)
  updated h (ok u) = (h, respond 200 (one_user u))

  unfoldable pub patch_user :
      ℕ
      → UserPatch
      → String
      → String
      → AdminHandler Float
      → AdminHandler Float × Response (AdminBody Float)
  unfolding error_status
  patch_user now req actor target h =
      let (s1, e1) =
        optional (λ s b. set_user_active a now s actor target b) req.is_active h.users in
      let (s2, e2) = optional (λ s b. set_user_admin a now s actor target b) req.is_admin s1 in
      elim e1 [
        | some e ↦ (record h { users = s1 }, service_error e)
        | none ↦ elim e2 [
          | some e ↦ (record h { users = s2 }, service_error e)
          | none ↦ updated (record h { users = s2 }) (get_user a s2 target)
        ]
      ]

  unfoldable pub handle_user :
      ℕ → Option UserPatch → String → Handler (AdminHandler Float) (AdminBody Float)
  unfolding patch_user
  handle_user now body target r h =
      if not (r.method == "PATCH") then (h, fail 405 "Method not allowed") else elim body [
        | none ↦ (h, fail 400 "Corpo da requisição inválido")
        | some req ↦
            if is_missing req.is_active && is_missing req.is_admin
            then (h, fail 400 "Informe is_active ou is_admin")
            else patch_user now req (r.header "X-User-ID") target h
      ]

  unfoldable pub handle_delete_user : String → Handler (AdminHandler Float) (AdminBody Float)
  unfolding error_status
  handle_delete_user target r h =
      if not (r.method == "DELETE")
      then (h, fail 405 "Method not allowed")
      else if r.header "X-User-ID" == target
      then (h, fail 403 (error_text admin_self_action))
      else (let (s, e) = delete_user a h.users target in
          elim e [
            | some e ↦ (record h { users = s }, service_error e)
            | none ↦ (record h { users = s }, respond 200 (message "User deleted"))
          ])

  -- ServeHTTP on the path below /api/v1/admin.
  unfoldable pub dispatch :
      ℕ → Option UserPatch → String → Handler (AdminHandler Float) (AdminBody Float)
  unfolding handle_stats handle_users handle_user handle_delete_user
  dispatch now body path r h =
      let id = trim_prefix path "users/" in
      if path == "stats"
      then handle_stats r h
      else if path == "users"
      then handle_users r h
      else if not (has_prefix path "users/")
      then (h, fail 404 "Not found")
      else if id == "" || contains_char slash id
      then (h, fail 400 "User ID required")
      else if r.method == "PATCH"
      then handle_user now body id r h
      else if r.method == "DELETE"
      then handle_delete_user id r h
      else (h, fail 405 "Method not allowed")

  unfoldable pub serve_http : ℕ → Option UserPatch → Handler (AdminHandler Float) (AdminBody Float)
  unfolding dispatch
  serve_http now body r h =
      dispatch now body (trim_char slash (trim_prefix r.path "/api/v1/admin")) r h
