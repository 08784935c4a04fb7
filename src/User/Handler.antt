-- ===== src/User/Handler.antt =====
-- backend/internal/user/handler.go: the requests about the own account. A handler gets the user that
-- the route names, the body decoded (`none` where it does not decode), what the service draws, the
-- request and the store.
use trabalho_radio_px.Prelude.{ℕ, String, not, Option, none, some, if◌then◌else◌, ◌==◌}
use trabalho_radio_px.Prelude.Map.{Map}
use trabalho_radio_px.Http.{Response, respond, fail, Handler}
use trabalho_radio_px.User.{
  User, UpdateUserRequest, UserError, error_text, Result, ok, err, user_not_found,
  user_already_exists, invalid_credentials, email_required, password_required, invalid_email,
  password_too_short, user_inactive, admin_self_action, password_not_hashed,
}
use trabalho_radio_px.User.Service.{Accounts, get_user, update_user, delete_user, change_password}

pub record ChangePasswordRequest : Type 0 where
  pub old_password : String
  pub new_password : String

-- What a handler encodes in the response.
pub data UserBody (Float : Type 0) : Type 0 where
  profile : User Float → UserBody Float
  message : String → UserBody Float

-- The status of an error of ChangePassword.
unfoldable pub change_password_status : UserError → ℕ
change_password_status user_not_found = 409
change_password_status user_already_exists = 409
change_password_status invalid_credentials = 401
change_password_status email_required = 409
change_password_status password_required = 400
change_password_status invalid_email = 409
change_password_status password_too_short = 400
change_password_status user_inactive = 409
change_password_status admin_self_action = 409
change_password_status password_not_hashed = 409

module _ (a : Accounts) {Float : Type 0} where
  abbrev pub shown : Result (User Float) → Response (UserBody Float)
  shown (err e) = fail 404 (error_text e)
  shown (ok u) = respond 200 (profile u)

  unfoldable pub handle_get_user_profile : String → Handler (Map (User Float)) (UserBody Float)
  unfolding error_text
  handle_get_user_profile user r s = (s, shown (get_user a s user))

  unfoldable pub handle_update_user_profile :
      ℕ → Option UpdateUserRequest → String → Handler (Map (User Float)) (UserBody Float)
  unfolding error_text
  handle_update_user_profile now body user r s = elim body [
    | none ↦ (s, fail 400 "Invalid request body")
    | some req ↦
        let (s', e) = update_user a now s user req in
        elim e [ some f ↦ (s', fail 404 (error_text f)) | none ↦ (s', shown (get_user a s' user)) ]
  ]

  unfoldable pub handle_delete_user_by_id : String → Handler (Map (User Float)) (UserBody Float)
  unfolding error_text
  handle_delete_user_by_id user r s =
      let (s', e) = delete_user a s user in
      elim e [
        | some f ↦ (s', fail 404 (error_text f))
        | none ↦ (s', respond 200 (message "User deleted"))
      ]

  unfoldable pub handle_change_password_by_user_id :
      String
      → ℕ
      → Option ChangePasswordRequest
      → String
      → Handler (Map (User Float)) (UserBody Float)
  unfolding error_text change_password_status
  handle_change_password_by_user_id salt now body user r s =
      if not (r.method == "POST") then (s, fail 405 "Method not allowed") else elim body [
        | none ↦ (s, fail 400 "Invalid request body")
        | some req ↦
            let (s', e) = change_password a salt now s user req.old_password req.new_password in
            elim e [
              | some f ↦ (s', fail (change_password_status f) (error_text f))
              | none ↦ (s', respond 200 (message "Password changed"))
            ]
      ]
