-- ===== src/User/Service.antt =====
-- backend/internal/user/service.go: the rules about accounts, over the store in memory. A call of the
-- service is one step; the identifier and the salt that it draws and its clock readings are
-- arguments.
pub mod Validity
pub mod History
pub mod Access
pub mod Spares
use trabalho_radio_px.Prelude.{
  ℕ, String, Bool, true, false, not, ◌≡◌, Option, none, some, List, [], ◌∷◌, ltb, if◌then◌else◌,
  ◌==◌,
}
use Prim.Native.String.{len}
use trabalho_radio_px.Prelude.Map.{Map, find, put}
use trabalho_radio_px.User.{
  User, CreateUserRequest, UpdateUserRequest, UserError, Result, ok, err, user_not_found,
  invalid_credentials, email_required, password_required, invalid_email, password_too_short,
  user_inactive, admin_self_action, password_not_hashed,
}
use trabalho_radio_px.User.Store
use trabalho_radio_px.User.Store.{with_email}

-- The functions of packages strings, net/mail and golang.org/x/crypto/bcrypt that the service calls.
pub record Accounts : Type 0 where
  pub trim_space : String → String
  pub to_lower : String → String
  -- The `Address` of `mail.ParseAddress`, `none` for an error
  pub parse_address : String → Option String
  -- `bcrypt.GenerateFromPassword` with the salt that it draws, `none` for an error
  pub generate_from_password : String → String → Option String
  -- `bcrypt.CompareHashAndPassword` returns nil
  pub compare_hash_and_password : String → String → Bool
  -- A hash matches the password that it was made from.
  pub compare-generate :
      (salt password hash : String)
      → generate_from_password salt password ≡ some hash
      → compare_hash_and_password hash password ≡ true

abbrev pub min_password_length : ℕ
min_password_length = 8

module _ (a : Accounts) where
  open a use {trim_space, to_lower, parse_address}

  abbrev pub normalize_email : String → String
  normalize_email email = to_lower (trim_space email)

  unfoldable pub valid_email : String → Bool
  valid_email email = elim (parse_address email) [ none ↦ false | some address ↦ address == email ]

module _ (a : Accounts) {Float : Type 0} where
  open a use {generate_from_password, compare_hash_and_password}

  -- The account of CreateUser.
  abbrev pub local_user : String → ℕ → String → String → String → User Float
  local_user id now email hash name = record {
    id = id;
    email = email;
    password = hash;
    name = name;
    avatar = "";
    provider = "local";
    provider_id = "";
    is_active = true;
    is_admin = false;
    last_lat = none;
    last_lng = none;
    last_location_at = none;
    created_at = now;
    updated_at = now;
  }

  -- The store's answer to a new account, and the account.
  abbrev pub created :
      User Float → Map (User Float) × Option UserError → Map (User Float) × Result (User Float)
  created u (s, none) = (s, ok u)
  created u (s, some e) = (s, err e)

  unfoldable pub create_user :
      String
      → String
      → ℕ
      → Map (User Float)
      → CreateUserRequest
      → Map (User Float) × Result (User Float)
  unfolding valid_email
  create_user id salt now s req =
      let email = normalize_email a req.email in
      if email == ""
      then (s, err email_required)
      else if not (valid_email a email)
      then (s, err invalid_email)
      else if req.password == ""
      then (s, err password_required)
      else if ltb (len req.password) min_password_length
      then (s, err password_too_short)
      else elim (generate_from_password salt req.password) [
        | none ↦ (s, err password_not_hashed)
        | some hash ↦ let u = local_user id now email hash req.name in created u (Store.create s u)
      ]

  unfoldable pub get_user : Map (User Float) → String → Result (User Float)
  get_user s id = Store.get_by_id s id

  unfoldable pub get_user_by_email : Map (User Float) → String → Result (User Float)
  get_user_by_email s email = Store.get_by_email s (normalize_email a email)

  abbrev pub edited : ℕ → UpdateUserRequest → User Float → User Float
  edited now req u = record u {
    name = if req.name == "" then u.name else req.name;
    email = if req.email == "" then u.email else normalize_email a req.email;
    avatar = if req.avatar == "" then u.avatar else req.avatar;
    updated_at = now;
  }

  -- The account that GetByID points to is changed in place, and then given to Update.
  unfoldable pub change :
      Map (User Float) → String → (User Float → User Float) → Map (User Float) × Option UserError
  change s id f = elim (find s id) [
    | none ↦ (s, some user_not_found)
    | some u ↦ Store.update (put s id (f u)) (f u)
  ]

  unfoldable pub update_user :
      ℕ → Map (User Float) → String → UpdateUserRequest → Map (User Float) × Option UserError
  update_user now s id req = change s id (edited now req)

  unfoldable pub delete_user : Map (User Float) → String → Map (User Float) × Option UserError
  delete_user s id = Store.delete_user s id

  unfoldable pub authenticate : Map (User Float) → String → String → Result (User Float)
  authenticate s email password = elim (Store.get_by_email s (normalize_email a email)) [
    | err e ↦ err invalid_credentials
    | ok u ↦
        if not (compare_hash_and_password u.password password)
        then err invalid_credentials
        else if not u.is_active
        then err user_inactive
        else ok u
  ]

  unfoldable pub set_user_active :
      ℕ → Map (User Float) → String → String → Bool → Map (User Float) × Option UserError
  set_user_active now s actor target active =
      if actor == target
      then (s, some admin_self_action)
      else change s target (λ u. record u { is_active = active; updated_at = now })

  unfoldable pub set_user_admin :
      ℕ → Map (User Float) → String → String → Bool → Map (User Float) × Option UserError
  set_user_admin now s actor target admin =
      if actor == target
      then (s, some admin_self_action)
      else change s target (λ u. record u { is_admin = admin; updated_at = now })

  -- The loop of BootstrapAdmins, with the e-mails promoted so far.
  unfoldable pub bootstrap :
      ℕ → Map (User Float) → List String → Map (User Float) × List String × Option UserError
  bootstrap now s [] = (s, [], none)
  bootstrap now s (raw ∷ rest) =
      let skipped = bootstrap now s rest in
      let email = normalize_email a raw in
      if email == "" then skipped else elim (Store.get_by_email s email) [
        | err _ ↦ skipped
        | ok u ↦
            if u.is_admin
            then skipped
            else (let promoted = record u { is_admin = true; updated_at = now } in
                let (after, failed) = Store.update (put s u.id promoted) promoted in
                let (end, others, e) = bootstrap now after rest in
                elim failed [
                  | some f ↦ (after, [], some f)
                  | none ↦ (end, promoted.email ∷ others, e)
                ])
      ]

  unfoldable pub bootstrap_admins :
      ℕ → Map (User Float) → List String → Map (User Float) × List String × Option UserError
  unfolding bootstrap
  bootstrap_admins now s emails = bootstrap now s emails

  -- The password of an account is the hash of a new one.
  unfoldable pub change_password :
      String → ℕ → Map (User Float) → String → String → String → Map (User Float) × Option UserError
  change_password salt now s id old new = elim (find s id) [
    | none ↦ (s, some user_not_found)
    | some u ↦
        if not (compare_hash_and_password u.password old)
        then (s, some invalid_credentials)
        else if new == ""
        then (s, some password_required)
        else if ltb (len new) min_password_length
        then (s, some password_too_short)
        else elim (generate_from_password salt new) [
          | none ↦ (s, some password_not_hashed)
          | some hash ↦ change s id (λ u. record u { password = hash; updated_at = now })
        ]
  ]

  abbrev pub oauth_user : String → ℕ → String → String → String → String → User Float
  oauth_user id now email name provider provider_id = record (local_user id now email "" name) {
    provider = provider;
    provider_id = provider_id;
  }

  unfoldable pub create_oauth_user :
      String
      → ℕ
      → Map (User Float)
      → String
      → String
      → String
      → String
      → Map (User Float) × Result (User Float)
  create_oauth_user id now s raw name provider provider_id =
      let email = normalize_email a raw in
      elim (Store.get_by_email_and_provider s email provider) [
        | ok existing ↦ (s, ok existing)
        | err _ ↦
            let u = oauth_user id now email name provider provider_id in
            created u (Store.create s u)
      ]

  unfoldable pub list_users : Map (User Float) → List (User Float)
  list_users s = Store.list s

  unfoldable pub update_last_location :
      Map (User Float) → String → Float → Float → ℕ → Map (User Float) × Option UserError
  update_last_location s id lat lng at_time = Store.update_last_location s id lat lng at_time
