-- ===== src/User/Repository.antt =====
-- backend/internal/user/repository.go: the store of accounts over PostgreSQL, with the table users of
-- backend/internal/db/migrations. A statement does what the language says of it: the primary key and
-- UNIQUE(email) refuse a row that has the identifier or the e-mail of another. Statements that fail
-- for another reason are left out. A call is one statement and so one step.
pub mod Validity
use trabalho_radio_px.Prelude.{
  ℕ, String, ◌||◌, Option, none, some, List, [], ◌∷◌, leb, if◌then◌else◌,
}
use trabalho_radio_px.Prelude.Map.{Map, find, put, delete}
use trabalho_radio_px.User.{
  User, UpdateUserRequest, UserError, Result, ok, err, user_not_found, user_already_exists,
}
use trabalho_radio_px.User.Store.{has_email, other_has_email, with_email, with_provider}
use trabalho_radio_px.User.Service.{Accounts, edited}

-- `ORDER BY created_at`
unfoldable pub insert_by_created :
    {Float : Type 0} → User Float → List (User Float) → List (User Float)
insert_by_created u [] = u ∷ []
insert_by_created u (w ∷ ws) =
    let rest = insert_by_created u ws in
    if leb u.created_at w.created_at then u ∷ w ∷ ws else w ∷ rest

-- queryOne, on the rows that a query finds.
abbrev pub query_one : {Float : Type 0} → Option (User Float) → Result (User Float)
query_one none = err user_not_found
query_one (some u) = ok u

module _ {Float : Type 0} where
  -- The row of INSERT, whose columns for the position stay NULL.
  abbrev pub inserted : User Float → User Float
  inserted u = record u { last_lat = none; last_lng = none; last_location_at = none }

  unfoldable pub create : Map (User Float) → User Float → Map (User Float) × Option UserError
  create s u = elim (find s u.id) [
    | some _ ↦ (s, some user_already_exists)
    | none ↦
        if has_email s u.email
        then (s, some user_already_exists)
        else (put s u.id (inserted u), none)
  ]

  unfoldable pub get_by_id : Map (User Float) → String → Result (User Float)
  get_by_id s id = query_one (find s id)

  unfoldable pub get_by_email : Map (User Float) → String → Result (User Float)
  get_by_email s email = query_one (with_email s email)

  unfoldable pub get_by_email_and_provider :
      Map (User Float) → String → String → Result (User Float)
  get_by_email_and_provider s email provider = query_one (with_provider s email provider)

  -- The row of UPDATE: the columns that it does not set keep their values.
  abbrev pub updated : User Float → User Float → User Float
  updated old u = record old {
    name = u.name;
    email = u.email;
    avatar = u.avatar;
    provider = u.provider;
    provider_id = u.provider_id;
    is_active = u.is_active;
    is_admin = u.is_admin;
    password = u.password;
    updated_at = u.updated_at;
  }

  unfoldable pub update : Map (User Float) → User Float → Map (User Float) × Option UserError
  update s u = elim (find s u.id) [
    | none ↦ (s, some user_not_found)
    | some old ↦
        if other_has_email s u.id u.email
        then (s, some user_already_exists)
        else (put s u.id (updated old u), none)
  ]

  unfoldable pub delete_user : Map (User Float) → String → Map (User Float) × Option UserError
  delete_user s id = elim (find s id) [
    | none ↦ (s, some user_not_found)
    | some _ ↦ (delete s id, none)
  ]

  unfoldable pub list : Map (User Float) → List (User Float)
  unfolding insert_by_created
  list [] = []
  list ((_, u) ∷ rest) = insert_by_created u (list rest)

  unfoldable pub update_last_location :
      Map (User Float) → String → Float → Float → ℕ → Map (User Float) × Option UserError
  update_last_location s id lat lng at_time = elim (find s id) [
    | none ↦ (s, some user_not_found)
    | some u ↦ (
      put s id
          (record u { last_lat = some lat; last_lng = some lng; last_location_at = some at_time }),
      none,
    )
  ]

  -- UpdateUser of the service over this store: the account that it changes is a copy.
  unfoldable pub update_user_rows :
      Accounts
      → ℕ
      → Map (User Float)
      → String
      → UpdateUserRequest
      → Map (User Float) × Option UserError
  unfolding get_by_id update
  update_user_rows a now s id req = elim (get_by_id s id) [
    | err e ↦ (s, some e)
    | ok u ↦ update s (edited a now req u)
  ]
