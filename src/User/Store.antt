-- ===== src/User/Store.antt =====
-- backend/internal/user/memory_store.go: accounts in memory. The lock makes each method one step. The
-- store hands out its own pointers, so a caller that changes an account changes it in the store: a
-- model of a caller writes the account back under its identifier, which is the key it stands under.
pub mod Validity
use trabalho_radio_px.Prelude.{
  ℕ, String, Bool, true, false, not, ◌&&◌, ◌||◌, Option, none, some, List, [], ◌∷◌, if◌then◌else◌,
  ◌==◌,
}
use trabalho_radio_px.Prelude.Map.{Map, find, put, delete}
use trabalho_radio_px.User.{User, UserError, Result, ok, err, user_not_found, user_already_exists}

module _ {Float : Type 0} where
  -- The loop of Create.
  unfoldable pub has_email : Map (User Float) → String → Bool
  has_email [] email = false
  has_email ((_, u) ∷ rest) email = (u.email == email) || has_email rest email

  -- The loop of Update.
  unfoldable pub other_has_email : Map (User Float) → String → String → Bool
  other_has_email [] id email = false
  other_has_email ((_, u) ∷ rest) id email =
      (not (u.id == id) && (u.email == email)) || other_has_email rest id email

  unfoldable pub create : Map (User Float) → User Float → Map (User Float) × Option UserError
  create s u = if has_email s u.email then (s, some user_already_exists) else (put s u.id u, none)

  unfoldable pub get_by_id : Map (User Float) → String → Result (User Float)
  get_by_id s id = elim (find s id) [ none ↦ err user_not_found | some u ↦ ok u ]

  -- The loop of GetByEmail.
  unfoldable pub with_email : Map (User Float) → String → Option (User Float)
  with_email [] email = none
  with_email ((_, u) ∷ rest) email = if u.email == email then some u else with_email rest email

  unfoldable pub get_by_email : Map (User Float) → String → Result (User Float)
  get_by_email s email = elim (with_email s email) [ none ↦ err user_not_found | some u ↦ ok u ]

  -- The loop of GetByEmailAndProvider.
  unfoldable pub with_provider : Map (User Float) → String → String → Option (User Float)
  with_provider [] email provider = none
  with_provider ((_, u) ∷ rest) email provider =
      if (u.email == email) && (u.provider == provider)
      then some u
      else with_provider rest email provider

  unfoldable pub get_by_email_and_provider :
      Map (User Float) → String → String → Result (User Float)
  get_by_email_and_provider s email provider = elim (with_provider s email provider) [
    | none ↦ err user_not_found
    | some u ↦ ok u
  ]

  unfoldable pub update : Map (User Float) → User Float → Map (User Float) × Option UserError
  update s u = elim (find s u.id) [
    | none ↦ (s, some user_not_found)
    | some old ↦
        if other_has_email s u.id u.email
        then (s, some user_already_exists)
        else (put s u.id u, none)
  ]

  unfoldable pub delete_user : Map (User Float) → String → Map (User Float) × Option UserError
  delete_user s id = elim (find s id) [
    | none ↦ (s, some user_not_found)
    | some u ↦ (delete s id, none)
  ]

  unfoldable pub list : Map (User Float) → List (User Float)
  list [] = []
  list ((_, u) ∷ rest) = u ∷ list rest

  -- The account is changed in place.
  unfoldable pub update_last_location :
      Map (User Float) → String → Float → Float → ℕ → Map (User Float) × Option UserError
  update_last_location s id lat lng at_time = elim (find s id) [
    | none ↦ (s, some user_not_found)
    | some u ↦ (
      put s id
          (record u { last_lat = some lat; last_lng = some lng; last_location_at = some at_time }),
      none,
    )
  ]
