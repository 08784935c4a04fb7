-- ===== src/User/Service/History.antt =====
-- backend/internal/user/service.go: any calls but those of UpdateUser, one after another.
use trabalho_radio_px.Prelude.{
  ℕ, String, ◌≡◌, ap, sym, ◌∙◌, Bool, some, List, [], ◌∷◌, Option-cases, inl, inr,
}
use trabalho_radio_px.Prelude.Map.{Map, find}
use trabalho_radio_px.User.{User, CreateUserRequest}
use trabalho_radio_px.User.Store
use trabalho_radio_px.User.Store.{with_email}
use trabalho_radio_px.User.Store.Validity.{IsValid, find-id, find-with_email, delete-IsValid}
use trabalho_radio_px.User.Service
use trabalho_radio_px.User.Service.{
  Accounts, create_user, set_user_active, set_user_admin, bootstrap_admins, change_password,
  create_oauth_user, update_last_location,
}
use trabalho_radio_px.User.Service.Validity.{
  create_user-IsValid, set_user_active-IsValid, set_user_admin-IsValid, change_password-IsValid,
  create_oauth_user-IsValid, update_last_location-IsValid, bootstrap-IsValid,
}

-- The calls but those of UpdateUser.
pub data Call (Float : Type 0) : Type 0 where
  create_call : (id salt : String) (now : ℕ) (req : CreateUserRequest) → Call Float
  oauth_call : (id : String) (now : ℕ) (email name provider provider_id : String) → Call Float
  delete_call : (id : String) → Call Float
  active_call : (now : ℕ) (actor target : String) (active : Bool) → Call Float
  admin_call : (now : ℕ) (actor target : String) (admin : Bool) → Call Float
  bootstrap_call : (now : ℕ) (emails : List String) → Call Float
  password_call : (salt : String) (now : ℕ) (id old new : String) → Call Float
  location_call : (id : String) (lat lng : Float) (at_time : ℕ) → Call Float

module _ (a : Accounts) {Float : Type 0} where
  -- What a call leaves in the store.
  unfoldable pub after : Map (User Float) → Call Float → Map (User Float)
  after s (create_call id salt now req) = (create_user a id salt now s req).0
  after s (oauth_call id now email name provider provider_id) =
      (create_oauth_user a id now s email name provider provider_id).0
  after s (delete_call id) = (Service.delete_user a s id).0
  after s (active_call now actor target active) = (set_user_active a now s actor target active).0
  after s (admin_call now actor target admin) = (set_user_admin a now s actor target admin).0
  after s (bootstrap_call now emails) = (bootstrap_admins a now s emails).0
  after s (password_call salt now id old new) = (change_password a salt now s id old new).0
  after s (location_call id lat lng at_time) = (update_last_location a s id lat lng at_time).0

  unfoldable pub after_all : Map (User Float) → List (Call Float) → Map (User Float)
  unfolding after
  after_all s [] = s
  after_all s (c ∷ cs) = after_all (after s c) cs

  pub delete_user-IsValid :
      (s : Map (User Float)) (id : String) → IsValid s → IsValid (Service.delete_user a s id).0
  unfolding Service.delete_user Store.delete_user
  delete_user-IsValid s id v = elim (Option-cases (find s id)) [
    | inl e ↦ rw (Service.delete_user, Store.delete_user, e) v
    | inr (u, e) ↦ rw (Service.delete_user, Store.delete_user, e) (delete-IsValid s id v)
  ]

  after-IsValid : (s : Map (User Float)) (c : Call Float) → IsValid s → IsValid (after s c)
  unfolding after bootstrap_admins
  after-IsValid s (create_call id salt now req) v = create_user-IsValid a id salt now s req v
  after-IsValid s (oauth_call id now email name provider provider_id) v =
      create_oauth_user-IsValid a id now s email name provider provider_id v
  after-IsValid s (delete_call id) v = delete_user-IsValid s id v
  after-IsValid s (active_call now actor target active) v =
      set_user_active-IsValid a now s actor target active v
  after-IsValid s (admin_call now actor target admin) v =
      set_user_admin-IsValid a now s actor target admin v
  after-IsValid s (bootstrap_call now emails) v = bootstrap-IsValid a now emails s v
  after-IsValid s (password_call salt now id old new) v =
      change_password-IsValid a salt now s id old new v
  after-IsValid s (location_call id lat lng at_time) v =
      update_last_location-IsValid a s id lat lng at_time v

  after_all-IsValid :
      (s : Map (User Float)) (cs : List (Call Float)) → IsValid s → IsValid (after_all s cs)
  unfolding after_all
  after_all-IsValid s [] v = v
  after_all-IsValid s (c ∷ cs) v = after_all-IsValid (after s c) cs (after-IsValid s c v)

  -- Whatever calls but those of UpdateUser were made since the start, two identifiers whose
  -- accounts have the same e-mail are the same.
  pub after_all-email :
      (cs : List (Call Float)) (i j : String) (u w : User Float)
      → find (after_all [] cs) i ≡ some u
      → find (after_all [] cs) j ≡ some w
      → u.email ≡ w.email
      → i ≡ j
  after_all-email cs i j u w e f h =
      let s = after_all [] cs in
      let v : IsValid s = after_all-IsValid [] cs tt in
      let p = find-with_email s i u v e in
      let q = find-with_email s j w v f in
      let same : some u ≡ some w = sym p ∙ ap (with_email s) h ∙ q in
      let x : u ≡ w = cc in sym (find-id s i u v e) ∙ ap (λ y. y.id) x ∙ find-id s j w v f
