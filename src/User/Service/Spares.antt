-- ===== src/User/Service/Spares.antt =====
-- backend/internal/user/service.go: calls about one account that leave another as it was.
use trabalho_radio_px.Prelude.{
  ℕ, String, ◌≡◌, ap, ◌∙◌, refl, Bool, false, ◌==◌, eq_iff, arith, Bool-cases, Option-cases, inl,
  inr,
}
use trabalho_radio_px.Prelude.Map.{Map, find, put, find-put, find-delete}
use trabalho_radio_px.User.{User}
use trabalho_radio_px.User.Store
use trabalho_radio_px.User.Store.Validity.{IsValid, find-id}
use trabalho_radio_px.User.Service.{Accounts, change, set_user_active, set_user_admin, delete_user}
use trabalho_radio_px.User.Service.Validity.{
  update-put, set_user_active-IsValid, set_user_admin-IsValid,
}
use trabalho_radio_px.User.Service.History.{delete_user-IsValid}

module _ {Float : Type 0} where
  -- The store is valid, and an account is as it was.
  abbrev pub Spares : String → Map (User Float) → Map (User Float) → Type 0
  Spares actor s s' = IsValid s' × (find s' actor ≡ find s actor)

module _ (a : Accounts) {Float : Type 0} where
  change-find :
      (s : Map (User Float)) (target actor : String) (f : User Float → User Float)
      → ((u : User Float) → (f u).id ≡ u.id)
      → IsValid s
      → (actor == target) ≡ false
      → find (change a s target f).0 actor ≡ find s actor
  unfolding change
  change-find s target actor f keeps v d = elim (Option-cases (find s target)) [
    | inl e ↦ rw (e, change) refl
    | inr (u, e) ↦
        let put_only : (Store.update (put s target (f u)) (f u)).0 ≡ put s target (f u) =
          update-put s target (f u) (keeps u ∙ find-id s target u v e) in
        let other : (target == actor) ≡ false =
          ground (arith, eq_iff target actor, eq_iff actor target) in
        rw (e, change)
          (ap (λ m. find m actor) put_only ∙ find-put s target (f u) actor ∙ rw other refl)
  ]

  pub set_user_active-Spares :
      (now : ℕ) (s : Map (User Float)) (actor target : String) (active : Bool)
      → IsValid s
      → Spares actor s (set_user_active a now s actor target active).0
  unfolding set_user_active
  set_user_active-Spares now s actor target active v = (
    set_user_active-IsValid a now s actor target active v,
    elim (Bool-cases (actor == target)) [
      | inl e ↦ rw (set_user_active, e) refl
      | inr e ↦ rw (set_user_active, e) (change-find s target actor _ (λ u. refl) v e)
    ],
  )

  pub set_user_admin-Spares :
      (now : ℕ) (s : Map (User Float)) (actor target : String) (admin : Bool)
      → IsValid s
      → Spares actor s (set_user_admin a now s actor target admin).0
  unfolding set_user_admin
  set_user_admin-Spares now s actor target admin v = (
    set_user_admin-IsValid a now s actor target admin v,
    elim (Bool-cases (actor == target)) [
      | inl e ↦ rw (set_user_admin, e) refl
      | inr e ↦ rw (set_user_admin, e) (change-find s target actor _ (λ u. refl) v e)
    ],
  )

  pub delete_user-Spares :
      (s : Map (User Float)) (actor target : String)
      → IsValid s
      → (actor == target) ≡ false
      → Spares actor s (delete_user a s target).0
  unfolding delete_user Store.delete_user
  delete_user-Spares s actor target v d = (
    delete_user-IsValid a s target v,
    elim (Option-cases (find s target)) [
      | inl e ↦ rw (delete_user, Store.delete_user, e) refl
      | inr (u, e) ↦
          let other : (target == actor) ≡ false =
            ground (arith, eq_iff target actor, eq_iff actor target) in
          rw (delete_user, Store.delete_user, e) (find-delete s target actor ∙ rw other refl)
    ],
  )
