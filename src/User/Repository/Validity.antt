-- ===== src/User/Repository/Validity.antt =====
-- backend/internal/user/repository.go: the e-mails of the table stay distinct.
use trabalho_radio_px.Prelude.{
  ℕ, String, ◌≡◌, ap, sym, ◌∙◌, refl, Bool, false, not, ◌&&◌, ◌||◌, Bool-cases, Option-cases, inl,
  inr, ◌⊎◌, none, [], ◌∷◌, arith, ◌==◌, eq_iff,
}
use trabalho_radio_px.Prelude.Map.{Map, find, put, find-put_cases}
use trabalho_radio_px.User.{User, UpdateUserRequest}
use trabalho_radio_px.User.Store.{has_email, other_has_email}
use trabalho_radio_px.User.Store.Validity.{IsValid, find-id, has_email-put}
use trabalho_radio_px.User.Service.{Accounts, edited}
use trabalho_radio_px.User.Repository.{get_by_id, update, updated, update_user_rows}

or_false : (b c : Bool) → (b || c) ≡ false → (b ≡ false) × (c ≡ false)
or_false b c h = ground arith

module _ {Float : Type 0} where
  other_has_email-has_email :
      (s : Map (User Float)) (id email : String)
      → IsValid s
      → find s id ≡ none
      → other_has_email s id email ≡ false
      → has_email s email ≡ false
  unfolding find has_email other_has_email
  other_has_email-has_email [] id email v = λ f h. refl
  other_has_email-has_email ((k, w) ∷ rest) id email v = elim (Bool-cases (k == id)) [
    | inl e ↦ rw e (λ f h. cc)
    | inr e ↦ rw e (λ f h.
        let apart : (w.id == id) ≡ false = ap (λ x. x == id) v.0 ∙ e in
        let h' = rw apart at h in ground (arith, other_has_email-has_email rest id email v.3 f))
  ]

  put_other-IsValid :
      (s : Map (User Float)) (id : String) (u : User Float)
      → other_has_email s id u.email ≡ false
      → u.id ≡ id
      → IsValid s
      → IsValid (put s id u)
  unfolding find put has_email other_has_email
  put_other-IsValid [] id u h i v = (i, refl, refl, tt)
  put_other-IsValid ((k, w) ∷ rest) id u h i v =
      let (here, there) =
        or_false (not (w.id == id) && (w.email == u.email)) (other_has_email rest id u.email) h in
      elim (Bool-cases (k == id)) [
        | inl e ↦
            let free : find rest id ≡ none = ap (find rest) (sym ((eq_iff k id).0 e)) ∙ v.2 in
            rw e (
              i ∙ sym ((eq_iff k id).0 e),
              other_has_email-has_email rest id u.email v.3 free there,
              v.2,
              v.3,
            )
        | inr e ↦
            let apart : (w.id == id) ≡ false = ap (λ x. x == id) v.0 ∙ e in
            let fresh : (u.email == w.email) ≡ false =
              ground (arith, eq_iff u.email w.email, eq_iff w.email u.email) in
            rw e (
              v.0,
              has_email-put rest id u w.email v.1 fresh,
              ground (arith, eq_iff k id, eq_iff id k, find-put_cases rest id u k),
              put_other-IsValid rest id u there i v.3,
            )
      ]

  pub update-IsValid :
      (s : Map (User Float)) (u : User Float)
      → IsValid s
      → IsValid (update s u).0 × (((update s u).1 ≡ none) ⊎ ((update s u).0 ≡ s))
  unfolding update
  update-IsValid s u v = elim (Option-cases (find s u.id)) [
    | inl e ↦ rw (update, e) (v, inr refl)
    | inr (old, e) ↦ elim (Bool-cases (other_has_email s u.id u.email)) [
      | inl o ↦ rw (update, e, o) (v, inr refl)
      | inr o ↦
          rw (update, e, o)
            (put_other-IsValid s u.id (updated old u) o (find-id s u.id old v e) v, inl refl)
    ]
  ]

  -- Over PostgreSQL, UpdateUser keeps each account under its identifier and the e-mails distinct
  -- whatever e-mail it is given, and where it reports an error, the accounts are as they were.
  pub update_user_rows-IsValid :
      (a : Accounts) (now : ℕ) (s : Map (User Float)) (id : String) (req : UpdateUserRequest)
      → IsValid s
      → IsValid (update_user_rows a now s id req).0
        × (((update_user_rows a now s id req).1 ≡ none) ⊎ ((update_user_rows a now s id req).0 ≡ s))
  unfolding update_user_rows get_by_id
  update_user_rows-IsValid a now s id req v = elim (Option-cases (find s id)) [
    | inl e ↦ rw (update_user_rows, get_by_id, e) (v, inr refl)
    | inr (u, e) ↦ rw (update_user_rows, get_by_id, e) (update-IsValid s (edited a now req u) v)
  ]
