-- ===== src/User/Service/Validity.antt =====
-- backend/internal/user/service.go over memory_store.go: which calls keep the e-mails distinct.
use trabalho_radio_px.Prelude.{
  ℕ, String, ◌≡◌, ap, sym, ◌∙◌, refl, subst, Bool, true, Bool-cases, Option-cases, inl, inr, Option,
  none, some, List, [], ◌∷◌, arith, ◌==◌, eq_refl, ltb, if-both, elim-both,
}
use Prim.Native.String.{len}
use trabalho_radio_px.Prelude.Map.{Map, find, put}
use trabalho_radio_px.User.{User, CreateUserRequest, UserError, Result, ok, err}
use trabalho_radio_px.User.Store
use trabalho_radio_px.User.Store.{
  has_email, other_has_email, create, get_by_email, get_by_email_and_provider, with_email, update,
}
use trabalho_radio_px.User.Store.Validity.{
  IsValid, find-id, create-IsValid, put_same-IsValid, with_email-find,
}
use trabalho_radio_px.User.Service.{
  Accounts, normalize_email, valid_email, local_user, created, create_user, change, set_user_active,
  set_user_admin, bootstrap, change_password, min_password_length, oauth_user, create_oauth_user,
  update_last_location,
}

module _ {Float : Type 0} where
  put-put :
      (s : Map (User Float)) (id : String) (u : User Float) → put (put s id u) id u ≡ put s id u
  unfolding put
  put-put [] id u = rw eq_refl refl
  put-put ((k, w) ∷ rest) id u = ground (arith, put-put rest id u)

  -- Giving the store an account that was changed in place changes nothing more.
  pub update-put :
      (s : Map (User Float)) (id : String) (u : User Float)
      → u.id ≡ id
      → (update (put s id u) u).0 ≡ put s id u
  unfolding update
  update-put s id u i = elim (Bool-cases (other_has_email (put s id u) u.id u.email)) [
    | inl o ↦ elim (Option-cases (find (put s id u) u.id)) [
      | inl e ↦ rw (e, update) refl
      | inr (_, e) ↦ rw (e, update, o) refl
    ]
    | inr o ↦ elim (Option-cases (find (put s id u) u.id)) [
      | inl e ↦ rw (e, update) refl
      | inr (_, e) ↦ rw (e, update, o) (ap (λ k. put (put s id u) k u) i ∙ put-put s id u)
    ]
  ]

  pub update_put-IsValid :
      (s : Map (User Float)) (id : String) (u old : User Float)
      → u.email ≡ old.email
      → u.id ≡ old.id
      → find s id ≡ some old
      → IsValid s
      → IsValid (update (put s id u) u).0
  update_put-IsValid s id u old e i h v =
      let j = i ∙ find-id s id old v h in
      subst IsValid (sym (update-put s id u j)) (put_same-IsValid s id u old e j v h)

  pub get_by_email-find :
      (s : Map (User Float)) (email : String) (u : User Float)
      → get_by_email s email ≡ ok u
      → IsValid s
      → (u.email ≡ email) × (find s u.id ≡ some u)
  unfolding get_by_email
  get_by_email-find s email u h v = elim (Option-cases (with_email s email)) [
    | inl e ↦ let h' = rw (get_by_email, e) at h in cc
    | inr (w, e) ↦
        let p : w ≡ u = cc in
        subst (λ x. (x.email ≡ email) × (find s x.id ≡ some x)) p (with_email-find s email w v e)
  ]

  change-IsValid :
      (a : Accounts) (s : Map (User Float)) (id : String) (f : User Float → User Float)
      → ((u : User Float) → ((f u).email ≡ u.email) × ((f u).id ≡ u.id))
      → IsValid s
      → IsValid (change a s id f).0
  unfolding change
  change-IsValid a s id f keeps v = elim (Option-cases (find s id)) [
    | inl e ↦ rw (e, change) v
    | inr (u, e) ↦ rw (e, change) (let (m, i) = keeps u in update_put-IsValid s id (f u) u m i e v)
  ]

-- A call's result whose store is valid.
data Leaves {Float : Type 0} {E : Type 0} (r : Map (User Float) × E) : Type 0 where
  leaves : IsValid r.0 → Leaves r

valid : {Float : Type 0} {E : Type 0} {r : Map (User Float) × E} → Leaves r → IsValid r.0
valid (leaves v) = v

data LeavesWith {Float : Type 0} (r : Map (User Float) × List String × Option UserError)
    : Type 0 where
  leaves_with : IsValid r.0 → LeavesWith r

valid_with :
    {Float : Type 0} {r : Map (User Float) × List String × Option UserError}
    → LeavesWith r
    → IsValid r.0
valid_with (leaves_with v) = v

-- What an answer's two continuations have.
result-both {ℓ κ μ} :
    {A : Type ℓ} {B : Type μ} (P : A → Type κ) (r : Result B) (x : UserError → A) (y : B → A)
    → ((e : UserError) → P (x e))
    → ((b : B) → r ≡ ok b → P (y b))
    → P (elim r [ err e ↦ x e | ok b ↦ y b ])
result-both P (err e) x y p q = p e
result-both P (ok b) x y p q = q b refl

module _ (a : Accounts) {Float : Type 0} where
  open a use {generate_from_password, compare_hash_and_password}

  created-store :
      (u : User Float) (r : Map (User Float) × Option UserError) → (created a u r).0 ≡ r.0
  created-store u (s, none) = refl
  created-store u (s, some e) = refl

  pub create_user-IsValid :
      (id salt : String) (now : ℕ) (s : Map (User Float)) (req : CreateUserRequest)
      → IsValid s
      → IsValid (create_user a id salt now s req).0
  unfolding create_user
  create_user-IsValid id salt now s req v =
      let email = normalize_email a req.email in
      elim (Bool-cases (email == "")) [
        | inl e ↦ rw (e, create_user) v
        | inr e ↦ elim (Bool-cases (valid_email a email)) [
          | inr w ↦ rw (e, create_user, w) v
          | inl w ↦ elim (Bool-cases (req.password == "")) [
            | inl p ↦ rw (e, create_user, w, p) v
            | inr p ↦ elim (Bool-cases (ltb (len req.password) min_password_length)) [
              | inl l ↦ rw (e, create_user, w, p, l) v
              | inr l ↦ elim (Option-cases (generate_from_password salt req.password)) [
                | inl g ↦ rw (e, create_user, w, p, l, g) v
                | inr (hash, g) ↦
                    rw (e, create_user, w, p, l, g)
                      (rw created-store
                        (create-IsValid s (local_user a id now email hash req.name) v))
              ]
            ]
          ]
        ]
      ]

  pub set_user_active-IsValid :
      (now : ℕ) (s : Map (User Float)) (actor target : String) (active : Bool)
      → IsValid s
      → IsValid (set_user_active a now s actor target active).0
  unfolding set_user_active
  set_user_active-IsValid now s actor target active v =
      valid (
        if-both Leaves _ _ _ (leaves v)
          (leaves (change-IsValid a s target _ (λ u. (refl, refl)) v)))

  pub set_user_admin-IsValid :
      (now : ℕ) (s : Map (User Float)) (actor target : String) (admin : Bool)
      → IsValid s
      → IsValid (set_user_admin a now s actor target admin).0
  unfolding set_user_admin
  set_user_admin-IsValid now s actor target admin v =
      valid (
        if-both Leaves _ _ _ (leaves v)
          (leaves (change-IsValid a s target _ (λ u. (refl, refl)) v)))

  pub change_password-IsValid :
      (salt : String) (now : ℕ) (s : Map (User Float)) (id old new : String)
      → IsValid s
      → IsValid (change_password a salt now s id old new).0
  unfolding change_password
  change_password-IsValid salt now s id old new v = elim (Option-cases (find s id)) [
    | inl e ↦ rw (e, change_password) v
    | inr (u, e) ↦ elim (Bool-cases (compare_hash_and_password u.password old)) [
      | inr c ↦ rw (e, change_password, c) v
      | inl c ↦ elim (Bool-cases (new == "")) [
        | inl p ↦ rw (e, change_password, c, p) v
        | inr p ↦ elim (Bool-cases (ltb (len new) min_password_length)) [
          | inl l ↦ rw (e, change_password, c, p, l) v
          | inr l ↦ elim (Option-cases (generate_from_password salt new)) [
            | inl g ↦ rw (e, change_password, c, p, l, g) v
            | inr (hash, g) ↦
                rw (e, change_password, c, p, l, g)
                  (change-IsValid a s id (λ u. record u { password = hash; updated_at = now })
                    (λ u. (refl, refl)) v)
          ]
        ]
      ]
    ]
  ]

  pub create_oauth_user-IsValid :
      (id : String) (now : ℕ) (s : Map (User Float)) (email name provider provider_id : String)
      → IsValid s
      → IsValid (create_oauth_user a id now s email name provider provider_id).0
  unfolding create_oauth_user
  create_oauth_user-IsValid id now s email name provider provider_id v = valid (
      result-both Leaves (get_by_email_and_provider s (normalize_email a email) provider) _ _
        (λ _.
          let u = oauth_user a id now (normalize_email a email) name provider provider_id in
          leaves (subst IsValid (sym (created-store u (create s u))) (create-IsValid s u v)))
        (λ _ _. leaves v))

  pub update_last_location-IsValid :
      (s : Map (User Float)) (id : String) (lat lng : Float) (at_time : ℕ)
      → IsValid s
      → IsValid (update_last_location a s id lat lng at_time).0
  unfolding update_last_location Store.update_last_location
  update_last_location-IsValid s id lat lng at_time v = valid (
      elim-both Leaves (find s id) _ _ (leaves v)
        (λ u e. leaves (put_same-IsValid s id _ u refl (find-id s id u v e) v e)))

  promoted-IsValid :
      (now : ℕ) (s : Map (User Float)) (email : String) (u : User Float)
      → get_by_email s email ≡ ok u
      → IsValid s
      → let promoted = record u { is_admin = true; updated_at = now } in
        IsValid (update (put s u.id promoted) promoted).0
  promoted-IsValid now s email u h v =
      update_put-IsValid s u.id _ u refl refl (get_by_email-find s email u h v).1 v

  pub bootstrap-IsValid :
      (now : ℕ) (emails : List String) (s : Map (User Float))
      → IsValid s
      → IsValid (bootstrap a now s emails).0
  unfolding bootstrap get_by_email
  bootstrap-IsValid now [] s v = v
  bootstrap-IsValid now (raw ∷ rest) s v =
      let skipped = leaves_with (bootstrap-IsValid now rest s v) in
      valid_with (
        if-both LeavesWith _ _ _ skipped (
          result-both LeavesWith (get_by_email s (normalize_email a raw)) _ _ (λ _. skipped)
            (λ u e. if-both LeavesWith _ _ _ skipped (
              let after = promoted-IsValid now s _ u e v in
              elim-both LeavesWith _ _ _ (leaves_with (bootstrap-IsValid now rest _ after))
                (λ f _. leaves_with after)))))
