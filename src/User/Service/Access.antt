-- ===== src/User/Service/Access.antt =====
-- backend/internal/user/service.go: who can log in, and an e-mail that is taken.
use trabalho_radio_px.Prelude.{
  ℕ, String, ◌≡◌, ◌≢◌, ◌⊎◌, ap, sym, ◌∙◌, refl, Bool, true, false, not, ◌||◌, Bool-cases, none,
  some, [], ◌∷◌, Option-cases, inl, inr, arith, if◌then◌else◌, ◌==◌, eq_iff, eq_refl, ltb,
}
use Prim.Native.String.{len}
use trabalho_radio_px.Prelude.Map.{Map, find, put, find-put}
use trabalho_radio_px.User.{
  User, CreateUserRequest, UpdateUserRequest, UserError, user_already_exists, Result, ok, err,
}
use trabalho_radio_px.User.Store.{
  has_email, other_has_email, with_email, create, update, get_by_email,
}
use trabalho_radio_px.User.Store.Validity.{IsValid, find-id}
use trabalho_radio_px.User.Service.{
  Accounts, normalize_email, valid_email, local_user, created, create_user, change, update_user,
  edited, authenticate, set_user_active, min_password_length,
}
use trabalho_radio_px.User.Service.Validity.{set_user_active-IsValid, update-put, get_by_email-find}

-- The two tests of Authenticate.
pass :
    {A : Type 0} (b c : Bool) (x y z : A)
    → b ≡ true
    → c ≡ true
    → (if not b then x else if not c then y else z) ≡ z
pass b c x y z p q = rw (p, q) refl

passed :
    {A : Type 0} (b c : Bool) (e f : UserError) (x u : A)
    → (if not b then err e else if not c then err f else ok x) ≡ ok u
    → (c ≡ true) × (x ≡ u)
passed true true e f x u h = (refl, cc)
passed true false e f x u h = cc
passed false c e f x u h = cc

pub result-cases :
    {A : Type 0} (r : Result A) → ((e : UserError) × (r ≡ err e)) ⊎ ((x : A) × (r ≡ ok x))
result-cases (err e) = inl (e, refl)
result-cases (ok x) = inr (x, refl)

or_false : (b c : Bool) → (b || c) ≡ false → (b ≡ false) × (c ≡ false)
or_false b c h = ground arith

module _ {Float : Type 0} where
  with_email-put :
      (s : Map (User Float)) (id : String) (u : User Float)
      → has_email s u.email ≡ false
      → with_email (put s id u) u.email ≡ some u
  unfolding put has_email with_email
  with_email-put [] id u h = rw eq_refl refl
  with_email-put ((k, w) ∷ rest) id u h = elim (Bool-cases (k == id)) [
    | inl t ↦ rw t (rw (eq_refl u.email) refl)
    | inr t ↦ rw t (
        let (other, none_there) = or_false (w.email == u.email) (has_email rest u.email) h in
        rw other (with_email-put rest id u none_there))
  ]

  other_has_email-find :
      (s : Map (User Float)) (i j : String) (w : User Float)
      → w.id ≡ j
      → (j == i) ≡ false
      → find s j ≡ some w
      → other_has_email s i w.email ≡ true
  unfolding find other_has_email
  other_has_email-find [] i j w e d = λ h. cc
  other_has_email-find ((k, x) ∷ rest) i j w e d = elim (Bool-cases (k == j)) [
    | inl t ↦ rw t (λ h. let p : x ≡ w = cc in rw (p, e, d, eq_refl w.email) refl)
    | inr t ↦ rw t (λ h. rw (other_has_email-find rest i j w e d h) (ground arith))
  ]

  update-refused :
      (s : Map (User Float)) (u old : User Float)
      → find s u.id ≡ some old
      → other_has_email s u.id u.email ≡ true
      → update s u ≡ (s, some user_already_exists)
  unfolding update
  update-refused s u old e o = rw (e, update, o) refl

  -- An account that was changed in place and has another account's e-mail is refused.
  put-refused :
      (s : Map (User Float)) (i j : String) (new w : User Float)
      → new.id ≡ i
      → (i == j) ≡ false
      → w.id ≡ j
      → find s j ≡ some w
      → new.email ≡ w.email
      → update (put s i new) new ≡ (put s i new, some user_already_exists)
  put-refused s i j new w k d e f m =
      update-refused (put s i new) new new (rw (k, find-put, eq_refl i) refl) (
        ap (λ x. other_has_email (put s i new) x new.email) k
        ∙ ap (other_has_email (put s i new) i) m
        ∙ other_has_email-find (put s i new) i j w e (ground (arith, eq_iff i j, eq_iff j i))
            (rw (find-put, d) f))

module _ (a : Accounts) {Float : Type 0} where
  open a use {generate_from_password, compare_hash_and_password}

  login-created :
      (s : Map (User Float)) (new u : User Float) (email password : String)
      → normalize_email a email ≡ new.email
      → compare_hash_and_password new.password password ≡ true
      → new.is_active ≡ true
      → (created a new (create s new)).1 ≡ ok u
      → authenticate a (created a new (create s new)).0 email password ≡ ok u
  unfolding create authenticate get_by_email
  login-created s new u email password n c t = elim (Bool-cases (has_email s new.email)) [
    | inl e ↦ rw (create, e) (λ h. cc)
    | inr e ↦
        rw (create, e)
          (λ h.
            rw (authenticate, get_by_email, n, with_email-put s new.id new e)
              (pass _ _ _ _ _ c t ∙ h))
  ]

  authenticate-get_by_email :
      (s : Map (User Float)) (email password : String) (u : User Float)
      → authenticate a s email password ≡ ok u
      → (get_by_email s (normalize_email a email) ≡ ok u) × (u.is_active ≡ true)
  unfolding authenticate
  authenticate-get_by_email s email password u =
      elim (result-cases (get_by_email s (normalize_email a email))) [
        | inl (e, r) ↦ rw (authenticate, r) (λ h. cc)
        | inr (x, r) ↦
            rw (authenticate, r)
              (λ h.
                let (t, p) = passed _ _ _ _ x u h in (ap ok p, ap (λ y. y.is_active) (sym p) ∙ t))
      ]

  -- An account that was suspended.
  suspended :
      (now : ℕ) (s : Map (User Float)) (actor target : String) (u : User Float)
      → IsValid s
      → (set_user_active a now s actor target false).1 ≡ none
      → find (set_user_active a now s actor target false).0 target ≡ some u
      → u.is_active ≡ false
  unfolding set_user_active change
  suspended now s actor target u v = elim (Bool-cases (actor == target)) [
    | inl t ↦ rw (set_user_active, t) (λ h k. cc)
    | inr t ↦ elim (Option-cases (find s target)) [
      | inl e ↦ rw (set_user_active, t, change, e) (λ h k. cc)
      | inr (old, e) ↦
          let new = record old { is_active = false; updated_at = now } in
          let i = find-id s target old v e in
          rw (set_user_active, t, change, e)
            (λ h.
              rw (update-put s target new i, find-put, eq_refl target)
                (λ k. let p : new ≡ u = cc in ap (λ x. x.is_active) (sym p)))
    ]
  ]

  -- Whoever CreateUser gave an account can log in with the e-mail and the password of the request.
  pub create_user-authenticate :
      (id salt : String) (now : ℕ) (s : Map (User Float)) (req : CreateUserRequest) (u : User Float)
      → (create_user a id salt now s req).1 ≡ ok u
      → authenticate a (create_user a id salt now s req).0 req.email req.password ≡ ok u
  unfolding create_user
  create_user-authenticate id salt now s req u =
      let email = normalize_email a req.email in
      elim (Bool-cases (email == "")) [
        | inl e ↦ rw (create_user, e) (λ h. cc)
        | inr e ↦ elim (Bool-cases (valid_email a email)) [
          | inr w ↦ rw (create_user, e, w) (λ h. cc)
          | inl w ↦ elim (Bool-cases (req.password == "")) [
            | inl p ↦ rw (create_user, e, w, p) (λ h. cc)
            | inr p ↦ elim (Bool-cases (ltb (len req.password) min_password_length)) [
              | inl l ↦ rw (create_user, e, w, p, l) (λ h. cc)
              | inr l ↦ elim (Option-cases (generate_from_password salt req.password)) [
                | inl g ↦ rw (create_user, e, w, p, l, g) (λ h. cc)
                | inr (hash, g) ↦
                    rw (create_user, e, w, p, l, g)
                      (login-created s (local_user a id now email hash req.name) u req.email
                        req.password refl (a.compare-generate salt req.password hash g) refl)
              ]
            ]
          ]
        ]
      ]

  -- In a store with distinct e-mails, an administrator who suspended an account keeps its user
  -- from logging in.
  pub set_user_active-authenticate :
      (now : ℕ) (s : Map (User Float)) (actor target email password : String) (u : User Float)
      → IsValid s
      → (set_user_active a now s actor target false).1 ≡ none
      → authenticate a (set_user_active a now s actor target false).0 email password ≡ ok u
      → u.id ≢ target
  set_user_active-authenticate now s actor target email password u v h k same =
      let after = (set_user_active a now s actor target false).0 in
      let valid_after = set_user_active-IsValid a now s actor target false v in
      let (got, active) = authenticate-get_by_email after email password u k in
      let there = (get_by_email-find after (normalize_email a email) u got valid_after).1 in
      let inactive = suspended now s actor target u v h (ap (find after) (sym same) ∙ there) in cc

  -- In a store with distinct e-mails, UpdateUser for an account with the e-mail of another account
  -- reports that it is taken, and yet leaves the e-mail in both accounts.
  pub update_user_duplicate :
      (now : ℕ) (s : Map (User Float)) (i j : String) (u w : User Float) (req : UpdateUserRequest)
      → IsValid s
      → i ≢ j
      → find s i ≡ some u
      → find s j ≡ some w
      → (req.email == "") ≡ false
      → normalize_email a req.email ≡ w.email
      → ((update_user a now s i req).1 ≡ some user_already_exists)
        × (find (update_user a now s i req).0 i ≡ some (edited a now req u))
        × ((edited a now req u).email ≡ w.email)
        × (find (update_user a now s i req).0 j ≡ some w)
  unfolding update_user change
  update_user_duplicate now s i j u w req v d e f n m =
      let new = edited a now req u in
      let q : new.email ≡ w.email = rw n m in
      let apart : (i == j) ≡ false = ground (arith, eq_iff i j) in
      let refused = put-refused s i j new w (find-id s i u v e) apart (find-id s j w v f) f q in
      rw (update_user, change, e, refused)
        (refl, rw (find-put, eq_refl i) refl, q, rw (find-put, apart) f)
