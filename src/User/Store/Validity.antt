-- ===== src/User/Store/Validity.antt =====
-- backend/internal/user/memory_store.go: no two accounts have the same e-mail.
use trabalho_radio_px.Prelude.{
  String, ◌≡◌, ap, sym, ◌∙◌, refl, subst, true, false, ◌||◌, Bool-cases, inl, inr, none, some, [],
  ◌∷◌, arith, ◌==◌, eq_iff, eq_refl,
}
use trabalho_radio_px.Prelude.Map.{Map, IsMap, find, put, delete, find-delete, find-put_cases}
use trabalho_radio_px.User.{User}
use trabalho_radio_px.User.Store.{has_email, create, with_email}

module _ {Float : Type 0} where
  -- Each account stands under its identifier, and each e-mail stands once.
  abbrev pub IsValid : Map (User Float) → Type 0
  IsValid [] = Unit
  IsValid ((k, u) ∷ rest) =
      (u.id ≡ k) × (has_email rest u.email ≡ false) × (find rest k ≡ none) × IsValid rest

  pub IsValid-IsMap : (s : Map (User Float)) → IsValid s → IsMap s
  IsValid-IsMap [] v = tt
  IsValid-IsMap ((k, u) ∷ rest) v = (v.2, IsValid-IsMap rest v.3)

  pub find-id :
      (s : Map (User Float)) (id : String) (u : User Float)
      → IsValid s
      → find s id ≡ some u
      → u.id ≡ id
  unfolding find
  find-id [] id u v = λ h. cc
  find-id ((k, w) ∷ rest) id u v = elim (Bool-cases (k == id)) [
    | inl e ↦ rw e (λ h. let p : w ≡ u = cc in ap (λ x. x.id) (sym p) ∙ v.0 ∙ (eq_iff k id).0 e)
    | inr e ↦ rw e (find-id rest id u v.3)
  ]

  pub has_email-put :
      (s : Map (User Float)) (id : String) (u : User Float) (email : String)
      → has_email s email ≡ false
      → (u.email == email) ≡ false
      → has_email (put s id u) email ≡ false
  unfolding put has_email
  has_email-put [] id u email h d = ground arith
  has_email-put ((k, w) ∷ rest) id u email h d = ground (arith, has_email-put rest id u email)

  put-IsValid :
      (s : Map (User Float)) (id : String) (u : User Float)
      → has_email s u.email ≡ false
      → u.id ≡ id
      → IsValid s
      → IsValid (put s id u)
  unfolding find put has_email
  put-IsValid [] id u h i v = (i, refl, refl, tt)
  put-IsValid ((k, w) ∷ rest) id u h i v = elim (Bool-cases (k == id)) [
    | inl e ↦ rw e (i ∙ sym ((eq_iff k id).0 e), ground arith, v.2, v.3)
    | inr e ↦ rw e (
      v.0,
      ground (
        arith,
        eq_iff u.email w.email,
        eq_iff w.email u.email,
        has_email-put rest id u w.email v.1,
      ),
      ground (arith, eq_iff k id, eq_iff id k, find-put_cases rest id u k),
      put-IsValid rest id u (ground arith) i v.3,
    )
  ]

  has_email-put_same :
      (s : Map (User Float)) (id : String) (u old : User Float) (email : String)
      → u.email ≡ old.email
      → find s id ≡ some old
      → has_email (put s id u) email ≡ has_email s email
  unfolding find put has_email
  has_email-put_same [] id u old email e = λ h. cc
  has_email-put_same ((k, w) ∷ rest) id u old email e = elim (Bool-cases (k == id)) [
    | inl t ↦ rw t (λ h.
        let p : w ≡ old = cc in
        ap (λ m. (m == email) || has_email rest email) (e ∙ ap (λ x. x.email) (sym p)))
    | inr t ↦
        rw t (λ h. ap (λ b. (w.email == email) || b) (has_email-put_same rest id u old email e h))
  ]

  pub create-IsValid : (s : Map (User Float)) (u : User Float) → IsValid s → IsValid (create s u).0
  unfolding create
  create-IsValid s u v = elim (Bool-cases (has_email s u.email)) [
    | inl e ↦ rw (e, create) v
    | inr e ↦ rw (e, create) (put-IsValid s u.id u e refl v)
  ]

  pub put_same-IsValid :
      (s : Map (User Float)) (id : String) (u old : User Float)
      → u.email ≡ old.email
      → u.id ≡ id
      → IsValid s
      → find s id ≡ some old
      → IsValid (put s id u)
  unfolding find put
  put_same-IsValid [] id u old e i v = λ h. cc
  put_same-IsValid ((k, w) ∷ rest) id u old e i v = elim (Bool-cases (k == id)) [
    | inl t ↦ rw t (λ h.
        let p : w ≡ old = cc in
        (
          i ∙ sym ((eq_iff k id).0 t),
          ap (has_email rest) (e ∙ ap (λ x. x.email) (sym p)) ∙ v.1,
          v.2,
          v.3,
        ))
    | inr t ↦ rw t (λ h. (
      v.0,
      has_email-put_same rest id u old w.email e h ∙ v.1,
      ground (arith, eq_iff k id, eq_iff id k, find-put_cases rest id u k),
      put_same-IsValid rest id u old e i v.3 h,
    ))
  ]

  has_email-delete :
      (s : Map (User Float)) (id email : String)
      → has_email s email ≡ false
      → has_email (delete s id) email ≡ false
  unfolding delete has_email
  has_email-delete [] id email h = refl
  has_email-delete ((k, w) ∷ rest) id email h = ground (arith, has_email-delete rest id email)

  pub delete-IsValid : (s : Map (User Float)) (id : String) → IsValid s → IsValid (delete s id)
  unfolding delete
  delete-IsValid [] id v = tt
  delete-IsValid ((k, w) ∷ rest) id v =
      ground
        (arith, has_email-delete rest id w.email, find-delete rest id k, delete-IsValid rest id v.3)

  pub has_email-with_email :
      (s : Map (User Float)) (email : String) (u : User Float)
      → with_email s email ≡ some u
      → has_email s email ≡ true
  unfolding has_email with_email
  has_email-with_email [] email u = λ h. cc
  has_email-with_email ((k, w) ∷ rest) email u = elim (Bool-cases (w.email == email)) [
    | inl e ↦ rw e (λ h. ground arith)
    | inr e ↦ rw e (λ h. has_email-with_email rest email u h)
  ]

  -- The account with an e-mail.
  pub with_email-find :
      (s : Map (User Float)) (email : String) (u : User Float)
      → IsValid s
      → with_email s email ≡ some u
      → (u.email ≡ email) × (find s u.id ≡ some u)
  unfolding find with_email
  with_email-find [] email u v = λ h. cc
  with_email-find ((k, w) ∷ rest) email u v = elim (Bool-cases (w.email == email)) [
    | inl e ↦ rw e (λ h.
        let p : w ≡ u = cc in
        (
          subst (λ x. x.email ≡ email) p ((eq_iff w.email email).0 e),
          subst (λ x. find ((k, w) ∷ rest) x.id ≡ some x) p (rw (v.0, eq_refl k) refl),
        ))
    | inr e ↦ rw e (λ h.
        let (a, b) = with_email-find rest email u v.3 h in
        (
          a,
          elim (Bool-cases (k == u.id)) [
            | inl t ↦ let none_there = ap (find rest) (sym ((eq_iff k u.id).0 t)) ∙ v.2 in cc
            | inr t ↦ rw t b
          ],
        ))
  ]

  pub find-with_email :
      (s : Map (User Float)) (id : String) (u : User Float)
      → IsValid s
      → find s id ≡ some u
      → with_email s u.email ≡ some u
  unfolding find with_email
  find-with_email [] id u v = λ h. cc
  find-with_email ((k, w) ∷ rest) id u v = elim (Bool-cases (k == id)) [
    | inl e ↦ rw e (λ h.
        let p : w ≡ u = cc in
        subst (λ x. with_email ((k, w) ∷ rest) x.email ≡ some x) p (rw (eq_refl w.email) refl))
    | inr e ↦ rw e (λ h.
        let there = find-with_email rest id u v.3 h in
        let has = has_email-with_email rest u.email u there in
        elim (Bool-cases (w.email == u.email)) [
          | inl t ↦
              let not_there = ap (has_email rest) (sym ((eq_iff w.email u.email).0 t)) ∙ v.1 in cc
          | inr t ↦ rw t there
        ])
  ]
