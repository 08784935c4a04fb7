-- ===== src/Admin/Gate.antt =====
-- backend/cmd/server/main.go: the chain of middleware in front of the admin API.
use trabalho_radio_px.Prelude.{
  ℕ, String, ◌≡◌, ◌≢◌, ◌⊎◌, ap, sym, ◌∙◌, refl, subst, true, ◌==◌, Option, some, Bool-cases, inl,
  inr,
}
use trabalho_radio_px.Http.{Request, Handler, set_header}
use trabalho_radio_px.Session.{extract_token, require_admin, injector}
use trabalho_radio_px.Session.Identity.{injector-cases}
use trabalho_radio_px.User.Store.Validity.{IsValid}
use trabalho_radio_px.User.Service.{Accounts}
use trabalho_radio_px.User.Service.Spares.{Spares}
use trabalho_radio_px.Admin.{AdminHandler, AdminBody, UserPatch, is_admin, serve_http}
use trabalho_radio_px.Admin.Safety.{serve_http-Spares}

module _ (a : Accounts) {Float : Type 0} where
  -- The handler that the server registers for /api/v1/admin/.
  abbrev pub admin_api :
      (String → Option String)
      → (String → Option String)
      → ℕ
      → Option UserPatch
      → Handler (AdminHandler Float) (AdminBody Float)
  admin_api at_injector at_middleware now body =
      injector at_injector at_middleware (require_admin (is_admin a) (serve_http a now body))

  require_admin-cases :
      (next : Handler (AdminHandler Float) (AdminBody Float)) (r : Request) (h : AdminHandler Float)
      → ((is_admin a h (r.header "X-User-ID") ≡ true)
          × (require_admin (is_admin a) next r h ≡ next r h))
        ⊎ ((require_admin (is_admin a) next r h).0 ≡ h)
  unfolding require_admin
  require_admin-cases next r h = elim (Bool-cases (r.header "X-User-ID" == "")) [
    | inl e ↦ rw (require_admin, e) (inr refl)
    | inr e ↦ elim (Bool-cases (is_admin a h (r.header "X-User-ID"))) [
      | inl i ↦ inl (i, rw (require_admin, e, i) refl)
      | inr i ↦ rw (require_admin, e, i) (inr refl)
    ]
  ]

  -- Where the middleware accepts no token that the injector refused, and no token is of the user
  -- with the empty identifier, a request to the admin API changes the state only if it carries the
  -- token of a user who is an administrator then; that user's account is left as it was, and the
  -- accounts keep distinct e-mails.
  pub admin_api-cases :
      (at_injector at_middleware : String → Option String) (now : ℕ) (body : Option UserPatch)
      (r : Request) (h : AdminHandler Float)
      → ((token user : String) → at_middleware token ≡ some user → at_injector token ≡ some user)
      → ((token user : String) → at_injector token ≡ some user → user ≢ "")
      → IsValid h.users
      → let h' = (admin_api at_injector at_middleware now body r h).0 in
        ((user : String) × (at_middleware (extract_token r) ≡ some user)
          × (is_admin a h user ≡ true)
          × Spares user h.users h'.users)
        ⊎ (h' ≡ h)
  admin_api-cases at_injector at_middleware now body r h later named_user v =
      let next = require_admin (is_admin a) (serve_http a now body) in
      elim (injector-cases at_injector at_middleware next r h later named_user) [
        | inr (message, e) ↦ inr (ap (λ x. x.0) e)
        | inl (token, user, t, i, m, e) ↦
            let q = set_header r "X-User-ID" user in
            elim (require_admin-cases (serve_http a now body) q h) [
              | inr same ↦ inr (ap (λ x. x.0) e ∙ same)
              | inl (admin, passed) ↦ inl (
                user,
                ap at_middleware t ∙ m,
                admin,
                subst (λ x. Spares user h.users x.0.users) (sym (e ∙ passed))
                    (serve_http-Spares a now body q h v).0,
              )
            ]
      ]
