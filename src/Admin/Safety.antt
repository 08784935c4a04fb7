-- ===== src/Admin/Safety.antt =====
-- What no request of an administrator does to the administrator's own account, and who reaches the
-- handler.
use trabalho_radio_px.Prelude.{
  ℕ, String, ◌≡◌, ◌∙◌, refl, Bool, ◌==◌, ◌||◌, Option, none, some, Bool-cases, inl, inr,
  if◌then◌else◌, if-both, elim-both,
}
use trabalho_radio_px.Prelude.Map.{Map}
use trabalho_radio_px.Http.{Request, Response, fail}
use trabalho_radio_px.User.{User, UserError, Result, ok, err}
use trabalho_radio_px.User.Store.Validity.{IsValid}
use trabalho_radio_px.User.Service.{Accounts, set_user_active, set_user_admin, delete_user}
use trabalho_radio_px.User.Service.Spares.{
  Spares, set_user_active-Spares, set_user_admin-Spares, delete_user-Spares,
}
use trabalho_radio_px.Http.Text.{has_prefix, trim_prefix, trim_char, contains_char}
use trabalho_radio_px.Admin.{
  slash, AdminHandler, AdminBody, UserPatch, optional, updated, patch_user, handle_user,
  handle_delete_user, handle_stats, handle_users, dispatch, serve_http,
}

module _ (a : Accounts) {Float : Type 0} where
  optional-Spares :
      (actor : String) (set : Map (User Float) → Bool → Map (User Float) × Option UserError)
      (b : Option Bool) (s : Map (User Float))
      → ((s : Map (User Float)) (b : Bool) → IsValid s → Spares actor s (set s b).0)
      → IsValid s
      → Spares actor s (optional a set b s).0
  optional-Spares actor set none s spares v = (v, refl)
  optional-Spares actor set (some b) s spares v = spares s b v

  -- What a handler leaves: the other services as they were, and the accounts with one of them spared.
  data Leaves (actor : String) (h : AdminHandler Float)
      (r : AdminHandler Float × Response (AdminBody Float)) : Type 0 where
    leaves :
        Spares actor h.users r.0.users
        → r.0.channels ≡ h.channels
        → r.0.hub ≡ h.hub
        → r.0.voice ≡ h.voice
        → Leaves actor h r

  spared :
      {actor : String} {h : AdminHandler Float}
      {r : AdminHandler Float × Response (AdminBody Float)}
      → Leaves actor h r
      → Spares actor h.users r.0.users
        × (r.0.channels ≡ h.channels)
        × (r.0.hub ≡ h.hub)
        × (r.0.voice ≡ h.voice)
  spared (leaves s c b v) = (s, c, b, v)

  unchanged :
      (actor : String) (h : AdminHandler Float) (response : Response (AdminBody Float))
      → IsValid h.users
      → Leaves actor h (h, response)
  unchanged actor h response v = leaves (v, refl) refl refl refl

  stored :
      (actor : String) (h : AdminHandler Float) (s : Map (User Float))
      (response : Response (AdminBody Float))
      → Spares actor h.users s
      → Leaves actor h (record h { users = s }, response)
  stored actor h s response p = leaves p refl refl refl

  updated-Leaves :
      (actor : String) (h h' : AdminHandler Float) (result : Result (User Float))
      → Spares actor h.users h'.users
      → h'.channels ≡ h.channels
      → h'.hub ≡ h.hub
      → h'.voice ≡ h.voice
      → Leaves actor h (updated a h' result)
  updated-Leaves actor h h' (err e) p c b v = leaves p c b v
  updated-Leaves actor h h' (ok u) p c b v = leaves p c b v

  patch_user-Leaves :
      (now : ℕ) (req : UserPatch) (actor target : String) (h : AdminHandler Float)
      → IsValid h.users
      → Leaves actor h (patch_user a now req actor target h)
  unfolding patch_user
  patch_user-Leaves now req actor target h v =
      let set_active : Map (User Float) → Bool → Map (User Float) × Option UserError =
        λ s b. set_user_active a now s actor target b in
      let set_admin : Map (User Float) → Bool → Map (User Float) × Option UserError =
        λ s b. set_user_admin a now s actor target b in
      let first = optional a set_active req.is_active h.users in
      let p1 =
        optional-Spares actor set_active req.is_active h.users
          (λ s b w. set_user_active-Spares a now s actor target b w) v in
      let p2 =
        optional-Spares actor set_admin req.is_admin first.0
          (λ s b w. set_user_admin-Spares a now s actor target b w) p1.0 in
      let both : Spares actor h.users (optional a set_admin req.is_admin first.0).0 =
        (p2.0, p2.1 ∙ p1.1) in
      elim-both (Leaves actor h) first.1 _ _
        (elim-both (Leaves actor h) (optional a set_admin req.is_admin first.0).1 _ _
          (updated-Leaves actor h _ _ both refl refl refl) (λ e _. stored actor h _ _ both))
        (λ e _. stored actor h _ _ p1)

  handle_user-Leaves :
      (now : ℕ) (body : Option UserPatch) (target : String) (r : Request) (h : AdminHandler Float)
      → IsValid h.users
      → Leaves (r.header "X-User-ID") h (handle_user a now body target r h)
  unfolding handle_user
  handle_user-Leaves now body target r h v =
      let actor = r.header "X-User-ID" in
      if-both (Leaves actor h) _ _ _ (unchanged actor h _ v) (
        elim-both (Leaves actor h) body _ _ (unchanged actor h _ v) (λ req _.
          if-both (Leaves actor h) _ _ _ (unchanged actor h _ v)
            (patch_user-Leaves now req actor target h v)))

  handle_delete_user-Leaves :
      (target : String) (r : Request) (h : AdminHandler Float)
      → IsValid h.users
      → Leaves (r.header "X-User-ID") h (handle_delete_user a target r h)
  unfolding handle_delete_user
  handle_delete_user-Leaves target r h v =
      let actor = r.header "X-User-ID" in
      let result = delete_user a h.users target in
      elim (Bool-cases (r.method == "DELETE")) [
        | inr m ↦ rw (handle_delete_user, m) (unchanged actor h _ v)
        | inl m ↦ elim (Bool-cases (actor == target)) [
          | inl e ↦ rw (handle_delete_user, m, e) (unchanged actor h _ v)
          | inr e ↦
              let p = delete_user-Spares a h.users actor target v e in
              rw (handle_delete_user, m, e)
                (elim-both (Leaves actor h) result.1 _ _ (stored actor h _ _ p)
                  (λ f _. stored actor h _ _ p))
        ]
      ]

  handle_stats-Leaves :
      (actor : String) (r : Request) (h : AdminHandler Float)
      → IsValid h.users
      → Leaves actor h (handle_stats a r h)
  unfolding handle_stats
  handle_stats-Leaves actor r h v =
      if-both (Leaves actor h) _ _ _ (unchanged actor h _ v) (unchanged actor h _ v)

  handle_users-Leaves :
      (actor : String) (r : Request) (h : AdminHandler Float)
      → IsValid h.users
      → Leaves actor h (handle_users a r h)
  unfolding handle_users
  handle_users-Leaves actor r h v =
      if-both (Leaves actor h) _ _ _ (unchanged actor h _ v) (unchanged actor h _ v)

  at_user-Leaves :
      (now : ℕ) (body : Option UserPatch) (id : String) (r : Request) (h : AdminHandler Float)
      → IsValid h.users
      → Leaves (r.header "X-User-ID") h (
          if r.method == "PATCH"
          then handle_user a now body id r h
          else if r.method == "DELETE"
          then handle_delete_user a id r h
          else (h, fail 405 "Method not allowed"))
  at_user-Leaves now body id r h v = elim (Bool-cases (r.method == "PATCH")) [
    | inl p ↦ rw p (handle_user-Leaves now body id r h v)
    | inr p ↦ elim (Bool-cases (r.method == "DELETE")) [
      | inl d ↦ rw (p, d) (handle_delete_user-Leaves id r h v)
      | inr d ↦ rw (p, d) (unchanged (r.header "X-User-ID") h _ v)
    ]
  ]

  dispatch-Leaves :
      (now : ℕ) (body : Option UserPatch) (path : String) (r : Request) (h : AdminHandler Float)
      → IsValid h.users
      → Leaves (r.header "X-User-ID") h (dispatch a now body path r h)
  unfolding dispatch
  dispatch-Leaves now body path r h v =
      let actor = r.header "X-User-ID" in
      let id = trim_prefix path "users/" in
      elim (Bool-cases (path == "stats")) [
        | inl e ↦ rw (dispatch, e) (handle_stats-Leaves actor r h v)
        | inr e ↦ elim (Bool-cases (path == "users")) [
          | inl f ↦ rw (dispatch, e, f) (handle_users-Leaves actor r h v)
          | inr f ↦ elim (Bool-cases (has_prefix path "users/")) [
            | inr g ↦ rw (dispatch, e, f, g) (unchanged actor h _ v)
            | inl g ↦
                rw (dispatch, e, f, g)
                  (elim (Bool-cases (id == "" || contains_char slash id)) [
                    | inl i ↦ rw i (unchanged actor h _ v)
                    | inr i ↦ rw i (at_user-Leaves now body id r h v)
                  ])
          ]
        ]
      ]

  -- No request to the admin API changes the account of the user in its header X-User-ID or the
  -- state of the channels, the hub and the voice service, and the accounts keep distinct e-mails.
  pub serve_http-Spares :
      (now : ℕ) (body : Option UserPatch) (r : Request) (h : AdminHandler Float)
      → IsValid h.users
      → let h' = (serve_http a now body r h).0 in
        Spares (r.header "X-User-ID") h.users h'.users
        × (h'.channels ≡ h.channels)
        × (h'.hub ≡ h.hub)
        × (h'.voice ≡ h.voice)
  unfolding serve_http
  serve_http-Spares now body r h v =
      spared (dispatch-Leaves now body (trim_char slash (trim_prefix r.path "/api/v1/admin")) r h v)
