-- ===== src/Server/Anonymous.antt =====
-- The protected routes of backend/cmd/server/main.go for a request that names no user.
use trabalho_radio_px.Prelude.{
  ℕ, String, ◌≡◌, ◌⊎◌, refl, true, Option, Bool-cases, Option-cases, inl, inr, ◌==◌,
}
use trabalho_radio_px.Http.{Request, Handler}
use trabalho_radio_px.Http.Text.{has_prefix, has_suffix}
use trabalho_radio_px.Location.{Floats}
use trabalho_radio_px.User.Service.{Accounts}
use trabalho_radio_px.Channel.{CreateChannelRequest, ChannelError, Result, ok, err}
use trabalho_radio_px.Channel.Service.{get_channel, get_channel_users, join_channel, leave_channel}
use trabalho_radio_px.Channel.Handler.{
  ChannelHandler, ChannelBody, Numbers, extract_channel_id, of_channel, joined, answer,
  conflict_status, parse_float, record_location, handle_create_channel, handle_get_channel,
  handle_join_channel, handle_leave_channel, handle_get_nearby_channels, handle_get_user_channels,
  handle_get_channel_users,
}
use trabalho_radio_px.Server.Routes.{
  Bodies, Draws, channels_route, channel_route, profile_route, change_password_route, protected,
}

result-cases :
    {A : Type 0} (x : Result A) → ((e : ChannelError) × (x ≡ err e)) ⊎ ((y : A) × (x ≡ ok y))
result-cases (err e) = inl (e, refl)
result-cases (ok y) = inr (y, refl)

module _ (f : Floats) (a : Accounts) (r : Request) (h : ChannelHandler f.Float)
    (u : (r.header "X-User-ID" == "") ≡ true) where
  open f use {Float}

  of_channel-anonymous :
      (method : String)
      (next : String → String → Handler (ChannelHandler Float) (ChannelBody Float))
      → (of_channel f a method next r h).0 ≡ h
  unfolding of_channel
  of_channel-anonymous method next = elim (Bool-cases (r.method == method)) [
    | inr m ↦ rw (of_channel, m) refl
    | inl m ↦ elim (Bool-cases (extract_channel_id r.path == "")) [
      | inl e ↦ rw (of_channel, m, e) refl
      | inr e ↦ rw (of_channel, m, e, u) refl
    ]
  ]

  join_anonymous : (now : ℕ) → (handle_join_channel f a now r h).0 ≡ h
  unfolding handle_join_channel
  join_anonymous now =
      of_channel-anonymous "POST"
        (λ id user q g. joined f a g (join_channel f now g.channel_service user id))

  leave_anonymous : (now : ℕ) → (handle_leave_channel f a now r h).0 ≡ h
  unfolding handle_leave_channel
  leave_anonymous now = of_channel-anonymous "POST" (λ id user q g.
      answer f a conflict_status "Left channel" g (leave_channel f now g.channel_service user id))

  create_anonymous :
      (id : String) (now : ℕ) (body : Option (CreateChannelRequest Float))
      → (handle_create_channel f a id now body r h).0 ≡ h
  unfolding handle_create_channel
  create_anonymous id now body = elim (Bool-cases (r.method == "POST")) [
    | inr m ↦ rw (handle_create_channel, m) refl
    | inl m ↦ elim (Option-cases body) [
      | inl b ↦ rw (handle_create_channel, m, b) refl
      | inr (req, b) ↦ rw (handle_create_channel, m, b, u) refl
    ]
  ]

  one_anonymous : (handle_get_channel f a r h).0 ≡ h
  unfolding handle_get_channel
  one_anonymous = elim (Bool-cases (r.method == "GET")) [
    | inr m ↦ rw (handle_get_channel, m) refl
    | inl m ↦ elim (Bool-cases (extract_channel_id r.path == "")) [
      | inl e ↦ rw (handle_get_channel, m, e) refl
      | inr e ↦ elim (result-cases (get_channel f h.channel_service (extract_channel_id r.path))) [
        | inl (x, g) ↦ rw (handle_get_channel, m, e, g) refl
        | inr (x, g) ↦ rw (handle_get_channel, m, e, g) refl
      ]
    ]
  ]

  members_anonymous : (handle_get_channel_users f a r h).0 ≡ h
  unfolding handle_get_channel_users
  members_anonymous = elim (Bool-cases (r.method == "GET")) [
    | inr m ↦ rw (handle_get_channel_users, m) refl
    | inl m ↦ elim (Bool-cases (extract_channel_id r.path == "")) [
      | inl e ↦ rw (handle_get_channel_users, m, e) refl
      | inr e ↦
          elim (result-cases (get_channel_users f h.channel_service (extract_channel_id r.path))) [
            | inl (x, g) ↦ rw (handle_get_channel_users, m, e, g) refl
            | inr (x, g) ↦ rw (handle_get_channel_users, m, e, g) refl
          ]
    ]
  ]

  own_anonymous : (handle_get_user_channels f a r h).0 ≡ h
  unfolding handle_get_user_channels
  own_anonymous = elim (Bool-cases (r.method == "GET")) [
    | inr m ↦ rw (handle_get_user_channels, m) refl
    | inl m ↦ rw (handle_get_user_channels, m, u) refl
  ]

  record_anonymous :
      (now : ℕ) (lat lng : Float) → record_location f a now h (r.header "X-User-ID") lat lng ≡ h
  unfolding record_location
  record_anonymous now lat lng = rw (record_location, u) refl

  nearby_anonymous :
      (n : Numbers Float) (now : ℕ) → (handle_get_nearby_channels f a n now r h).0 ≡ h
  unfolding handle_get_nearby_channels
  nearby_anonymous n now = elim (Bool-cases (r.method == "GET")) [
    | inr m ↦ rw (handle_get_nearby_channels, m) refl
    | inl m ↦ elim (Option-cases (parse_float n (r.query "lat"))) [
      | inl e ↦ rw (handle_get_nearby_channels, m, e) refl
      | inr (lat, e) ↦ elim (Option-cases (parse_float n (r.query "lng"))) [
        | inl g ↦ rw (handle_get_nearby_channels, m, e, g) refl
        | inr (lng, g) ↦ rw (handle_get_nearby_channels, m, e, g) (record_anonymous now lat lng)
      ]
    ]
  ]

  channels_anonymous :
      (d : Draws) (bodies : Bodies Float) (n : Numbers Float)
      → (channels_route f a n d bodies r h).0 ≡ h
  unfolding channels_route
  channels_anonymous d bodies n = elim (Bool-cases (r.method == "GET")) [
    | inl m ↦ rw (channels_route, m) own_anonymous
    | inr m ↦ elim (Bool-cases (r.method == "POST")) [
      | inl p ↦ rw (channels_route, m, p) (create_anonymous d.id d.now bodies.create_channel)
      | inr p ↦ rw (channels_route, m, p) refl
    ]
  ]

  channel_anonymous : (d : Draws) (n : Numbers Float) → (channel_route f a n d r h).0 ≡ h
  unfolding channel_route
  channel_anonymous d n = elim (Bool-cases (has_suffix r.path "/users")) [
    | inl x ↦ rw (channel_route, x) members_anonymous
    | inr x ↦ elim (Bool-cases (has_suffix r.path "/join")) [
      | inl y ↦ rw (channel_route, x, y) (join_anonymous d.now)
      | inr y ↦ elim (Bool-cases (has_suffix r.path "/leave")) [
        | inl z ↦ rw (channel_route, x, y, z) (leave_anonymous d.now)
        | inr z ↦ rw (channel_route, x, y, z) one_anonymous
      ]
    ]
  ]

  -- A request to a protected route that names no user changes nothing.
  pub protected-anonymous :
      (n : Numbers Float) (d : Draws) (bodies : Bodies Float) → (protected f a n d bodies r h).0 ≡ h
  unfolding protected profile_route change_password_route
  protected-anonymous n d bodies = elim (Bool-cases (r.path == "/api/v1/channels")) [
    | inl p1 ↦ rw (protected, p1) (channels_anonymous d bodies n)
    | inr p1 ↦ elim (Bool-cases (r.path == "/api/v1/channels/join")) [
      | inl p2 ↦ rw (protected, p1, p2) (join_anonymous d.now)
      | inr p2 ↦ elim (Bool-cases (r.path == "/api/v1/channels/leave")) [
        | inl p3 ↦ rw (protected, p1, p2, p3) (leave_anonymous d.now)
        | inr p3 ↦ elim (Bool-cases (r.path == "/api/v1/channels/nearby")) [
          | inl p4 ↦ rw (protected, p1, p2, p3, p4) (nearby_anonymous n d.now)
          | inr p4 ↦ elim (Bool-cases (has_prefix r.path "/api/v1/channels/")) [
            | inl p5 ↦ rw (protected, p1, p2, p3, p4, p5) (channel_anonymous d n)
            | inr p5 ↦ elim (Bool-cases (r.path == "/api/v1/user/profile")) [
              | inl p6 ↦ rw (protected, p1, p2, p3, p4, p5, p6, profile_route, u) refl
              | inr p6 ↦ elim (Bool-cases (r.path == "/api/v1/user/change-password")) [
                | inl p7 ↦ rw (protected, p1, p2, p3, p4, p5, p6, p7, change_password_route, u) refl
                | inr p7 ↦ rw (protected, p1, p2, p3, p4, p5, p6, p7) refl
              ]
            ]
          ]
        ]
      ]
    ]
  ]
