-- ===== src/Voice/Handler/Handshake.antt =====
-- The WebSocket route of backend/cmd/server/main.go: whose client a handshake makes.
use trabalho_radio_px.Prelude.{
  ℕ, String, ◌≡◌, ◌⊎◌, refl, false, ◌==◌, Option, some, Bool-cases, Option-cases, inl, inr,
}
use trabalho_radio_px.Http.{Request, respond, fail, set_query}
use trabalho_radio_px.Session.{web_socket_auth_middleware}
use trabalho_radio_px.Client.{World, new_client_with_guard, connect}
use trabalho_radio_px.Voice.Handler.{handle_web_socket}

handle_web_socket-connect :
    (pointer : ℕ) (id : String) (refused : Option (ℕ × String)) (r : Request) (w : World)
    → (r.query "user_id" == "") ≡ false
    → let client = new_client_with_guard pointer id (r.query "user_id") in
      let result = handle_web_socket pointer id refused r w in
      (result ≡ (connect w client (r.query "channel"), respond 101 client))
      ⊎ (status : ℕ) × (text : String) × (result ≡ (w, fail status text))
unfolding handle_web_socket
handle_web_socket-connect pointer id refused r w user =
    elim (Bool-cases (r.query "channel" == "")) [
      | inl e ↦ inr (400, "Channel ID required", rw (handle_web_socket, e) refl)
      | inr e ↦ elim (Option-cases refused) [
        | inl n ↦ inl (rw (handle_web_socket, e, n, user) refl)
        | inr ((status, text), n) ↦ inr (status, text, rw (handle_web_socket, e, n) refl)
      ]
    ]

-- A handshake on the WebSocket route either changes nothing and is answered with an error, or its query carries a
-- token of a user with an identifier, and then the client that is connected to the query's channel
-- is that user's, whatever user the query names.
pub web_socket-connect :
    (validate : String → Option String) (pointer : ℕ) (id : String) (refused : Option (ℕ × String))
    (r : Request) (w : World)
    → let result = web_socket_auth_middleware validate (handle_web_socket pointer id refused) r w in
      ((user : String) × (validate (r.query "token") ≡ some user)
        × ((user == "") ≡ false)
        × (let client = new_client_with_guard pointer id user in
            result ≡ (connect w client (r.query "channel"), respond 101 client)))
      ⊎ (status : ℕ) × (text : String) × (result ≡ (w, fail status text))
unfolding web_socket_auth_middleware
web_socket-connect validate pointer id refused r w =
    elim (Option-cases (validate (r.query "token"))) [
      | inl v ↦ inr (401, "Não autorizado", rw (web_socket_auth_middleware, v) refl)
      | inr (user, v) ↦ elim (Bool-cases (user == "")) [
        | inl e ↦ inr (401, "Não autorizado", rw (web_socket_auth_middleware, v, e) refl)
        | inr e ↦
            elim (handle_web_socket-connect pointer id refused (set_query r "user_id" user) w e) [
              | inl p ↦ inl (user, v, e, rw (web_socket_auth_middleware, v, e) p)
              | inr (status, text, p) ↦ inr (status, text, rw (web_socket_auth_middleware, v, e) p)
            ]
      ]
    ]
