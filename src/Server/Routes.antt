-- ===== src/Server/Routes.antt =====
-- backend/cmd/server/main.go: the protected routes of setupRoutes. A ServeMux calls the handler of the
-- path's pattern; the pattern /api/v1/channels/ stands for every path that it begins, unless a longer
-- one fits. The paths are those that the ServeMux does not clean up first.
use trabalho_radio_px.Prelude.{ℕ, String, Option, if◌then◌else◌, ◌==◌}
use trabalho_radio_px.Prelude.Map.{Map}
use trabalho_radio_px.Http.{Response, fail, Handler, map_body}
use trabalho_radio_px.Http.Text.{has_prefix, has_suffix}
use trabalho_radio_px.Location.{Floats}
use trabalho_radio_px.User.{User, UpdateUserRequest}
use trabalho_radio_px.User.Service.{Accounts}
use trabalho_radio_px.User.Handler.{
  UserBody, ChangePasswordRequest, handle_get_user_profile, handle_update_user_profile,
  handle_delete_user_by_id, handle_change_password_by_user_id,
}
use trabalho_radio_px.Channel.{CreateChannelRequest}
use trabalho_radio_px.Channel.Handler.{
  ChannelHandler, ChannelBody, Numbers, handle_create_channel, handle_get_channel,
  handle_join_channel, handle_leave_channel, handle_get_nearby_channels, handle_get_user_channels,
  handle_get_channel_users,
}

-- A request's body as each of the types that a handler decodes.
pub record Bodies (Float : Type 0) : Type 0 where
  pub create_channel : Option (CreateChannelRequest Float)
  pub update_user : Option UpdateUserRequest
  pub change_password : Option ChangePasswordRequest

-- What the services draw for one request: an identifier, a salt and the time.
pub record Draws : Type 0 where
  pub id : String
  pub salt : String
  pub now : ℕ

pub data ApiBody (Float : Type 0) : Type 0 where
  of_channels : ChannelBody Float → ApiBody Float
  of_users : UserBody Float → ApiBody Float

module _ (f : Floats) (a : Accounts) (n : Numbers f.Float) where
  open f use {Float}

  abbrev pub from_channels :
      ChannelHandler Float × Response (ChannelBody Float)
      → ChannelHandler Float × Response (ApiBody Float)
  from_channels (h, response) = (h, map_body of_channels response)

  -- The accounts are those that the handler of channels records positions in.
  abbrev pub from_users :
      ChannelHandler Float
      → Map (User Float) × Response (UserBody Float)
      → ChannelHandler Float × Response (ApiBody Float)
  from_users h (s, response) = (record h { locations = s }, map_body of_users response)

  -- The pattern /api/v1/channels
  unfoldable pub channels_route :
      Draws → Bodies Float → Handler (ChannelHandler Float) (ApiBody Float)
  channels_route d bodies r h =
      if r.method == "GET"
      then from_channels (handle_get_user_channels f a r h)
      else if r.method == "POST"
      then from_channels (handle_create_channel f a d.id d.now bodies.create_channel r h)
      else (h, fail 405 "Method not allowed")

  -- The pattern /api/v1/channels/
  unfoldable pub channel_route : Draws → Handler (ChannelHandler Float) (ApiBody Float)
  channel_route d r h =
      if has_suffix r.path "/users"
      then from_channels (handle_get_channel_users f a r h)
      else if has_suffix r.path "/join"
      then from_channels (handle_join_channel f a d.now r h)
      else if has_suffix r.path "/leave"
      then from_channels (handle_leave_channel f a d.now r h)
      else from_channels (handle_get_channel f a r h)

  unfoldable pub profile_route :
      Draws → Bodies Float → Handler (ChannelHandler Float) (ApiBody Float)
  profile_route d bodies r h =
      let user_id = r.header "X-User-ID" in
      if user_id == ""
      then (h, fail 400 "User ID required")
      else if r.method == "GET"
      then from_users h (handle_get_user_profile a user_id r h.locations)
      else if r.method == "PUT"
      then from_users h
          (handle_update_user_profile a d.now bodies.update_user user_id r h.locations)
      else if r.method == "DELETE"
      then from_users h (handle_delete_user_by_id a user_id r h.locations)
      else (h, fail 405 "Method not allowed")

  unfoldable pub change_password_route :
      Draws → Bodies Float → Handler (ChannelHandler Float) (ApiBody Float)
  change_password_route d bodies r h =
      let user_id = r.header "X-User-ID" in
      if user_id == ""
      then (h, fail 400 "User ID required")
      else from_users h (
          handle_change_password_by_user_id a d.salt d.now bodies.change_password user_id r
            h.locations)

  unfoldable pub protected : Draws → Bodies Float → Handler (ChannelHandler Float) (ApiBody Float)
  unfolding channels_route channel_route profile_route change_password_route
  protected d bodies r h =
      if r.path == "/api/v1/channels"
      then channels_route d bodies r h
      else if r.path == "/api/v1/channels/join"
      then from_channels (handle_join_channel f a d.now r h)
      else if r.path == "/api/v1/channels/leave"
      then from_channels (handle_leave_channel f a d.now r h)
      else if r.path == "/api/v1/channels/nearby"
      then from_channels (handle_get_nearby_channels f a n d.now r h)
      else if has_prefix r.path "/api/v1/channels/"
      then channel_route d r h
      else if r.path == "/api/v1/user/profile"
      then profile_route d bodies r h
      else if r.path == "/api/v1/user/change-password"
      then change_password_route d bodies r h
      else (h, fail 404 "404 page not found")
