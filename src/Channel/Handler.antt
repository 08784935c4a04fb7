-- ===== src/Channel/Handler.antt =====
-- backend/internal/channel/handler.go: the requests about channels. A handler gets the request, its
-- body decoded (`none` where it does not decode), what the service draws, and the state: the store of
-- channels and, for the positions that it records, that of accounts.
pub mod Paths
pub mod Outcomes
use Prim.Native.Char.{Char, char}
use trabalho_radio_px.Prelude.{
  ℕ, String, Bool, true, false, not, Option, none, some, List, [], ◌∷◌, if◌then◌else◌, ◌==◌,
}
use trabalho_radio_px.Prelude.Map.{Map}
use trabalho_radio_px.Http.{Request, Response, respond, fail, Handler}
use trabalho_radio_px.Http.Text.{split}
use trabalho_radio_px.Location.{Floats}
use trabalho_radio_px.User.{User}
use trabalho_radio_px.User.Service.{Accounts, update_last_location}
use trabalho_radio_px.Channel.{
  Channel, CreateChannelRequest, UpdateChannelRequest, ChannelError, Result, ok, err,
  channel_not_found, channel_full, user_already_in_channel, user_not_in_channel,
  only_creator_updates, only_creator_deletes,
}
use trabalho_radio_px.Channel.Store.{ChannelStore}
use trabalho_radio_px.Channel.Service.{
  create_channel, get_channel, join_channel, leave_channel, get_nearby_channels, get_user_channels,
  get_channel_users, update_channel, delete_channel,
}

-- `err.Error()`
unfoldable pub error_text : ChannelError → String
error_text channel_not_found = "channel not found"
error_text channel_full = "channel is full"
error_text user_already_in_channel = "user already in channel"
error_text user_not_in_channel = "user not in channel"
error_text only_creator_updates = "only channel creator can update"
error_text only_creator_deletes = "only channel creator can delete"

-- `TrimSpace` of package strings, and `ParseFloat` of package strconv, `none` for an error.
pub record Numbers (Float : Type 0) : Type 0 where
  pub trim_space : String → String
  pub parse : String → Option Float

unfoldable pub parse_float : {Float : Type 0} → Numbers Float → String → Option Float
parse_float n s = let trimmed = n.trim_space s in if trimmed == "" then none else n.parse trimmed

abbrev pub slash : Char
slash = char 47 tt

-- The loop of extractChannelID.
unfoldable pub after_channels : List String → String
after_channels [] = ""
after_channels (part ∷ []) = ""
after_channels (part ∷ next ∷ rest) =
    let others = after_channels (next ∷ rest) in if part == "channels" then next else others

unfoldable pub extract_channel_id : String → String
unfolding after_channels
extract_channel_id path = after_channels (split slash path)

-- What a handler encodes in the response.
pub data ChannelBody (Float : Type 0) : Type 0 where
  one_channel : Channel Float → ChannelBody Float
  channels : List (Channel Float) → ChannelBody Float
  users : List String → ChannelBody Float
  message : String → ChannelBody Float

pub record ChannelHandler (Float : Type 0) : Type 0 where
  pub channel_service : ChannelStore Float
  pub locations : Map (User Float)

-- The status of an error of the service where a request joins or leaves.
unfoldable pub conflict_status : ChannelError → ℕ
conflict_status channel_not_found = 404
conflict_status channel_full = 409
conflict_status user_already_in_channel = 409
conflict_status user_not_in_channel = 409
conflict_status only_creator_updates = 409
conflict_status only_creator_deletes = 409

module _ (f : Floats) (a : Accounts) where
  open f use {Float, literal}

  -- The error of the update is logged only.
  unfoldable pub record_location :
      ℕ → ChannelHandler Float → String → Float → Float → ChannelHandler Float
  record_location now h user lat lng =
      if user == ""
      then h
      else record h { locations = (update_last_location a h.locations user lat lng now).0 }

  unfoldable pub handle_create_channel :
      String
      → ℕ
      → Option (CreateChannelRequest Float)
      → Handler (ChannelHandler Float) (ChannelBody Float)
  unfolding error_text record_location
  handle_create_channel id now body r h =
      if not (r.method == "POST") then (h, fail 405 "Method not allowed") else elim body [
        | none ↦ (h, fail 400 "Invalid request body")
        | some req ↦
            let user = r.header "X-User-ID" in
            if user == ""
            then (h, fail 400 "User ID required")
            else (let (s, result) = create_channel f id now h.channel_service user req in
                let h' = record h { channel_service = s } in
                elim result [
                  | err e ↦ (h', fail 500 (error_text e))
                  | ok ch ↦ (
                    record_location now h' user req.latitude req.longitude,
                    respond 201 (one_channel ch),
                  )
                ])
      ]

  unfoldable pub handle_get_channel : Handler (ChannelHandler Float) (ChannelBody Float)
  unfolding error_text extract_channel_id
  handle_get_channel r h =
      if not (r.method == "GET")
      then (h, fail 405 "Method not allowed")
      else if extract_channel_id r.path == ""
      then (h, fail 400 "Channel ID required")
      else elim (get_channel f h.channel_service (extract_channel_id r.path)) [
        | err e ↦ (h, fail 404 (error_text e))
        | ok ch ↦ (h, respond 200 (one_channel ch))
      ]

  -- The tests that the handlers of one channel begin with.
  unfoldable pub of_channel :
      String
      → (String → String → Handler (ChannelHandler Float) (ChannelBody Float))
      → Handler (ChannelHandler Float) (ChannelBody Float)
  unfolding extract_channel_id
  of_channel method next r h =
      let id = extract_channel_id r.path in
      let user = r.header "X-User-ID" in
      if not (r.method == method)
      then (h, fail 405 "Method not allowed")
      else if id == ""
      then (h, fail 400 "Channel ID required")
      else if user == ""
      then (h, fail 400 "User ID required")
      else next id user r h

  -- The response to an error or to nil, by the status of the error.
  abbrev pub answer :
      (ChannelError → ℕ)
      → String
      → ChannelHandler Float
      → ChannelStore Float × Option ChannelError
      → ChannelHandler Float × Response (ChannelBody Float)
  answer status done h (s, none) = (record h { channel_service = s }, respond 200 (message done))
  answer status done h (s, some e) =
      (record h { channel_service = s }, fail (status e) (error_text e))

  unfoldable pub handle_update_channel :
      ℕ → Option UpdateChannelRequest → Handler (ChannelHandler Float) (ChannelBody Float)
  unfolding of_channel
  handle_update_channel now body = of_channel "PUT" (λ id user r h. elim body [
    | none ↦ (h, fail 400 "Invalid request body")
    | some req ↦
        answer (λ e. 403) "Channel updated" h (update_channel f now h.channel_service id user req)
  ])

  unfoldable pub handle_delete_channel : Handler (ChannelHandler Float) (ChannelBody Float)
  unfolding of_channel
  handle_delete_channel = of_channel "DELETE" (λ id user r h.
      answer (λ e. 403) "Channel deleted" h (delete_channel f h.channel_service id user))

  -- A user who is in the channel is told so with status 200.
  abbrev pub joined :
      ChannelHandler Float
      → ChannelStore Float × Option ChannelError
      → ChannelHandler Float × Response (ChannelBody Float)
  joined h (s, some user_already_in_channel) =
      (record h { channel_service = s }, respond 200 (message "Already in channel"))
  joined h (s, some channel_not_found) =
      answer conflict_status "Joined channel" h (s, some channel_not_found)
  joined h (s, some channel_full) = answer conflict_status "Joined channel" h (s, some channel_full)
  joined h (s, some user_not_in_channel) =
      answer conflict_status "Joined channel" h (s, some user_not_in_channel)
  joined h (s, some only_creator_updates) =
      answer conflict_status "Joined channel" h (s, some only_creator_updates)
  joined h (s, some only_creator_deletes) =
      answer conflict_status "Joined channel" h (s, some only_creator_deletes)
  joined h (s, none) = answer conflict_status "Joined channel" h (s, none)

  unfoldable pub handle_join_channel : ℕ → Handler (ChannelHandler Float) (ChannelBody Float)
  unfolding of_channel
  handle_join_channel now =
      of_channel "POST" (λ id user r h. joined h (join_channel f now h.channel_service user id))

  unfoldable pub handle_leave_channel : ℕ → Handler (ChannelHandler Float) (ChannelBody Float)
  unfolding of_channel
  handle_leave_channel now = of_channel "POST" (λ id user r h.
      answer conflict_status "Left channel" h (leave_channel f now h.channel_service user id))

  -- The radius of the query, 10 where it is missing or does not parse.
  abbrev pub radius_of : Numbers Float → String → Float
  radius_of n text =
      if text == ""
      then literal 10
      else elim (parse_float n text) [ none ↦ literal 10 | some parsed ↦ parsed ]

  unfoldable pub handle_get_nearby_channels :
      Numbers Float → ℕ → Handler (ChannelHandler Float) (ChannelBody Float)
  unfolding parse_float record_location
  handle_get_nearby_channels n now r h =
      if not (r.method == "GET")
      then (h, fail 405 "Method not allowed")
      else elim (parse_float n (r.query "lat")) [
        | none ↦ (h, fail 400 "Invalid latitude")
        | some lat ↦ elim (parse_float n (r.query "lng")) [
          | none ↦ (h, fail 400 "Invalid longitude")
          | some lng ↦
              let h' = record_location now h (r.header "X-User-ID") lat lng in
              let radius = radius_of n (r.query "radius") in
              (h', respond 200 (channels (get_nearby_channels f h'.channel_service lat lng radius)))
        ]
      ]

  unfoldable pub handle_get_user_channels : Handler (ChannelHandler Float) (ChannelBody Float)
  handle_get_user_channels r h =
      let user = r.header "X-User-ID" in
      if not (r.method == "GET")
      then (h, fail 405 "Method not allowed")
      else if user == ""
      then (h, fail 400 "User ID required")
      else (h, respond 200 (channels (get_user_channels f h.channel_service user)))

  unfoldable pub handle_get_channel_users : Handler (ChannelHandler Float) (ChannelBody Float)
  unfolding error_text extract_channel_id
  handle_get_channel_users r h =
      if not (r.method == "GET")
      then (h, fail 405 "Method not allowed")
      else if extract_channel_id r.path == ""
      then (h, fail 400 "Channel ID required")
      else elim (get_channel_users f h.channel_service (extract_channel_id r.path)) [
        | err e ↦ (h, fail 404 (error_text e))
        | ok found ↦ (h, respond 200 (users found))
      ]
