-- ===== src/Channel/Store.antt =====
-- backend/internal/channel/memory_store.go: channels and memberships in memory. The lock makes each
-- method one step, whose clock reading is an argument. Create keeps the pointer that it is given
-- and Update a pointer that the service got as a copy; no caller changes either afterwards, so the
-- maps hold values.
pub mod Members
use trabalho_radio_px.Prelude.{
  ℕ, String, Bool, true, false, Option, none, some, List, [], ◌∷◌, ◌++◌, length, ltb, leb,
  if◌then◌else◌, ◌==◌,
}
use trabalho_radio_px.Prelude.Map.{Map, find, put, delete, entry}
use trabalho_radio_px.Prelude.Sets.{String_comparable, contains}
use trabalho_radio_px.Channel.{
  Channel, ChannelError, Result, ok, err, channel_not_found, channel_full, user_already_in_channel,
  user_not_in_channel,
}

pub record ChannelStore (Float : Type 0) : Type 0 where
  pub channels : Map (Channel Float)
  pub channel_users : Map (List String)

-- `append(users[:i], users[i+1:]...)` at the first index of the user.
unfoldable pub remove_first : List String → String → List String
remove_first [] user = []
remove_first (u ∷ us) user = let rest = remove_first us user in if u == user then us else u ∷ rest

module _ {Float : Type 0} where
  abbrev pub new_store : ChannelStore Float
  new_store = record { channels = []; channel_users = [] }

  unfoldable pub create : ChannelStore Float → Channel Float → ChannelStore Float
  create s ch = record {
    channels = put s.channels ch.id ch;
    channel_users = put s.channel_users ch.id (ch.created_by ∷ []);
  }

  -- The copy whose count and availability are computed from the members.
  unfoldable pub counted : Channel Float → List String → Channel Float
  counted ch users = record ch {
    user_count = length users;
    is_available = ltb (length users) ch.max_users;
  }

  unfoldable pub get_by_id : ChannelStore Float → String → Result (Channel Float)
  unfolding counted
  get_by_id s id = elim (find s.channels id) [
    | none ↦ err channel_not_found
    | some ch ↦ ok (counted ch (entry s.channel_users id))
  ]

  -- The channel's own fields are brought up to date in place.
  unfoldable pub store_members :
      ℕ → ChannelStore Float → String → Channel Float → List String → ChannelStore Float
  unfolding counted
  store_members now s id ch users = record {
    channels = put s.channels id (record (counted ch users) { updated_at = now });
    channel_users = put s.channel_users id users;
  }

  -- The second part is the error, `none` for nil.
  unfoldable pub add_member :
      ℕ → ChannelStore Float → String → String → ChannelStore Float × Option ChannelError
  unfolding store_members
  add_member now s id user =
      let users = entry s.channel_users id in
      elim (find s.channels id) [
        | none ↦ (s, some channel_not_found)
        | some ch ↦
            if contains users user
            then (s, some user_already_in_channel)
            else if leb ch.max_users (length users)
            then (s, some channel_full)
            else (store_members now s id ch (users ++ user ∷ []), none)
      ]

  unfoldable pub remove_member :
      ℕ → ChannelStore Float → String → String → ChannelStore Float × Option ChannelError
  unfolding store_members
  remove_member now s id user =
      let users = entry s.channel_users id in
      elim (find s.channels id) [
        | none ↦ (s, some channel_not_found)
        | some ch ↦
            if contains users user
            then (store_members now s id ch (remove_first users user), none)
            else (s, some user_not_in_channel)
      ]

  unfoldable pub is_member : ChannelStore Float → String → String → Result Bool
  is_member s id user = elim (find s.channels id) [
    | none ↦ err channel_not_found
    | some ch ↦ ok (contains (entry s.channel_users id) user)
  ]

  unfoldable pub list_members : ChannelStore Float → String → Result (List String)
  list_members s id = elim (find s.channel_users id) [
    | none ↦ err channel_not_found
    | some users ↦ ok users
  ]

  unfoldable pub user_channels :
      Map (Channel Float) → Map (List String) → String → List (Channel Float)
  unfolding counted
  user_channels channels [] user = []
  user_channels channels ((id, users) ∷ rest) user =
      let others = user_channels channels rest user in
      if contains users user
      then elim (find channels id) [ none ↦ others | some ch ↦ counted ch users ∷ others ]
      else others

  unfoldable pub list_user_channels : ChannelStore Float → String → List (Channel Float)
  unfolding user_channels
  list_user_channels s user = user_channels s.channels s.channel_users user

  unfoldable pub all_counted : Map (Channel Float) → Map (List String) → List (Channel Float)
  unfolding counted
  all_counted [] members = []
  all_counted ((id, ch) ∷ rest) members =
      counted ch (entry members ch.id) ∷ all_counted rest members

  -- The position and the radius are arguments that the method does not read.
  unfoldable pub list_nearby : ChannelStore Float → Float → Float → Float → List (Channel Float)
  unfolding all_counted
  list_nearby s latitude longitude radius = all_counted s.channels s.channel_users

  unfoldable pub update :
      ChannelStore Float → Channel Float → ChannelStore Float × Option ChannelError
  update s ch = elim (find s.channels ch.id) [
    | none ↦ (s, some channel_not_found)
    | some old ↦ (record s { channels = put s.channels ch.id ch }, none)
  ]

  unfoldable pub delete_channel :
      ChannelStore Float → String → ChannelStore Float × Option ChannelError
  delete_channel s id = elim (find s.channels id) [
    | none ↦ (s, some channel_not_found)
    | some ch ↦ (
      record { channels = delete s.channels id; channel_users = delete s.channel_users id },
      none,
    )
  ]

  unfoldable pub count : ChannelStore Float → ℕ
  count s = length s.channels
