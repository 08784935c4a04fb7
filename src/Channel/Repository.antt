-- ===== src/Channel/Repository.antt =====
-- backend/internal/channel/repository.go: the store of channels over PostgreSQL, with the tables of
-- backend/internal/db/migrations. A statement does what the language says of it: a primary key and
-- UNIQUE(user_id, channel_id) stand once, a transaction that is rolled back changes nothing, and
-- deleting a channel deletes its memberships. Statements that fail for another reason (a lost
-- connection, an identifier that is no UUID or of no user) are left out, and so is the deletion of
-- users. A transaction is one step, for it locks the channel's row; where a method runs two statements
-- without one, `between` is what other connections do to the tables between them. The clock's readings
-- are arguments.
pub mod Rows
pub mod Agreement
pub mod Refinement
pub mod Reads
pub mod History
use trabalho_radio_px.Prelude.{
  ℕ, zero, suc, String, Bool, true, false, not, ◌&&◌, ◌||◌, Option, none, some, List, [], ◌∷◌, ◌++◌,
  length, ltb, leb, if◌then◌else◌, ◌==◌,
}
use trabalho_radio_px.Prelude.Map.{Map, find, put, delete}
use trabalho_radio_px.Location.{Floats}
use trabalho_radio_px.Channel.{
  Channel, ChannelError, Result, ok, err, channel_not_found, channel_full, user_already_in_channel,
  user_not_in_channel,
}

-- What PostgreSQL and its driver do with the values of two types: the time that a column of type
-- TIMESTAMP gives back, which has no zone and counts microseconds, and whether a column of type
-- VARCHAR(100) takes a text.
pub record Columns : Type 0 where
  pub timestamp : ℕ → ℕ
  pub fits_100 : String → Bool

-- An error of the store: one of the service's, or one that the database reports.
pub data StoreError : Type 0 where
  sentinel : ChannelError → StoreError
  reported : StoreError

-- A row of the table channels, but for its key, and one of user_channels.
pub record Row (Float : Type 0) : Type 0 where
  pub name : String
  pub description : String
  pub latitude : Float
  pub longitude : Float
  pub max_users : ℕ
  pub created_by : String
  pub created_at : ℕ
  pub updated_at : ℕ

pub record Membership : Type 0 where
  pub user_id : String
  pub channel_id : String
  pub joined_at : ℕ

-- The rows of a table stand in the order in which they were inserted.
pub record Tables (Float : Type 0) : Type 0 where
  pub channels : Map (Row Float)
  pub user_channels : List Membership

abbrev pub membership : Columns → String → String → ℕ → Membership
membership k user id joined = record {
  user_id = user;
  channel_id = id;
  joined_at = k.timestamp joined;
}

-- `WHERE channel_id = id`
unfoldable pub where_channel : List Membership → String → List Membership
where_channel [] id = []
where_channel (m ∷ ms) id =
    let rest = where_channel ms id in if m.channel_id == id then m ∷ rest else rest

-- `EXISTS` of a membership with this user and channel
unfoldable pub exists : List Membership → String → String → Bool
exists [] id user = false
exists (m ∷ ms) id user = (m.user_id == user && m.channel_id == id) || exists ms id user

-- `DELETE` of the memberships with this user and channel
unfoldable pub delete_membership : List Membership → String → String → List Membership
delete_membership [] id user = []
delete_membership (m ∷ ms) id user =
    let rest = delete_membership ms id user in
    if m.user_id == user && m.channel_id == id then rest else m ∷ rest

-- The memberships that deleting a channel leaves.
unfoldable pub cascade : List Membership → String → List Membership
cascade [] id = []
cascade (m ∷ ms) id = let rest = cascade ms id in if m.channel_id == id then rest else m ∷ rest

-- `ORDER BY joined_at`
unfoldable pub insert_by_joined : Membership → List Membership → List Membership
insert_by_joined m [] = m ∷ []
insert_by_joined m (n ∷ ns) =
    let rest = insert_by_joined m ns in if leb m.joined_at n.joined_at then m ∷ n ∷ ns else n ∷ rest

unfoldable pub order_by_joined : List Membership → List Membership
unfolding insert_by_joined
order_by_joined [] = []
order_by_joined (m ∷ ms) = insert_by_joined m (order_by_joined ms)

unfoldable pub user_ids : List Membership → List String
user_ids [] = []
user_ids (m ∷ ms) = m.user_id ∷ user_ids ms

unfoldable pub touched : {Float : Type 0} → Columns → ℕ → Row Float → Row Float
touched k now row = record row { updated_at = k.timestamp now }

module _ {Float : Type 0} (zero_value : Float) where
  -- scanChannel of channelSelect, whose subquery counts the memberships
  unfoldable pub scan_channel : List Membership → String → Row Float → Channel Float
  unfolding where_channel
  scan_channel ms id row =
      let count = length (where_channel ms id) in
      record {
        id = id;
        name = row.name;
        description = row.description;
        latitude = row.latitude;
        longitude = row.longitude;
        max_users = row.max_users;
        user_count = count;
        is_available = ltb count row.max_users;
        distance = zero_value;
        created_by = row.created_by;
        created_at = row.created_at;
        updated_at = row.updated_at;
      }

  unfoldable pub get_by_id : Tables Float → String → Result (Channel Float)
  unfolding scan_channel
  get_by_id t id = elim (find t.channels id) [
    | none ↦ err channel_not_found
    | some row ↦ ok (scan_channel t.user_channels id row)
  ]

  -- The channels of the memberships of a user, for a list of memberships in order.
  unfoldable pub joined_channels : Tables Float → String → List Membership → List (Channel Float)
  unfolding scan_channel
  joined_channels t user [] = []
  joined_channels t user (m ∷ ms) =
      let rest = joined_channels t user ms in
      if m.user_id == user
      then elim (find t.channels m.channel_id) [
        | none ↦ rest
        | some row ↦ scan_channel t.user_channels m.channel_id row ∷ rest
      ]
      else rest

  unfoldable pub list_user_channels : Tables Float → String → List (Channel Float)
  unfolding joined_channels order_by_joined
  list_user_channels t user = joined_channels t user (order_by_joined t.user_channels)

module _ {Float : Type 0} where
  unfoldable pub is_member : Tables Float → String → String → Bool
  unfolding exists
  is_member t id user = exists t.user_channels id user

  unfoldable pub list_members :
      (Tables Float → Tables Float) → Tables Float → String → Result (List String)
  unfolding where_channel order_by_joined user_ids
  list_members between t id = elim (find t.channels id) [
    | none ↦ err channel_not_found
    | some _ ↦ ok (user_ids (order_by_joined (where_channel (between t).user_channels id)))
  ]

  unfoldable pub delete_channel : Tables Float → String → Tables Float × Option ChannelError
  unfolding cascade
  delete_channel t id = elim (find t.channels id) [
    | none ↦ (t, some channel_not_found)
    | some _ ↦ (
      record { channels = delete t.channels id; user_channels = cascade t.user_channels id },
      none,
    )
  ]

  unfoldable pub count : Tables Float → ℕ
  count t = length t.channels

module _ (k : Columns) {Float : Type 0} where
  abbrev pub row_of : Channel Float → Row Float
  row_of ch = record {
    name = ch.name;
    description = ch.description;
    latitude = ch.latitude;
    longitude = ch.longitude;
    max_users = ch.max_users;
    created_by = ch.created_by;
    created_at = k.timestamp ch.created_at;
    updated_at = k.timestamp ch.updated_at;
  }

  -- The transaction fails where the identifier is taken or the name is too long.
  unfoldable pub create : Tables Float → Channel Float → Tables Float × Option StoreError
  create t ch = elim (find t.channels ch.id) [
    | some _ ↦ (t, some reported)
    | none ↦ if not (k.fits_100 ch.name) then (t, some reported) else (
      record {
        channels = put t.channels ch.id (row_of ch);
        user_channels = t.user_channels ++ membership k ch.created_by ch.id ch.created_at ∷ [];
      },
      none,
    )
  ]

  unfoldable pub add_member :
      ℕ → ℕ → Tables Float → String → String → Tables Float × Option ChannelError
  unfolding exists where_channel touched
  add_member joined now t id user = elim (find t.channels id) [
    | none ↦ (t, some channel_not_found)
    | some row ↦
        let inserted = t.user_channels ++ membership k user id joined ∷ [] in
        if exists t.user_channels id user
        then (t, some user_already_in_channel)
        else if ltb row.max_users (length (where_channel inserted id))
        then (t, some channel_full)
        else (
          record { channels = put t.channels id (touched k now row); user_channels = inserted },
          none,
        )
  ]

  -- `UPDATE channels SET updated_at`
  unfoldable pub touch : ℕ → Tables Float → String → Tables Float
  unfolding touched
  touch now t id = elim (find t.channels id) [
    | none ↦ t
    | some row ↦ record t { channels = put t.channels id (touched k now row) }
  ]

  -- Where no row is deleted, the error says whether the channel exists then.
  unfoldable pub remove_member :
      (Tables Float → Tables Float)
      → ℕ
      → Tables Float
      → String
      → String
      → Tables Float × Option ChannelError
  unfolding exists delete_membership touch
  remove_member between now t id user =
      let later =
        between (record t { user_channels = delete_membership t.user_channels id user }) in
      if not (exists t.user_channels id user)
      then elim (find later.channels id) [
        | none ↦ (later, some channel_not_found)
        | some _ ↦ (later, some user_not_in_channel)
      ]
      else (touch now later id, none)

  unfoldable pub update : Tables Float → Channel Float → Tables Float × Option StoreError
  update t ch = elim (find t.channels ch.id) [
    | none ↦ (t, some (sentinel channel_not_found))
    | some row ↦ if not (k.fits_100 ch.name) then (t, some reported) else (
      record t {
        channels = put t.channels ch.id (record row {
          name = ch.name;
          description = ch.description;
          updated_at = k.timestamp ch.updated_at;
        });
      },
      none,
    )
  ]

module _ (f : Floats) where
  open f use {Float, literal, add, sub, mul, div, cos, less, at_most}

  abbrev pub between : Float → Float → Float → Bool
  between x low high = at_most low x && at_most x high

  -- The cosine that the longitudes are divided by, at least 0.01.
  abbrev pub clamped : Float → Float
  clamped c = let least = div (literal 1) (literal 100) in if less c least then least else c

  unfoldable pub in_box :
      List Membership → Float → Float → Float → Float → Map (Row Float) → List (Channel Float)
  unfolding scan_channel
  in_box ms lat_low lat_high lng_low lng_high [] = []
  in_box ms lat_low lat_high lng_low lng_high ((id, row) ∷ rows) =
      let rest = in_box ms lat_low lat_high lng_low lng_high rows in
      if between row.latitude lat_low lat_high && between row.longitude lng_low lng_high
      then scan_channel (literal 0) ms id row ∷ rest
      else rest

  unfoldable pub list_nearby : Tables Float → Float → Float → Float → List (Channel Float)
  unfolding in_box
  list_nearby t latitude longitude radius =
      let d_lat = div radius (literal 111) in
      let cosine = clamped (cos (div (mul latitude f.pi) (literal 180))) in
      let d_lng = div radius (mul (literal 111) cosine) in
      in_box t.user_channels (sub latitude d_lat) (add latitude d_lat) (sub longitude d_lng)
        (add longitude d_lng) t.channels
