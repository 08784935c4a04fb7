-- ===== src/Channel/Service.antt =====
-- backend/internal/channel/service.go: the rules about channels, over the store in memory. A call
-- of the service is one step; the identifier that it generates and its clock readings are
-- arguments. Where the source returns the store's nil error with a pointer, the result is `ok`.
pub mod Sort
pub mod Nearby
pub mod Validity
pub mod Limit
use trabalho_radio_px.Prelude.{
  ℕ, zero, suc, String, Bool, true, false, not, ◌||◌, Option, none, some, List, [], ◌∷◌, length,
  take, ltb, if◌then◌else◌, ◌==◌,
}
use trabalho_radio_px.Location.{Floats, calculate_distance}
use trabalho_radio_px.Channel.{
  Channel, CreateChannelRequest, UpdateChannelRequest, ChannelError, Result, ok, err,
  only_creator_updates, only_creator_deletes,
}
use trabalho_radio_px.Channel.Store
use trabalho_radio_px.Channel.Store.{ChannelStore}

abbrev pub max_users_per_channel : ℕ
max_users_per_channel = 10

abbrev pub max_visible_channels : ℕ
max_visible_channels = 15

-- The inner loop of sortChannelsByDistance: the first item is compared with each later one and
-- changes places with any that is nearer.
unfoldable pub sort_pass {ℓ} : {A : Type ℓ} → (A → A → Bool) → A → List A → A × List A
sort_pass nearer x [] = (x, [])
sort_pass nearer x (y ∷ ys) =
    let (first, rest) = sort_pass nearer (if nearer y x then y else x) ys in
    (first, (if nearer y x then x else y) ∷ rest)

-- The outer loop, for as many rounds as the slice has items.
unfoldable pub sort_rounds {ℓ} : {A : Type ℓ} → (A → A → Bool) → ℕ → List A → List A
unfolding sort_pass
sort_rounds nearer zero xs = xs
sort_rounds nearer (suc n) [] = []
sort_rounds nearer (suc n) (x ∷ xs) =
    let (first, rest) = sort_pass nearer x xs in first ∷ sort_rounds nearer n rest

module _ (f : Floats) where
  open f use {Float, literal, less, at_most}

  abbrev pub distance_to : Float → Float → Channel Float → Float
  distance_to lat lng ch = calculate_distance f lat lng ch.latitude ch.longitude

  unfoldable pub sort_channels_by_distance :
      List (Channel Float) → Float → Float → List (Channel Float)
  unfolding sort_rounds
  sort_channels_by_distance channels lat lng =
      sort_rounds (λ a b. less (distance_to lat lng a) (distance_to lat lng b)) (length channels)
        channels

  unfoldable pub create_channel :
      String
      → ℕ
      → ChannelStore Float
      → String
      → CreateChannelRequest Float
      → ChannelStore Float × Result (Channel Float)
  create_channel id now s user req =
      let ch : Channel Float = record {
        id = id;
        name = req.name;
        description = req.description;
        latitude = req.latitude;
        longitude = req.longitude;
        max_users = max_users_per_channel;
        user_count = 1;
        is_available = ltb 1 max_users_per_channel;
        distance = literal 0;
        created_by = user;
        created_at = now;
        updated_at = now;
      } in
      (Store.create s ch, ok ch)

  unfoldable pub get_channel : ChannelStore Float → String → Result (Channel Float)
  get_channel s id = Store.get_by_id s id

  unfoldable pub join_channel :
      ℕ → ChannelStore Float → String → String → ChannelStore Float × Option ChannelError
  join_channel now s user id = elim (Store.get_by_id s id) [
    | err e ↦ (s, some e)
    | ok ch ↦ Store.add_member now s id user
  ]

  -- The tests of the loop of JoinChannelOrCreate before the candidate is joined.
  unfoldable pub is_candidate :
      ChannelStore Float → String → CreateChannelRequest Float → Channel Float → Bool
  is_candidate s user req ch =
      if less (literal 10) (distance_to req.latitude req.longitude ch) || not ch.is_available
      then false
      else elim (Store.is_member s ch.id user) [ err e ↦ false | ok already ↦ not already ]

  -- The loop: `none` where no candidate was joined.
  unfoldable pub join_first :
      ℕ
      → ChannelStore Float
      → String
      → CreateChannelRequest Float
      → List (Channel Float)
      → Option (ChannelStore Float × Result (Channel Float))
  unfolding is_candidate
  join_first now s user req [] = none
  join_first now s user req (ch ∷ rest) =
      let others = join_first now s user req rest in
      if is_candidate s user req ch
      then (let (joined, e) = Store.add_member now s ch.id user in
          elim e [ none ↦ some (joined, Store.get_by_id joined ch.id) | some _ ↦ others ])
      else others

  unfoldable pub join_channel_or_create :
      String
      → ℕ
      → ChannelStore Float
      → String
      → CreateChannelRequest Float
      → ChannelStore Float × Result (Channel Float)
  unfolding join_first
  join_channel_or_create id now s user req =
      let candidates = Store.list_nearby s req.latitude req.longitude (literal 10) in
      elim (join_first now s user req candidates) [
        | none ↦ create_channel id now s user req
        | some r ↦ r
      ]

  unfoldable pub leave_channel :
      ℕ → ChannelStore Float → String → String → ChannelStore Float × Option ChannelError
  leave_channel now s user id = Store.remove_member now s id user

  -- The copies of the candidates within the radius, with their distances.
  unfoldable pub within_radius : Float → Float → Float → List (Channel Float) → List (Channel Float)
  within_radius lat lng radius [] = []
  within_radius lat lng radius (ch ∷ rest) =
      let others = within_radius lat lng radius rest in
      let far = distance_to lat lng ch in
      if at_most far radius then record ch { distance = far } ∷ others else others

  unfoldable pub get_nearby_channels :
      ChannelStore Float → Float → Float → Float → List (Channel Float)
  unfolding within_radius sort_channels_by_distance
  get_nearby_channels s lat lng radius =
      let sorted =
        sort_channels_by_distance
          (within_radius lat lng radius (Store.list_nearby s lat lng radius)) lat lng in
      if ltb max_visible_channels (length sorted) then take max_visible_channels sorted else sorted

  unfoldable pub get_user_channels : ChannelStore Float → String → List (Channel Float)
  get_user_channels s user = Store.list_user_channels s user

  unfoldable pub get_channel_users : ChannelStore Float → String → Result (List String)
  get_channel_users s id = Store.list_members s id

  abbrev pub or_old : String → String → String
  or_old new old = if new == "" then old else new

  unfoldable pub update_channel :
      ℕ
      → ChannelStore Float
      → String
      → String
      → UpdateChannelRequest
      → ChannelStore Float × Option ChannelError
  update_channel now s id user req = elim (Store.get_by_id s id) [
    | err e ↦ (s, some e)
    | ok ch ↦
        if not (ch.created_by == user)
        then (s, some only_creator_updates)
        else Store.update s (record ch {
          name = or_old req.name ch.name;
          description = or_old req.description ch.description;
          updated_at = now;
        })
  ]

  unfoldable pub delete_channel :
      ChannelStore Float → String → String → ChannelStore Float × Option ChannelError
  delete_channel s id user = elim (Store.get_by_id s id) [
    | err e ↦ (s, some e)
    | ok ch ↦
        if not (ch.created_by == user)
        then (s, some only_creator_deletes)
        else Store.delete_channel s id
  ]
