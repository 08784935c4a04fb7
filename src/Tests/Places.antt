-- ===== src/Tests/Places.antt =====
-- Inputs for the theorems about backend/internal/channel.
use trabalho_radio_px.Prelude.{
  ℕ, ◌≤◌, ◌⊎◌, String, ◌≡◌, true, false, none, List, [], ◌∷◌, ◌++◌, All, length, ltb, leb, refl,
  arith, ◌+◌, ◌-◌, ◌*◌,
}
use mathlib.Core.List.{Perm}
use trabalho_radio_px.Prelude.Map.{find, put, entry}
use trabalho_radio_px.Prelude.Sets.{ℕ_comparable, String_comparable, contains, IsDistinct}
use trabalho_radio_px.Location.{Floats}
use trabalho_radio_px.Channel.{Channel, CreateChannelRequest, ok}
use trabalho_radio_px.Channel.Store.{
  ChannelStore, new_store, create, counted, store_members, get_by_id, add_member, is_member,
  list_members, list_nearby, all_counted,
}
use trabalho_radio_px.Channel.Store.Members.{refusal, add_member-refusal}
use trabalho_radio_px.Channel.Service.{
  create_channel, join_channel, get_nearby_channels, max_users_per_channel, max_visible_channels,
}
use trabalho_radio_px.Channel.Service.Sort.{IsSorted}
use trabalho_radio_px.Channel.Service.Nearby.{nearer_to, reachable, IsWithin, nearby_nearest}
use trabalho_radio_px.Channel.Service.Limit.{
  Call, after, create_call, join_call, after_all, after_all-limit,
}

-- Whole numbers, whose sines and the like are the numbers themselves.
abbrev pub whole : Floats
whole = record {
  Float = ℕ;
  literal = λ n. n;
  pi = 3;
  add = λ a b. a + b;
  sub = λ a b. a - b;
  mul = λ a b. a * b;
  div = λ a b. a;
  sin = λ a. a;
  cos = λ a. a;
  sqrt = λ a. a;
  atan2 = λ a b. a;
  less = ltb;
  at_most = leb;
  is_nan = λ a. false;
  less-asym = λ a b h. ground arith;
  less-negative_trans = λ a b c n h k. ground arith;
}

abbrev pub place : String → ℕ → Channel ℕ
place id latitude = record {
  id = id;
  name = id;
  description = "";
  latitude = latitude;
  longitude = 0;
  max_users = 10;
  user_count = 0;
  is_available = true;
  distance = 0;
  created_by = "ana";
  created_at = 0;
  updated_at = 0;
}

abbrev pub places : ChannelStore ℕ
places = record {
  channels = ("c1", place "c1" 7) ∷ ("c2", place "c2" 2) ∷ [];
  channel_users = ("c1", "ana" ∷ []) ∷ ("c2", "ana" ∷ "bia" ∷ []) ∷ [];
}

add_member-refusal_example :
    ((add_member 5 places "c1" "caio").1
      ≡ refusal (get_by_id places "c1") (is_member places "c1" "caio"))
    × ((refusal (get_by_id places "c1") (is_member places "c1" "caio") ≡ none)
        ⊎ ((add_member 5 places "c1" "caio").0 ≡ places))
add_member-refusal_example = add_member-refusal 5 places "c1" "caio"

nearby_nearest_example :
    (others : List (Channel ℕ)) × All
      (IsWithin whole 0 0 1000000)
      (get_nearby_channels whole places 0 0 1000000)
    × Perm
        (get_nearby_channels whole places 0 0 1000000 ++ others)
        (reachable whole places 0 0 1000000)
    × IsSorted (nearer_to whole 0 0) (get_nearby_channels whole places 0 0 1000000)
    × All
        (λ near. All (λ far. nearer_to whole 0 0 far near ≡ false) others)
        (get_nearby_channels whole places 0 0 1000000)
    × ((others ≡ [])
        ⊎ (length (get_nearby_channels whole places 0 0 1000000) ≡ max_visible_channels))
unfolding list_nearby all_counted
nearby_nearest_example = nearby_nearest whole places 0 0 1000000 (refl, (refl, tt))

abbrev request : CreateChannelRequest ℕ
request = record { name = "estrada"; description = ""; latitude = 1; longitude = 1 }

-- The channel after the calls.
abbrev road : Channel ℕ
road = record {
  id = "c1";
  name = "estrada";
  description = "";
  latitude = 1;
  longitude = 1;
  max_users = 10;
  user_count = 2;
  is_available = true;
  distance = 0;
  created_by = "ana";
  created_at = 1;
  updated_at = 2;
}

abbrev calls : List (Call whole)
calls = create_call "c1" 1 "ana" request ∷ join_call 2 "bia" "c1" ∷ []

after_all-limit_example :
    (us : List String) × (list_members (after_all whole new_store calls) "c1" ≡ ok us)
    × IsDistinct us
    × (length us ≤ max_users_per_channel)
    × (road.user_count ≡ length us)
    × (road.is_available ≡ ltb (length us) max_users_per_channel)
unfolding get_by_id after_all after create_channel join_channel find put entry contains add_member
    create counted store_members new_store
after_all-limit_example = after_all-limit whole calls "c1" road refl
