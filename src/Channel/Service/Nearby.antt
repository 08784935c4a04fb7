-- ===== src/Channel/Service/Nearby.antt =====
-- backend/internal/channel/service.go, GetNearbyChannels: which channels a user is shown.
use mathlib.Core.List.{Perm}
use trabalho_radio_px.Prelude.{
  ℕ, zero, suc, ◌≤◌, ◌≡◌, sym, refl, Bool, true, false, Bool-cases, inl, inr, ◌⊎◌, List, [], ◌∷◌,
  ◌++◌, length, take, drop, take-append-drop, take_of_length-le, drop_of_length-le, dec_le,
  length-take_of_le, length-take-le, All-take, All-drop, arith, All, ltb, ltb-ge, map, ap, ◌∙◌,
  subst, select, String,
}
use trabalho_radio_px.Prelude.Map.{Map, entry}
use trabalho_radio_px.Location.{Floats}
use trabalho_radio_px.Channel.{Channel}
use trabalho_radio_px.Channel.Store.{ChannelStore, list_nearby, all_counted, counted}
use trabalho_radio_px.Channel.Service.{
  distance_to, sort_channels_by_distance, within_radius, get_nearby_channels, max_visible_channels,
}
use trabalho_radio_px.Channel.Service.Sort.{IsSorted, rounds-perm, rounds-All, rounds-IsSorted}

module _ {ℓ} {A : Type ℓ} (nearer : A → A → Bool) where
  take-IsSorted : (n : ℕ) (xs : List A) → IsSorted nearer xs → IsSorted nearer (take n xs)
  take-IsSorted zero xs h = tt
  take-IsSorted (suc n) [] h = tt
  take-IsSorted (suc n) (x ∷ xs) h = (All-take _ n xs h.0, take-IsSorted n xs h.1)

  -- What is left out of a sorted list is no nearer than what is taken.
  take-drop-IsSorted :
      (n : ℕ) (xs : List A)
      → IsSorted nearer xs
      → All (λ near. All (λ far. nearer far near ≡ false) (drop n xs)) (take n xs)
  take-drop-IsSorted zero xs h = tt
  take-drop-IsSorted (suc n) [] h = tt
  take-drop-IsSorted (suc n) (x ∷ xs) h = (All-drop _ n xs h.0, take-drop-IsSorted n xs h.1)

module _ (f : Floats) where
  open f use {Float, less, at_most, is_nan, less-asym, less-negative_trans}

  abbrev pub nearer_to : Float → Float → Channel Float → Channel Float → Bool
  nearer_to lat lng a b = less (distance_to f lat lng a) (distance_to f lat lng b)

  -- The channel's distance from the position is a number.
  abbrev pub Measurable : Float → Float → Channel Float → Type 0
  Measurable lat lng ch = is_nan (distance_to f lat lng ch) ≡ false

  -- The channel carries its distance from the position, which is within the radius.
  abbrev pub IsWithin : Float → Float → Float → Channel Float → Type 0
  IsWithin lat lng radius ch =
      (ch.distance ≡ distance_to f lat lng ch) × (at_most ch.distance radius ≡ true)

  within_radius-IsWithin :
      (lat lng radius : Float) (chs : List (Channel Float))
      → All (IsWithin lat lng radius) (within_radius f lat lng radius chs)
  unfolding within_radius
  within_radius-IsWithin lat lng radius [] = tt
  within_radius-IsWithin lat lng radius (ch ∷ rest) =
      elim (Bool-cases (at_most (distance_to f lat lng ch) radius)) [
        | inl e ↦ rw e ((refl, e), within_radius-IsWithin lat lng radius rest)
        | inr e ↦ rw e (within_radius-IsWithin lat lng radius rest)
      ]

  within-Measurable :
      (lat lng radius : Float) (chs : List (Channel Float))
      → All (Measurable lat lng) chs
      → All (Measurable lat lng) (within_radius f lat lng radius chs)
  unfolding within_radius
  within-Measurable lat lng radius [] h = tt
  within-Measurable lat lng radius (ch ∷ rest) h =
      elim (Bool-cases (at_most (distance_to f lat lng ch) radius)) [
        | inl e ↦ rw e (h.0, within-Measurable lat lng radius rest h.1)
        | inr e ↦ rw e (within-Measurable lat lng radius rest h.1)
      ]

  -- The channels of the store with the count and the availability that their members give.
  abbrev pub stored : ChannelStore Float → List (Channel Float)
  stored s = map (λ p. counted p.1 (entry s.channel_users p.1.id)) s.channels

  -- A channel with its distance from the position.
  abbrev pub located : Float → Float → Channel Float → Channel Float
  located lat lng ch = record ch { distance = distance_to f lat lng ch }

  -- The channels of the store that are within the radius, with their distances.
  abbrev pub reachable : ChannelStore Float → Float → Float → Float → List (Channel Float)
  reachable s lat lng radius =
      select (λ ch. at_most ch.distance radius) (map (located lat lng) (stored s))

  all_counted-map :
      (chs : Map (Channel Float)) (members : Map (List String))
      → all_counted chs members ≡ map (λ p. counted p.1 (entry members p.1.id)) chs
  unfolding all_counted map
  all_counted-map [] members = refl
  all_counted-map ((id, ch) ∷ chs) members =
      ap (λ rest. counted ch (entry members ch.id) ∷ rest) (all_counted-map chs members)

  within_radius-select :
      (lat lng radius : Float) (chs : List (Channel Float))
      → within_radius f lat lng radius chs
        ≡ select (λ ch. at_most ch.distance radius) (map (located lat lng) chs)
  unfolding within_radius map
  within_radius-select lat lng radius [] = refl
  within_radius-select lat lng radius (ch ∷ chs) =
      ground (arith, within_radius-select lat lng radius chs)

  -- What GetNearbyChannels sorts.
  abbrev candidates : ChannelStore Float → Float → Float → Float → List (Channel Float)
  candidates s lat lng radius = within_radius f lat lng radius (list_nearby s lat lng radius)

  candidates-reachable :
      (s : ChannelStore Float) (lat lng radius : Float)
      → candidates s lat lng radius ≡ reachable s lat lng radius
  unfolding list_nearby
  candidates-reachable s lat lng radius =
      ap (within_radius f lat lng radius) (all_counted-map s.channels s.channel_users)
      ∙ within_radius-select lat lng radius (stored s)

  abbrev sorted : ChannelStore Float → Float → Float → Float → List (Channel Float)
  sorted s lat lng radius = sort_channels_by_distance f (candidates s lat lng radius) lat lng

  nearby-take :
      (s : ChannelStore Float) (lat lng radius : Float)
      → get_nearby_channels f s lat lng radius ≡ take max_visible_channels (sorted s lat lng radius)
  unfolding get_nearby_channels
  nearby-take s lat lng radius =
      elim (Bool-cases (ltb max_visible_channels (length (sorted s lat lng radius)))) [
        | inl e ↦ rw e
        | inr e ↦
            rw e (
              sym (take_of_length-le max_visible_channels (sorted s lat lng radius) (ltb-ge _ _ e)))
      ]

  -- Every channel that a user is shown carries its distance, which is within the radius asked for,
  -- and at most fifteen are shown.
  pub nearby-IsWithin :
      (s : ChannelStore Float) (lat lng radius : Float)
      → All (IsWithin lat lng radius) (get_nearby_channels f s lat lng radius)
        × (length (get_nearby_channels f s lat lng radius) ≤ max_visible_channels)
  unfolding sort_channels_by_distance
  nearby-IsWithin s lat lng radius = rw nearby-take (
    All-take _ max_visible_channels (sorted s lat lng radius) (
        rounds-All (nearer_to lat lng) _ (length (candidates s lat lng radius))
          (candidates s lat lng radius)
          (within_radius-IsWithin lat lng radius (list_nearby s lat lng radius))),
    length-take-le max_visible_channels (sorted s lat lng radius),
  )

  sorted-IsSorted :
      (s : ChannelStore Float) (lat lng radius : Float)
      → All (Measurable lat lng) (list_nearby s lat lng radius)
      → IsSorted (nearer_to lat lng) (sorted s lat lng radius)
  unfolding sort_channels_by_distance
  sorted-IsSorted s lat lng radius m =
      rounds-IsSorted (nearer_to lat lng) (Measurable lat lng) (λ a b. less-asym _ _)
        (λ a b c. less-negative_trans _ _ _) (length (candidates s lat lng radius))
        (candidates s lat lng radius) (omega arith)
        (within-Measurable lat lng radius (list_nearby s lat lng radius) m)

  all_or_full :
      (xs : List (Channel Float))
      → (drop max_visible_channels xs ≡ [])
        ⊎ (length (take max_visible_channels xs) ≡ max_visible_channels)
  all_or_full xs = elim (dec_le (length xs) max_visible_channels) [
    | yes h ↦ inl (drop_of_length-le max_visible_channels xs h)
    | no h ↦ inr (length-take_of_le max_visible_channels xs (omega arith))
  ]

  -- Where the distance of every stored channel is a number, a user is shown the nearest channels
  -- within the radius, in the order of their distances: each that is shown has its distance, which
  -- is within the radius; with some others they are the stored channels whose distance is within the
  -- radius; no other is nearer than one that is shown; and there are others only where fifteen are
  -- shown.
  pub nearby_nearest :
      (s : ChannelStore Float) (lat lng radius : Float)
      → All (Measurable lat lng) (list_nearby s lat lng radius)
      → (others : List (Channel Float)) × All
          (IsWithin lat lng radius)
          (get_nearby_channels f s lat lng radius)
        × Perm (get_nearby_channels f s lat lng radius ++ others) (reachable s lat lng radius)
        × IsSorted (nearer_to lat lng) (get_nearby_channels f s lat lng radius)
        × All
            (λ near. All (λ far. nearer_to lat lng far near ≡ false) others)
            (get_nearby_channels f s lat lng radius)
        × ((others ≡ []) ⊎ (length (get_nearby_channels f s lat lng radius) ≡ max_visible_channels))
  unfolding sort_channels_by_distance
  nearby_nearest s lat lng radius m =
      let xs = sorted s lat lng radius in
      let order = sorted-IsSorted s lat lng radius m in
      let sorting : Perm xs (candidates s lat lng radius) =
        rounds-perm (nearer_to lat lng) (length (candidates s lat lng radius))
          (candidates s lat lng radius) in
      (
        drop max_visible_channels xs,
        (nearby-IsWithin s lat lng radius).0,
        rw nearby-take
            (rw take-append-drop (subst (Perm xs) (candidates-reachable s lat lng radius) sorting)),
        rw nearby-take (take-IsSorted (nearer_to lat lng) max_visible_channels xs order),
        rw nearby-take (take-drop-IsSorted (nearer_to lat lng) max_visible_channels xs order),
        rw nearby-take (all_or_full xs),
      )
