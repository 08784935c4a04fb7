-- ===== src/Channel/Store/Members.antt =====
-- backend/internal/channel/memory_store.go: joining and leaving a channel.
use trabalho_radio_px.Prelude.{
  ◌≤◌, ◌<◌, ◌⊎◌, leb-gt, ℕ, String, ◌≡◌, ap, ◌∙◌, refl, Bool, true, false, Bool-cases, Option-cases,
  inl, inr, Option, none, some, List, [], ◌∷◌, ◌++◌, length, leb, arith, if◌then◌else◌, ◌==◌,
  eq_iff, eq_refl,
}
use trabalho_radio_px.Prelude.Map.{Map, find, find-put, entry, entry-put, entry-put_self}
use trabalho_radio_px.Prelude.Sets.{String_comparable, contains, contains-append, IsDistinct}
use trabalho_radio_px.Channel.{
  Channel, ChannelError, Result, ok, err, channel_full, user_already_in_channel,
}
use trabalho_radio_px.Channel.Store.{
  ChannelStore, remove_first, counted, get_by_id, store_members, add_member, remove_member,
  is_member,
}

remove_first-append :
    (us : List String) (user : String)
    → contains us user ≡ false
    → remove_first (us ++ user ∷ []) user ≡ us
unfolding contains remove_first
remove_first-append [] user h = rw eq_refl
remove_first-append (u ∷ us) user h = ground (arith, remove_first-append us user)

remove_first-contains :
    (us : List String) (user other : String)
    → contains us other ≡ false
    → contains (remove_first us user) other ≡ false
unfolding contains remove_first
remove_first-contains [] user other h = refl
remove_first-contains (u ∷ us) user other h = ground (arith, remove_first-contains us user other)

pub remove_first-IsDistinct :
    (us : List String) (user : String)
    → IsDistinct us
    → IsDistinct (remove_first us user) × (length (remove_first us user) ≤ length us)
unfolding remove_first
remove_first-IsDistinct [] user d = (tt, omega arith)
remove_first-IsDistinct (u ∷ us) user d =
    ground (arith, remove_first-contains us user u d.0, remove_first-IsDistinct us user d.1)

pub contains-last : (us : List String) (user : String) → contains (us ++ user ∷ []) user ≡ true
unfolding contains
contains-last us user = contains-append us (user ∷ []) user ∙ rw eq_refl (ground arith)

entry_same : (m : Map (List String)) (i j : String) → (i == j) ≡ true → entry m i ≡ entry m j
entry_same m i j h = ap (entry m) ((eq_iff i j).0 h)

module _ {Float : Type 0} where
  -- What GetByID and IsMember say of a request to join.
  abbrev pub refusal : Result (Channel Float) → Result Bool → Option ChannelError
  refusal (err e) m = some e
  refusal (ok ch) (err e) = some e
  refusal (ok ch) (ok true) = some user_already_in_channel
  refusal (ok ch) (ok false) = if ch.is_available then none else some channel_full

  -- A user is let into a channel exactly when GetByID finds it and calls it available and IsMember
  -- denies that the user is in it; otherwise the error says which of these fails, and the store is
  -- as it was.
  pub add_member-refusal :
      (now : ℕ) (s : ChannelStore Float) (id user : String)
      → ((add_member now s id user).1 ≡ refusal (get_by_id s id) (is_member s id user))
        × ((refusal (get_by_id s id) (is_member s id user) ≡ none)
            ⊎ ((add_member now s id user).0 ≡ s))
  unfolding add_member get_by_id is_member
  add_member-refusal now s id user = ground arith

  -- After a user was let in, the channel's members are those before and then the user; every other
  -- channel's members are as they were.
  pub add_member-members :
      (now : ℕ) (s : ChannelStore Float) (id user other : String)
      → (add_member now s id user).1 ≡ none
      → entry (add_member now s id user).0.channel_users other ≡ (
          if id == other
          then entry s.channel_users id ++ user ∷ []
          else entry s.channel_users other)
  unfolding add_member
  add_member-members now s id user other h =
      ground (arith, entry-put s.channel_users id (entry s.channel_users id ++ user ∷ []) other)

  -- The ways in which a request to join can end.
  pub add_member-cases {ℓ} :
      (P : ChannelStore Float → Type ℓ) (now : ℕ) (s : ChannelStore Float) (id user : String)
      → P s
      → ((ch : Channel Float)
          → find s.channels id ≡ some ch
          → contains (entry s.channel_users id) user ≡ false
          → length (entry s.channel_users id) < ch.max_users
          → P (store_members now s id ch (entry s.channel_users id ++ user ∷ [])))
      → P (add_member now s id user).0
  unfolding add_member
  add_member-cases P now s id user refused joined = elim (Option-cases (find s.channels id)) [
    | inl e ↦ rw (e, add_member) refused
    | inr (ch, e) ↦ elim (Bool-cases (contains (entry s.channel_users id) user)) [
      | inl there ↦ rw (e, add_member, there) refused
      | inr new ↦ elim (Bool-cases (leb ch.max_users (length (entry s.channel_users id)))) [
        | inl full ↦ rw (e, add_member, new, full) refused
        | inr room ↦ rw (e, add_member, new, room) (joined ch e new (leb-gt _ _ room))
      ]
    ]
  ]

  pub remove_member-cases {ℓ} :
      (P : ChannelStore Float → Type ℓ) (now : ℕ) (s : ChannelStore Float) (id user : String)
      → P s
      → ((ch : Channel Float)
          → find s.channels id ≡ some ch
          → P (store_members now s id ch (remove_first (entry s.channel_users id) user)))
      → P (remove_member now s id user).0
  unfolding remove_member
  remove_member-cases P now s id user refused left = elim (Option-cases (find s.channels id)) [
    | inl e ↦ rw (e, remove_member) refused
    | inr (ch, e) ↦ elim (Bool-cases (contains (entry s.channel_users id) user)) [
      | inl there ↦ rw (e, remove_member, there) (left ch e)
      | inr missing ↦ rw (e, remove_member, missing) refused
    ]
  ]

  added :
      (now : ℕ) (s : ChannelStore Float) (id user : String)
      → (add_member now s id user).1 ≡ none
      → (ch : Channel Float) × (contains (entry s.channel_users id) user ≡ false)
        × ((add_member now s id user).0
            ≡ store_members now s id ch (entry s.channel_users id ++ user ∷ []))
  unfolding add_member
  added now s id user = elim (Option-cases (find s.channels id)) [
    | inl e ↦ rw (e, add_member) (λ h. cc)
    | inr (ch, e) ↦ elim (Bool-cases (contains (entry s.channel_users id) user)) [
      | inl there ↦ rw (e, add_member, there) (λ h. cc)
      | inr new ↦ elim (Bool-cases (leb ch.max_users (length (entry s.channel_users id)))) [
        | inl full ↦ rw (e, add_member, new, full) (λ h. cc)
        | inr room ↦ rw (e, add_member, new, room) (λ h. (ch, refl, refl))
      ]
    ]
  ]

  removed :
      (now : ℕ) (s : ChannelStore Float) (id user : String) (ch : Channel Float)
      → find s.channels id ≡ some ch
      → contains (entry s.channel_users id) user ≡ true
      → remove_member now s id user
        ≡ (store_members now s id ch (remove_first (entry s.channel_users id) user), none)
  unfolding remove_member
  removed now s id user ch e h = rw (e, remove_member, h)

  -- Leaving a channel whose last member is the user.
  leave_last :
      (now later : ℕ) (s : ChannelStore Float) (id user other : String) (ch : Channel Float)
      → contains (entry s.channel_users id) user ≡ false
      → let joined = store_members now s id ch (entry s.channel_users id ++ user ∷ []) in
        ((remove_member later joined id user).1 ≡ none)
        × (entry (remove_member later joined id user).0.channel_users other
            ≡ entry s.channel_users other)
  unfolding store_members counted
  leave_last now later s id user other ch new =
      let us = entry s.channel_users id in
      let joined = store_members now s id ch (us ++ user ∷ []) in
      let members : entry joined.channel_users id ≡ us ++ user ∷ [] =
        entry-put_self s.channel_users id (us ++ user ∷ []) in
      let e =
        removed later joined id user (record (counted ch (us ++ user ∷ [])) { updated_at = now })
          (rw (find-put, eq_refl id)) (rw (members, contains-last us user)) in
      (
        ap (λ r. r.1) e,
        ap (λ r. entry r.0.channel_users other) e
            ∙ rw (members, remove_first-append us user new, entry-put, entry-put)
                (elim (Bool-cases (id == other)) [
                  | inl k ↦ rw k (entry_same s.channel_users id other k)
                  | inr k ↦ rw k
                ]),
      )

  -- A user who was let in and then leaves, leaves the members as they were.
  pub remove-add_member :
      (now later : ℕ) (s : ChannelStore Float) (id user other : String)
      → (add_member now s id user).1 ≡ none
      → ((remove_member later (add_member now s id user).0 id user).1 ≡ none)
        × (entry (remove_member later (add_member now s id user).0 id user).0.channel_users other
            ≡ entry s.channel_users other)
  remove-add_member now later s id user other h =
      let (ch, new, e) = added now s id user h in rw e (leave_last now later s id user other ch new)
