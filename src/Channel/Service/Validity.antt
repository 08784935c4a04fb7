-- ===== src/Channel/Service/Validity.antt =====
-- backend/internal/channel/service.go over memory_store.go: no channel ever has too many members.
use trabalho_radio_px.Prelude.{
  ℕ, ◌≤◌, String, ◌≡◌, ap, sym, subst, ◌∙◌, refl, Bool-cases, Option-cases, inl, inr, Option, none,
  some, List, [], ◌∷◌, length, length-append, ltb, arith, ◌==◌, eq_iff,
}
use trabalho_radio_px.Prelude.Map.{
  Map, IsMap, find, put, find-put, find-delete, entry, entry_of_find, put-IsMap, delete-IsMap,
}
use trabalho_radio_px.Prelude.Sets.{String_comparable, contains, IsDistinct, append-IsDistinct}
use trabalho_radio_px.Channel.{channel_not_found, Channel, Result, ok, err}
use trabalho_radio_px.Channel.Store
use trabalho_radio_px.Channel.Store.{
  ChannelStore, new_store, list_members, remove_first, counted, create, get_by_id, store_members,
  add_member, remove_member, update, delete_channel, list_nearby,
}
use trabalho_radio_px.Channel.Store.Members.{
  add_member-cases, remove_member-cases, remove_first-IsDistinct,
}
use trabalho_radio_px.Channel.Service.{max_users_per_channel}

module _ {Float : Type 0} where
  -- A channel and its members: both are there or neither is, and the members are distinct and at
  -- most ten.
  abbrev pub Fits : String → Option (Channel Float) → Option (List String) → Type 0
  Fits id none none = Unit
  Fits id none (some us) = ⊥
  Fits id (some ch) none = ⊥
  Fits id (some ch) (some us) =
      (ch.id ≡ id)
      × (ch.max_users ≡ max_users_per_channel)
      × IsDistinct us
      × (length us ≤ max_users_per_channel)

  pub record IsValid (s : ChannelStore Float) : Type 0 where
    pub channels_map : IsMap s.channels
    pub users_map : IsMap s.channel_users
    pub fits : (id : String) → Fits id (find s.channels id) (find s.channel_users id)

  -- The maps after a write under one key.
  put-IsValid :
      (s : ChannelStore Float) (id : String) (ch : Channel Float) (us : List String)
      → Fits id (some ch) (some us)
      → IsValid s
      → IsValid
          (record { channels = put s.channels id ch; channel_users = put s.channel_users id us })
  put-IsValid s id ch us h v = record {
    channels_map = put-IsMap s.channels id ch v.channels_map;
    users_map = put-IsMap s.channel_users id us v.users_map;
    fits = λ j.
        rw (find-put, find-put)
          (elim (Bool-cases (id == j)) [
            | inl e ↦ rw e (rw ((eq_iff id j).0 e) at h)
            | inr e ↦ rw e (v.fits j)
          ]);
  }

  old-Fits :
      (s : ChannelStore Float) (id : String) (ch : Channel Float)
      → IsValid s
      → find s.channels id ≡ some ch
      → Fits id (some ch) (find s.channel_users id)
  old-Fits s id ch v e = let h = v.fits id in rw e at h

  entry-Fits :
      (id : String) (ch : Channel Float) (c : Option (Channel Float)) (m : Map (List String))
      → c ≡ some ch
      → Fits id c (find m id)
      → Fits id (some ch) (some (entry m id))
  entry-Fits id ch c m e h = elim (Option-cases (find m id)) [
    | inl missing ↦ elim (rw (e, missing) at h) [ ]
    | inr (us, there) ↦ rw (entry_of_find m id there) (rw (e, there) at h)
  ]

  pub found-Fits :
      (s : ChannelStore Float) (id : String) (ch : Channel Float)
      → IsValid s
      → find s.channels id ≡ some ch
      → Fits id (some ch) (some (entry s.channel_users id))
  found-Fits s id ch v e = entry-Fits id ch (find s.channels id) s.channel_users e (v.fits id)

  pub add_member-IsValid :
      (now : ℕ) (s : ChannelStore Float) (id user : String)
      → IsValid s
      → IsValid (add_member now s id user).0
  unfolding store_members counted
  add_member-IsValid now s id user v = add_member-cases IsValid now s id user v (λ ch e new room.
      let (i, m, d, n) = found-Fits s id ch v e in
      put-IsValid s id _ _
        (
          i,
          m,
          append-IsDistinct (entry s.channel_users id) user new d,
          rw (length-append, sym m) (omega arith),
        )
        v)

  pub remove_member-IsValid :
      (now : ℕ) (s : ChannelStore Float) (id user : String)
      → IsValid s
      → IsValid (remove_member now s id user).0
  unfolding store_members counted
  remove_member-IsValid now s id user v = remove_member-cases IsValid now s id user v (λ ch e.
      let (i, m, d, n) = found-Fits s id ch v e in
      let (d', n') = remove_first-IsDistinct (entry s.channel_users id) user d in
      put-IsValid s id _ _ (i, m, d', omega arith) v)

  pub get_by_id-cases {ℓ} :
      (P : Result (Channel Float) → Type ℓ) (s : ChannelStore Float) (id : String)
      → P (err channel_not_found)
      → ((ch : Channel Float)
          → find s.channels id ≡ some ch
          → P (ok (counted ch (entry s.channel_users id))))
      → P (get_by_id s id)
  unfolding get_by_id
  get_by_id-cases P s id missing there = elim (Option-cases (find s.channels id)) [
    | inl e ↦ rw (e, get_by_id) missing
    | inr (ch, e) ↦ rw (e, get_by_id) (there ch e)
  ]

  pub create-IsValid :
      (s : ChannelStore Float) (ch : Channel Float)
      → ch.max_users ≡ max_users_per_channel
      → IsValid s
      → IsValid (create s ch)
  unfolding create contains
  create-IsValid s ch m v =
      put-IsValid s ch.id ch (ch.created_by ∷ []) (refl, m, (refl, tt), omega arith) v

  Fits-update :
      (id : String) (ch old : Channel Float) (us : Option (List String))
      → ch.id ≡ id
      → ch.max_users ≡ old.max_users
      → Fits id (some old) us
      → Fits id (some ch) us
  Fits-update id ch old none i m h = h
  Fits-update id ch old (some us) i m h = (i, m ∙ h.1, h.2, h.3)

  -- The maps after an update whose channel has the members that it had.
  pub update-IsValid :
      (s : ChannelStore Float) (ch old : Channel Float)
      → find s.channels ch.id ≡ some old
      → ch.max_users ≡ old.max_users
      → IsValid s
      → IsValid (update s ch).0
  unfolding update
  update-IsValid s ch old e m v =
      rw (e, update)
        record {
          channels_map = put-IsMap s.channels ch.id ch v.channels_map;
          users_map = v.users_map;
          fits = λ j. rw find-put (elim (Bool-cases (ch.id == j)) [
            | inl k ↦ rw k (
                subst (λ i. Fits i (some ch) (find s.channel_users i)) ((eq_iff ch.id j).0 k)
                  (Fits-update ch.id ch old (find s.channel_users ch.id) refl m
                    (old-Fits s ch.id old v e)))
            | inr k ↦ rw k (v.fits j)
          ]);
        }

  pub delete-IsValid :
      (s : ChannelStore Float) (id : String) → IsValid s → IsValid (Store.delete_channel s id).0
  unfolding Store.delete_channel
  delete-IsValid s id v = elim (Option-cases (find s.channels id)) [
    | inl e ↦ rw (e, Store.delete_channel) v
    | inr (ch, e) ↦
        rw (e, Store.delete_channel)
          record {
            channels_map = delete-IsMap s.channels id v.channels_map;
            users_map = delete-IsMap s.channel_users id v.users_map;
            fits = λ j.
                rw (find-delete, find-delete)
                  (elim (Bool-cases (id == j)) [ inl k ↦ rw k tt | inr k ↦ rw k (v.fits j) ]);
          }
  ]

  listed :
      (s : ChannelStore Float) (id : String) (ch : Channel Float)
      → IsValid s
      → find s.channels id ≡ some ch
      → list_members s id ≡ ok (entry s.channel_users id)
  unfolding list_members
  listed s id ch v e = elim (Option-cases (find s.channel_users id)) [
    | inl missing ↦ elim (rw missing at (old-Fits s id ch v e)) [ ]
    | inr (us, there) ↦ rw (list_members, there, entry_of_find s.channel_users id there) refl
  ]

  -- What GetByID and ListMembers say of a channel.
  pub found-members :
      (s : ChannelStore Float) (id : String) (ch : Channel Float)
      → IsValid s
      → get_by_id s id ≡ ok ch
      → (us : List String) × (list_members s id ≡ ok us)
        × IsDistinct us
        × (length us ≤ max_users_per_channel)
        × (ch.user_count ≡ length us)
        × (ch.is_available ≡ ltb (length us) max_users_per_channel)
  unfolding get_by_id list_members counted
  found-members s id ch v = elim (Option-cases (find s.channels id)) [
    | inl e ↦ rw (e, get_by_id) (λ h. cc)
    | inr (c, e) ↦
        rw (e, get_by_id)
          (λ h.
            let p : counted c (entry s.channel_users id) ≡ ch = cc in
            let (i, m, d, n) = found-Fits s id c v e in
            (
              entry s.channel_users id,
              listed s id c v e,
              d,
              n,
              ap (λ x. x.user_count) (sym p),
              ap (λ x. x.is_available) (sym p) ∙ ap (ltb (length (entry s.channel_users id))) m,
            ))
  ]
