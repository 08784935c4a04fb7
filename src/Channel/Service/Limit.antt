-- ===== src/Channel/Service/Limit.antt =====
-- backend/internal/channel/service.go: a channel never has too many members.
use trabalho_radio_px.Prelude.{
  ℕ, ◌≤◌, String, ◌≡◌, ap, subst, ◌∙◌, refl, Bool-cases, Option-cases, inl, inr, Option, some, List,
  [], ◌∷◌, length, ltb, ◌==◌,
}
use trabalho_radio_px.Prelude.Map.{find}
use trabalho_radio_px.Prelude.Sets.{String_comparable, IsDistinct}
use trabalho_radio_px.Location.{Floats}
use trabalho_radio_px.Channel.{
  Channel, CreateChannelRequest, UpdateChannelRequest, ChannelError, Result, ok, err,
}
use trabalho_radio_px.Channel.Store.{
  ChannelStore, new_store, list_members, counted, get_by_id, add_member, list_nearby,
}
use trabalho_radio_px.Channel.Service.{
  max_users_per_channel, create_channel, join_channel, join_channel_or_create, join_first,
  is_candidate, leave_channel, update_channel,
}
use trabalho_radio_px.Channel.Service
use trabalho_radio_px.Channel.Service.Validity.{
  IsValid, add_member-IsValid, remove_member-IsValid, create-IsValid, update-IsValid,
  delete-IsValid, found-members, get_by_id-cases, found-Fits,
}

module _ (f : Floats) where
  open f use {Float}

  pub data Call : Type 0 where
    create_call : (id : String) (now : ℕ) (user : String) (req : CreateChannelRequest Float) → Call
    join_call : (now : ℕ) (user id : String) → Call
    join_or_create_call :
        (id : String) (now : ℕ) (user : String) (req : CreateChannelRequest Float) → Call
    leave_call : (now : ℕ) (user id : String) → Call
    update_call : (now : ℕ) (user id : String) (req : UpdateChannelRequest) → Call
    delete_call : (user id : String) → Call

  -- What a call leaves in the store.
  unfoldable pub after : ChannelStore Float → Call → ChannelStore Float
  after s (create_call id now user req) = (create_channel f id now s user req).0
  after s (join_call now user id) = (join_channel f now s user id).0
  after s (join_or_create_call id now user req) = (join_channel_or_create f id now s user req).0
  after s (leave_call now user id) = (leave_channel f now s user id).0
  after s (update_call now user id req) = (update_channel f now s id user req).0
  after s (delete_call user id) = (Service.delete_channel f s id user).0

  join_first-IsValid :
      (now : ℕ) (s : ChannelStore Float) (user : String) (req : CreateChannelRequest Float)
      (chs : List (Channel Float)) (made : ChannelStore Float × Result (Channel Float))
      → IsValid s
      → join_first f now s user req chs ≡ some made
      → IsValid made.0
  unfolding join_first
  join_first-IsValid now s user req [] made v = λ h. cc
  join_first-IsValid now s user req (ch ∷ rest) made v =
      elim (Bool-cases (is_candidate f s user req ch)) [
        | inl e ↦ elim (Option-cases (add_member now s ch.id user).1) [
          | inl a ↦
              rw (e, a)
                (λ h.
                  let p : (
                    (add_member now s ch.id user).0,
                    get_by_id (add_member now s ch.id user).0 ch.id,
                  )
                      ≡ made =
                    cc in
                  subst IsValid (ap (λ r. r.0) p) (add_member-IsValid now s ch.id user v))
          | inr (_, a) ↦ rw (e, a) (join_first-IsValid now s user req rest made v)
        ]
        | inr e ↦ rw e (join_first-IsValid now s user req rest made v)
      ]

  update_channel-IsValid :
      (now : ℕ) (s : ChannelStore Float) (user id : String) (req : UpdateChannelRequest)
      → IsValid s
      → IsValid (update_channel f now s id user req).0
  unfolding update_channel get_by_id counted
  update_channel-IsValid now s user id req v = elim (Option-cases (find s.channels id)) [
    | inl e ↦ rw (e, update_channel, get_by_id) v
    | inr (ch, e) ↦
        rw (e, update_channel, get_by_id)
          (elim (Bool-cases (ch.created_by == user)) [
            | inl c ↦ rw c (
                let (i, _, _, _) = found-Fits s id ch v e in
                update-IsValid s _ ch (ap (find s.channels) i ∙ e) refl v)
            | inr c ↦ rw c v
          ])
  ]

  delete_channel-IsValid :
      (s : ChannelStore Float) (user id : String)
      → IsValid s
      → IsValid (Service.delete_channel f s id user).0
  unfolding Service.delete_channel get_by_id counted
  delete_channel-IsValid s user id v = elim (Option-cases (find s.channels id)) [
    | inl e ↦ rw (e, Service.delete_channel, get_by_id) v
    | inr (ch, e) ↦
        rw (e, Service.delete_channel, get_by_id)
          (elim (Bool-cases (ch.created_by == user)) [
            | inl c ↦ rw c (delete-IsValid s id v)
            | inr c ↦ rw c v
          ])
  ]

  join_channel-IsValid :
      (now : ℕ) (s : ChannelStore Float) (user id : String)
      → IsValid s
      → IsValid (join_channel f now s user id).0
  unfolding join_channel
  join_channel-IsValid now s user id v =
      get_by_id-cases
        (λ r.
          IsValid
            (elim r as (λ x. ChannelStore Float × Option ChannelError) [
              | err e ↦ (s, some e)
              | ok ch ↦ add_member now s id user
            ]).0)
        s id v (λ ch e. add_member-IsValid now s id user v)

  join_channel_or_create-IsValid :
      (id : String) (now : ℕ) (s : ChannelStore Float) (user : String)
      (req : CreateChannelRequest Float)
      → IsValid s
      → IsValid (join_channel_or_create f id now s user req).0
  unfolding join_channel_or_create create_channel
  join_channel_or_create-IsValid id now s user req v =
      let candidates = list_nearby s req.latitude req.longitude (f.literal 10) in
      elim (Option-cases (join_first f now s user req candidates)) [
        | inl e ↦ rw (e, join_channel_or_create) (create-IsValid s _ refl v)
        | inr (made, e) ↦
            rw (e, join_channel_or_create) (join_first-IsValid now s user req candidates made v e)
      ]

  after-IsValid : (s : ChannelStore Float) (c : Call) → IsValid s → IsValid (after s c)
  unfolding after create_channel leave_channel
  after-IsValid s (create_call id now user req) v = create-IsValid s _ refl v
  after-IsValid s (join_call now user id) v = join_channel-IsValid now s user id v
  after-IsValid s (join_or_create_call id now user req) v =
      join_channel_or_create-IsValid id now s user req v
  after-IsValid s (leave_call now user id) v = remove_member-IsValid now s id user v
  after-IsValid s (update_call now user id req) v = update_channel-IsValid now s user id req v
  after-IsValid s (delete_call user id) v = delete_channel-IsValid s user id v

  -- A history of calls.
  unfoldable pub after_all : ChannelStore Float → List Call → ChannelStore Float
  after_all s [] = s
  after_all s (c ∷ cs) = after_all (after s c) cs

  after_all-IsValid :
      (s : ChannelStore Float) (cs : List Call) → IsValid s → IsValid (after_all s cs)
  unfolding after_all
  after_all-IsValid s [] v = v
  after_all-IsValid s (c ∷ cs) v = after_all-IsValid (after s c) cs (after-IsValid s c v)

  new_store-IsValid : IsValid (new_store {Float = Float})
  unfolding find
  new_store-IsValid = record { channels_map = tt; users_map = tt; fits = λ id. tt }

  -- Whatever calls of the service were made since the start, a channel that GetByID finds has
  -- distinct members and at most ten of them, which ListMembers lists, and its count and its
  -- availability say how many they are and whether they are fewer than ten.
  pub after_all-limit :
      (cs : List Call) (id : String) (ch : Channel Float)
      → get_by_id (after_all new_store cs) id ≡ ok ch
      → (us : List String) × (list_members (after_all new_store cs) id ≡ ok us)
        × IsDistinct us
        × (length us ≤ max_users_per_channel)
        × (ch.user_count ≡ length us)
        × (ch.is_available ≡ ltb (length us) max_users_per_channel)
  after_all-limit cs id ch h =
      found-members (after_all new_store cs) id ch
        (after_all-IsValid new_store cs new_store-IsValid) h
