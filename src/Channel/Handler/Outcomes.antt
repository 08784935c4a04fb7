-- ===== src/Channel/Handler/Outcomes.antt =====
-- What the requests about a channel do to the stores, by their response.
use trabalho_radio_px.Prelude.{
  ℕ, eq_iff, Option, none, some, false, String, ◌≡◌, ◌⊎◌, refl, ap, sym, ◌∙◌, true, ◌==◌, [], ◌∷◌,
  ◌++◌, Bool-cases, Option-cases, inl, inr, leb, length, length-append, ltb, ◌+◌, if◌then◌else◌,
  subst,
}
use trabalho_radio_px.Prelude.Map.{find, entry, entry-put, find-put}
use trabalho_radio_px.Prelude.Sets.{String_comparable, contains}
use trabalho_radio_px.Http.{Request, Response, respond, fail, Handler}
use trabalho_radio_px.Location.{Floats}
use trabalho_radio_px.User.Service.{Accounts}
use trabalho_radio_px.Channel.{
  Channel, ChannelError, channel_not_found, channel_full, user_already_in_channel,
  user_not_in_channel, only_creator_updates, only_creator_deletes,
}
use trabalho_radio_px.Channel.Store.{
  ChannelStore, get_by_id, is_member, add_member, store_members, counted,
}
use trabalho_radio_px.Channel.Store.Members.{refusal, add_member-refusal}
use trabalho_radio_px.Channel.Service.{join_channel}
use trabalho_radio_px.Channel.Handler.{
  ChannelHandler, ChannelBody, message, extract_channel_id, handle_join_channel, of_channel, joined,
  error_text, conflict_status,
}

module _ (f : Floats) (a : Accounts) where
  open f use {Float}

  -- The user is let in as the last member of the channel, whose time of change is now: no other
  -- channel has changed, and no position.
  pub record IsLetIn (now : ℕ) (id user : String) (h h' : ChannelHandler Float) : Type 0 where
    pub new : contains (entry h.channel_service.channel_users id) user ≡ false
    pub members :
        (other : String)
        → entry h'.channel_service.channel_users other ≡ (
            if id == other
            then entry h.channel_service.channel_users id ++ user ∷ []
            else entry h.channel_service.channel_users other)
    pub channels :
        (other : String)
        → find h'.channel_service.channels other ≡ (
            if id == other
            then elim (find h.channel_service.channels id) [
              | none ↦ none
              | some ch ↦ some (record ch {
                user_count = length (entry h.channel_service.channel_users id) + 1;
                is_available =
                    ltb (length (entry h.channel_service.channel_users id) + 1) ch.max_users;
                updated_at = now;
              })
            ]
            else find h.channel_service.channels other)
    pub locations : h'.locations ≡ h.locations

  -- By the response: the user is let in, or nothing changes for the user was in the channel, or
  -- nothing changes for the request is refused.
  abbrev pub Joined :
      ℕ
      → String
      → String
      → ChannelHandler Float
      → ChannelHandler Float × Response (ChannelBody Float)
      → Type 0
  Joined now id user h (h', response) =
      ((response ≡ respond 200 (message "Joined channel")) × IsLetIn now id user h h')
      ⊎ (((response ≡ respond 200 (message "Already in channel"))
            × (contains (entry h.channel_service.channel_users id) user ≡ true)
            × (h' ≡ h))
          ⊎ (status : ℕ) × (text : String) × (response ≡ fail status text) × (h' ≡ h))

  join_channel-add_member :
      (now : ℕ) (s : ChannelStore Float) (id user : String) (ch : Channel Float)
      → find s.channels id ≡ some ch
      → join_channel f now s user id ≡ add_member now s id user
  unfolding join_channel get_by_id
  join_channel-add_member now s id user ch e = rw (join_channel, get_by_id, e) refl

  stored-IsLetIn :
      (now : ℕ) (id user : String) (h : ChannelHandler Float) (ch : Channel Float)
      → find h.channel_service.channels id ≡ some ch
      → contains (entry h.channel_service.channel_users id) user ≡ false
      → IsLetIn now id user h (record h {
        channel_service =
            store_members now h.channel_service id ch
              (entry h.channel_service.channel_users id ++ user ∷ []);
      })
  unfolding store_members counted
  stored-IsLetIn now id user h ch e new =
      let us = entry h.channel_service.channel_users id in
      record {
        new = new;
        members = λ other. entry-put h.channel_service.channel_users id (us ++ user ∷ []) other;
        channels = λ other. rw (find-put, e, length-append us (user ∷ [])) refl;
        locations = refl;
      }

  joined-Joined :
      (now : ℕ) (id user : String) (h : ChannelHandler Float)
      → Joined now id user h (joined f a h (join_channel f now h.channel_service user id))
  unfolding join_channel get_by_id add_member conflict_status error_text
  joined-Joined now id user h =
      let s = h.channel_service in
      let members = entry s.channel_users id in
      elim (Option-cases (find s.channels id)) [
        | inl e ↦ rw (join_channel, get_by_id, e) (inr (inr (404, "channel not found", refl, refl)))
        | inr (ch, e) ↦
            subst (λ x. Joined now id user h (joined f a h x))
              (sym (join_channel-add_member now s id user ch e))
              (elim (Bool-cases (contains members user)) [
                | inl there ↦
                    let same : add_member now s id user ≡ (s, some user_already_in_channel) =
                      rw (add_member, e, there) refl in
                    subst (λ x. Joined now id user h (joined f a h x)) (sym same)
                      (inr (inl (refl, there, refl)))
                | inr new ↦ elim (Bool-cases (leb ch.max_users (length members))) [
                  | inl full ↦
                      rw (add_member, e, new, full) (inr (inr (409, "channel is full", refl, refl)))
                  | inr room ↦
                      rw (add_member, e, new, room)
                        (inl (refl, stored-IsLetIn now id user h ch e new))
                ]
              ])
      ]

  -- The response to a request to join, by what refuses it.
  abbrev pub join_answer : Option ChannelError → Response (ChannelBody Float)
  join_answer none = respond 200 (message "Joined channel")
  join_answer (some user_already_in_channel) = respond 200 (message "Already in channel")
  join_answer (some channel_not_found) = fail 404 "channel not found"
  join_answer (some channel_full) = fail 409 "channel is full"
  join_answer (some user_not_in_channel) = fail 409 "user not in channel"
  join_answer (some only_creator_updates) = fail 409 "only channel creator can update"
  join_answer (some only_creator_deletes) = fail 409 "only channel creator can delete"

  joined-join_answer :
      (h : ChannelHandler Float) (x : ChannelStore Float × Option ChannelError)
      → (joined f a h x).1 ≡ join_answer x.1
  unfolding conflict_status error_text
  joined-join_answer h (s, none) = refl
  joined-join_answer h (s, some user_already_in_channel) = refl
  joined-join_answer h (s, some channel_not_found) = refl
  joined-join_answer h (s, some channel_full) = refl
  joined-join_answer h (s, some user_not_in_channel) = refl
  joined-join_answer h (s, some only_creator_updates) = refl
  joined-join_answer h (s, some only_creator_deletes) = refl

  join_channel-refusal :
      (now : ℕ) (s : ChannelStore Float) (id user : String)
      → (join_channel f now s user id).1 ≡ refusal (get_by_id s id) (is_member s id user)
  unfolding join_channel get_by_id
  join_channel-refusal now s id user = elim (Option-cases (find s.channels id)) [
    | inl e ↦ rw (join_channel, get_by_id, e) refl
    | inr (ch, e) ↦
        ap (λ x. x.1) (join_channel-add_member now s id user ch e)
        ∙ (add_member-refusal now s id user).0
  ]

  of_channel-passed :
      (method : String)
      (next : String → String → Handler (ChannelHandler Float) (ChannelBody Float)) (r : Request)
      (h : ChannelHandler Float)
      → r.method ≡ method
      → (extract_channel_id r.path == "") ≡ false
      → (r.header "X-User-ID" == "") ≡ false
      → of_channel f a method next r h ≡ next (extract_channel_id r.path) (r.header "X-User-ID") r h
  unfolding of_channel
  of_channel-passed method next r h m e u =
      let by_method : (r.method == method) ≡ true = (eq_iff r.method method).1 m in
      rw (of_channel, by_method, e, u) refl

  -- A request to join by POST, with a channel in its path and a user in its header, is answered as
  -- GetByID and IsMember of the store say: status 200 where the channel has room or the user is in it,
  -- 404 where it does not exist and 409 where it is full. A user who is let in was not in it and is then its last
  -- member; the channel has the count, the availability and the time of change that follow, and neither
  -- another channel nor a position has changed. Where the user was in it or the request is refused,
  -- nothing has changed.
  pub handle_join_channel-refusal :
      (now : ℕ) (r : Request) (h : ChannelHandler Float)
      → r.method ≡ "POST"
      → (extract_channel_id r.path == "") ≡ false
      → (r.header "X-User-ID" == "") ≡ false
      → let (h', response) = handle_join_channel f a now r h in
        let id = extract_channel_id r.path in
        let user = r.header "X-User-ID" in
        (response
          ≡ join_answer
              (refusal (get_by_id h.channel_service id) (is_member h.channel_service id user)))
        × Joined now id user h (h', response)
  unfolding handle_join_channel
  handle_join_channel-refusal now r h m e u =
      let id = extract_channel_id r.path in
      let user = r.header "X-User-ID" in
      let passed =
        of_channel-passed "POST"
          (λ id user q g. joined f a g (join_channel f now g.channel_service user id)) r h m e u in
      let joining = join_channel f now h.channel_service user id in
      (
        ap (λ x. x.1) passed
            ∙ joined-join_answer h joining
            ∙ ap join_answer (join_channel-refusal now h.channel_service id user),
        subst (Joined now id user h) (sym passed) (joined-Joined now id user h),
      )
