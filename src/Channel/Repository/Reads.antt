-- ===== src/Channel/Repository/Reads.antt =====
-- What the methods of backend/internal/channel/repository.go and memory_store.go that only read answer
-- where the two stores hold the same.
use trabalho_radio_px.Prelude.{
  ℕ, String, ◌≡◌, refl, ap, ◌∙◌, Bool, true, none, some, List, length, Option-cases, inl, inr,
}
use trabalho_radio_px.Prelude.Map.{find, entry, entry_of_find}
use trabalho_radio_px.Prelude.Sets.{String_comparable, contains}
use trabalho_radio_px.Channel.{Channel, Result, ok, err}
use trabalho_radio_px.Channel.Store
use trabalho_radio_px.Channel.Store.{ChannelStore, counted}
use trabalho_radio_px.Channel.Repository
use trabalho_radio_px.Channel.Repository.{
  Columns, Tables, row_of, scan_channel, where_channel, exists, user_ids, order_by_joined,
}
use trabalho_radio_px.Channel.Repository.Rows.{
  users_of, exists-contains, length-where_channel, order_by_joined-contains, order_by_joined-length,
}
use trabalho_radio_px.Channel.Repository.Agreement.{mapped, is_some, Agrees}

abbrev pub result_map : {A B : Type 0} → (A → B) → Result A → Result B
result_map f (err e) = err e
result_map f (ok x) = ok (f x)

-- Who is in a list and how many are, whatever their order.
abbrev pub as_set : List String → (String → Bool) × ℕ
as_set us = (λ user. contains us user, length us)

module _ (k : Columns) {Float : Type 0} (zero_value : Float) where
  -- A channel of the store in memory as the columns keep it: its times, and no distance.
  abbrev pub as_kept : Channel Float → Channel Float
  as_kept ch = record ch {
    distance = zero_value;
    created_at = k.timestamp ch.created_at;
    updated_at = k.timestamp ch.updated_at;
  }

  module _ (t : Tables Float) (s : ChannelStore Float) (id : String) (g : Agrees k t s) where
    count_rows : length (where_channel t.user_channels id) ≡ length (entry s.channel_users id)
    count_rows = length-where_channel t.user_channels id ∙ ap (λ us. length us) (g.members id)

    pub get_by_id-same :
        Repository.get_by_id zero_value t id ≡ result_map as_kept (Store.get_by_id s id)
    unfolding Repository.get_by_id Store.get_by_id scan_channel counted
    get_by_id-same = elim (Option-cases (find s.channels id)) [
      | inl e ↦
          let e' : find t.channels id ≡ none = g.rows id ∙ ap (mapped (row_of k)) e in
          rw (Repository.get_by_id, Store.get_by_id, e, e') refl
      | inr (ch, e) ↦
          let e' : find t.channels id ≡ some (row_of k ch) = g.rows id ∙ ap (mapped (row_of k)) e in
          rw (Repository.get_by_id, Store.get_by_id, e, e', count_rows, g.ids id ch e) refl
    ]

    pub is_member-same :
        (user : String)
        → is_some (find t.channels id) ≡ true
        → ok (Repository.is_member t id user) ≡ Store.is_member s id user
    unfolding Repository.is_member Store.is_member
    is_member-same user there = elim (Option-cases (find s.channels id)) [
      | inl e ↦
          let e' : find t.channels id ≡ none = g.rows id ∙ ap (mapped (row_of k)) e in
          cc (there, ap (λ x. is_some x) e')
      | inr (ch, e) ↦
          rw (Store.is_member, e)
            (ap ok (
              exists-contains t.user_channels id user ∙ ap (λ us. contains us user) (g.members id)))
    ]

    pub list_members-same :
        result_map as_set (Repository.list_members (λ later. later) t id)
        ≡ result_map as_set (Store.list_members s id)
    unfolding Repository.list_members Store.list_members
    list_members-same =
        let listed : is_some (find s.channels id) ≡ is_some (find s.channel_users id) =
          g.listed id in
        elim (Option-cases (find s.channels id)) [
          | inl e ↦
              let e' : find t.channels id ≡ none = g.rows id ∙ ap (mapped (row_of k)) e in
              elim (Option-cases (find s.channel_users id)) [
                | inl o ↦ rw (Repository.list_members, Store.list_members, e', o) refl
                | inr (us, o) ↦ cc (listed, ap (λ x. is_some x) e, ap (λ x. is_some x) o)
              ]
          | inr (ch, e) ↦
              let e' : find t.channels id ≡ some (row_of k ch) =
                g.rows id ∙ ap (mapped (row_of k)) e in
              elim (Option-cases (find s.channel_users id)) [
                | inl o ↦ cc (listed, ap (λ x. is_some x) e, ap (λ x. is_some x) o)
                | inr (us, o) ↦
                    let same : users_of t.user_channels id ≡ us =
                      g.members id ∙ entry_of_find s.channel_users id o in
                    rw (Repository.list_members, Store.list_members, e', o)
                      (λ i. ok (
                        (λ user.
                            (order_by_joined-contains (where_channel t.user_channels id) user
                                ∙ ap (λ xs. contains xs user) same)
                              i),
                        (order_by_joined-length (where_channel t.user_channels id)
                              ∙ ap (λ xs. length xs) same)
                            i,
                      ))
              ]
        ]
