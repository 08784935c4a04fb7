-- ===== src/Channel/Repository/Refinement.antt =====
-- The store over PostgreSQL against the store in memory: backend/internal/channel/repository.go and
-- memory_store.go under the same calls.
use trabalho_radio_px.Prelude.{
  ℕ, String, ◌≡◌, refl, ap, sym, ◌∙◌, subst, false, true, ◌==◌, eq_iff, Option, none, some, length,
  leb, Bool-cases, Option-cases, inl, inr,
}
use trabalho_radio_px.Prelude.Map.{find, put, entry, find-put}
use trabalho_radio_px.Prelude.Sets.{String_comparable, contains}
use trabalho_radio_px.Channel.{Channel, ChannelError, ok, err}
use trabalho_radio_px.Channel.Store
use trabalho_radio_px.Channel.Store.{ChannelStore, remove_first, counted, store_members}
use trabalho_radio_px.Channel.Repository
use trabalho_radio_px.Channel.Repository.{
  Columns, StoreError, sentinel, Tables, Row, Membership, membership, row_of, touched,
  where_channel, exists, delete_membership, cascade, scan_channel,
}
use trabalho_radio_px.Channel.Repository.Rows.{exists-contains, full_test, delete_membership-absent}
use trabalho_radio_px.Channel.Repository.Agreement.{
  mapped, is_some, Agrees, contains-nobody, joined-Agrees, left-Agrees, deleted-Agrees,
  created-Agrees, put-rows, put-ids,
}

-- The results of a call on both stores: the same answer, and stores that agree.
pub data Matches (k : Columns) {Float Answer : Type 0} (p : Tables Float × Answer)
    (q : ChannelStore Float × Answer) : Type 0 where
  matches : p.1 ≡ q.1 → Agrees k p.0 q.0 → Matches k p q

abbrev pub raised : Option ChannelError → Option StoreError
raised none = none
raised (some e) = some (sentinel e)

module _ (k : Columns) {Float : Type 0} where
  pub add_member-Matches :
      (joined now : ℕ) (t : Tables Float) (s : ChannelStore Float) (id user : String)
      → Agrees k t s
      → Matches k (Repository.add_member k joined now t id user) (Store.add_member now s id user)
  unfolding Repository.add_member Store.add_member
  add_member-Matches joined now t s id user g = elim (Option-cases (find s.channels id)) [
    | inl e ↦
        let e' : find t.channels id ≡ none = g.rows id ∙ ap (mapped (row_of k)) e in
        rw (Repository.add_member, Store.add_member, e, e') (matches refl g)
    | inr (ch, e) ↦
        let e' : find t.channels id ≡ some (row_of k ch) = g.rows id ∙ ap (mapped (row_of k)) e in
        let m : Membership = membership k user id joined in
        let there : exists t.user_channels id user ≡ contains (entry s.channel_users id) user =
          exists-contains t.user_channels id user ∙ ap (λ us. contains us user) (g.members id) in
        let full =
          full_test t.user_channels (entry s.channel_users id) m id ch.max_users refl
            (g.members id) in
        elim (Bool-cases (contains (entry s.channel_users id) user)) [
          | inl c ↦ rw (Repository.add_member, Store.add_member, e, e', there, c) (matches refl g)
          | inr c ↦ elim (Bool-cases (leb ch.max_users (length (entry s.channel_users id)))) [
            | inl l ↦
                rw (Repository.add_member, Store.add_member, e, e', there, c, full, l)
                  (matches refl g)
            | inr l ↦
                rw (Repository.add_member, Store.add_member, e, e', there, c, full, l)
                  (matches refl (joined-Agrees k joined now t s id user ch g e c))
          ]
        ]
  ]

  pub remove_member-Matches :
      (now : ℕ) (t : Tables Float) (s : ChannelStore Float) (id user : String)
      → Agrees k t s
      → Matches k
          (Repository.remove_member k (λ later. later) now t id user)
          (Store.remove_member now s id user)
  unfolding Repository.remove_member Repository.touch Store.remove_member
  remove_member-Matches now t s id user g =
      let there : exists t.user_channels id user ≡ contains (entry s.channel_users id) user =
        exists-contains t.user_channels id user ∙ ap (λ us. contains us user) (g.members id) in
      elim (Option-cases (find s.channels id)) [
        | inl e ↦
            let e' : find t.channels id ≡ none = g.rows id ∙ ap (mapped (row_of k)) e in
            let nobody : contains (entry s.channel_users id) user ≡ false =
              ap (λ us. contains us user) (g.empty id e) ∙ contains-nobody user in
            let kept : delete_membership t.user_channels id user ≡ t.user_channels =
              delete_membership-absent t.user_channels id user (there ∙ nobody) in
            rw (Repository.remove_member, Store.remove_member, there, nobody, e, e', kept)
              (matches refl g)
        | inr (ch, e) ↦
            let e' : find t.channels id ≡ some (row_of k ch) =
              g.rows id ∙ ap (mapped (row_of k)) e in
            elim (Bool-cases (contains (entry s.channel_users id) user)) [
              | inl c ↦
                  rw
                    (
                      Repository.remove_member, Store.remove_member, there, c, e, Repository.touch,
                      e', c,
                    )
                    (matches refl (left-Agrees k now t s id user ch g e))
              | inr c ↦
                  let kept : delete_membership t.user_channels id user ≡ t.user_channels =
                    delete_membership-absent t.user_channels id user (there ∙ c) in
                  rw (Repository.remove_member, Store.remove_member, there, e, e', c, kept)
                    (matches refl g)
            ]
      ]

  -- What UpdateChannel of the service does with a store once it has let the user through.
  abbrev pub renamed : String → String → ℕ → Channel Float → Channel Float
  renamed name description now ch = record ch {
    name = name;
    description = description;
    updated_at = now;
  }

  abbrev pub rename_rows :
      Float → Tables Float → String → String → String → ℕ → Tables Float × Option StoreError
  rename_rows zero_value t id name description now = elim (Repository.get_by_id zero_value t id) [
    | err e ↦ (t, some (sentinel e))
    | ok ch ↦ Repository.update k t (renamed name description now ch)
  ]

  abbrev pub rename :
      ChannelStore Float → String → String → String → ℕ → ChannelStore Float × Option StoreError
  rename s id name description now = elim (Store.get_by_id s id) [
    | err e ↦ (s, some (sentinel e))
    | ok ch ↦ let (s', e) = Store.update s (renamed name description now ch) in (s', raised e)
  ]

  rename_rows-some :
      (zero_value : Float) (t : Tables Float) (id name description : String) (now : ℕ)
      (row : Row Float)
      → find t.channels id ≡ some row
      → k.fits_100 name ≡ true
      → rename_rows zero_value t id name description now ≡ (
        record t {
          channels =
              put t.channels id (record row {
                name = name;
                description = description;
                updated_at = k.timestamp now;
              });
        },
        none,
      )
  unfolding Repository.get_by_id Repository.update scan_channel
  rename_rows-some zero_value t id name description now row e fits =
      rw (rename_rows, Repository.get_by_id, e) (rw (Repository.update, e, fits) refl)

  update-some :
      (s : ChannelStore Float) (id : String) (new old : Channel Float)
      → new.id ≡ id
      → find s.channels id ≡ some old
      → Store.update s new ≡ (record s { channels = put s.channels id new }, none)
  unfolding Store.update
  update-some s id new old i e =
      let found : find s.channels new.id ≡ some old = ap (find s.channels) i ∙ e in
      let made : Store.update s new ≡ (record s { channels = put s.channels new.id new }, none) =
        rw (Store.update, found) refl in
      made ∙ ap (λ k. (record s { channels = put s.channels k new }, none)) i

  rename-some :
      (s : ChannelStore Float) (id name description : String) (now : ℕ) (ch : Channel Float)
      → find s.channels id ≡ some ch
      → ch.id ≡ id
      → rename s id name description now ≡ (
        record s {
          channels =
              put s.channels id
                (renamed name description now (counted ch (entry s.channel_users id)));
        },
        none,
      )
  unfolding Store.get_by_id counted
  rename-some s id name description now ch e i =
      let new : Channel Float =
        renamed name description now (counted ch (entry s.channel_users id)) in
      rw (rename, Store.get_by_id, e) (ap (λ x. (x.0, raised x.1)) (update-some s id new ch i e))

  pub rename-Matches :
      (zero_value : Float) (t : Tables Float) (s : ChannelStore Float)
      (id name description : String) (now : ℕ)
      → Agrees k t s
      → k.fits_100 name ≡ true
      → Matches k
          (rename_rows zero_value t id name description now)
          (rename s id name description now)
  unfolding Repository.get_by_id Store.get_by_id counted
  rename-Matches zero_value t s id name description now g fits =
      elim (Option-cases (find s.channels id)) [
        | inl e ↦
            let e' : find t.channels id ≡ none = g.rows id ∙ ap (mapped (row_of k)) e in
            rw (rename_rows, rename, Repository.get_by_id, Store.get_by_id, e, e') (matches refl g)
        | inr (ch, e) ↦
            let e' : find t.channels id ≡ some (row_of k ch) =
              g.rows id ∙ ap (mapped (row_of k)) e in
            let p = rename_rows-some zero_value t id name description now (row_of k ch) e' fits in
            let q = rename-some s id name description now ch e (g.ids id ch e) in
            let ch' : Channel Float =
              renamed name description now (counted ch (entry s.channel_users id)) in
            let agree : Agrees k (record t { channels = put t.channels id (row_of k ch') })
                (record s { channels = put s.channels id ch' }) =
              record {
                rows = put-rows k t.channels s.channels id ch' g.rows;
                ids = put-ids k s.channels id ch' (g.ids id ch e) g.ids;
                members = g.members;
                distinct = g.distinct;
                empty = λ other. elim (Bool-cases (id == other)) [
                  | inl f ↦ rw (find-put, f) (λ h. cc)
                  | inr f ↦ rw (find-put, f) (g.empty other)
                ];
                listed = λ other. elim (Bool-cases (id == other)) [
                  | inl f ↦
                      rw (find-put, f)
                        (sym (ap (λ x. is_some x) e)
                          ∙ g.listed id
                          ∙ ap (λ x. is_some (find s.channel_users x)) ((eq_iff id other).0 f))
                  | inr f ↦ rw (find-put, f) (g.listed other)
                ];
              } in
            subst (λ x. Matches k x (rename s id name description now)) (sym p)
              (subst
                (λ y. Matches k (record t { channels = put t.channels id (row_of k ch') }, none) y)
                (sym q) (matches refl agree))
      ]

  pub delete_channel-Matches :
      (t : Tables Float) (s : ChannelStore Float) (id : String)
      → Agrees k t s
      → Matches k (Repository.delete_channel t id) (Store.delete_channel s id)
  unfolding Repository.delete_channel Store.delete_channel
  delete_channel-Matches t s id g = elim (Option-cases (find s.channels id)) [
    | inl e ↦
        let e' : find t.channels id ≡ none = g.rows id ∙ ap (mapped (row_of k)) e in
        rw (Repository.delete_channel, Store.delete_channel, e, e') (matches refl g)
    | inr (ch, e) ↦
        let e' : find t.channels id ≡ some (row_of k ch) = g.rows id ∙ ap (mapped (row_of k)) e in
        rw (Repository.delete_channel, Store.delete_channel, e, e')
          (matches refl (deleted-Agrees k t s id g))
  ]

  pub create-Matches :
      (t : Tables Float) (s : ChannelStore Float) (ch : Channel Float)
      → Agrees k t s
      → find t.channels ch.id ≡ none
      → k.fits_100 ch.name ≡ true
      → Matches k (Repository.create k t ch) (Store.create s ch, none)
  unfolding Repository.create Store.create
  create-Matches t s ch g e fits = elim (Option-cases (find s.channels ch.id)) [
    | inl f ↦ rw (Repository.create, e, fits) (matches refl (created-Agrees k t s ch g f))
    | inr (old, f) ↦
        let taken : find t.channels ch.id ≡ some (row_of k old) =
          g.rows ch.id ∙ ap (mapped (row_of k)) f in
        cc
  ]
