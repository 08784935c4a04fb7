-- ===== src/Channel/Repository/History.antt =====
-- Calls on the store over PostgreSQL and on the store in memory, one after another.
use trabalho_radio_px.Prelude.{ℕ, String, ◌≡◌, refl, ap, Bool, true, Option, none, List, [], ◌∷◌}
use trabalho_radio_px.Prelude.Map.{find, entry}
use trabalho_radio_px.Prelude.Sets.{String_comparable}
use trabalho_radio_px.Channel.{Channel, Result, ok}
use trabalho_radio_px.Channel.Store
use trabalho_radio_px.Channel.Store.{ChannelStore, new_store}
use trabalho_radio_px.Channel.Repository
use trabalho_radio_px.Channel.Repository.{
  Columns, StoreError, Tables, row_of, where_channel, user_ids,
}
use trabalho_radio_px.Channel.Repository.Rows.{users_of}
use trabalho_radio_px.Channel.Repository.Agreement.{mapped, is_some, Agrees}
use trabalho_radio_px.Channel.Repository.Refinement.{
  Matches, matches, raised, rename_rows, rename, create-Matches, add_member-Matches,
  remove_member-Matches, rename-Matches, delete_channel-Matches,
}
use trabalho_radio_px.Channel.Repository.Reads.{
  result_map, as_set, as_kept, get_by_id-same, is_member-same, list_members-same,
}

-- A call on the store, with the clock's readings: Create, AddMember, RemoveMember, the GetByID and
-- Update of the service's UpdateChannel, Delete, GetByID, IsMember and ListMembers.
pub data Call (Float : Type 0) : Type 0 where
  creates : Channel Float → Call Float
  joins : ℕ → ℕ → String → String → Call Float
  leaves : ℕ → String → String → Call Float
  renames : String → String → String → ℕ → Call Float
  deletes : String → Call Float
  gets : String → Call Float
  asks : String → String → Call Float
  lists : String → Call Float

pub data Answer (Float : Type 0) : Type 0 where
  done : Option StoreError → Answer Float
  channel : Result (Channel Float) → Answer Float
  membership : Result Bool → Answer Float
  members : Result ((String → Bool) × ℕ) → Answer Float

module _ (k : Columns) {Float : Type 0} where
  abbrev on_rows : Float → Tables Float → Call Float → Tables Float × Answer Float
  on_rows z t (creates ch) = let (t', e) = Repository.create k t ch in (t', done e)
  on_rows z t (joins joined now id user) =
      let (t', e) = Repository.add_member k joined now t id user in (t', done (raised e))
  on_rows z t (leaves now id user) =
      let (t', e) = Repository.remove_member k (λ later. later) now t id user in
      (t', done (raised e))
  on_rows z t (renames id name description now) =
      let (t', e) = rename_rows k z t id name description now in (t', done e)
  on_rows z t (deletes id) = let (t', e) = Repository.delete_channel t id in (t', done (raised e))
  on_rows z t (gets id) = (t, channel (Repository.get_by_id z t id))
  on_rows z t (asks id user) = (t, membership (ok (Repository.is_member t id user)))
  on_rows z t (lists id) =
      (t, members (result_map as_set (Repository.list_members (λ later. later) t id)))

  abbrev on_maps : Float → ChannelStore Float → Call Float → ChannelStore Float × Answer Float
  on_maps z s (creates ch) = (Store.create s ch, done none)
  on_maps z s (joins joined now id user) =
      let (s', e) = Store.add_member now s id user in (s', done (raised e))
  on_maps z s (leaves now id user) =
      let (s', e) = Store.remove_member now s id user in (s', done (raised e))
  on_maps z s (renames id name description now) =
      let (s', e) = rename k s id name description now in (s', done e)
  on_maps z s (deletes id) = let (s', e) = Store.delete_channel s id in (s', done (raised e))
  on_maps z s (gets id) = (s, channel (result_map (as_kept k z) (Store.get_by_id s id)))
  on_maps z s (asks id user) = (s, membership (Store.is_member s id user))
  on_maps z s (lists id) = (s, members (result_map as_set (Store.list_members s id)))

  -- The identifier of a new channel is not taken, which the service's random UUIDs are relied on for;
  -- a name fits into its column; and IsMember is asked of a channel that exists.
  abbrev Allowed : Tables Float → Call Float → Type 0
  Allowed t (creates ch) = (find t.channels ch.id ≡ none) × (k.fits_100 ch.name ≡ true)
  Allowed t (joins joined now id user) = Unit
  Allowed t (leaves now id user) = Unit
  Allowed t (renames id name description now) = k.fits_100 name ≡ true
  Allowed t (deletes id) = Unit
  Allowed t (gets id) = Unit
  Allowed t (asks id user) = is_some (find t.channels id) ≡ true
  Allowed t (lists id) = Unit

  answering :
      {A B : Type 0} (f : A → B) (p : Tables Float × A) (q : ChannelStore Float × A)
      → Matches k p q
      → Matches k (p.0, f p.1) (q.0, f q.1)
  answering f p q (matches answer agree) = matches (ap f answer) agree

  step-Matches :
      (z : Float) (t : Tables Float) (s : ChannelStore Float) (c : Call Float)
      → Allowed t c
      → Agrees k t s
      → Matches k (on_rows z t c) (on_maps z s c)
  step-Matches z t s (creates ch) allowed g =
      answering done _ _ (create-Matches k t s ch g allowed.0 allowed.1)
  step-Matches z t s (joins joined now id user) allowed g =
      answering (λ e. done (raised e)) _ _ (add_member-Matches k joined now t s id user g)
  step-Matches z t s (leaves now id user) allowed g =
      answering (λ e. done (raised e)) _ _ (remove_member-Matches k now t s id user g)
  step-Matches z t s (renames id name description now) allowed g =
      answering done _ _ (rename-Matches k z t s id name description now g allowed)
  step-Matches z t s (deletes id) allowed g =
      answering (λ e. done (raised e)) _ _ (delete_channel-Matches k t s id g)
  step-Matches z t s (gets id) allowed g = matches (ap channel (get_by_id-same k z t s id g)) g
  step-Matches z t s (asks id user) allowed g =
      matches (ap membership (is_member-same k z t s id g user allowed)) g
  step-Matches z t s (lists id) allowed g = matches (ap members (list_members-same k z t s id g)) g

  unfoldable pub run_rows :
      Float → Tables Float → List (Call Float) → Tables Float × List (Answer Float)
  run_rows z t [] = (t, [])
  run_rows z t (c ∷ cs) =
      let (t', answer) = on_rows z t c in
      let (end, answers) = run_rows z t' cs in (end, answer ∷ answers)

  unfoldable pub run_maps :
      Float → ChannelStore Float → List (Call Float) → ChannelStore Float × List (Answer Float)
  run_maps z s [] = (s, [])
  run_maps z s (c ∷ cs) =
      let (s', answer) = on_maps z s c in
      let (end, answers) = run_maps z s' cs in (end, answer ∷ answers)

  abbrev AllAllowed : Float → Tables Float → List (Call Float) → Type 0
  AllAllowed z t [] = Unit
  AllAllowed z t (c ∷ cs) = Allowed t c × AllAllowed z (on_rows z t c).0 cs

  run-Matches :
      (z : Float) (cs : List (Call Float)) (t : Tables Float) (s : ChannelStore Float)
      → AllAllowed z t cs
      → Agrees k t s
      → Matches k (run_rows z t cs) (run_maps z s cs)
  unfolding run_rows run_maps
  run-Matches z [] t s allowed g = matches refl g
  run-Matches z (c ∷ cs) t s allowed g = elim (step-Matches z t s c allowed.0 g) [
    | matches answer agree ↦
        elim (run-Matches z cs (on_rows z t c).0 (on_maps z s c).0 allowed.1 agree) [
          | matches answers end ↦ matches (λ i. answer i ∷ answers i) end
        ]
  ]

  abbrev pub new_tables : Tables Float
  new_tables = record { channels = []; user_channels = [] }

  new-Agrees : Agrees k new_tables new_store
  unfolding find where_channel user_ids entry
  new-Agrees = record {
    rows = λ id. refl;
    ids = λ id ch h. cc;
    members = λ id. refl;
    distinct = λ id. tt;
    empty = λ id h. refl;
    listed = λ id. refl;
  }

  -- From empty stores on, calls of Create, AddMember, RemoveMember, Delete, GetByID, IsMember,
  -- ListMembers, and of GetByID and Update as UpdateChannel makes them, one after another, get the
  -- same answers from the store over PostgreSQL and from the store in memory, and then both hold the
  -- same channels with the same members. This holds where no new channel has the identifier of
  -- another, names fit into their column, and IsMember is asked of channels that exist; times are
  -- compared as the columns give them back, and the members that ListMembers gives by who they are
  -- and how many.
  pub run_rows-run_maps :
      (zero_value : Float) (cs : List (Call Float))
      → AllAllowed zero_value new_tables cs
      → ((run_rows zero_value new_tables cs).1 ≡ (run_maps zero_value new_store cs).1)
        × ((id : String)
            → (find (run_rows zero_value new_tables cs).0.channels id
                ≡ mapped (row_of k) (find (run_maps zero_value new_store cs).0.channels id))
              × (users_of (run_rows zero_value new_tables cs).0.user_channels id
                  ≡ entry (run_maps zero_value new_store cs).0.channel_users id))
  run_rows-run_maps zero_value cs allowed =
      elim (run-Matches zero_value cs new_tables new_store allowed new-Agrees) [
        | matches answers g ↦ (answers, λ id. (g.rows id, g.members id))
      ]
