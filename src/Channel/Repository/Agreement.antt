-- ===== src/Channel/Repository/Agreement.antt =====
-- When the tables of backend/internal/channel/repository.go and the maps of memory_store.go hold the
-- same, and how each write keeps them so.
use trabalho_radio_px.Prelude.{
  ℕ, String, ◌≡◌, refl, ap, sym, ◌∙◌, subst, Bool, true, false, ◌==◌, eq_iff, Option, none, some,
  List, [], ◌∷◌, ◌++◌, if◌then◌else◌, Bool-cases, inl, inr,
}
use trabalho_radio_px.Prelude.Map.{
  Map, find, put, delete, entry, find-put, find-delete, entry-put, entry-delete,
}
use trabalho_radio_px.Prelude.Sets.{
  String_comparable, contains, remove, IsDistinct, append-IsDistinct, remove-IsDistinct,
}
use trabalho_radio_px.Channel.{Channel}
use trabalho_radio_px.Channel.Store
use trabalho_radio_px.Channel.Store.{ChannelStore, remove_first, counted, store_members}
use trabalho_radio_px.Channel.Repository.{
  Columns, Tables, Row, Membership, membership, row_of, touched, delete_membership, cascade,
}
use trabalho_radio_px.Channel.Repository.Rows.{
  users_of, users_of-append, users_of-delete_membership, users_of-cascade, remove_first-remove,
}

abbrev pub mapped : {A B : Type 0} → (A → B) → Option A → Option B
mapped f none = none
mapped f (some x) = some (f x)

abbrev pub is_some : {A : Type 0} → Option A → Bool
is_some none = false
is_some (some x) = true

mapped-if :
    {A B : Type 0} (f : A → B) (b : Bool) (x y : Option A)
    → mapped f (if b then x else y) ≡ (if b then mapped f x else mapped f y)
mapped-if f true x y = refl
mapped-if f false x y = refl

-- The tables and the maps hold the same channels, each under its identifier, with the same distinct
-- members in the same order; the counts that the maps keep with a channel are left aside.
pub record Agrees (k : Columns) {Float : Type 0} (t : Tables Float) (s : ChannelStore Float)
    : Type 0 where
  pub rows : (id : String) → find t.channels id ≡ mapped (row_of k) (find s.channels id)
  pub ids : (id : String) (ch : Channel Float) → find s.channels id ≡ some ch → ch.id ≡ id
  pub members : (id : String) → users_of t.user_channels id ≡ entry s.channel_users id
  pub distinct : (id : String) → IsDistinct (entry s.channel_users id)
  pub empty : (id : String) → find s.channels id ≡ none → entry s.channel_users id ≡ []
  pub listed : (id : String) → is_some (find s.channels id) ≡ is_some (find s.channel_users id)

put-members :
    (ms : List Membership) (s : Map (List String)) (id user : String) (joined : ℕ)
    → ((other : String) → users_of ms other ≡ entry s other)
    → (other : String)
    → users_of (ms ++ record { user_id = user; channel_id = id; joined_at = joined } ∷ []) other
      ≡ entry (put s id (entry s id ++ user ∷ [])) other
put-members ms s id user joined members other = elim (Bool-cases (id == other)) [
  | inl e ↦
      rw (users_of-append, entry-put, e)
        (ap (λ us. us ++ user ∷ []) (ap (users_of ms) (sym ((eq_iff id other).0 e)) ∙ members id))
  | inr e ↦ rw (users_of-append, entry-put, e) (members other)
]

put-IsDistinct :
    (s : Map (List String)) (id : String) (us : List String)
    → IsDistinct us
    → ((other : String) → IsDistinct (entry s other))
    → (other : String) → IsDistinct (entry (put s id us) other)
put-IsDistinct s id us d distinct other = elim (Bool-cases (id == other)) [
  | inl e ↦ rw (entry-put, e) d
  | inr e ↦ rw (entry-put, e) (distinct other)
]

delete-members :
    (ms : List Membership) (s : Map (List String)) (id user : String)
    → IsDistinct (entry s id)
    → ((other : String) → users_of ms other ≡ entry s other)
    → (other : String)
    → users_of (delete_membership ms id user) other
      ≡ entry (put s id (remove_first (entry s id) user)) other
delete-members ms s id user d members other =
    let gone = remove_first-remove (entry s id) user d in
    elim (Bool-cases (id == other)) [
      | inl e ↦
          rw (users_of-delete_membership, entry-put, e)
            (ap (λ us. remove us user) (members id) ∙ sym gone)
      | inr e ↦ rw (users_of-delete_membership, entry-put, e) (members other)
    ]

pub contains-nobody : (user : String) → contains [] user ≡ false
unfolding contains
contains-nobody user = refl

module _ (k : Columns) {Float : Type 0} where
  pub put-rows :
      (t : Map (Row Float)) (s : Map (Channel Float)) (id : String) (ch : Channel Float)
      → ((other : String) → find t other ≡ mapped (row_of k) (find s other))
      → (other : String)
      → find (put t id (row_of k ch)) other ≡ mapped (row_of k) (find (put s id ch) other)
  put-rows t s id ch rows other = elim (Bool-cases (id == other)) [
    | inl e ↦ rw (find-put, find-put, e) refl
    | inr e ↦ rw (find-put, find-put, e) (rows other)
  ]

  pub put-ids :
      (s : Map (Channel Float)) (id : String) (ch : Channel Float)
      → ch.id ≡ id
      → ((other : String) (c : Channel Float) → find s other ≡ some c → c.id ≡ other)
      → (other : String) (c : Channel Float) → find (put s id ch) other ≡ some c
      → c.id ≡ other
  put-ids s id ch i ids other c = elim (Bool-cases (id == other)) [
    | inl e ↦
        rw (find-put, e)
          (λ h. let p : ch ≡ c = cc in ap (λ x. x.id) (sym p) ∙ i ∙ (eq_iff id other).0 e)
    | inr e ↦ rw (find-put, e) (ids other c)
  ]

  put-empty :
      (m : Map (Channel Float)) (s : Map (List String)) (id : String) (ch : Channel Float)
      (us : List String)
      → ((other : String) → find m other ≡ none → entry s other ≡ [])
      → (other : String) → find (put m id ch) other ≡ none
      → entry (put s id us) other ≡ []
  put-empty m s id ch us empty other = elim (Bool-cases (id == other)) [
    | inl e ↦ rw (find-put, e) (λ h. cc)
    | inr e ↦ rw (find-put, entry-put, e) (empty other)
  ]

  put-listed :
      (m : Map (Channel Float)) (s : Map (List String)) (id : String) (ch : Channel Float)
      (us : List String)
      → ((other : String) → is_some (find m other) ≡ is_some (find s other))
      → (other : String) → is_some (find (put m id ch) other) ≡ is_some (find (put s id us) other)
  put-listed m s id ch us listed other = elim (Bool-cases (id == other)) [
    | inl e ↦ rw (find-put, find-put, e) refl
    | inr e ↦ rw (find-put, find-put, e) (listed other)
  ]

  -- Joining: the user comes last.
  pub joined-Agrees :
      (joined now : ℕ) (t : Tables Float) (s : ChannelStore Float) (id user : String)
      (ch : Channel Float)
      → Agrees k t s
      → find s.channels id ≡ some ch
      → contains (entry s.channel_users id) user ≡ false
      → Agrees k
          (record {
            channels = put t.channels id (touched k now (row_of k ch));
            user_channels = t.user_channels ++ membership k user id joined ∷ [];
          })
          (store_members now s id ch (entry s.channel_users id ++ user ∷ []))
  unfolding touched store_members counted
  joined-Agrees joined now t s id user ch g e new =
      let us = entry s.channel_users id ++ user ∷ [] in
      let ch' : Channel Float = record (counted ch us) { updated_at = now } in
      record {
        rows = put-rows t.channels s.channels id ch' g.rows;
        ids = put-ids s.channels id ch' (g.ids id ch e) g.ids;
        members =
            put-members t.user_channels s.channel_users id user (k.timestamp joined) g.members;
        distinct =
            put-IsDistinct s.channel_users id us
              (append-IsDistinct (entry s.channel_users id) user new (g.distinct id)) g.distinct;
        empty = put-empty s.channels s.channel_users id ch' us g.empty;
        listed = put-listed s.channels s.channel_users id ch' us g.listed;
      }

  pub left-Agrees :
      (now : ℕ) (t : Tables Float) (s : ChannelStore Float) (id user : String) (ch : Channel Float)
      → Agrees k t s
      → find s.channels id ≡ some ch
      → Agrees k
          (record {
            channels = put t.channels id (touched k now (row_of k ch));
            user_channels = delete_membership t.user_channels id user;
          })
          (store_members now s id ch (remove_first (entry s.channel_users id) user))
  unfolding touched store_members counted
  left-Agrees now t s id user ch g e =
      let us = remove_first (entry s.channel_users id) user in
      let ch' : Channel Float = record (counted ch us) { updated_at = now } in
      record {
        rows = put-rows t.channels s.channels id ch' g.rows;
        ids = put-ids s.channels id ch' (g.ids id ch e) g.ids;
        members = delete-members t.user_channels s.channel_users id user (g.distinct id) g.members;
        distinct =
            put-IsDistinct s.channel_users id us
              (subst IsDistinct
                (sym (remove_first-remove (entry s.channel_users id) user (g.distinct id)))
                (remove-IsDistinct (entry s.channel_users id) user (g.distinct id)))
              g.distinct;
        empty = put-empty s.channels s.channel_users id ch' us g.empty;
        listed = put-listed s.channels s.channel_users id ch' us g.listed;
      }

  pub deleted-Agrees :
      (t : Tables Float) (s : ChannelStore Float) (id : String)
      → Agrees k t s
      → Agrees k
          (record { channels = delete t.channels id; user_channels = cascade t.user_channels id })
          (record { channels = delete s.channels id; channel_users = delete s.channel_users id })
  deleted-Agrees t s id g = record {
    rows = λ other. elim (Bool-cases (id == other)) [
      | inl e ↦ rw (find-delete, find-delete, e) refl
      | inr e ↦ rw (find-delete, find-delete, e) (g.rows other)
    ];
    ids = λ other c. elim (Bool-cases (id == other)) [
      | inl e ↦ rw (find-delete, e) (λ h. cc)
      | inr e ↦ rw (find-delete, e) (g.ids other c)
    ];
    members = λ other. elim (Bool-cases (id == other)) [
      | inl e ↦ rw (users_of-cascade, entry-delete, e) refl
      | inr e ↦ rw (users_of-cascade, entry-delete, e) (g.members other)
    ];
    distinct = λ other. elim (Bool-cases (id == other)) [
      | inl e ↦ rw (entry-delete, e) tt
      | inr e ↦ rw (entry-delete, e) (g.distinct other)
    ];
    empty = λ other. elim (Bool-cases (id == other)) [
      | inl e ↦ rw (entry-delete, e) (λ h. refl)
      | inr e ↦ rw (find-delete, entry-delete, e) (g.empty other)
    ];
    listed = λ other. elim (Bool-cases (id == other)) [
      | inl e ↦ rw (find-delete, find-delete, e) refl
      | inr e ↦ rw (find-delete, find-delete, e) (g.listed other)
    ];
  }

  pub created-Agrees :
      (t : Tables Float) (s : ChannelStore Float) (ch : Channel Float)
      → Agrees k t s
      → find s.channels ch.id ≡ none
      → Agrees k
          (record {
            channels = put t.channels ch.id (row_of k ch);
            user_channels = t.user_channels ++ membership k ch.created_by ch.id ch.created_at ∷ [];
          })
          (Store.create s ch)
  unfolding Store.create
  created-Agrees t s ch g e =
      let alone : entry s.channel_users ch.id ++ ch.created_by ∷ [] ≡ ch.created_by ∷ [] =
        ap (λ us. us ++ ch.created_by ∷ []) (g.empty ch.id e) in
      record {
        rows = put-rows t.channels s.channels ch.id ch g.rows;
        ids = put-ids s.channels ch.id ch refl g.ids;
        members = λ other.
            put-members t.user_channels s.channel_users ch.id ch.created_by
              (k.timestamp ch.created_at) g.members other
            ∙ ap (λ us. entry (put s.channel_users ch.id us) other) alone;
        distinct =
            put-IsDistinct s.channel_users ch.id (ch.created_by ∷ [])
              (contains-nobody ch.created_by, tt) g.distinct;
        empty = put-empty s.channels s.channel_users ch.id ch (ch.created_by ∷ []) g.empty;
        listed = put-listed s.channels s.channel_users ch.id ch (ch.created_by ∷ []) g.listed;
      }
