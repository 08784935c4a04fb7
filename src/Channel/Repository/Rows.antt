-- ===== src/Channel/Repository/Rows.antt =====
-- The memberships of a channel in the table user_channels, as the list of its users.
use trabalho_radio_px.Prelude.{
  ℕ, suc, false, ◌||◌, String, ◌≡◌, refl, ap, sym, ◌∙◌, true, ◌==◌, eq_iff, arith, List, [], ◌∷◌,
  ◌++◌, length, length-append, ◌+◌, ltb, leb, if◌then◌else◌, Bool-cases, inl, inr,
}
use trabalho_radio_px.Prelude.Sets.{String_comparable, contains, remove, IsDistinct, remove-not_in}
use trabalho_radio_px.Channel.Store.{remove_first}
use trabalho_radio_px.Channel.Repository.{
  Membership, where_channel, exists, delete_membership, cascade, user_ids, insert_by_joined,
  order_by_joined,
}

-- The users in a channel, in the order of the rows.
abbrev pub users_of : List Membership → String → List String
users_of ms id = user_ids (where_channel ms id)

pub users_of-append :
    (ms : List Membership) (m : Membership) (id : String)
    → users_of (ms ++ m ∷ []) id
      ≡ (if m.channel_id == id then users_of ms id ++ m.user_id ∷ [] else users_of ms id)
unfolding where_channel user_ids
users_of-append [] m id = ground arith
users_of-append (n ∷ ms) m id = ground (arith, users_of-append ms m id)

pub exists-contains :
    (ms : List Membership) (id user : String) → exists ms id user ≡ contains (users_of ms id) user
unfolding where_channel user_ids exists contains
exists-contains [] id user = refl
exists-contains (m ∷ ms) id user = ground (arith, exists-contains ms id user)

pub length-where_channel :
    (ms : List Membership) (id : String) → length (where_channel ms id) ≡ length (users_of ms id)
unfolding where_channel user_ids
length-where_channel [] id = refl
length-where_channel (m ∷ ms) id = ground (arith, length-where_channel ms id)

pub users_of-delete_membership :
    (ms : List Membership) (id user other : String)
    → users_of (delete_membership ms id user) other
      ≡ (if id == other then remove (users_of ms id) user else users_of ms other)
unfolding where_channel user_ids delete_membership remove
users_of-delete_membership [] id user other = ground arith
users_of-delete_membership (m ∷ ms) id user other = ground (
  arith,
  eq_iff id other,
  eq_iff m.channel_id id,
  eq_iff m.channel_id other,
  users_of-delete_membership ms id user other,
)

pub delete_membership-absent :
    (ms : List Membership) (id user : String)
    → exists ms id user ≡ false
    → delete_membership ms id user ≡ ms
unfolding exists delete_membership
delete_membership-absent [] id user h = refl
delete_membership-absent (m ∷ ms) id user h = ground (arith, delete_membership-absent ms id user)

-- The clause ORDER BY changes neither who is in a list nor how many are.
insert_by_joined-contains :
    (m : Membership) (ms : List Membership) (user : String)
    → contains (user_ids (insert_by_joined m ms)) user ≡ contains (user_ids (m ∷ ms)) user
unfolding insert_by_joined user_ids contains
insert_by_joined-contains m [] user = refl
insert_by_joined-contains m (n ∷ ns) user = ground (arith, insert_by_joined-contains m ns user)

pub order_by_joined-contains :
    (ms : List Membership) (user : String)
    → contains (user_ids (order_by_joined ms)) user ≡ contains (user_ids ms) user
unfolding order_by_joined user_ids contains
order_by_joined-contains [] user = refl
order_by_joined-contains (m ∷ ms) user =
    insert_by_joined-contains m (order_by_joined ms) user
    ∙ ap (λ b. m.user_id == user || b) (order_by_joined-contains ms user)

insert_by_joined-length :
    (m : Membership) (ms : List Membership)
    → length (user_ids (insert_by_joined m ms)) ≡ suc (length (user_ids ms))
unfolding insert_by_joined user_ids
insert_by_joined-length m [] = refl
insert_by_joined-length m (n ∷ ns) = ground (arith, insert_by_joined-length m ns)

pub order_by_joined-length :
    (ms : List Membership) → length (user_ids (order_by_joined ms)) ≡ length (user_ids ms)
unfolding order_by_joined user_ids
order_by_joined-length [] = refl
order_by_joined-length (m ∷ ms) =
    insert_by_joined-length m (order_by_joined ms) ∙ ap suc (order_by_joined-length ms)

pub users_of-cascade :
    (ms : List Membership) (id other : String)
    → users_of (cascade ms id) other ≡ (if id == other then [] else users_of ms other)
unfolding where_channel user_ids cascade
users_of-cascade [] id other = ground arith
users_of-cascade (m ∷ ms) id other = ground (
  arith,
  eq_iff id other,
  eq_iff m.channel_id id,
  eq_iff m.channel_id other,
  users_of-cascade ms id other,
)

-- Of distinct users, the first place of one is the only one.
pub remove_first-remove :
    (us : List String) (user : String) → IsDistinct us → remove_first us user ≡ remove us user
unfolding remove_first remove contains
remove_first-remove [] user d = refl
remove_first-remove (u ∷ us) user d = elim (Bool-cases (u == user)) [
  | inl e ↦ rw e (sym (remove-not_in us user (ap (contains us) (sym ((eq_iff u user).0 e)) ∙ d.0)))
  | inr e ↦ rw e (ap (λ x. u ∷ x) (remove_first-remove us user d.1))
]

-- Whether one user more is too many for a channel.
pub full_test :
    (ms : List Membership) (us : List String) (m : Membership) (id : String) (max : ℕ)
    → m.channel_id ≡ id
    → users_of ms id ≡ us
    → ltb max (length (where_channel (ms ++ m ∷ []) id)) ≡ leb max (length us)
full_test ms us m id max c h =
    let same : (m.channel_id == id) ≡ true = (eq_iff m.channel_id id).1 c in
    let users : users_of (ms ++ m ∷ []) id ≡ us ++ m.user_id ∷ [] =
      users_of-append ms m id ∙ rw same (ap (λ x. x ++ m.user_id ∷ []) h) in
    let counted : length (where_channel (ms ++ m ∷ []) id) ≡ length us + 1 =
      length-where_channel (ms ++ m ∷ []) id
      ∙ ap length users
      ∙ length-append us (m.user_id ∷ []) in
    rw counted (ground arith)
