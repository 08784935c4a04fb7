-- ===== src/Hub/Coherence.antt =====
-- backend/pkg/websocket/hub.go: the hub's rooms and the clients' own room sets, after any events.
use trabalho_radio_px.Prelude.{
  ℕ, String, ◌≡◌, ◌==◌, ap, ◌∙◌, refl, Bool, true, false, not, ◌&&◌, ◌||◌, Bool-cases, Option-cases,
  inl, inr, List, [], ◌∷◌, arith, nat_eq, if◌then◌else◌,
}
use trabalho_radio_px.Prelude.Map.{Map, find}
use trabalho_radio_px.Prelude.Sets.{
  ℕ_comparable, String_comparable, contains, insert, remove, IsDistinct, nat_eq_iff,
  contains-insert, contains-remove, insert-IsDistinct, remove-IsDistinct,
}
use trabalho_radio_px.Hub.{
  Endpoint, Hub, Message, Outcome, Event, registers, unregisters, broadcasts, joins, leaves, ok,
  panicked, update, drop_member, drop_from_all, register, forget_client, unregister, is_sender,
  has_room, send_to, drop_client, deliver, broadcast, join_room, leave_room, members_of, step,
  run_from, new_hub,
}
use trabalho_radio_px.Hub.Rooms.{
  members-drop, members-add, members-forget, contains-forget, contains-add, contains-drop,
  contains-drop_from_all,
}

-- A room lists a client once, and only one that lists the room.
pub record IsCoherent (h : Hub) : Type 0 where
  pub distinct : (room : String) → IsDistinct (members_of h.rooms room)
  pub listed :
      (room : String) (c : ℕ)
      → contains (members_of h.rooms room) c ≡ true
      → contains (h.heap c).rooms room ≡ true

abbrev pub CoherentAfter : Outcome → Type 0
CoherentAfter (ok h) = IsCoherent h
CoherentAfter panicked = Unit

-- A change of one client's entry that keeps its rooms is not seen.
listed-update :
    (heap : ℕ → Endpoint) (c : ℕ) (x : Endpoint) (room : String) (d : ℕ)
    → x.rooms ≡ (heap c).rooms
    → contains (heap d).rooms room ≡ true
    → contains (update heap c x d).rooms room ≡ true
unfolding update
listed-update heap c x room d e h = elim (Bool-cases (nat_eq c d)) [
  | inl same ↦
      rw same
        (ap (λ rs. contains rs room) (e ∙ ap (λ k. (heap k).rooms) ((nat_eq_iff c d).0 same)) ∙ h)
  | inr differ ↦ rw differ h
]

send_to-IsCoherent : (h : Hub) (m : Message) (c : ℕ) → IsCoherent h → IsCoherent (send_to h m c)
unfolding send_to
send_to-IsCoherent h m c v = record {
  distinct = v.distinct;
  listed = λ room d i. listed-update h.heap c _ room d refl (v.listed room d i);
}

drop_client-IsCoherent :
    (h : Hub) (m : Message) (c : ℕ) → IsCoherent h → IsCoherent (drop_client h m c)
unfolding drop_client
drop_client-IsCoherent h m c v = record {
  distinct = λ room. rw members-forget (elim (Bool-cases (m.room == room)) [
    | inl e ↦ rw e (remove-IsDistinct (members_of h.rooms m.room) c (v.distinct m.room))
    | inr e ↦ rw e (v.distinct room)
  ]);
  listed = λ room d i.
      listed-update h.heap c _ room d refl
        (v.listed room d (ground (arith, contains-forget h.rooms c m.room room d)));
}

join_room-IsCoherent :
    (h : Hub) (c : ℕ) (room : String) → IsCoherent h → IsCoherent (join_room h c room)
unfolding join_room
join_room-IsCoherent h c room v = record {
  distinct = λ r. rw members-add (elim (Bool-cases (room == r)) [
    | inl e ↦ rw e (insert-IsDistinct (members_of h.rooms room) c (v.distinct room))
    | inr e ↦ rw e (v.distinct r)
  ]);
  listed = λ r d i. listed_there r d (rw contains-add at i);
}
  where
    listed_there :
        (r : String) (d : ℕ)
        → ((room == r && nat_eq c d) || contains (members_of h.rooms r) d) ≡ true
        → contains
            (update h.heap c (record (h.heap c) { rooms = insert (h.heap c).rooms room }) d).rooms
            r
          ≡ true
    listed_there r d i = elim (Bool-cases (nat_eq c d)) [
      | inl same ↦
          let e : c ≡ d = (nat_eq_iff c d).0 same in
          rw (update, same, contains-insert)
            (ground (arith, v.listed r d, ap (λ k. contains (h.heap k).rooms r) e))
      | inr differ ↦ rw (update, differ) (v.listed r d (ground arith))
    ]

leave_room-IsCoherent :
    (h : Hub) (c : ℕ) (room : String) → IsCoherent h → IsCoherent (leave_room h c room)
unfolding leave_room
leave_room-IsCoherent h c room v = record {
  distinct = λ r. rw members-drop (elim (Bool-cases (room == r)) [
    | inl e ↦ rw e (remove-IsDistinct (members_of h.rooms room) c (v.distinct room))
    | inr e ↦ rw e (v.distinct r)
  ]);
  listed = λ r d i. listed_there r d (rw contains-drop at i);
}
  where
    listed_there :
        (r : String) (d : ℕ)
        → (contains (members_of h.rooms r) d && not (room == r && nat_eq c d)) ≡ true
        → contains
            (update h.heap c (record (h.heap c) { rooms = remove (h.heap c).rooms room }) d).rooms
            r
          ≡ true
    listed_there r d i = elim (Bool-cases (nat_eq c d)) [
      | inl same ↦
          let e : c ≡ d = (nat_eq_iff c d).0 same in
          rw (update, same, contains-remove)
            (ground (arith, v.listed r d, ap (λ k. contains (h.heap k).rooms r) e))
      | inr differ ↦ rw (update, differ) (v.listed r d (ground arith))
    ]

drop_from_all-IsDistinct :
    (rs : List String) (rooms : Map (List ℕ)) (c : ℕ) (r : String)
    → ((room : String) → IsDistinct (members_of rooms room))
    → IsDistinct (members_of (drop_from_all rooms c rs) r)
unfolding drop_from_all
drop_from_all-IsDistinct [] rooms c r v = v r
drop_from_all-IsDistinct (room ∷ rs) rooms c r v =
    drop_from_all-IsDistinct rs (drop_member rooms c room) c r λ r'.
      rw members-drop (elim (Bool-cases (room == r')) [
        | inl e ↦ rw e (remove-IsDistinct (members_of rooms room) c (v room))
        | inr e ↦ rw e (v r')
      ])

CoherentAfter-if :
    (b : Bool) (x y : Outcome)
    → CoherentAfter x
    → CoherentAfter y
    → CoherentAfter (if b then x else y)
CoherentAfter-if true x y hx hy = hx
CoherentAfter-if false x y hx hy = hy

forget_client-IsCoherent : (h : Hub) (c : ℕ) → IsCoherent h → IsCoherent (forget_client h c)
unfolding forget_client
forget_client-IsCoherent h c v = record {
  distinct = λ r. drop_from_all-IsDistinct (h.heap c).rooms h.rooms c r v.distinct;
  listed = λ r d i.
      listed-update h.heap c _ r d refl
        (v.listed r d (ground (arith, contains-drop_from_all (h.heap c).rooms h.rooms c r d)));
}

unregister-IsCoherent : (h : Hub) (c : ℕ) → IsCoherent h → CoherentAfter (unregister h c)
unfolding unregister
unregister-IsCoherent h c v =
    CoherentAfter-if (contains h.clients c) _ _
      (CoherentAfter-if (h.heap c).closed panicked _ tt (forget_client-IsCoherent h c v)) v

deliver-IsCoherent :
    (m : Message) (cs : List ℕ) (h : Hub) → IsCoherent h → CoherentAfter (deliver h m cs)
unfolding deliver
deliver-IsCoherent m [] h v = v
deliver-IsCoherent m (c ∷ cs) h v =
    CoherentAfter-if (is_sender m c) _ _ (deliver-IsCoherent m cs h v) (
      CoherentAfter-if (h.heap c).closed panicked _ tt (
        CoherentAfter-if (has_room (h.heap c)) _ _
          (deliver-IsCoherent m cs (send_to h m c) (send_to-IsCoherent h m c v))
          (deliver-IsCoherent m cs (drop_client h m c) (drop_client-IsCoherent h m c v))))

broadcast-IsCoherent : (h : Hub) (m : Message) → IsCoherent h → CoherentAfter (broadcast h m)
unfolding broadcast
broadcast-IsCoherent h m v = elim (Option-cases (find h.rooms m.room)) [
  | inl e ↦ rw (e, broadcast) v
  | inr (cs, e) ↦ rw (e, broadcast) (deliver-IsCoherent m cs h v)
]

step-IsCoherent : (h : Hub) (e : Event) → IsCoherent h → CoherentAfter (step h e)
unfolding step register
step-IsCoherent h (registers c) v = record { distinct = v.distinct; listed = v.listed }
step-IsCoherent h (unregisters c) v = unregister-IsCoherent h c v
step-IsCoherent h (broadcasts m) v = broadcast-IsCoherent h m v
step-IsCoherent h (joins c room) v = join_room-IsCoherent h c room v
step-IsCoherent h (leaves c room) v = leave_room-IsCoherent h c room v

-- Any events that start in a coherent hub and end without a panic leave a coherent hub: a room
-- lists each client once, and only clients whose own set lists the room.
pub run_from-IsCoherent :
    (es : List Event) (r : Outcome) → CoherentAfter r → CoherentAfter (run_from r es)
unfolding run_from
run_from-IsCoherent [] (ok h) v = v
run_from-IsCoherent [] panicked v = tt
run_from-IsCoherent (e ∷ es) (ok h) v = run_from-IsCoherent es (step h e) (step-IsCoherent h e v)
run_from-IsCoherent (e ∷ es) panicked v = tt

pub new_hub-IsCoherent : (heap : ℕ → Endpoint) → IsCoherent (new_hub heap)
unfolding members_of find contains
new_hub-IsCoherent heap = record { distinct = λ room. tt; listed = λ room c h. cc }
