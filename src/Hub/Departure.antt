-- ===== src/Hub/Departure.antt =====
-- backend/pkg/websocket/hub.go: joining, leaving and departing, as the rooms show them.
use trabalho_radio_px.Prelude.{
  ℕ, suc, String, ◌≡◌, ◌==◌, eq_iff, ap, true, false, not, ◌&&◌, Bool-cases, inl, inr, arith,
  length, nat_eq, if◌then◌else◌,
}
use trabalho_radio_px.Prelude.Sets.{
  ℕ_comparable, String_comparable, contains, nat_eq_iff, length-insert,
}
use trabalho_radio_px.Hub.{
  Hub, ok, forget_client, unregister, join_room, get_room_count, members_of,
}
use trabalho_radio_px.Hub.Rooms.{members-add, contains-drop_from_all}
use trabalho_radio_px.Hub.Coherence.{IsCoherent}

-- When a registered client with an open channel is unregistered in a coherent hub, there is no
-- panic, the client is in no room any more, and every other client is in the rooms in which it
-- was.
pub unregister_rooms :
    (h : Hub) (c : ℕ) (room : String) (d : ℕ)
    → IsCoherent h
    → contains h.clients c ≡ true
    → (h.heap c).closed ≡ false
    → (h' : Hub) × (unregister h c ≡ ok h')
      × (contains (members_of h'.rooms room) d
          ≡ (contains (members_of h.rooms room) d && not (nat_eq c d)))
unfolding unregister
unregister_rooms h c room d v r o = (forget_client h c, ground arith, gone)
  where
    gone :
        contains (members_of (forget_client h c).rooms room) d
        ≡ (contains (members_of h.rooms room) d && not (nat_eq c d))
    gone = elim (Bool-cases (nat_eq c d)) [
      | inl same ↦ ground (
        arith,
        contains-drop_from_all (h.heap c).rooms h.rooms c room d,
        v.listed room d,
        ap (λ k. contains (h.heap k).rooms room) ((nat_eq_iff c d).0 same),
      )
      | inr differ ↦ ground (arith, contains-drop_from_all (h.heap c).rooms h.rooms c room d)
    ]

get_room_count-members :
    (h : Hub) (room : String) → get_room_count h room ≡ length (members_of h.rooms room)
unfolding get_room_count members_of
get_room_count-members h room = ground arith

-- Joining counts the client in the room, once, and no other room's count changes.
join_room-get_room_count :
    (h : Hub) (c : ℕ) (room other : String)
    → get_room_count (join_room h c room) other ≡ (
        if room == other && not (contains (members_of h.rooms room) c)
        then suc (get_room_count h other)
        else get_room_count h other)
unfolding join_room
join_room-get_room_count h c room other =
    rw (get_room_count-members, get_room_count-members)
      (rw members-add (elim (Bool-cases (room == other)) [
        | inl e ↦ rw (e, (eq_iff room other).0 e, length-insert) (ground arith)
        | inr e ↦ rw e
      ]))
