-- ===== src/Hub.antt =====
-- backend/pkg/websocket/hub.go: the clients, their rooms, and the broadcast of a message. A client
-- is a number, which stands for its pointer; `heap` holds what the pointers refer to. One case of
-- the select in Run, and one call of JoinRoom or LeaveRoom, is one step, as the lock and the one
-- goroutine of Run make it. A send on a closed channel and a second close are panics, which end the
-- process. The text that json.Marshal makes of a payload is the payload itself here.
pub mod Broadcast
pub mod Rooms
pub mod Crash
pub mod Coherence
pub mod Departure
use trabalho_radio_px.Prelude.{
  ℕ, String, Bool, true, false, Option, none, some, List, [], ◌∷◌, ◌++◌, length, ltb, nat_eq,
  if◌then◌else◌,
}
use trabalho_radio_px.Prelude.Int.{ℤ}
use trabalho_radio_px.Prelude.Map.{Map, find, put, delete}
use trabalho_radio_px.Prelude.Sets.{
  Comparable, ℕ_comparable, String_comparable, contains, insert, remove,
}

-- What client.go marshals: the audio field, whether the speaker holds the button, who speaks, the
-- sender's identifier, the sequence number with its time where it has one, and the replay mark.
pub record Payload : Type 0 where
  pub audio : String
  pub is_ptt : Bool
  pub user_id : Option String
  pub sender : String
  pub stamp : Option (ℤ × ℕ)
  pub is_replayed : Bool

pub record Message : Type 0 where
  pub room : String
  pub kind : String
  pub payload : Payload
  pub sender : Option ℕ

-- The part of a client that the hub touches: its buffered channel `send` and its rooms.
pub record Endpoint : Type 0 where
  pub queue : List Message
  pub closed : Bool
  pub rooms : List String

pub record Hub : Type 0 where
  pub clients : List ℕ
  pub rooms : Map (List ℕ)
  pub heap : ℕ → Endpoint

-- `make(chan Message, 256)`
abbrev pub capacity : ℕ
capacity = 256

pub data Outcome : Type 0 where
  ok : Hub → Outcome
  panicked : Outcome

abbrev pub new_hub : (ℕ → Endpoint) → Hub
new_hub heap = record { clients = []; rooms = []; heap = heap }

unfoldable pub update : (ℕ → Endpoint) → ℕ → Endpoint → ℕ → Endpoint
update heap c x d = if nat_eq c d then x else heap d

unfoldable pub register : Hub → ℕ → Hub
register h c = record h { clients = insert h.clients c }

-- Take a client out of a room, and the room out of the map where it is empty then.
unfoldable pub drop_member : Map (List ℕ) → ℕ → String → Map (List ℕ)
drop_member rooms c room = elim (find rooms room) [
  | none ↦ rooms
  | some members ↦ elim (remove members c) [
    | [] ↦ delete rooms room
    | x ∷ xs ↦ put rooms room (x ∷ xs)
  ]
]

unfoldable pub drop_from_all : Map (List ℕ) → ℕ → List String → Map (List ℕ)
unfolding drop_member
drop_from_all rooms c [] = rooms
drop_from_all rooms c (room ∷ rest) = drop_from_all (drop_member rooms c room) c rest

-- `close(client.send)`
unfoldable pub close : Endpoint → Endpoint
close x = record x { closed = true }

-- What the case does to a client that is registered, once its channel is closed.
unfoldable pub forget_client : Hub → ℕ → Hub
unfolding drop_from_all update close
forget_client h c = record {
  clients = remove h.clients c;
  rooms = drop_from_all h.rooms c (h.heap c).rooms;
  heap = update h.heap c (close (h.heap c));
}

unfoldable pub unregister : Hub → ℕ → Outcome
unfolding forget_client
unregister h c =
    if contains h.clients c
    then if (h.heap c).closed then panicked else ok (forget_client h c)
    else ok h

-- The message's sender is skipped.
unfoldable pub is_sender : Message → ℕ → Bool
is_sender m c = elim m.sender [ none ↦ false | some s ↦ nat_eq c s ]

unfoldable pub send : Endpoint → Message → Endpoint
send x m = record x { queue = x.queue ++ m ∷ [] }

abbrev pub has_room : Endpoint → Bool
has_room x = ltb (length x.queue) capacity

-- The map entry of a room whose slow member is dropped; the empty set stays in the map.
unfoldable pub forget_member : Map (List ℕ) → ℕ → String → Map (List ℕ)
forget_member rooms c room = elim (find rooms room) [
  | none ↦ rooms
  | some members ↦ put rooms room (remove members c)
]

-- `case client.send <- message`
unfoldable pub send_to : Hub → Message → ℕ → Hub
unfolding send update
send_to h m c = record h { heap = update h.heap c (send (h.heap c) m) }

-- The default case: the client's buffer is full.
unfoldable pub drop_client : Hub → Message → ℕ → Hub
unfolding close update forget_member
drop_client h m c = record h {
  rooms = forget_member h.rooms c m.room;
  heap = update h.heap c (close (h.heap c));
}

-- The loop over the members of the room, who are listed.
unfoldable pub deliver : Hub → Message → List ℕ → Outcome
unfolding is_sender send_to drop_client
deliver h m [] = ok h
deliver h m (c ∷ rest) =
    let skipped = deliver h m rest in
    let sent = deliver (send_to h m c) m rest in
    let dropped = deliver (drop_client h m c) m rest in
    if is_sender m c
    then skipped
    else if (h.heap c).closed
    then panicked
    else if has_room (h.heap c)
    then sent
    else dropped

unfoldable pub broadcast : Hub → Message → Outcome
unfolding deliver
broadcast h m = elim (find h.rooms m.room) [ none ↦ ok h | some members ↦ deliver h m members ]

-- `h.rooms[room][client] = true`, with the set made on first use.
unfoldable pub add_member : Map (List ℕ) → ℕ → String → Map (List ℕ)
add_member rooms c room = elim (find rooms room) [
  | none ↦ put rooms room (insert [] c)
  | some members ↦ put rooms room (insert members c)
]

unfoldable pub join_room : Hub → ℕ → String → Hub
unfolding add_member update
join_room h c room = record h {
  rooms = add_member h.rooms c room;
  heap = update h.heap c (record (h.heap c) { rooms = insert (h.heap c).rooms room });
}

unfoldable pub leave_room : Hub → ℕ → String → Hub
unfolding drop_member update
leave_room h c room = record h {
  rooms = drop_member h.rooms c room;
  heap = update h.heap c (record (h.heap c) { rooms = remove (h.heap c).rooms room });
}

unfoldable pub get_room_count : Hub → String → ℕ
get_room_count h room = elim (find h.rooms room) [ none ↦ 0 | some members ↦ length members ]

unfoldable pub get_client_count : Hub → ℕ
get_client_count h = length h.clients

unfoldable pub get_live_room_count : Hub → ℕ
get_live_room_count h = length h.rooms

-- Who is in a room; a room that is not in the map has nobody.
unfoldable pub members_of : Map (List ℕ) → String → List ℕ
members_of rooms room = elim (find rooms room) [ none ↦ [] | some members ↦ members ]

-- What reaches the hub: the three channels of Run, and the two calls from the clients' goroutines.
pub data Event : Type 0 where
  registers unregisters : ℕ → Event
  broadcasts : Message → Event
  joins leaves : ℕ → String → Event

unfoldable pub step : Hub → Event → Outcome
step h (registers c) = ok (register h c)
step h (unregisters c) = unregister h c
step h (broadcasts m) = broadcast h m
step h (joins c room) = ok (join_room h c room)
step h (leaves c room) = ok (leave_room h c room)

unfoldable pub run_from : Outcome → List Event → Outcome
run_from panicked es = panicked
run_from (ok h) [] = ok h
run_from (ok h) (e ∷ es) = run_from (step h e) es
