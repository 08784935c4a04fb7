-- ===== src/Tests/Rooms.antt =====
-- Inputs for the theorems about backend/pkg/websocket/hub.go.
use trabalho_radio_px.Prelude.{
  ℕ, zero, suc, ◌≡◌, false, not, ◌&&◌, none, some, List, [], ◌∷◌, if◌then◌else◌, refl, nat_eq,
}
use trabalho_radio_px.Prelude.Map.{find}
use trabalho_radio_px.Prelude.Sets.{ℕ_comparable, String_comparable, contains, insert}
use trabalho_radio_px.Hub.{
  Message, Endpoint, Hub, ok, panicked, new_hub, unregister, broadcast, join_room, members_of,
  registers, broadcasts, joins, run_from, Event, is_sender, deliver, send_to, drop_client, step,
  register, update,
}
use trabalho_radio_px.Hub.Broadcast.{Delivered, broadcast_lem}
use trabalho_radio_px.Hub.Crash.{closed_member_broadcast, slow_client_unregister}
use trabalho_radio_px.Hub.Coherence.{
  IsCoherent, CoherentAfter, run_from-IsCoherent, new_hub-IsCoherent,
}
use trabalho_radio_px.Hub.Departure.{unregister_rooms}

abbrev greeting : Message
greeting = record {
  room = "c1";
  kind = "text";
  payload = record {
    audio = "";
    is_ptt = false;
    user_id = none;
    sender = "ana";
    stamp = none;
    is_replayed = false;
  };
  sender = some 1;
}

abbrev repeated : ℕ → List Message
repeated zero = []
repeated (suc n) = greeting ∷ repeated n

-- Client 2's channel holds 256 messages, and client 3's is closed.
abbrev endpoints : ℕ → Endpoint
endpoints c = record {
  queue = if nat_eq c 2 then repeated 256 else [];
  closed = nat_eq c 3;
  rooms = "c1" ∷ [];
}

abbrev hub : Hub
hub = record {
  clients = 1 ∷ 2 ∷ [];
  rooms = ("c1", 1 ∷ 2 ∷ 4 ∷ []) ∷ ("c2", 3 ∷ []) ∷ [];
  heap = endpoints;
}

broadcast_example : Delivered hub greeting (members_of hub.rooms "c1") (broadcast hub greeting)
unfolding members_of find contains
broadcast_example =
    broadcast_lem hub greeting (refl, (refl, (refl, tt))) (λ h. refl, (λ h. refl, (λ h. refl, tt)))

abbrev whisper : Message
whisper = record greeting { room = "c2" }

closed_member_broadcast_example : broadcast hub whisper ≡ panicked
unfolding members_of find contains is_sender
closed_member_broadcast_example = closed_member_broadcast hub whisper 3 refl refl refl

abbrev events : List Event
events = registers 1 ∷ joins 1 "c1" ∷ registers 2 ∷ joins 2 "c1" ∷ broadcasts greeting ∷ []

run_from-IsCoherent_example : CoherentAfter (run_from (ok (new_hub endpoints)) events)
run_from-IsCoherent_example =
    run_from-IsCoherent events (ok (new_hub endpoints)) (new_hub-IsCoherent endpoints)

abbrev small_hub : Hub
small_hub = join_room (register (new_hub endpoints) 1) 1 "c1"

small_hub-IsCoherent : IsCoherent small_hub
unfolding run_from step
small_hub-IsCoherent =
    run_from-IsCoherent (registers 1 ∷ joins 1 "c1" ∷ []) (ok (new_hub endpoints))
      (new_hub-IsCoherent endpoints)

unregister_rooms_example :
    (after : Hub) × (unregister small_hub 1 ≡ ok after)
    × (contains (members_of after.rooms "c1") 1
        ≡ (contains (members_of small_hub.rooms "c1") 1 && not (nat_eq 1 1)))
unfolding contains insert register join_room update
unregister_rooms_example = unregister_rooms small_hub 1 "c1" 1 small_hub-IsCoherent refl refl

-- Client 2 is dropped, and client 4 gets the message.
abbrev later_hub : Hub
later_hub = send_to (drop_client hub greeting 2) greeting 4

slow_client_unregister_example : unregister later_hub 2 ≡ panicked
unfolding members_of find contains is_sender broadcast deliver send_to drop_client update
slow_client_unregister_example =
    slow_client_unregister hub later_hub greeting 2 (refl, (refl, (refl, tt)))
      (λ h. refl, (λ h. refl, (λ h. refl, tt))) refl refl refl refl refl
