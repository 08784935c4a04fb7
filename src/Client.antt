-- ===== src/Client.antt =====
-- backend/pkg/websocket/client.go, with backend/internal/voice/buffer_adapter.go and the connection of
-- backend/internal/voice/handler.go: what a connected client's messages do to the hub, the voice
-- service and the buffer. A handler is modelled as it runs when no other goroutine comes between
-- its calls. Packages encoding/json and encoding/base64 are a parameter. A message reaches a handler
-- with its payload decoded, `none` where it does not decode; log lines are left out.
pub mod Speech
pub mod Replay
pub mod Release
use trabalho_radio_px.Prelude.{
  ℕ, String, ◌≡◌, Bool, true, false, not, ◌&&◌, Option, none, some, List, [], ◌∷◌, ◌++◌,
  if◌then◌else◌, ◌==◌,
}
use trabalho_radio_px.Prelude.Int.{ℤ, pos, ltb_ℤ}
use trabalho_radio_px.Prelude.Sets.{String_comparable, contains}
use trabalho_radio_px.Voice.{VoiceHub, start_transmission, stop_transmission}
use trabalho_radio_px.Buffer.{MessageBuffer, AudioBufferService, add_message, get_messages}
use trabalho_radio_px.Hub.{
  Payload, Message, Endpoint, Hub, Outcome, ok, panicked, has_room, update, register, unregister,
  broadcast, send_to, join_room, leave_room,
}

-- The text of a JSON value is a String.
pub record Encoding : Type 0 where
  -- decodeBase64Audio: a JSON string that holds base64
  pub decode_base64_audio : String → Option (List ℕ)
  -- the JSON string that holds some bytes in base64
  pub encode_audio : List ℕ → String
  pub decode-encode : (bytes : List ℕ) → decode_base64_audio (encode_audio bytes) ≡ some bytes

-- The pointer of a client is its number in the hub; `guarded` and `buffered` say that the client has
-- a voice guard and a buffer, which are the shared services.
pub record Client : Type 0 where
  pub pointer : ℕ
  pub id : String
  pub user_id : String
  pub guarded : Bool
  pub buffered : Bool

-- NewClientWithGuard; NewClient leaves the guard and the buffer nil.
abbrev pub new_client : ℕ → String → String → Client
new_client pointer id user = record {
  pointer = pointer;
  id = id;
  user_id = user;
  guarded = false;
  buffered = false;
}

abbrev pub new_client_with_guard : ℕ → String → String → Client
new_client_with_guard pointer id user = record {
  pointer = pointer;
  id = id;
  user_id = user;
  guarded = true;
  buffered = true;
}

abbrev pub new_endpoint : Endpoint
new_endpoint = record { queue = []; closed = false; rooms = [] }

-- `broadcasts` is the hub's channel of that name. A send waits while its 256 places are taken, which
-- does not change the order of the messages.
pub record World : Type 0 where
  pub hub : Hub
  pub voice : VoiceHub
  pub buffer : AudioBufferService
  pub broadcasts : List Message

-- The `audio` field is raw JSON, empty where the field is missing.
pub record AudioRequest : Type 0 where
  pub room : String
  pub audio : String
  pub is_ptt : Bool

pub data ClientMessage : Type 0 where
  join_message leave_message : Option String → ClientMessage
  audio_message : Option AudioRequest → ClientMessage
  replay_message : Option (String × ℤ) → ClientMessage
  unknown_message : ClientMessage

-- What the clock and the generator of identifiers give to a handler: the time of the voice service, the
-- buffered message's identifier and time, and the time of the buffer's clean-up.
pub record Readings : Type 0 where
  pub voice_time : ℕ
  pub message_id : String
  pub message_time : ℕ
  pub cleanup_time : ℕ

-- A nil RawMessage is marshalled as null.
abbrev pub raw_json : String → String
raw_json raw = if raw == "" then "null" else raw

abbrev pub stamped : ℤ → ℕ → Option (ℤ × ℕ)
stamped sequence timestamp = if ltb_ℤ (pos 0) sequence then some (sequence, timestamp) else none

-- The message that an audio packet is relayed as. BroadcastToRoom sets its room.
abbrev pub relayed : Client → AudioRequest → Option (ℤ × ℕ) → Message
relayed c req stamp = record {
  room = req.room;
  kind = "audio";
  payload = record {
    audio = raw_json req.audio;
    is_ptt = req.is_ptt;
    user_id = some c.user_id;
    sender = c.id;
    stamp = stamp;
    is_replayed = false;
  };
  sender = some c.pointer;
}

abbrev pub broadcast_to_room : World → Message → World
broadcast_to_room w m = record w { broadcasts = w.broadcasts ++ m ∷ [] }

-- The voice guard's part of an audio packet: `none` where the packet is dropped.
unfoldable pub guard_audio : ℕ → World → Client → AudioRequest → Option World
guard_audio now w c req =
    let started = start_transmission now w.voice c.user_id req.room in
    let stopped = stop_transmission now w.voice c.user_id req.room in
    if not c.guarded
    then some w
    else if req.is_ptt
    then elim started.1 [ none ↦ some (record w { voice = started.0 }) | some e ↦ none ]
    else some (record w { voice = stopped.0 })

-- A send on a closed channel panics, and the deferred function recovers.
unfoldable pub safe_send : Hub → ℕ → Message → Hub × Bool
safe_send h c m =
    if (h.heap c).closed
    then (h, false)
    else if has_room (h.heap c)
    then (send_to h m c, true)
    else (h, false)

-- The loop of sendReplay, which ends at the first message that is not sent.
unfoldable pub send_all : List Message → Hub → ℕ → Hub × Bool
unfolding safe_send
send_all [] h c = (h, true)
send_all (m ∷ ms) h c =
    let rest = send_all ms (safe_send h c m).0 c in
    if (safe_send h c m).1 then rest else safe_send h c m

abbrev pub terminator : Message
terminator = record {
  room = "";
  kind = "audio";
  payload = record {
    audio = "\"\"";
    is_ptt = false;
    user_id = none;
    sender = "replay";
    stamp = none;
    is_replayed = true;
  };
  sender = none;
}

-- The last part of sendReplay.
unfoldable pub send_terminator : List MessageBuffer → Hub × Bool → ℕ → Hub
unfolding safe_send
send_terminator msgs (h, false) c = h
send_terminator [] (h, true) c = h
send_terminator (m ∷ ms) (h, true) c = (safe_send h c terminator).0

module _ (e : Encoding) where
  open e use {decode_base64_audio, encode_audio}

  -- The bytes that are kept for a replay.
  unfoldable pub audio_bytes : Client → AudioRequest → Option (List ℕ)
  audio_bytes c req =
      if c.buffered && req.is_ptt && not (req.audio == "")
      then elim (decode_base64_audio req.audio) [
        | none ↦ none
        | some [] ↦ none
        | some (b ∷ bytes) ↦ some (b ∷ bytes)
      ]
      else none

  -- The buffer's part of an audio packet, with the packet's number and time. The adapter passes the
  -- call on.
  unfoldable pub keep_audio : Readings → World → Client → AudioRequest → World × Option (ℤ × ℕ)
  unfolding audio_bytes
  keep_audio r w c req = elim (audio_bytes c req) [
    | none ↦ (w, none)
    | some bytes ↦
        let (buffer, m) =
          add_message r.message_id r.message_time r.cleanup_time w.buffer req.room c.user_id
            bytes in
        (record w { buffer = buffer }, stamped m.sequence m.timestamp)
  ]

  unfoldable pub handle_audio : Readings → World → Client → AudioRequest → World
  unfolding guard_audio keep_audio
  handle_audio r w c req = elim (guard_audio r.voice_time w c req) [
    | none ↦ w
    | some guarded ↦
        let (kept, stamp) = keep_audio r guarded c req in
        broadcast_to_room kept (relayed c req stamp)
  ]

  abbrev pub replayed : MessageBuffer → Message
  replayed m = record {
    room = "";
    kind = "audio";
    payload = record {
      audio = encode_audio m.audio_data;
      is_ptt = true;
      user_id = some m.user_id;
      sender = "replay";
      stamp = some (m.sequence, m.timestamp);
      is_replayed = true;
    };
    sender = none;
  }

  unfoldable pub replay_all : List MessageBuffer → List Message
  replay_all [] = []
  replay_all (m ∷ ms) = replayed m ∷ replay_all ms

  unfoldable pub send_replay : World → Client → String → ℤ → World
  unfolding send_all send_terminator replay_all
  send_replay w c room since =
      let msgs = get_messages w.buffer room since in
      if not c.buffered
      then w
      else if not (contains (w.hub.heap c.pointer).rooms room)
      then w
      else record w {
        hub = send_terminator msgs (send_all (replay_all msgs) w.hub c.pointer) c.pointer;
      }

  unfoldable pub handle_message : Readings → World → Client → ClientMessage → World
  unfolding handle_audio send_replay
  handle_message r w c (join_message none) = w
  handle_message r w c (join_message (some room)) = record w {
    hub = join_room w.hub c.pointer room;
  }
  handle_message r w c (leave_message none) = w
  handle_message r w c (leave_message (some room)) = record w {
    hub = leave_room w.hub c.pointer room;
  }
  handle_message r w c (audio_message none) = w
  handle_message r w c (audio_message (some req)) = handle_audio r w c req
  handle_message r w c (replay_message none) = w
  handle_message r w c (replay_message (some (room, since))) = send_replay w c room since
  handle_message r w c unknown_message = w

-- The loop of releaseVoice over the client's rooms, each with its time. Errors are dropped.
unfoldable pub release_rooms : List String → (String → ℕ) → VoiceHub → String → VoiceHub
release_rooms [] clock voice user = voice
release_rooms (room ∷ rooms) clock voice user =
    release_rooms rooms clock (stop_transmission (clock room) voice user room).0 user

unfoldable pub release_voice : (String → ℕ) → World → Client → World
unfolding release_rooms
release_voice clock w c =
    if not c.guarded
    then w
    else record w { voice = release_rooms (w.hub.heap c.pointer).rooms clock w.voice c.user_id }

pub data Progress : Type 0 where
  running : World → Progress
  crashed : Progress

abbrev pub with_hub : World → Outcome → Progress
with_hub w (ok h) = running (record w { hub = h })
with_hub w panicked = crashed

-- The deferred function of ReadPump, with the hub's answer to UnregisterClient.
unfoldable pub disconnect : (String → ℕ) → World → Client → Progress
unfolding release_voice
disconnect clock w c =
    let released = release_voice clock w c in with_hub released (unregister released.hub c.pointer)

-- The connection in HandleWebSocket: a new client that is registered and joins its channel.
unfoldable pub connect : World → Client → String → World
connect w c room =
    let h : Hub = record w.hub { heap = update w.hub.heap c.pointer new_endpoint } in
    record w { hub = join_room (register h c.pointer) c.pointer room }

-- Run takes the next message of its channel of broadcasts.
unfoldable pub serve_broadcast : World → Progress
serve_broadcast w = elim w.broadcasts [
  | [] ↦ running w
  | m ∷ ms ↦ with_hub (record w { broadcasts = ms }) (broadcast w.hub m)
]

-- What one round of WritePump writes to the connection where no write fails: a message, or the
-- closing message once the channel is closed and empty.
pub data Written : Type 0 where
  wrote : Message → Written
  wrote_close waits : Written

unfoldable pub write_next : Hub → ℕ → Hub × Written
unfolding update
write_next h c =
    let x = h.heap c in
    elim x.queue [
      | [] ↦ (h, if x.closed then wrote_close else waits)
      | m ∷ ms ↦ (record h { heap = update h.heap c (record x { queue = ms }) }, wrote m)
    ]
