-- ===== src/Tests/Clients.antt =====
-- Inputs for the theorems about backend/pkg/websocket/client.go and what a client does to the voice
-- service.
use Prim.Native.Char.{char, code}
use trabalho_radio_px.Prelude.{
  ℕ, zero, suc, ◌+◌, ◌≡◌, ◌⊎◌, refl, ap, ◌∙◌, String, true, false, ◌&&◌, Option, none, some, List,
  [], ◌∷◌, ◌++◌, if◌then◌else◌, nat_eq, ◌==◌, arith,
}
use trabalho_radio_px.Prelude.Int.{ℤ}
use trabalho_radio_px.Prelude.Map.{find}
use trabalho_radio_px.Prelude.Sets.{String_comparable, contains}
use trabalho_radio_px.Voice.{
  VoiceHub, new_voice_service, can_transmit, get_channel_status, get_current_speaker, speaking,
  silent,
}
use trabalho_radio_px.Voice.Calls.{Call, start, stop, cleanup, run}
use trabalho_radio_px.Voice.Leases.{IsIdle, answers, refusals, view, replay, run_refines}
use trabalho_radio_px.Hub.{Message, Endpoint}
use trabalho_radio_px.Buffer.{new_audio_buffer_service, counter}
use trabalho_radio_px.Buffer.History
use trabalho_radio_px.Buffer.History.{run-IsSequenced}
use trabalho_radio_px.Client.{
  Encoding, Client, World, AudioRequest, Readings, new_client_with_guard, handle_audio,
  handle_message, leave_message, relayed, release_voice, send_replay, terminator,
}
use trabalho_radio_px.Client.Replay.{Sent}
use trabalho_radio_px.Client.Speech.{
  handle_audio-can_transmit, handle_audio-bypass, handle_audio-send_replay,
}
use trabalho_radio_px.Client.Release.{
  release_voice-status, release_voice-can_transmit, leave_room-release_voice,
}

-- A byte is "b" and as many "a"s.
abbrev letters : ℕ → String → String
letters zero s = s
letters (suc n) s = String.◌∷◌ (char 97 tt) (letters n s)

abbrev encoded : List ℕ → String
encoded [] = ""
encoded (n ∷ ns) = String.◌∷◌ (char 98 tt) (letters n (encoded ns))

-- The "a"s at the front, and the bytes after them.
abbrev decoded : String → ℕ × List ℕ
decoded String.[] = (0, [])
decoded (String.◌∷◌ c s) =
    let (n, ns) = decoded s in if nat_eq (code c) 98 then (0, n ∷ ns) else (suc n, ns)

decoded-letters : (n : ℕ) (s : String) → decoded (letters n s) ≡ (n + (decoded s).0, (decoded s).1)
decoded-letters zero s = λ i. (none_more i, (decoded s).1)
  where
    none_more : (decoded s).0 ≡ 0 + (decoded s).0
    none_more = omega arith
decoded-letters (suc n) s =
    let p = ap (λ x. x.0) (decoded-letters n s) in
    let one_more : suc (decoded (letters n s)).0 ≡ suc n + (decoded s).0 = omega arith in
    λ i. (one_more i, (decoded-letters n s i).1)

decoded-encoded : (ns : List ℕ) → decoded (encoded ns) ≡ (0, ns)
decoded-encoded [] = refl
decoded-encoded (n ∷ ns) =
    let p = decoded-letters n (encoded ns) in
    let q = decoded-encoded ns in
    let front : (decoded (letters n (encoded ns))).0 ≡ n + (decoded (encoded ns)).0 =
      ap (λ x. x.0) p in
    let back : (decoded (encoded ns)).0 ≡ 0 = ap (λ x. x.0) q in
    let number : (decoded (letters n (encoded ns))).0 ≡ n = omega arith in
    let rest : (decoded (letters n (encoded ns))).1 ≡ ns = ap (λ x. x.1) p ∙ ap (λ x. x.1) q in
    λ i. (0, number i ∷ rest i)

abbrev encoding : Encoding
encoding = record {
  decode_base64_audio = λ s. some (decoded s).1;
  encode_audio = encoded;
  decode-encode = λ ns. ap (λ p. some p.1) (decoded-encoded ns);
}

abbrev ana : Client
ana = new_client_with_guard 1 "k1" "ana"

abbrev bia : Client
bia = new_client_with_guard 2 "k2" "bia"

abbrev endpoint : Endpoint
endpoint = record { queue = []; closed = false; rooms = "c1" ∷ [] }

-- Both are in the room "c1", and nobody speaks.
abbrev quiet : World
quiet = record {
  hub = record { clients = 1 ∷ 2 ∷ []; rooms = ("c1", 1 ∷ 2 ∷ []) ∷ []; heap = λ c. endpoint };
  voice = new_voice_service;
  buffer = new_audio_buffer_service none;
  broadcasts = [];
}

abbrev taken : VoiceHub
taken = record {
  channels =
      (
        "c1",
        record {
          channel_id = "c1";
          current_speaker = "ana";
          is_transmitting = true;
          last_activity = 5;
        },
      )
      ∷ [];
}

-- Ana speaks on "c1".
abbrev busy : World
busy = record quiet { voice = taken }

abbrev packet : AudioRequest
packet = record { room = "c1"; audio = "ba"; is_ptt = true }

abbrev late_packet : AudioRequest
late_packet = record packet { is_ptt = false }

abbrev readings : Readings
readings = record { voice_time = 6; message_id = "m1"; message_time = 7; cleanup_time = 8 }

handle_audio-can_transmit_example :
    let after = handle_audio encoding readings busy bia packet in
    ((can_transmit busy.voice "bia" "c1" ≡ true)
      × (get_channel_status after.voice "c1" ≡ speaking "bia" "c1")
      × (after.hub ≡ busy.hub)
      × ((stamp : Option (ℤ × ℕ)) × (after.broadcasts ≡ [] ++ relayed bia packet stamp ∷ [])))
    ⊎ ((can_transmit busy.voice "bia" "c1" ≡ false) × (after ≡ busy))
handle_audio-can_transmit_example =
    handle_audio-can_transmit encoding readings busy bia packet refl refl

handle_audio-bypass_example :
    ((handle_audio encoding readings busy bia late_packet).broadcasts
      ≡ [] ++ relayed bia late_packet none ∷ [])
    × ((handle_audio encoding readings busy bia late_packet).hub ≡ busy.hub)
    × ((handle_audio encoding readings busy bia late_packet).buffer ≡ busy.buffer)
    × ((handle_audio encoding readings busy bia late_packet).voice ≡ busy.voice)
unfolding get_current_speaker find
handle_audio-bypass_example = handle_audio-bypass encoding readings busy bia late_packet refl

handle_audio-send_replay_example :
    (m : Message) × (some (decoded m.payload.audio).1 ≡ some (1 ∷ []))
    × (m.payload.user_id ≡ some "ana")
    × Sent quiet.hub 2
        (m ∷ terminator ∷ [])
        (send_replay encoding
          (handle_audio encoding readings quiet ana packet)
          bia
          "c1"
          (counter quiet.buffer "c1")).hub
unfolding can_transmit find contains new_audio_buffer_service History.run
handle_audio-send_replay_example =
    handle_audio-send_replay encoding readings quiet ana bia packet 1 [] 0 refl refl refl refl refl
      refl (omega arith) (run-IsSequenced none [] "c1" (omega arith)) (omega arith) refl refl refl
      (omega arith)

abbrev rooms : List String
rooms = "c1" ∷ []

release_voice-status_example :
    get_channel_status (release_voice (λ room. 9) busy ana).voice "c1" ≡ (
      if contains rooms "c1" && (get_current_speaker busy.voice "c1" == "ana")
      then silent "c1"
      else get_channel_status busy.voice "c1")
release_voice-status_example = release_voice-status (λ room. 9) busy ana "c1" refl

release_voice-can_transmit_example :
    can_transmit (release_voice (λ room. 9) busy ana).voice "bia" "c1" ≡ true
unfolding contains get_current_speaker find
release_voice-can_transmit_example =
    release_voice-can_transmit (λ room. 9) busy ana "c1" "bia" refl refl refl

leave_room-release_voice_example :
    get_channel_status
      (release_voice
        (λ room. 9)
        (handle_message encoding readings busy ana (leave_message (some "c1")))
        ana).voice
      "c1"
    ≡ speaking "ana" "c1"
unfolding get_channel_status find
leave_room-release_voice_example =
    leave_room-release_voice encoding readings (λ room. 9) busy ana "c1" refl

abbrev attempts : List (ℕ × Call)
attempts =
    (6, start "bia" "c1")
    ∷ (6, stop "bia" "c1")
    ∷ (7, stop "ana" "c1")
    ∷ (8, start "bia" "c1")
    ∷ (30, cleanup 10)
    ∷ []

taken-IsIdle : (id : String) → IsIdle (find taken.channels id)
unfolding find
taken-IsIdle id = ground arith

run_refines_example :
    (answers taken attempts ≡ refusals (view taken) attempts)
    × (view (run taken attempts) ≡ replay (view taken) attempts)
unfolding find
run_refines_example =
    run_refines attempts taken (record { keys = (refl, tt); idle = taken-IsIdle })
      (tt, (refl, (refl, (tt, (tt, tt)))))
