-- ===== src/Tests/Audio.antt =====
-- Inputs for the theorems about backend/internal/voice/buffer_service.go and buffer_manager.go.
use trabalho_radio_px.Prelude.{
  ℕ, ◌≤◌, ◌<◌, ◌⊎◌, String, ◌≡◌, true, false, none, List, [], ◌∷◌, All, length, refl, arith,
}
use trabalho_radio_px.Prelude.Map.{find, entry, put}
use trabalho_radio_px.Prelude.Int.{pos}
use trabalho_radio_px.Buffer.{
  MessageBuffer, AudioBufferService, counter, messages, total_size, cleanup_by_size, trim, recent,
  cleanup_old_messages, add_message, get_messages, new_audio_buffer_service,
}
use trabalho_radio_px.Buffer.Retention.{cleanup_bounds, cleanup_longest}
use trabalho_radio_px.Buffer.History
use trabalho_radio_px.Buffer.Numbering.{IsSequenced}
use trabalho_radio_px.Buffer.History.{run, run-IsSequenced}
use trabalho_radio_px.Buffer.Replay.{get-add_message}
use trabalho_radio_px.Manager.{
  BufferManager, handle_reconnection, get_reconnect_state, confirm_replay, complete_replay,
}
use trabalho_radio_px.Manager.Handover.{ids_of, complete_replay-last_sequence, confirm-reconnect}

abbrev spoken : String → ℕ → ℕ → List ℕ → MessageBuffer
spoken id n now audio = record {
  id = id;
  channel_id = "c1";
  user_id = "ana";
  audio_data = audio;
  sequence = pos n;
  timestamp = now;
  is_replayed = false;
  created_at = now;
}

abbrev first : MessageBuffer
first = spoken "m1" 1 10 (1 ∷ 2 ∷ [])

abbrev second : MessageBuffer
second = spoken "m2" 2 20 (3 ∷ 4 ∷ [])

abbrev third : MessageBuffer
third = spoken "m3" 3 30 (5 ∷ 6 ∷ [])

-- Three messages of two bytes each, four bytes allowed.
abbrev audio : AudioBufferService
audio = record {
  buffers = ("c1", first ∷ second ∷ third ∷ []) ∷ [];
  config = record { max_duration = 100; max_size_bytes = 4; cleanup_interval = 10 };
  sequence_map = ("c1", pos 3) ∷ [];
}

cleanup_bounds_example :
    ((total_size (messages (cleanup_old_messages 40 audio "c1") "c1") ≤ 4)
      ⊎ (length (messages (cleanup_old_messages 40 audio "c1") "c1") ≤ 1))
    × All (λ m. recent 40 100 m ≡ true) (messages (cleanup_old_messages 40 audio "c1") "c1")
cleanup_bounds_example = cleanup_bounds 40 audio "c1"

cleanup_longest_example : 4 < total_size (first ∷ second ∷ third ∷ [])
unfolding entry find cleanup_old_messages total_size cleanup_by_size put trim
cleanup_longest_example =
    cleanup_longest 40 audio "c1" [] (first ∷ second ∷ third ∷ []) refl (omega arith)

audio-IsSequenced : IsSequenced 3 audio "c1"
unfolding counter entry find
audio-IsSequenced =
    (refl, omega arith, (refl, omega arith, (refl, omega arith, (refl, omega arith, omega arith))))

get-add_message_example :
    get_messages (add_message "m4" 50 60 audio "c1" "bia" (7 ∷ [])).0 "c1" (counter audio "c1")
    ≡ (add_message "m4" 50 60 audio "c1" "bia" (7 ∷ [])).1 ∷ []
get-add_message_example =
    get-add_message 3 "m4" 50 60 audio "c1" "bia" (7 ∷ []) (omega arith) audio-IsSequenced
      (omega arith)

abbrev calls : List History.Call
calls =
    History.add "m1" 10 11 "c1" "ana" (1 ∷ [])
    ∷ History.mark_every "c1"
    ∷ History.add "m2" 20 21 "c1" "ana" (2 ∷ [])
    ∷ []

run-IsSequenced_example : IsSequenced 3 (run (new_audio_buffer_service none) calls) "c1"
run-IsSequenced_example = run-IsSequenced none calls "c1" (omega arith)

-- A channel whose connection was lost.
abbrev manager : BufferManager
manager = record {
  buffer_service = audio;
  channel_configs = [];
  reconnect_states =
      (
        "c1",
        record {
          last_sequence = pos 0;
          last_reconnect = 35;
          pending_messages = [];
          is_replaying = false;
        },
      )
      ∷ [];
}

complete_replay-last_sequence_example :
    (get_reconnect_state (complete_replay manager "c1") "c1").last_sequence ≡ pos 0
complete_replay-last_sequence_example = complete_replay-last_sequence manager "c1"

confirm-reconnect_example :
    let r = handle_reconnection manager "c1" "ana" in
    (handle_reconnection (confirm_replay r.0 "c1" (ids_of r.1)) "c1" "bia").1 ≡ []
unfolding find get_reconnect_state
confirm-reconnect_example = confirm-reconnect manager "c1" "ana" "bia" refl
