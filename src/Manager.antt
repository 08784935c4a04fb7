-- ===== src/Manager.antt =====
-- backend/internal/voice/buffer_manager.go: who replays a channel's buffer after a reconnection.
-- The manager's lock makes each method one step. Clock readings, in nanoseconds since Go's zero
-- time, are arguments. The pending messages are copies: the program only marks the messages that
-- they share with the buffer in ConfirmReplay and CompleteReplay, which drop the pending ones.
pub mod Handover
use trabalho_radio_px.Prelude.{
  ℕ, ◌+◌, ◌*◌, String, Bool, true, false, not, Option, none, some, List, [], ◌∷◌, ltb,
  if◌then◌else◌,
}
use trabalho_radio_px.Prelude.Int.{ℤ, pos}
use trabalho_radio_px.Prelude.Map.{Map, find, put, retain}
use trabalho_radio_px.Buffer.{
  MessageBuffer, BufferConfig, BufferStatus, AudioBufferService, default_buffer_config, second,
  get_messages, get_unreplayed_messages, get_status, mark_as_replayed, mark_all_as_replayed,
  cleanup_all_channels,
}

pub record ReconnectState : Type 0 where
  pub last_sequence : ℤ
  pub last_reconnect : ℕ
  pub pending_messages : List MessageBuffer
  pub is_replaying : Bool

pub record BufferManager : Type 0 where
  pub buffer_service : AudioBufferService
  pub channel_configs : Map BufferConfig
  pub reconnect_states : Map ReconnectState

abbrev pub fresh_state : ReconnectState
fresh_state = record {
  last_sequence = pos 0;
  last_reconnect = 0;
  pending_messages = [];
  is_replaying = false;
}

unfoldable pub new_buffer_manager : AudioBufferService → BufferManager
new_buffer_manager svc = record {
  buffer_service = svc;
  channel_configs = [];
  reconnect_states = [];
}

abbrev pub or_default : Option BufferConfig → BufferConfig
or_default none = default_buffer_config
or_default (some config) = config

unfoldable pub configure_channel : BufferManager → String → Option BufferConfig → BufferManager
configure_channel m channel config = record m {
  channel_configs = put m.channel_configs channel (or_default config);
}

unfoldable pub get_channel_config : BufferManager → String → BufferConfig
get_channel_config m channel = or_default (find m.channel_configs channel)

abbrev pub or_fresh : Option ReconnectState → ReconnectState
or_fresh none = fresh_state
or_fresh (some state) = state

unfoldable pub get_reconnect_state : BufferManager → String → ReconnectState
get_reconnect_state m channel = or_fresh (find m.reconnect_states channel)

-- The user is an argument that the method does not read.
unfoldable pub handle_disconnection : ℕ → BufferManager → String → String → BufferManager
handle_disconnection now m channel user =
    let state = or_fresh (find m.reconnect_states channel) in
    record m {
      reconnect_states = put m.reconnect_states channel (record state { last_reconnect = now });
    }

unfoldable pub reconnect :
    BufferManager → String → Option ReconnectState → BufferManager × List MessageBuffer
reconnect m channel none = (m, [])
reconnect m channel (some state) =
    let pending = get_unreplayed_messages m.buffer_service channel in
    if state.is_replaying then (m, []) else (
      record m {
        reconnect_states =
            put m.reconnect_states channel
              (record state { is_replaying = true; pending_messages = pending });
      },
      pending,
    )

-- A nil slice is the empty list.
unfoldable pub handle_reconnection :
    BufferManager → String → String → BufferManager × List MessageBuffer
unfolding reconnect
handle_reconnection m channel user = reconnect m channel (find m.reconnect_states channel)

unfoldable pub last_number : List MessageBuffer → ℤ
last_number [] = pos 0
last_number (m ∷ []) = m.sequence
last_number (m ∷ n ∷ ms) = last_number (n ∷ ms)

unfoldable pub get_last_sequence : BufferManager → String → ℤ
unfolding last_number
get_last_sequence m channel = last_number (get_messages m.buffer_service channel (pos 0))

-- The last lines of ConfirmReplay and CompleteReplay.
unfoldable pub end_replay : BufferManager → String → Option ReconnectState → BufferManager
unfolding get_last_sequence
end_replay m channel none = m
end_replay m channel (some state) = record m {
  reconnect_states = put m.reconnect_states channel (record state {
    is_replaying = false;
    pending_messages = [];
    last_sequence = get_last_sequence m channel;
  });
}

unfoldable pub confirm_replay : BufferManager → String → List String → BufferManager
unfolding end_replay
confirm_replay m channel ids =
    end_replay (record m { buffer_service = mark_as_replayed m.buffer_service channel ids }) channel
      (find m.reconnect_states channel)

unfoldable pub complete_replay : BufferManager → String → BufferManager
unfolding end_replay
complete_replay m channel =
    end_replay (record m { buffer_service = mark_all_as_replayed m.buffer_service channel }) channel
      (find m.reconnect_states channel)

pub record BufferReport : Type 0 where
  pub status : BufferStatus
  pub config : BufferConfig
  pub reconnect : ReconnectState
  pub channel_id : String

unfoldable pub get_buffer_status : BufferManager → String → BufferReport
unfolding get_channel_config get_reconnect_state
get_buffer_status m channel = record {
  status = get_status m.buffer_service;
  config = get_channel_config m channel;
  reconnect = get_reconnect_state m channel;
  channel_id = channel;
}

abbrev pub day : ℕ
day = 24 * 3600 * second

-- The clean-up of the buffers reads the clock for each channel, and the loop for each state.
unfoldable pub cleanup : (String → ℕ) → (String → ℕ) → BufferManager → BufferManager
cleanup clock since m = record m {
  buffer_service = cleanup_all_channels clock m.buffer_service;
  reconnect_states =
      retain (λ channel state. not (ltb (state.last_reconnect + day) (since channel)))
        m.reconnect_states;
}
