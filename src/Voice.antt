-- ===== src/Voice.antt =====
-- backend/internal/voice/service.go: who may transmit on a channel (push to talk). The service's
-- state is its hub's map. The lock makes each method one step; the clock's value, in nanoseconds,
-- is an argument of a step, and log lines are left out.
pub mod Floor
pub mod Calls
pub mod Leases
pub mod Handler
use trabalho_radio_px.Prelude.{
  ℕ, ◌+◌, String, Bool, true, false, not, ◌&&◌, Option, none, some, List, [], ◌∷◌, ltb,
  if◌then◌else◌, ◌==◌,
}
use trabalho_radio_px.Prelude.Map.{Map, find, put, retain}

pub record ChannelState : Type 0 where
  pub channel_id : String
  pub current_speaker : String
  pub is_transmitting : Bool
  pub last_activity : ℕ

pub record VoiceHub : Type 0 where
  pub channels : Map ChannelState

pub data VoiceError : Type 0 where
  channel_busy channel_not_found not_speaker : VoiceError

pub record VoiceStatus : Type 0 where
  pub is_transmitting : Bool
  pub current_speaker : String
  pub channel_id : String

abbrev pub new_voice_service : VoiceHub
new_voice_service = record { channels = [] }

-- The entry of a channel, made on its first use.
unfoldable pub obtain : String → Option ChannelState → ChannelState
obtain id none = record {
  channel_id = id;
  current_speaker = "";
  is_transmitting = false;
  last_activity = 0;
}
obtain id (some channel) = channel

unfoldable pub occupy : ℕ → String → ChannelState → ChannelState
occupy now user channel = record channel {
  current_speaker = user;
  is_transmitting = true;
  last_activity = now;
}

unfoldable pub vacate : ℕ → ChannelState → ChannelState
vacate now channel = record channel {
  current_speaker = "";
  is_transmitting = false;
  last_activity = now;
}

-- The second part is the error, `none` for nil.
unfoldable pub start_transmission : ℕ → VoiceHub → String → String → VoiceHub × Option VoiceError
unfolding obtain occupy
start_transmission now hub user id =
    let channel = obtain id (find hub.channels id) in
    if channel.is_transmitting && not (channel.current_speaker == user)
    then (hub, some channel_busy)
    else (record { channels = put hub.channels id (occupy now user channel) }, none)

unfoldable pub stop_entry :
    ℕ → VoiceHub → String → String → Option ChannelState → VoiceHub × Option VoiceError
stop_entry now hub user id none = (hub, some channel_not_found)
stop_entry now hub user id (some channel) =
    if not (channel.current_speaker == user)
    then (hub, some not_speaker)
    else (record { channels = put hub.channels id (vacate now channel) }, none)

unfoldable pub stop_transmission : ℕ → VoiceHub → String → String → VoiceHub × Option VoiceError
unfolding stop_entry vacate
stop_transmission now hub user id = stop_entry now hub user id (find hub.channels id)

unfoldable pub is_channel_busy : VoiceHub → String → Bool
is_channel_busy hub id = elim (find hub.channels id) [
  | none ↦ false
  | some channel ↦ channel.is_transmitting
]

unfoldable pub get_current_speaker : VoiceHub → String → String
get_current_speaker hub id = elim (find hub.channels id) [
  | none ↦ ""
  | some channel ↦ channel.current_speaker
]

unfoldable pub can_transmit : VoiceHub → String → String → Bool
can_transmit hub user id = elim (find hub.channels id) [
  | none ↦ true
  | some channel ↦ if not channel.is_transmitting then true else (channel.current_speaker == user)
]

unfoldable pub get_channel_status : VoiceHub → String → VoiceStatus
get_channel_status hub id = elim (find hub.channels id) [
  | none ↦ record { is_transmitting = false; current_speaker = ""; channel_id = id }
  | some channel ↦ record {
    is_transmitting = channel.is_transmitting;
    current_speaker = channel.current_speaker;
    channel_id = id;
  }
]

-- `now.Sub(LastActivity) > timeout`
abbrev pub inactive : ℕ → ℕ → ChannelState → Bool
inactive now timeout channel = ltb (channel.last_activity + timeout) now

unfoldable pub cleanup_inactive_channels : ℕ → VoiceHub → ℕ → VoiceHub
cleanup_inactive_channels now hub timeout = record {
  channels = retain (λ id channel. not (inactive now timeout channel)) hub.channels;
}

unfoldable pub count_active : Map ChannelState → ℕ
count_active [] = 0
count_active ((id, channel) ∷ rest) = (if channel.is_transmitting then 1 else 0) + count_active rest

unfoldable pub active_channels_count : VoiceHub → ℕ
unfolding count_active
active_channels_count hub = count_active hub.channels

-- The status of a channel on which a user speaks.
abbrev pub speaking : String → String → VoiceStatus
speaking user id = record { is_transmitting = true; current_speaker = user; channel_id = id }

abbrev pub silent : String → VoiceStatus
silent id = record { is_transmitting = false; current_speaker = ""; channel_id = id }
