-- ===== src/Buffer.antt =====
-- backend/internal/voice/buffer_service.go and buffer_model.go: the recent audio of each channel,
-- kept in memory for replay. The lock makes each method one step. Clock readings, in nanoseconds,
-- and generated identifiers are arguments; `t.After(now.Add(-d))` is written `now < t + d`.
-- Durations and sizes are numbers: the configurations that the program makes are not negative, and
-- a sum of the lengths of slices in memory does not reach 2^63. Sequences are Go's int64.
pub mod Trim
pub mod Retention
mod Sequence
pub mod Numbering
pub mod History
pub mod Replay
pub mod Status
use trabalho_radio_px.Prelude.{
  ℕ, ◌+◌, ◌-◌, ◌*◌, String, Bool, false, true, not, ◌&&◌, ◌||◌, Option, none, some, List, [], ◌∷◌,
  ◌++◌, map, length, select, ltb, if◌then◌else◌, ◌==◌,
}
use trabalho_radio_px.Prelude.Map.{Map, find, put, delete, entry, keys}
use trabalho_radio_px.Prelude.Int.{ℤ, pos, increment, ltb_ℤ}

pub record MessageBuffer : Type 0 where
  pub id : String
  pub channel_id : String
  pub user_id : String
  pub audio_data : List ℕ
  pub sequence : ℤ
  pub timestamp : ℕ
  pub is_replayed : Bool
  pub created_at : ℕ

pub record BufferConfig : Type 0 where
  pub max_duration : ℕ
  pub max_size_bytes : ℕ
  pub cleanup_interval : ℕ

abbrev pub second : ℕ
second = 1000000000

abbrev pub default_buffer_config : BufferConfig
default_buffer_config = record {
  max_duration = 30 * second;
  max_size_bytes = 10 * 1024 * 1024;
  cleanup_interval = 300 * second;
}

pub record AudioBufferService : Type 0 where
  pub buffers : Map (List MessageBuffer)
  pub config : BufferConfig
  pub sequence_map : Map ℤ

-- A nil configuration is `none`.
unfoldable pub new_audio_buffer_service : Option BufferConfig → AudioBufferService
new_audio_buffer_service none = record {
  buffers = [];
  config = default_buffer_config;
  sequence_map = [];
}
new_audio_buffer_service (some config) = record { buffers = []; config = config; sequence_map = [] }

-- `s.sequenceMap[channelID]`, zero where the key is missing.
unfoldable pub counter : AudioBufferService → String → ℤ
counter svc channel = elim (find svc.sequence_map channel) [ none ↦ pos 0 | some n ↦ n ]

abbrev pub messages : AudioBufferService → String → List MessageBuffer
messages svc channel = entry svc.buffers channel

-- The loop that adds up `len(msg.AudioData)`.
unfoldable pub total_size : List MessageBuffer → ℕ
total_size [] = 0
total_size (m ∷ ms) = length m.audio_data + total_size ms

-- The loop of cleanupBySize: drop from the front while the total is too large and two or more are
-- left.
unfoldable pub trim : ℕ → ℕ → List MessageBuffer → List MessageBuffer
trim max total [] = []
trim max total (m ∷ []) = m ∷ []
trim max total (m ∷ n ∷ ms) =
    let rest = trim max (total - length m.audio_data) (n ∷ ms) in
    if ltb max total then rest else m ∷ n ∷ ms

unfoldable pub cleanup_by_size : AudioBufferService → String → AudioBufferService
cleanup_by_size svc channel = elim (messages svc channel) [
  | [] ↦ svc
  | m ∷ ms ↦ record svc {
    buffers =
        put svc.buffers channel (trim svc.config.max_size_bytes (total_size (m ∷ ms)) (m ∷ ms));
  }
]

abbrev pub recent : ℕ → ℕ → MessageBuffer → Bool
recent now max_duration m = ltb now (m.timestamp + max_duration)

unfoldable pub cleanup_old_messages : ℕ → AudioBufferService → String → AudioBufferService
cleanup_old_messages now svc channel =
    let cleaned = select (recent now svc.config.max_duration) (messages svc channel) in
    let svc' : AudioBufferService = record svc { buffers = put svc.buffers channel cleaned } in
    if ltb svc.config.max_size_bytes (total_size cleaned)
    then cleanup_by_size svc' channel
    else svc'

-- `later` is the clock when the clean-up reads it. The error of the source is always nil.
unfoldable pub add_message :
    String
    → ℕ
    → ℕ
    → AudioBufferService
    → String
    → String
    → List ℕ
    → AudioBufferService × MessageBuffer
add_message id now later svc channel user audio =
    let sequence : ℤ = increment (counter svc channel) in
    let message : MessageBuffer = record {
      id = id;
      channel_id = channel;
      user_id = user;
      audio_data = audio;
      sequence = sequence;
      timestamp = now;
      is_replayed = false;
      created_at = now;
    } in
    let svc' : AudioBufferService = record svc {
      sequence_map = put svc.sequence_map channel sequence;
      buffers = put svc.buffers channel (messages svc channel ++ message ∷ []);
    } in
    (cleanup_old_messages later svc' channel, message)

unfoldable pub get_messages : AudioBufferService → String → ℤ → List MessageBuffer
get_messages svc channel since =
    select (λ m. ltb_ℤ since m.sequence && not m.is_replayed) (messages svc channel)

unfoldable pub get_unreplayed_messages : AudioBufferService → String → List MessageBuffer
get_unreplayed_messages svc channel = select (λ m. not m.is_replayed) (messages svc channel)

-- A lookup in the set that is built from the identifiers.
unfoldable pub contains_id : List String → String → Bool
contains_id [] id = false
contains_id (j ∷ ids) id = j == id || contains_id ids id

-- The loops mutate the messages that the slice points at. The service holds the only pointers that
-- outlive a call, but for the pending messages of the manager.
unfoldable pub mark_listed : List String → List MessageBuffer → List MessageBuffer
mark_listed ids [] = []
mark_listed ids (m ∷ ms) =
    (if contains_id ids m.id then record m { is_replayed = true } else m) ∷ mark_listed ids ms

-- Marking the messages of a channel without an entry changes nothing.
unfoldable pub with_messages :
    AudioBufferService → String → (List MessageBuffer → List MessageBuffer) → AudioBufferService
with_messages svc channel f = elim (find svc.buffers channel) [
  | none ↦ svc
  | some ms ↦ record svc { buffers = put svc.buffers channel (f ms) }
]

unfoldable pub mark_as_replayed : AudioBufferService → String → List String → AudioBufferService
unfolding with_messages
mark_as_replayed svc channel ids = with_messages svc channel (mark_listed ids)

unfoldable pub mark_all : List MessageBuffer → List MessageBuffer
mark_all [] = []
mark_all (m ∷ ms) = record m { is_replayed = true } ∷ mark_all ms

unfoldable pub mark_all_as_replayed : AudioBufferService → String → AudioBufferService
unfolding with_messages
mark_all_as_replayed svc channel = with_messages svc channel mark_all

-- The loop over the channels, each with the clock's value when the loop comes to it.
unfoldable pub cleanup_channels :
    (String → ℕ) → AudioBufferService → List String → AudioBufferService
cleanup_channels clock svc [] = svc
cleanup_channels clock svc (channel ∷ rest) =
    cleanup_channels clock (cleanup_old_messages (clock channel) svc channel) rest

unfoldable pub cleanup_all_channels : (String → ℕ) → AudioBufferService → AudioBufferService
unfolding cleanup_channels
cleanup_all_channels clock svc = cleanup_channels clock svc (keys svc.buffers)

unfoldable pub clear_channel : AudioBufferService → String → AudioBufferService
clear_channel svc channel = record svc {
  buffers = delete svc.buffers channel;
  sequence_map = delete svc.sequence_map channel;
}

pub record BufferStatus : Type 0 where
  pub total_messages : ℕ
  pub total_size_bytes : ℕ
  pub oldest_message : Option ℕ
  pub newest_message : Option ℕ
  pub channel_count : ℕ

unfoldable pub earlier : Option ℕ → ℕ → Option ℕ
earlier none t = some t
earlier (some oldest) t = if ltb t oldest then some t else some oldest

unfoldable pub newer : Option ℕ → ℕ → Option ℕ
newer none t = some t
newer (some newest) t = if ltb newest t then some t else some newest

unfoldable pub count_message : BufferStatus → MessageBuffer → BufferStatus
unfolding earlier newer
count_message s m = record s {
  total_messages = s.total_messages + 1;
  total_size_bytes = s.total_size_bytes + length m.audio_data;
  oldest_message = earlier s.oldest_message m.timestamp;
  newest_message = newer s.newest_message m.timestamp;
}

-- The inner loop, over a channel's messages, and the outer one, over the channels.
unfoldable pub count_messages : BufferStatus → List MessageBuffer → BufferStatus
unfolding count_message
count_messages s [] = s
count_messages s (m ∷ ms) = count_messages (count_message s m) ms

unfoldable pub count_channels : BufferStatus → Map (List MessageBuffer) → BufferStatus
unfolding count_messages
count_channels s [] = s
count_channels s ((channel, ms) ∷ rest) = count_channels (count_messages s ms) rest

unfoldable pub get_status : AudioBufferService → BufferStatus
unfolding count_channels
get_status svc =
    count_channels
      (record {
        total_messages = 0;
        total_size_bytes = 0;
        oldest_message = none;
        newest_message = none;
        channel_count = length svc.buffers;
      })
      svc.buffers
