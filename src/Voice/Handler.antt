-- ===== src/Voice/Handler.antt =====
-- backend/internal/voice/handler.go: the requests to the voice service over HTTP, and the WebSocket
-- handshake, whose client is one of ../Client.antt. Package gorilla/websocket's answer to a handshake
-- is an argument: `none` where it is upgraded.
pub mod Handshake
use trabalho_radio_px.Prelude.{ℕ, String, true, false, not, Option, none, some, if◌then◌else◌, ◌==◌}
use trabalho_radio_px.Http.{Request, Response, respond, fail, Handler}
use trabalho_radio_px.Voice.{
  VoiceHub, VoiceStatus, VoiceError, channel_busy, channel_not_found, not_speaker,
  start_transmission, stop_transmission, get_channel_status,
}
use trabalho_radio_px.Client.{World, Client, new_client_with_guard, connect}

-- `err.Error()`
unfoldable pub error_text : VoiceError → String
error_text channel_busy = "Channel is currently in use"
error_text channel_not_found = "Channel not found"
error_text not_speaker = "User is not the current speaker"

pub record TransmissionRequest : Type 0 where
  pub user_id : String
  pub channel_id : String

unfoldable pub handle_start_transmission :
    ℕ → Option TransmissionRequest → Handler VoiceHub VoiceStatus
unfolding error_text
handle_start_transmission now body r hub = elim body [
  | none ↦ (hub, fail 400 "Invalid request body")
  | some req ↦
      let (hub', e) = start_transmission now hub req.user_id req.channel_id in
      elim e [
        | some f ↦ (hub', fail 409 (error_text f))
        | none ↦ (
          hub',
          respond 200 (record {
            is_transmitting = true;
            current_speaker = req.user_id;
            channel_id = req.channel_id;
          }),
        )
      ]
]

unfoldable pub handle_stop_transmission :
    ℕ → Option TransmissionRequest → Handler VoiceHub VoiceStatus
unfolding error_text
handle_stop_transmission now body r hub = elim body [
  | none ↦ (hub, fail 400 "Invalid request body")
  | some req ↦
      let (hub', e) = stop_transmission now hub req.user_id req.channel_id in
      elim e [
        | some f ↦ (hub', fail 409 (error_text f))
        | none ↦ (
          hub',
          respond 200 (record {
            is_transmitting = false;
            current_speaker = "";
            channel_id = req.channel_id;
          }),
        )
      ]
]

unfoldable pub handle_get_status : Handler VoiceHub VoiceStatus
handle_get_status r hub =
    let channel_id = r.query "channel" in
    if channel_id == ""
    then (hub, fail 400 "Channel ID required")
    else (hub, respond 200 (get_channel_status hub channel_id))

-- `pointer` and `id` are those of the new client, which is the response's body.
unfoldable pub handle_web_socket : ℕ → String → Option (ℕ × String) → Handler World Client
handle_web_socket pointer id refused r w =
    let channel_id = r.query "channel" in
    let user_id = r.query "user_id" in
    if channel_id == "" then (w, fail 400 "Channel ID required") else elim refused [
      | some (status, text) ↦ (w, fail status text)
      | none ↦
          let client =
            new_client_with_guard pointer id (if user_id == "" then "anonymous" else user_id) in
          (connect w client channel_id, respond 101 client)
    ]
