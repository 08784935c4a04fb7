-- ===== src/Buffer/History.antt =====
-- backend/internal/voice/buffer_service.go: histories of the methods.
use trabalho_radio_px.Prelude.{
  ℕ, suc, ◌+◌, ◌≤◌, ◌<◌, String, ◌≡◌, refl, Option, none, some, List, [], ◌∷◌, arith, length,
}
use trabalho_radio_px.Prelude.Map.{find, entry, keys}
use trabalho_radio_px.Prelude.Int.{max_int64}
use trabalho_radio_px.Buffer.{
  AudioBufferService, BufferConfig, new_audio_buffer_service, counter, add_message,
  mark_as_replayed, mark_listed, mark_all_as_replayed, mark_all, cleanup_all_channels,
  clear_channel,
}
use trabalho_radio_px.Buffer.Sequence.{Ascending-mark_listed, Ascending-mark_all}
use trabalho_radio_px.Buffer.Numbering.{
  IsSequenced, add-IsSequenced, mark-IsSequenced, clear-IsSequenced, cleanup_channels-IsSequenced,
}

-- A call of a method that changes the state.
pub data Call : Type 0 where
  add : String → ℕ → ℕ → String → String → List ℕ → Call
  mark : String → List String → Call
  mark_every : String → Call
  cleanup : (String → ℕ) → Call
  clear : String → Call

unfoldable pub step : AudioBufferService → Call → AudioBufferService
step svc (add id now later channel user audio) = (add_message id now later svc channel user audio).0
step svc (mark channel ids) = mark_as_replayed svc channel ids
step svc (mark_every channel) = mark_all_as_replayed svc channel
step svc (cleanup clock) = cleanup_all_channels clock svc
step svc (clear channel) = clear_channel svc channel

unfoldable pub run : AudioBufferService → List Call → AudioBufferService
run svc [] = svc
run svc (c ∷ cs) = run (step svc c) cs

IsSequenced-weaken :
    (limit : ℕ) (svc : AudioBufferService) (id : String)
    → IsSequenced limit svc id
    → IsSequenced (suc limit) svc id
IsSequenced-weaken limit svc id h = (h.0, omega arith, h.2)

step-IsSequenced :
    (limit : ℕ) (svc : AudioBufferService) (c : Call) (id : String)
    → limit < max_int64
    → IsSequenced limit svc id
    → IsSequenced (suc limit) (step svc c) id
unfolding step mark_as_replayed mark_all_as_replayed cleanup_all_channels
step-IsSequenced limit svc (add i now later channel user audio) id l h =
    add-IsSequenced limit i now later svc channel user audio id l h
step-IsSequenced limit svc (mark channel ids) id l h = IsSequenced-weaken limit _ id (
    mark-IsSequenced limit (mark_listed ids) svc channel id (λ ms. Ascending-mark_listed ids 0 ms _)
      h)
step-IsSequenced limit svc (mark_every channel) id l h =
    IsSequenced-weaken limit _ id
      (mark-IsSequenced limit mark_all svc channel id (λ ms. Ascending-mark_all 0 ms _) h)
step-IsSequenced limit svc (cleanup clock) id l h =
    IsSequenced-weaken limit _ id
      (cleanup_channels-IsSequenced limit clock svc (keys svc.buffers) id h)
step-IsSequenced limit svc (clear channel) id l h =
    IsSequenced-weaken limit _ id (clear-IsSequenced limit svc channel id h)

run-IsSequenced_from :
    (limit total : ℕ) (svc : AudioBufferService) (cs : List Call) (id : String)
    → limit + length cs ≡ total
    → total ≤ max_int64
    → IsSequenced limit svc id
    → IsSequenced total (run svc cs) id
unfolding run
run-IsSequenced_from limit total svc [] id e l h = (h.0, omega arith, h.2)
run-IsSequenced_from limit total svc (c ∷ cs) id e l h =
    run-IsSequenced_from (suc limit) total (step svc c) cs id (omega arith) l
      (step-IsSequenced limit svc c id (omega arith) h)

new-IsSequenced :
    (config : Option BufferConfig) (id : String)
    → IsSequenced 0 (new_audio_buffer_service config) id
unfolding new_audio_buffer_service counter entry find
new-IsSequenced none id = (refl, omega arith, omega arith)
new-IsSequenced (some config) id = (refl, omega arith, omega arith)

-- After any history of fewer than 2^63 calls on a new service, the sequence numbers of each
-- channel's messages grow strictly and the last one does not pass the channel's counter.
pub run-IsSequenced :
    (config : Option BufferConfig) (cs : List Call) (id : String)
    → length cs ≤ max_int64
    → IsSequenced (length cs) (run (new_audio_buffer_service config) cs) id
run-IsSequenced config cs id l =
    run-IsSequenced_from 0 (length cs) (new_audio_buffer_service config) cs id (omega arith) l
      (new-IsSequenced config id)
