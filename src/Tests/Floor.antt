-- ===== src/Tests/Floor.antt =====
-- Inputs for the theorems about backend/internal/voice/service.go and
-- backend/internal/middleware/ratelimit.go.
use trabalho_radio_px.Prelude.{ℕ, ◌≤◌, ◌≡◌, true, List, [], ◌∷◌, length, select, refl, arith}
use trabalho_radio_px.Prelude.Map.{find}
use trabalho_radio_px.Voice.{
  VoiceHub, new_voice_service, start_transmission, get_channel_status, speaking,
}
use trabalho_radio_px.Voice.Calls.{Call, start, stop, cleanup, run, run_keeps_floor}
use trabalho_radio_px.RateLimit
use trabalho_radio_px.RateLimit.{new_rate_limiter, granted}
use trabalho_radio_px.RateLimit.Window.{in_window, granted-in_window}

-- Ana speaks on "c1".
abbrev busy_hub : VoiceHub
busy_hub = record {
  channels =
      (
        "c1",
        record {
          channel_id = "c1";
          current_speaker = "ana";
          is_transmitting = true;
          last_activity = 5;
        },
      )
      ∷ [];
}

abbrev attempts : List (ℕ × Call)
attempts =
    (6, start "bia" "c1") ∷ (7, stop "bia" "c1") ∷ (8, start "bia" "c2") ∷ (9, cleanup 10) ∷ []

run_keeps_floor_example :
    get_channel_status (run (start_transmission 5 new_voice_service "ana" "c1").0 attempts) "c1"
    ≡ speaking "ana" "c1"
unfolding start_transmission find
run_keeps_floor_example =
    run_keeps_floor 5 new_voice_service "ana" "c1" attempts tt refl
      (refl, (refl, (refl, (refl, tt))))

abbrev requests : List (ℕ × RateLimit.Call)
requests =
    (1, RateLimit.request "10.0.0.1")
    ∷ (2, RateLimit.request "10.0.0.1")
    ∷ (3, RateLimit.request "10.0.0.2")
    ∷ (4, RateLimit.clean)
    ∷ (5, RateLimit.request "10.0.0.1")
    ∷ []

granted-in_window_example :
    length (select (in_window 60 5) (granted "10.0.0.1" (new_rate_limiter 2 60) requests)) ≤ 2
granted-in_window_example =
    granted-in_window 2 60 "10.0.0.1" requests 5
      (omega arith, (omega arith, (omega arith, (omega arith, (omega arith, tt)))))
