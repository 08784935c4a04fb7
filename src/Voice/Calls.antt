-- ===== src/Voice/Calls.antt =====
-- Histories of calls of backend/internal/voice/service.go: the floor is never taken over.
use trabalho_radio_px.Prelude.{
  ℕ, ◌+◌, ◌≤◌, String, ◌≡◌, ◌≢◌, Bool, true, not, ◌&&◌, Option, none, some, List, [], ◌∷◌, arith,
  leb, ◌==◌, eq_iff, Bool-cases, Option-cases, inl, inr, All,
}
use trabalho_radio_px.Prelude.Map.{
  IsMap, find, find-put_cases, find-retain, put-IsMap, retain-IsMap,
}
use trabalho_radio_px.Voice.{
  VoiceHub, ChannelState, obtain, occupy, vacate, start_transmission, stop_transmission,
  cleanup_inactive_channels, inactive, get_channel_status, speaking,
}

pub data Call : Type 0 where
  start stop : String → String → Call
  cleanup : ℕ → Call

-- A call at a time; the error of a refused call is dropped.
unfoldable pub step : VoiceHub → ℕ × Call → VoiceHub
step hub (now, start user id) = (start_transmission now hub user id).0
step hub (now, stop user id) = (stop_transmission now hub user id).0
step hub (now, cleanup timeout) = cleanup_inactive_channels now hub timeout

unfoldable pub run : VoiceHub → List (ℕ × Call) → VoiceHub
run hub [] = hub
run hub (c ∷ cs) = run (step hub c) cs

-- The entry says that the user speaks, and was used at a time no earlier than `since`.
abbrev pub Speaks : String → ℕ → Option ChannelState → Type 0
Speaks user since none = ⊥
Speaks user since (some c) =
    (c.is_transmitting ≡ true) × (c.current_speaker ≡ user) × (since ≤ c.last_activity)

-- Not a stop of this user on this channel, and no clean-up whose timeout has passed since `since`.
abbrev pub spares : String → String → ℕ → ℕ × Call → Bool
spares user id since (now, start u i) = leb since now
spares user id since (now, stop u i) = not (i == id && u == user)
spares user id since (now, cleanup timeout) = leb now (since + timeout)

pub step-IsMap : (hub : VoiceHub) (c : ℕ × Call) → IsMap hub.channels → IsMap (step hub c).channels
unfolding step start_transmission stop_transmission cleanup_inactive_channels
step-IsMap hub (now, start user id) h =
    ground (arith, put-IsMap hub.channels id (occupy now user (obtain id (find hub.channels id))) h)
step-IsMap hub (now, stop user id) h =
    ground (arith, put-IsMap hub.channels id (vacate now (obtain id (find hub.channels id))) h)
step-IsMap hub (now, cleanup timeout) h = retain-IsMap _ hub.channels h

start-Speaks_at :
    (now : ℕ) (hub : VoiceHub) (u user i id : String) (since : ℕ)
    → i ≡ id
    → leb since now ≡ true
    → Speaks user since (find hub.channels id)
    → Speaks user since (find (start_transmission now hub u i).0.channels id)
unfolding start_transmission
start-Speaks_at now hub u user i id since e s h = elim (Option-cases (find hub.channels id)) [
  | inl none_at ↦ ground arith
  | inr (c, c_at) ↦
      rw (e, c_at)
        (ground (
          arith,
          eq_iff id id,
          eq_iff c.current_speaker u,
          find-put_cases hub.channels id (occupy now u c) id,
        ))
]

stop-Speaks_at :
    (now : ℕ) (hub : VoiceHub) (u user i id : String) (since : ℕ)
    → i ≡ id
    → u ≢ user
    → Speaks user since (find hub.channels id)
    → Speaks user since (find (stop_transmission now hub u i).0.channels id)
unfolding stop_transmission
stop-Speaks_at now hub u user i id since e s h = elim (Option-cases (find hub.channels id)) [
  | inl none_at ↦ ground arith
  | inr (c, c_at) ↦ rw (e, c_at, stop_transmission) (ground (arith, eq_iff c.current_speaker u))
]

step-Speaks :
    (hub : VoiceHub) (c : ℕ × Call) (user id : String) (since : ℕ)
    → IsMap hub.channels
    → spares user id since c ≡ true
    → Speaks user since (find hub.channels id)
    → Speaks user since (find (step hub c).channels id)
unfolding step obtain occupy vacate start_transmission stop_transmission cleanup_inactive_channels
step-Speaks hub (now, start u i) user id since m s h = elim (Bool-cases (i == id)) [
  | inl e ↦ start-Speaks_at now hub u user i id since ((eq_iff i id).0 e) s h
  | inr e ↦
      ground
        (arith, find-put_cases hub.channels i (occupy now u (obtain i (find hub.channels i))) id)
]
step-Speaks hub (now, stop u i) user id since m s h = elim (Bool-cases (i == id)) [
  | inl e ↦
      stop-Speaks_at now hub u user i id since ((eq_iff i id).0 e)
        (λ same. cc (s, e, (eq_iff u user).1 same)) h
  | inr e ↦
      ground (arith, find-put_cases hub.channels i (vacate now (obtain i (find hub.channels i))) id)
]
step-Speaks hub (now, cleanup timeout) user id since m s h =
    ground (arith, find-retain (λ _ channel. not (inactive now timeout channel)) hub.channels id m)

run-Speaks :
    (hub : VoiceHub) (cs : List (ℕ × Call)) (user id : String) (since : ℕ)
    → IsMap hub.channels
    → All (λ c. spares user id since c ≡ true) cs
    → Speaks user since (find hub.channels id)
    → Speaks user since (find (run hub cs).channels id)
unfolding run
run-Speaks hub [] user id since m s h = h
run-Speaks hub (c ∷ cs) user id since m s h =
    run-Speaks (step hub c) cs user id since (step-IsMap hub c m) s.1
      (step-Speaks hub c user id since m s.0 h)

start-Speaks :
    (now : ℕ) (hub : VoiceHub) (user id : String)
    → (start_transmission now hub user id).1 ≡ none
    → Speaks user now (find (start_transmission now hub user id).0.channels id)
unfolding start_transmission
start-Speaks now hub user id ok = ground (
  arith,
  eq_iff id id,
  find-put_cases hub.channels id (occupy now user (obtain id (find hub.channels id))) id,
)

-- Where each channel has one entry and a start was let through, the user speaks on that channel
-- after any history of calls at later times, by whomever, that holds no stop of this user there
-- and no clean-up so late that its timeout has passed since the start.
pub run_keeps_floor :
    (now : ℕ) (hub : VoiceHub) (user id : String) (cs : List (ℕ × Call))
    → IsMap hub.channels
    → (start_transmission now hub user id).1 ≡ none
    → All (λ c. spares user id now c ≡ true) cs
    → get_channel_status (run (start_transmission now hub user id).0 cs) id ≡ speaking user id
unfolding step get_channel_status
run_keeps_floor now hub user id cs m ok s = ground (
  arith,
  run-Speaks (step hub (now, start user id)) cs user id now (step-IsMap hub (now, start user id) m)
      s (start-Speaks now hub user id ok),
)
