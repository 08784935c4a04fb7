-- ===== src/Voice/Floor.antt =====
-- One call of backend/internal/voice/service.go and what the channel's status says after it.
use trabalho_radio_px.Prelude.{
  ℕ, ◌+◌, String, ◌≡◌, true, none, some, arith, if◌then◌else◌, ◌==◌, eq_iff, Bool-cases, inl, inr,
  not, [], ◌∷◌,
}
use trabalho_radio_px.Prelude.Map.{Map, IsMap, find, put, find-put_cases, find-retain}
use trabalho_radio_px.Voice.{
  VoiceHub, ChannelState, channel_busy, obtain, occupy, vacate, start_transmission,
  stop_transmission, can_transmit, is_channel_busy, get_channel_status, cleanup_inactive_channels,
  inactive, speaking, silent, count_active, active_channels_count,
}

-- A start is refused exactly when `can_transmit` is false, as busy, and a refusal changes nothing.
pub start-can_transmit :
    (now : ℕ) (hub : VoiceHub) (user id : String)
    → start_transmission now hub user id ≡ (
        if can_transmit hub user id
        then ((start_transmission now hub user id).0, none)
        else (hub, some channel_busy))
unfolding start_transmission can_transmit
start-can_transmit now hub user id = ground arith

-- After a start that was let through the user speaks there, and every other channel is as before.
pub start-status :
    (now : ℕ) (hub : VoiceHub) (user id other : String)
    → can_transmit hub user id ≡ true
    → get_channel_status (start_transmission now hub user id).0 other
      ≡ (if id == other then speaking user other else get_channel_status hub other)
unfolding start_transmission can_transmit get_channel_status
start-status now hub user id other h = elim (Bool-cases (id == other)) [
  | inl e ↦ rw e (
      ground (
        arith,
        find-put_cases hub.channels id (occupy now user (obtain id (find hub.channels id))) other,
      ))
  | inr e ↦ rw e (
      ground (
        arith,
        find-put_cases hub.channels id (occupy now user (obtain id (find hub.channels id))) other,
      ))
]

-- A stop by the user who speaks succeeds and frees the channel; every other channel is as before.
stop-status :
    (now : ℕ) (hub : VoiceHub) (user id other : String)
    → get_channel_status hub id ≡ speaking user id
    → ((stop_transmission now hub user id).1 ≡ none)
      × (get_channel_status (stop_transmission now hub user id).0 other
          ≡ (if id == other then silent other else get_channel_status hub other))
unfolding stop_transmission get_channel_status obtain
stop-status now hub user id other h = elim (Bool-cases (id == other)) [
  | inl e ↦ rw e (
      ground (
        arith,
        eq_iff user user,
        find-put_cases hub.channels id (vacate now (obtain id (find hub.channels id))) other,
      ))
  | inr e ↦ rw e (
      ground (
        arith,
        eq_iff user user,
        find-put_cases hub.channels id (vacate now (obtain id (find hub.channels id))) other,
      ))
]

-- Where each channel has one entry, the clean-up drops the entries that have been inactive for
-- longer than the timeout and no others.
cleanup-find :
    (now : ℕ) (hub : VoiceHub) (timeout : ℕ) (id : String)
    → IsMap hub.channels
    → find (cleanup_inactive_channels now hub timeout).channels id ≡ (elim (find hub.channels id) [
      | none ↦ none
      | some channel ↦ if inactive now timeout channel then none else some channel
    ])
unfolding cleanup_inactive_channels
cleanup-find now hub timeout id h =
    ground (arith, find-retain (λ id channel. not (inactive now timeout channel)) hub.channels id h)

count_active-put :
    (m : Map ChannelState) (id : String) (c : ChannelState)
    → c.is_transmitting ≡ true
    → count_active (put m id c)
      ≡ count_active m + (if is_channel_busy (record { channels = m }) id then 0 else 1)
unfolding count_active put find is_channel_busy
count_active-put [] id c h = ground arith
count_active-put ((j, d) ∷ m) id c h = ground (arith, count_active-put m id c h)

-- A start that is let through adds one active channel, or none where the channel was active
-- already.
start-active_channels_count :
    (now : ℕ) (hub : VoiceHub) (user id : String)
    → can_transmit hub user id ≡ true
    → active_channels_count (start_transmission now hub user id).0
      ≡ active_channels_count hub + (if is_channel_busy hub id then 0 else 1)
unfolding start_transmission can_transmit active_channels_count
start-active_channels_count now hub user id h =
    ground
      (arith, count_active-put hub.channels id (occupy now user (obtain id (find hub.channels id))))
