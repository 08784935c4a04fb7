-- ===== src/Client/Speech.antt =====
-- backend/pkg/websocket/client.go, the audio case of handleMessage: who is heard.
use trabalho_radio_px.Prelude.{
  ℕ, ◌+◌, ◌<◌, ◌≤◌, ◌⊎◌, String, ◌≡◌, ap, subst, ◌∙◌, refl, true, false, Bool-cases, Option-cases,
  inl, inr, Option, none, some, List, [], ◌∷◌, ◌++◌, take, take_of_length-le, arith, ◌==◌, eq_refl,
  ◌&&◌, if◌then◌else◌,
}
use trabalho_radio_px.Prelude.Int.{ℤ, max_int64}
use trabalho_radio_px.Prelude.Sets.{String_comparable, contains}
use trabalho_radio_px.Voice.{
  VoiceHub, start_transmission, stop_transmission, can_transmit, get_current_speaker,
  get_channel_status, speaking, channel_busy,
}
use trabalho_radio_px.Voice.Floor.{start-can_transmit, start-status}
use trabalho_radio_px.Buffer.{add_message, get_messages, counter}
use trabalho_radio_px.Buffer.Numbering.{IsSequenced}
use trabalho_radio_px.Buffer.Replay.{get-add_message}
use trabalho_radio_px.Hub.{Message, Hub}
use trabalho_radio_px.Client.{
  Encoding, Client, World, Readings, AudioRequest, relayed, replayed, replay_all, terminator,
  guard_audio, keep_audio, audio_bytes, handle_audio, send_replay,
}
use trabalho_radio_px.Client.Replay.{Sent, free, packets, send_replay_lem}

guard_audio-busy :
    (now : ℕ) (w : World) (c : Client) (req : AudioRequest)
    → c.guarded ≡ true
    → req.is_ptt ≡ true
    → can_transmit w.voice c.user_id req.room ≡ false
    → guard_audio now w c req ≡ none
unfolding guard_audio
guard_audio-busy now w c req g p busy =
    let q : start_transmission now w.voice c.user_id req.room ≡ (w.voice, some channel_busy) =
      start-can_transmit now w.voice c.user_id req.room ∙ rw busy refl in
    rw (guard_audio, g, p, q) refl

guard_audio-free :
    (now : ℕ) (w : World) (c : Client) (req : AudioRequest)
    → c.guarded ≡ true
    → req.is_ptt ≡ true
    → can_transmit w.voice c.user_id req.room ≡ true
    → guard_audio now w c req
      ≡ some (record w { voice = (start_transmission now w.voice c.user_id req.room).0 })
unfolding guard_audio
guard_audio-free now w c req g p free =
    let q : (start_transmission now w.voice c.user_id req.room).1 ≡ none =
      ap (λ r. r.1) (start-can_transmit now w.voice c.user_id req.room) ∙ rw free refl in
    rw (guard_audio, g, p, q) refl

stop_other :
    (now : ℕ) (v : VoiceHub) (user room : String)
    → (get_current_speaker v room == user) ≡ false
    → (stop_transmission now v user room).0 ≡ v
unfolding stop_transmission get_current_speaker
stop_other now v user room s = ground arith

-- The voice state after a packet without push-to-talk: a client's own transmission is stopped.
abbrev pub released : ℕ → World → Client → AudioRequest → VoiceHub
released now w c req =
    if c.guarded && (get_current_speaker w.voice req.room == c.user_id)
    then (stop_transmission now w.voice c.user_id req.room).0
    else w.voice

guard_audio-other :
    (now : ℕ) (w : World) (c : Client) (req : AudioRequest)
    → req.is_ptt ≡ false
    → guard_audio now w c req ≡ some (record w { voice = released now w c req })
unfolding guard_audio
guard_audio-other now w c req p = elim (Bool-cases c.guarded) [
  | inr g ↦ rw (guard_audio, g) refl
  | inl g ↦ elim (Bool-cases (get_current_speaker w.voice req.room == c.user_id)) [
    | inl s ↦ rw (guard_audio, g, p, s) refl
    | inr s ↦ rw (guard_audio, g, p, s, stop_other now w.voice c.user_id req.room s) refl
  ]
]

module _ (e : Encoding) where
  keep_audio-same :
      (r : Readings) (w : World) (c : Client) (req : AudioRequest)
      → ((keep_audio e r w c req).0.voice ≡ w.voice)
        × ((keep_audio e r w c req).0.hub ≡ w.hub)
        × ((keep_audio e r w c req).0.broadcasts ≡ w.broadcasts)
  unfolding keep_audio
  keep_audio-same r w c req = elim (Option-cases (audio_bytes e c req)) [
    | inl n ↦ rw (keep_audio, n) (refl, refl, refl)
    | inr (bytes, s) ↦ rw (keep_audio, s) (refl, refl, refl)
  ]

  -- Push-to-talk audio of a guarded client is heard exactly where the user can transmit: then the
  -- packet is put among the broadcasts, the user speaks on the channel, and the hub is as it was; and
  -- otherwise nothing changes at all.
  pub handle_audio-can_transmit :
      (r : Readings) (w : World) (c : Client) (req : AudioRequest)
      → c.guarded ≡ true
      → req.is_ptt ≡ true
      → let after = handle_audio e r w c req in
        ((can_transmit w.voice c.user_id req.room ≡ true)
          × (get_channel_status after.voice req.room ≡ speaking c.user_id req.room)
          × (after.hub ≡ w.hub)
          × ((stamp : Option (ℤ × ℕ)) × (after.broadcasts
                ≡ w.broadcasts ++ relayed c req stamp ∷ [])))
        ⊎ ((can_transmit w.voice c.user_id req.room ≡ false) × (after ≡ w))
  unfolding handle_audio guard_audio
  handle_audio-can_transmit r w c req g p =
      elim (Bool-cases (can_transmit w.voice c.user_id req.room)) [
        | inl free ↦
            let started : World = record w {
              voice = (start_transmission r.voice_time w.voice c.user_id req.room).0;
            } in
            let (v, h, b) = keep_audio-same r started c req in
            rw (handle_audio, guard_audio-free r.voice_time w c req g p free)
              (inl (
                free,
                ap (λ k. get_channel_status k req.room) v
                    ∙ start-status r.voice_time w.voice c.user_id req.room req.room free
                    ∙ rw (eq_refl req.room) refl,
                h,
                (
                  (keep_audio e r started c req).1,
                  ap (λ ms. ms ++ relayed c req (keep_audio e r started c req).1 ∷ []) b,
                ),
              ))
        | inr busy ↦
            inr (busy, rw (handle_audio, guard_audio-busy r.voice_time w c req g p busy) refl)
      ]

  -- A packet without push-to-talk is relayed to the room whoever speaks there, and neither the hub nor
  -- the buffer changes; a guarded client's own transmission there is stopped, and where another user
  -- speaks or the client has no guard the voice state stays as it was.
  pub handle_audio-bypass :
      (r : Readings) (w : World) (c : Client) (req : AudioRequest)
      → req.is_ptt ≡ false
      → ((handle_audio e r w c req).broadcasts ≡ w.broadcasts ++ relayed c req none ∷ [])
        × ((handle_audio e r w c req).hub ≡ w.hub)
        × ((handle_audio e r w c req).buffer ≡ w.buffer)
        × ((handle_audio e r w c req).voice ≡ released r.voice_time w c req)
  unfolding handle_audio guard_audio keep_audio audio_bytes
  handle_audio-bypass r w c req p =
      rw (handle_audio, guard_audio-other r.voice_time w c req p, kept_nothing)
        (refl, refl, refl, refl)
    where
      nothing : audio_bytes e c req ≡ none
      nothing = ground arith

      kept_nothing :
          keep_audio e r (record w { voice = released r.voice_time w c req }) c req
          ≡ (record w { voice = released r.voice_time w c req }, none)
      kept_nothing = rw (keep_audio, nothing) refl

  audio_bytes-some :
      (c : Client) (req : AudioRequest) (b : ℕ) (bytes : List ℕ)
      → c.buffered ≡ true
      → req.is_ptt ≡ true
      → (req.audio == "") ≡ false
      → e.decode_base64_audio req.audio ≡ some (b ∷ bytes)
      → audio_bytes e c req ≡ some (b ∷ bytes)
  unfolding audio_bytes
  audio_bytes-some c req b bytes k p a d = rw (audio_bytes, k, p, a, d) refl

  -- The world after a packet that is heard and kept.
  kept :
      (r : Readings) (w : World) (c : Client) (req : AudioRequest) (b : ℕ) (bytes : List ℕ)
      → c.guarded ≡ true
      → req.is_ptt ≡ true
      → can_transmit w.voice c.user_id req.room ≡ true
      → audio_bytes e c req ≡ some (b ∷ bytes)
      → ((handle_audio e r w c req).hub ≡ w.hub)
        × ((handle_audio e r w c req).buffer
            ≡ (add_message r.message_id r.message_time r.cleanup_time w.buffer req.room c.user_id
                (b ∷ bytes)).0)
  unfolding handle_audio keep_audio
  kept r w c req b bytes g p free s =
      rw (handle_audio, guard_audio-free r.voice_time w c req g p free, keep_audio, s) (refl, refl)

  -- Push-to-talk audio that is heard and not empty is what a listener in the room gets who asks for a
  -- replay from the last number before it: the packet, whose audio decodes to the bytes that were
  -- spoken, and the terminator. This holds where the room's numbers grow strictly up to its counter,
  -- which is below 2^63 - 1, the clean-up ran before the packet was too old, and the listener's
  -- channel is open and has two free places.
  pub handle_audio-send_replay :
      (r : Readings) (w : World) (c d : Client) (req : AudioRequest) (b : ℕ) (bytes : List ℕ)
      (limit : ℕ)
      → c.guarded ≡ true
      → c.buffered ≡ true
      → req.is_ptt ≡ true
      → (req.audio == "") ≡ false
      → e.decode_base64_audio req.audio ≡ some (b ∷ bytes)
      → can_transmit w.voice c.user_id req.room ≡ true
      → limit < max_int64
      → IsSequenced limit w.buffer req.room
      → r.cleanup_time < r.message_time + w.buffer.config.max_duration
      → d.buffered ≡ true
      → contains (w.hub.heap d.pointer).rooms req.room ≡ true
      → (w.hub.heap d.pointer).closed ≡ false
      → 2 ≤ free (w.hub.heap d.pointer)
      → (m : Message) × (e.decode_base64_audio m.payload.audio ≡ some (b ∷ bytes))
        × (m.payload.user_id ≡ some c.user_id)
        × Sent w.hub d.pointer
            (m ∷ terminator ∷ [])
            (send_replay e (handle_audio e r w c req) d req.room (counter w.buffer req.room)).hub
  unfolding packets replay_all add_message
  handle_audio-send_replay r w c d req b bytes limit g k p a s t l q o x i y z =
      let after = handle_audio e r w c req in
      let (h, f) = kept r w c req b bytes g p t (audio_bytes-some c req b bytes k p a s) in
      let added =
        add_message r.message_id r.message_time r.cleanup_time w.buffer req.room c.user_id
          (b ∷ bytes) in
      let got : get_messages after.buffer req.room (counter w.buffer req.room) ≡ added.1 ∷ [] =
        ap (λ buffer. get_messages buffer req.room (counter w.buffer req.room)) f
        ∙ get-add_message limit r.message_id r.message_time r.cleanup_time w.buffer req.room
            c.user_id (b ∷ bytes) l q o in
      let answer = (send_replay e after d req.room (counter w.buffer req.room)).hub in
      let sent =
        send_replay_lem e after d req.room (counter w.buffer req.room) x
          (ap (λ (k : Hub). contains (k.heap d.pointer).rooms req.room) h ∙ i)
          (ap (λ (k : Hub). (k.heap d.pointer).closed) h ∙ y) in
      (
        replayed e added.1,
        e.decode-encode (b ∷ bytes),
        refl,
        subst (λ ms. Sent w.hub d.pointer ms answer)
            (take_of_length-le (free (w.hub.heap d.pointer)) (replayed e added.1 ∷ terminator ∷ [])
              z)
            (subst
              (λ ms.
                Sent w.hub d.pointer (take (free (w.hub.heap d.pointer)) (packets e ms)) answer)
              got
              (subst
                (λ (k : Hub).
                  Sent k d.pointer
                    (take (free (k.heap d.pointer))
                      (packets e (get_messages after.buffer req.room (counter w.buffer req.room))))
                    answer)
                h sent)),
      )
