-- ===== src/Client/Release.antt =====
-- backend/pkg/websocket/client.go, releaseVoice: what a disconnection does to the floor.
use trabalho_radio_px.Prelude.{
  ℕ, String, ◌≡◌, ap, sym, ◌∙◌, refl, Bool, true, false, not, ◌&&◌, Bool-cases, Option-cases, inl,
  inr, some, List, [], ◌∷◌, arith, if◌then◌else◌, ◌==◌, eq_iff, eq_refl, nat_eq,
}
use trabalho_radio_px.Prelude.Map.{find, find-put}
use trabalho_radio_px.Prelude.Sets.{String_comparable, contains, contains-remove, nat_eq_iff}
use trabalho_radio_px.Voice.{
  VoiceHub, VoiceStatus, stop_transmission, stop_entry, vacate, can_transmit, get_current_speaker,
  get_channel_status, speaking, silent,
}
use trabalho_radio_px.Hub.{leave_room, update}
use trabalho_radio_px.Client.{
  Encoding, Client, World, Readings, leave_message, handle_message, release_rooms, release_voice,
}

if_and :
    {A : Type 0} (a b : Bool) (x y : A)
    → (if a then (if b then x else y) else y) ≡ (if a && b then x else y)
if_and a b x y = ground arith

nat_eq_self : (n : ℕ) → nat_eq n n ≡ true
nat_eq_self n = (nat_eq_iff n n).1 refl

-- The status of a channel that is freed if the user speaks there.
abbrev pub freed : String → String → VoiceStatus → VoiceStatus
freed user id s = if s.current_speaker == user then silent id else s

get_current_speaker-status :
    (v : VoiceHub) (id : String)
    → get_current_speaker v id ≡ (get_channel_status v id).current_speaker
unfolding get_current_speaker get_channel_status
get_current_speaker-status v id = ground arith

stop-freed :
    (now : ℕ) (v : VoiceHub) (user room id : String)
    → get_channel_status (stop_transmission now v user room).0 id
      ≡ (if room == id then freed user id (get_channel_status v id) else get_channel_status v id)
unfolding stop_transmission stop_entry vacate get_channel_status
stop-freed now v user room id = elim (Option-cases (find v.channels room)) [
  | inl e ↦
      rw (stop_transmission, e)
        (elim (Bool-cases (room == id)) [
          | inl k ↦ rw k (
              let there = ap (find v.channels) (sym ((eq_iff room id).0 k)) ∙ e in
              rw (get_channel_status, there) (ground arith))
          | inr k ↦ rw k refl
        ])
  | inr (ch, e) ↦ elim (Bool-cases (ch.current_speaker == user)) [
    | inl s ↦
        rw (stop_transmission, e, s)
          (elim (Bool-cases (room == id)) [
            | inl k ↦
                let there = ap (find v.channels) (sym ((eq_iff room id).0 k)) ∙ e in
                rw (k, get_channel_status, find-put, k, there, s) refl
            | inr k ↦ rw (k, get_channel_status, find-put, k) refl
          ])
    | inr s ↦
        rw (stop_transmission, e, s)
          (elim (Bool-cases (room == id)) [
            | inl k ↦ rw k (
                let there = ap (find v.channels) (sym ((eq_iff room id).0 k)) ∙ e in
                rw (get_channel_status, there, s) refl)
            | inr k ↦ rw k refl
          ])
  ]
]

freed_twice :
    (user id : String) (s : VoiceStatus) → freed user id (freed user id s) ≡ freed user id s
freed_twice user id s = ground arith

release_rooms-freed :
    (rooms : List String) (clock : String → ℕ) (v : VoiceHub) (user id : String)
    → get_channel_status (release_rooms rooms clock v user) id ≡ (
        if contains rooms id
        then freed user id (get_channel_status v id)
        else get_channel_status v id)
unfolding release_rooms contains
release_rooms-freed [] clock v user id = refl
release_rooms-freed (room ∷ rooms) clock v user id =
    release_rooms-freed rooms clock (stop_transmission (clock room) v user room).0 user id
    ∙ rw stop-freed (elim (Bool-cases (room == id)) [
      | inl e ↦ rw (e, freed_twice) (ground arith)
      | inr e ↦ rw e refl
    ])

-- After a guarded client released its floor, each channel whose room is in the client's set and where
-- the client's user spoke is free, and every other channel is as it was.
pub release_voice-status :
    (clock : String → ℕ) (w : World) (c : Client) (id : String)
    → c.guarded ≡ true
    → get_channel_status (release_voice clock w c).voice id ≡ (
        if contains (w.hub.heap c.pointer).rooms id && (get_current_speaker w.voice id == c.user_id)
        then silent id
        else get_channel_status w.voice id)
unfolding release_voice
release_voice-status clock w c id g =
    rw (g, get_current_speaker-status)
      (release_rooms-freed (w.hub.heap c.pointer).rooms clock w.voice c.user_id id
        ∙ if_and _ _ (silent id) (get_channel_status w.voice id))

can_transmit-status :
    (v : VoiceHub) (user id : String)
    → can_transmit v user id ≡ (
        if not (get_channel_status v id).is_transmitting
        then true
        else ((get_channel_status v id).current_speaker == user))
unfolding can_transmit get_channel_status
can_transmit-status v user id = ground arith

-- Once the speaker's client released its floor, with the channel's room in its set, everybody can
-- transmit on the channel.
pub release_voice-can_transmit :
    (clock : String → ℕ) (w : World) (c : Client) (id other : String)
    → c.guarded ≡ true
    → contains (w.hub.heap c.pointer).rooms id ≡ true
    → get_current_speaker w.voice id ≡ c.user_id
    → can_transmit (release_voice clock w c).voice other id ≡ true
release_voice-can_transmit clock w c id other g i s =
    rw (can_transmit-status, release_voice-status clock w c id g, i, s, eq_refl c.user_id) refl

-- A client that leaves the room on whose channel its user speaks releases nothing there when it
-- disconnects: the channel stays taken.
pub leave_room-release_voice :
    (e : Encoding) (r : Readings) (clock : String → ℕ) (w : World) (c : Client) (room : String)
    → get_channel_status w.voice room ≡ speaking c.user_id room
    → get_channel_status
        (release_voice clock (handle_message e r w c (leave_message (some room))) c).voice
        room
      ≡ speaking c.user_id room
unfolding handle_message leave_room update release_voice
leave_room-release_voice e r clock w c room s =
    let left = handle_message e r w c (leave_message (some room)) in
    let gone : contains (left.hub.heap c.pointer).rooms room ≡ false =
      rw (nat_eq_self c.pointer, contains-remove, eq_refl room) refl in
    elim (Bool-cases c.guarded) [
      | inl g ↦ rw (release_voice-status clock left c room g, gone) s
      | inr g ↦ rw (release_voice, g) s
    ]
