-- ===== src/Voice/Leases.antt =====
-- backend/internal/voice/service.go implements a table of leases: each channel has at most one holder,
-- with the time at which the lease was last renewed.
use trabalho_radio_px.Prelude.{
  ℕ, ◌+◌, String, ◌≡◌, ap, sym, ◌∙◌, refl, Bool, true, false, not, Bool-cases, Option-cases, inl,
  inr, Option, none, some, List, [], ◌∷◌, arith, ltb, All, ◌⊎◌, if◌then◌else◌, ◌==◌, eq_iff,
}
use trabalho_radio_px.Prelude.Map.{IsMap, find, find-put, find-put_cases, find-retain}
use trabalho_radio_px.Voice.{
  VoiceHub, ChannelState, VoiceError, channel_busy, channel_not_found, not_speaker, obtain, occupy,
  vacate, start_transmission, stop_transmission, stop_entry, cleanup_inactive_channels, inactive,
}
use trabalho_radio_px.Voice.Calls.{Call, start, stop, cleanup, step, run, step-IsMap}

-- The abstract state: who holds a channel, and since when.
abbrev pub Leases : Type 0
Leases = String → Option (String × ℕ)

abbrev pub set : Leases → String → Option (String × ℕ) → Leases
set l id lease other = if id == other then lease else l other

-- A lease may be taken that nobody else holds.
abbrev pub may_take : Option (String × ℕ) → String → Bool
may_take none user = true
may_take (some (holder, _)) user = holder == user

abbrev pub acquire : ℕ → Leases → String → String → Leases
acquire now l user id = if may_take (l id) user then set l id (some (user, now)) else l

abbrev pub held_by : Option (String × ℕ) → String → Bool
held_by none user = false
held_by (some (holder, _)) user = holder == user

abbrev pub release : Leases → String → String → Leases
release l user id = if held_by (l id) user then set l id none else l

abbrev pub renewed : ℕ → ℕ → Option (String × ℕ) → Option (String × ℕ)
renewed now timeout none = none
renewed now timeout (some (holder, since)) =
    if ltb (since + timeout) now then none else some (holder, since)

abbrev pub abstract_step : Leases → ℕ × Call → Leases
abstract_step l (now, start user id) = acquire now l user id
abstract_step l (now, stop user id) = release l user id
abstract_step l (now, cleanup timeout) = λ id. renewed now timeout (l id)

-- A history of calls on the leases.
unfoldable pub replay : Leases → List (ℕ × Call) → Leases
replay l [] = l
replay l (c ∷ cs) = replay (abstract_step l c) cs

-- The error of a start, `none` for nil.
abbrev pub start_error : Option (String × ℕ) → String → Option VoiceError
start_error lease user = if may_take lease user then none else some channel_busy

abbrev pub stop_error : Option (String × ℕ) → String → Option VoiceError
stop_error lease user = if held_by lease user then none else some not_speaker

-- The errors that the starts and the stops of a history get.
unfoldable pub refusals : Leases → List (ℕ × Call) → List (Option VoiceError)
refusals l [] = []
refusals l ((now, start user id) ∷ cs) =
    start_error (l id) user ∷ refusals (abstract_step l (now, start user id)) cs
refusals l ((now, stop user id) ∷ cs) =
    stop_error (l id) user ∷ refusals (abstract_step l (now, stop user id)) cs
refusals l ((now, cleanup timeout) ∷ cs) = refusals (abstract_step l (now, cleanup timeout)) cs

-- A channel without an entry is one on which the user does not speak.
abbrev pub unheld : Option VoiceError → Option VoiceError
unheld none = none
unheld (some channel_busy) = some channel_busy
unheld (some channel_not_found) = some not_speaker
unheld (some not_speaker) = some not_speaker

unfoldable pub answers : VoiceHub → List (ℕ × Call) → List (Option VoiceError)
answers hub [] = []
answers hub ((now, start user id) ∷ cs) =
    (start_transmission now hub user id).1 ∷ answers (step hub (now, start user id)) cs
answers hub ((now, stop user id) ∷ cs) =
    unheld (stop_transmission now hub user id).1 ∷ answers (step hub (now, stop user id)) cs
answers hub ((now, cleanup timeout) ∷ cs) = answers (step hub (now, cleanup timeout)) cs

-- The lease that an entry stands for.
abbrev pub lease : Option ChannelState → Option (String × ℕ)
lease none = none
lease (some c) = if c.is_transmitting then some (c.current_speaker, c.last_activity) else none

abbrev pub view : VoiceHub → Leases
view hub id = lease (find hub.channels id)

lease_if :
    (b : Bool) (c d : Option ChannelState)
    → lease (if b then c else d) ≡ (if b then lease c else lease d)
lease_if true c d = refl
lease_if false c d = refl

start-answer :
    (now : ℕ) (hub : VoiceHub) (user id : String)
    → (start_transmission now hub user id).1 ≡ start_error (view hub id) user
unfolding start_transmission obtain
start-answer now hub user id = ground arith

-- An entry on which nobody transmits names no speaker.
abbrev pub IsIdle : Option ChannelState → Type 0
IsIdle none = Unit
IsIdle (some c) = (c.is_transmitting ≡ true) ⊎ (c.current_speaker ≡ "")

-- Each channel has one entry, and an entry on which nobody transmits names no speaker.
pub record IsValid (hub : VoiceHub) : Type 0 where
  pub keys : IsMap hub.channels
  pub idle : (id : String) → IsIdle (find hub.channels id)

-- The call is no stop of the empty user.
abbrev pub Named : ℕ × Call → Type 0
Named (now, start user id) = Unit
Named (now, stop user id) = (user == "") ≡ false
Named (now, cleanup timeout) = Unit

step-IsIdle :
    (hub : VoiceHub) (c : ℕ × Call) (other : String)
    → IsMap hub.channels
    → IsIdle (find hub.channels other)
    → IsIdle (find (step hub c).channels other)
unfolding step start_transmission stop_transmission stop_entry cleanup_inactive_channels obtain
    occupy vacate
step-IsIdle hub (now, start user id) other m h = elim (Option-cases (find hub.channels id)) [
  | inl e ↦ ground (arith, find-put_cases hub.channels id (occupy now user (obtain id none)) other)
  | inr (c, e) ↦ ground (arith, find-put_cases hub.channels id (occupy now user c) other)
]
step-IsIdle hub (now, stop user id) other m h = elim (Option-cases (find hub.channels id)) [
  | inl e ↦ ground arith
  | inr (c, e) ↦ ground (arith, find-put_cases hub.channels id (vacate now c) other)
]
step-IsIdle hub (now, cleanup timeout) other m h =
    ground
      (arith, find-retain (λ _ channel. not (inactive now timeout channel)) hub.channels other m)

step-IsValid : (hub : VoiceHub) (c : ℕ × Call) → IsValid hub → IsValid (step hub c)
step-IsValid hub c v = record {
  keys = step-IsMap hub c v.keys;
  idle = λ other. step-IsIdle hub c other v.keys (v.idle other);
}

stop-answer :
    (now : ℕ) (hub : VoiceHub) (user id : String)
    → (user == "") ≡ false
    → IsIdle (find hub.channels id)
    → unheld (stop_transmission now hub user id).1 ≡ stop_error (view hub id) user
unfolding stop_transmission stop_entry
stop-answer now hub user id named h = elim (Option-cases (find hub.channels id)) [
  | inl e ↦ rw (stop_transmission, e) refl
  | inr (c, e) ↦ ground (arith, eq_iff c.current_speaker user, eq_iff user "")
]

start-view :
    (now : ℕ) (hub : VoiceHub) (user id other : String)
    → view (start_transmission now hub user id).0 other ≡ acquire now (view hub) user id other
unfolding start_transmission obtain occupy
start-view now hub user id other = elim (Option-cases (find hub.channels id)) [
  | inl e ↦ rw (start_transmission, e, find-put) (lease_if (id == other) _ _)
  | inr (c, e) ↦ elim (Bool-cases c.is_transmitting) [
    | inr t ↦ rw (start_transmission, e, t, find-put) (lease_if (id == other) _ _)
    | inl t ↦ elim (Bool-cases (c.current_speaker == user)) [
      | inl s ↦ rw (start_transmission, e, t, s, find-put) (lease_if (id == other) _ _)
      | inr s ↦ rw (start_transmission, e, t, s) refl
    ]
  ]
]

stop-view :
    (now : ℕ) (hub : VoiceHub) (user id other : String)
    → view (stop_transmission now hub user id).0 other ≡ release (view hub) user id other
unfolding stop_transmission stop_entry vacate
stop-view now hub user id other = elim (Option-cases (find hub.channels id)) [
  | inl e ↦ rw (stop_transmission, e) refl
  | inr (c, e) ↦ elim (Bool-cases (c.current_speaker == user)) [
    | inl s ↦ elim (Bool-cases c.is_transmitting) [
      | inl t ↦ rw (stop_transmission, e, s, t, s, find-put) (lease_if (id == other) _ _)
      | inr t ↦
          rw (stop_transmission, e, s, t, find-put)
            (elim (Bool-cases (id == other)) [
              | inl k ↦
                  let there = ap (find hub.channels) (sym ((eq_iff id other).0 k)) ∙ e in
                  rw (k, there, t) refl
              | inr k ↦ rw k refl
            ])
    ]
    | inr s ↦ elim (Bool-cases c.is_transmitting) [
      | inl t ↦ rw (stop_transmission, e, s, t, s) refl
      | inr t ↦ rw (stop_transmission, e, s, t) refl
    ]
  ]
]

cleanup-view :
    (now : ℕ) (hub : VoiceHub) (timeout : ℕ) (id : String)
    → IsMap hub.channels
    → view (cleanup_inactive_channels now hub timeout) id ≡ renewed now timeout (view hub id)
unfolding cleanup_inactive_channels
cleanup-view now hub timeout id m =
    ground (arith, find-retain (λ _ channel. not (inactive now timeout channel)) hub.channels id m)

step-view :
    (hub : VoiceHub) (c : ℕ × Call)
    → IsMap hub.channels
    → view (step hub c) ≡ abstract_step (view hub) c
unfolding step
step-view hub (now, start user id) m = λ i other. start-view now hub user id other i
step-view hub (now, stop user id) m = λ i other. stop-view now hub user id other i
step-view hub (now, cleanup timeout) m = λ i id. cleanup-view now hub timeout id m i

-- What a history has after its first call, seen from the leases after that call.
rest_refines :
    (c : ℕ × Call) (cs : List (ℕ × Call)) (hub : VoiceHub)
    → IsMap hub.channels
    → (answers (step hub c) cs ≡ refusals (view (step hub c)) cs)
      × (view (run (step hub c) cs) ≡ replay (view (step hub c)) cs)
    → (answers (step hub c) cs ≡ refusals (abstract_step (view hub) c) cs)
      × (view (run (step hub c) cs) ≡ replay (abstract_step (view hub) c) cs)
rest_refines c cs hub m (a, b) =
    let v = step-view hub c m in (a ∙ ap (λ l. refusals l cs) v, b ∙ ap (λ l. replay l cs) v)

-- Whatever starts, stops and clean-ups are called, the voice service answers as a table of leases
-- does, and stands for the leases that the table holds then: a start gets ErrChannelBusy exactly where
-- somebody else holds the channel, and a stop an error exactly where the user does not hold it
-- (ErrNotSpeaker, or ErrChannelNotFound, which counts as the same). This holds if no stop names the
-- empty user and, at the start, each channel has one entry, which names no speaker where nobody
-- transmits.
pub run_refines :
    (cs : List (ℕ × Call)) (hub : VoiceHub)
    → IsValid hub
    → All Named cs
    → (answers hub cs ≡ refusals (view hub) cs) × (view (run hub cs) ≡ replay (view hub) cs)
unfolding answers refusals run replay
run_refines [] hub v n = (refl, refl)
run_refines ((now, start user id) ∷ cs) hub v n =
    let c : ℕ × Call = (now, start user id) in
    let (a, b) =
      rest_refines c cs hub v.keys (run_refines cs (step hub c) (step-IsValid hub c v) n.1) in
    (
      ap (λ x. x ∷ answers (step hub c) cs) (start-answer now hub user id)
          ∙ ap (λ xs. start_error (view hub id) user ∷ xs) a,
      b,
    )
run_refines ((now, stop user id) ∷ cs) hub v n =
    let c : ℕ × Call = (now, stop user id) in
    let (a, b) =
      rest_refines c cs hub v.keys (run_refines cs (step hub c) (step-IsValid hub c v) n.1) in
    (
      ap (λ x. x ∷ answers (step hub c) cs) (stop-answer now hub user id n.0 (v.idle id))
          ∙ ap (λ xs. stop_error (view hub id) user ∷ xs) a,
      b,
    )
run_refines ((now, cleanup timeout) ∷ cs) hub v n =
    let c : ℕ × Call = (now, cleanup timeout) in
    rest_refines c cs hub v.keys (run_refines cs (step hub c) (step-IsValid hub c v) n.1)
