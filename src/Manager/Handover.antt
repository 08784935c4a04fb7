-- ===== src/Manager/Handover.antt =====
-- backend/internal/voice/buffer_manager.go: what a reconnection is handed, and when.
use mathlib.Core.List.{append_assoc}
use trabalho_radio_px.Prelude.{
  String, ◌≡◌, ◌≢◌, ◌++◌, refl, ap, ◌∙◌, sym, true, false, not, Bool-cases, Option-cases, inl, inr,
  none, some, List, [], ◌∷◌, arith, select, All, select_none, eq_refl,
}
use trabalho_radio_px.Prelude.Int.{pos}
use trabalho_radio_px.Prelude.Map.{Map, find, put, find-put}
use trabalho_radio_px.Buffer.{MessageBuffer, contains_id, get_unreplayed_messages, mark_as_replayed}
use trabalho_radio_px.Buffer.Replay.{replay-mark_all, unreplayed-mark}
use trabalho_radio_px.Manager.{
  BufferManager, ReconnectState, or_fresh, handle_reconnection, reconnect, confirm_replay,
  complete_replay, end_replay, get_reconnect_state, get_last_sequence,
}

find-put_self {ℓ} : {V : Type ℓ} (m : Map V) (k : String) (v : V) → find (put m k v) k ≡ some v
find-put_self m k v = rw (find-put, eq_refl k)

abbrev replaying : BufferManager → String → ReconnectState → BufferManager
replaying m channel s = record m {
  reconnect_states = put m.reconnect_states channel (record s {
    is_replaying = true;
    pending_messages = get_unreplayed_messages m.buffer_service channel;
  });
}

handle_unknown :
    (m : BufferManager) (channel user : String)
    → find m.reconnect_states channel ≡ none
    → handle_reconnection m channel user ≡ (m, [])
unfolding handle_reconnection
handle_unknown m channel user e = rw (e, reconnect)

handle_busy :
    (m : BufferManager) (channel user : String) (s : ReconnectState)
    → find m.reconnect_states channel ≡ some s
    → s.is_replaying ≡ true
    → handle_reconnection m channel user ≡ (m, [])
unfolding handle_reconnection
handle_busy m channel user s e busy = rw (e, reconnect, busy)

handle_idle :
    (m : BufferManager) (channel user : String) (s : ReconnectState)
    → find m.reconnect_states channel ≡ some s
    → s.is_replaying ≡ false
    → handle_reconnection m channel user
      ≡ (replaying m channel s, get_unreplayed_messages m.buffer_service channel)
unfolding handle_reconnection
handle_idle m channel user s e idle = rw (e, reconnect, idle)

handed_idle :
    (m : BufferManager) (channel user : String) (s : ReconnectState)
    → find m.reconnect_states channel ≡ some s
    → s.is_replaying ≡ false
    → (handle_reconnection m channel user).1 ≡ get_unreplayed_messages m.buffer_service channel
handed_idle m channel user s e idle = ap (λ r. r.1) (handle_idle m channel user s e idle)

-- A second reconnection to the channel right after a first one, by whomever, changes nothing and
-- is handed nothing.
reconnect_twice :
    (m : BufferManager) (channel user other : String)
    → handle_reconnection (handle_reconnection m channel user).0 channel other
      ≡ ((handle_reconnection m channel user).0, [])
reconnect_twice m channel user other = elim (Option-cases (find m.reconnect_states channel)) [
  | inl e ↦ rw (handle_unknown m channel user e) (handle_unknown m channel other e)
  | inr (s, e) ↦ elim (Bool-cases s.is_replaying) [
    | inl busy ↦ rw (handle_busy m channel user s e busy) (handle_busy m channel other s e busy)
    | inr idle ↦ rw (handle_idle m channel user s e idle) (
        handle_busy (replaying m channel s) channel other _
          (find-put_self m.reconnect_states channel _) refl)
  ]
]

-- Where the channel has lost a connection and is not replaying, a reconnection is handed exactly
-- the messages of the channel that are not replayed yet; they are kept as pending, and the channel is replaying.
reconnect_pending :
    (m : BufferManager) (channel user : String)
    → find m.reconnect_states channel ≢ none
    → (get_reconnect_state m channel).is_replaying ≡ false
    → let r = handle_reconnection m channel user in
      (r.1 ≡ get_unreplayed_messages m.buffer_service channel)
      × ((get_reconnect_state r.0 channel).pending_messages ≡ r.1)
      × ((get_reconnect_state r.0 channel).is_replaying ≡ true)
unfolding get_reconnect_state
reconnect_pending m channel user known idle =
    elim (Option-cases (find m.reconnect_states channel)) [
      | inl e ↦ absurd (known e)
      | inr (s, e) ↦
          let idle' : s.is_replaying ≡ false = sym (ap (λ o. (or_fresh o).is_replaying) e) ∙ idle in
          rw (handle_idle m channel user s e idle', find-put_self) (refl, refl, refl)
    ]

-- After a completed replay the state's last sequence is zero, whatever the channel holds.
pub complete_replay-last_sequence :
    (m : BufferManager) (channel : String)
    → (get_reconnect_state (complete_replay m channel) channel).last_sequence ≡ pos 0
unfolding complete_replay get_reconnect_state
complete_replay-last_sequence m channel = elim (Option-cases (find m.reconnect_states channel)) [
  | inl e ↦ rw (e, end_replay) (rw e)
  | inr (s, e) ↦
      rw (e, end_replay) (rw (find-put_self, get_last_sequence, replay-mark_all, eq_refl channel))
]

contains_id-append :
    (xs ys : List String) (id : String)
    → contains_id ys id ≡ true
    → contains_id (xs ++ ys) id ≡ true
unfolding contains_id
contains_id-append [] ys id h = h
contains_id-append (x ∷ xs) ys id h = ground (arith, contains_id-append xs ys id h)

contains_id-cons : (id : String) (ids : List String) → contains_id (id ∷ ids) id ≡ true
unfolding contains_id
contains_id-cons id ids = rw eq_refl

abbrev pub ids_of : List MessageBuffer → List String
ids_of [] = []
ids_of (m ∷ ms) = m.id ∷ ids_of ms

contains_id-ids_of :
    (before : List String) (ms : List MessageBuffer)
    → All (λ m. not (contains_id (before ++ ids_of ms) m.id) ≡ false) ms
contains_id-ids_of before [] = tt
contains_id-ids_of before (m ∷ ms) = (
  ap not (contains_id-append before (m.id ∷ ids_of ms) m.id (contains_id-cons m.id (ids_of ms))),
  rw append_assoc at (contains_id-ids_of (before ++ m.id ∷ []) ms),
)

select-confirmed :
    (ms : List MessageBuffer) → select (λ m. not (contains_id (ids_of ms) m.id)) ms ≡ []
select-confirmed ms = select_none _ ms (contains_id-ids_of [] ms)

confirm_unknown :
    (m : BufferManager) (channel : String) (ids : List String)
    → find m.reconnect_states channel ≡ none
    → confirm_replay m channel ids
      ≡ record m { buffer_service = mark_as_replayed m.buffer_service channel ids }
unfolding confirm_replay
confirm_unknown m channel ids e = rw (e, end_replay)

handed_after_confirm :
    (m : BufferManager) (channel other : String) (ids : List String) (s : ReconnectState)
    → find m.reconnect_states channel ≡ some s
    → (handle_reconnection (confirm_replay m channel ids) channel other).1
      ≡ get_unreplayed_messages (mark_as_replayed m.buffer_service channel ids) channel
unfolding confirm_replay
handed_after_confirm m channel other ids s e =
    rw (e, end_replay)
      (handed_idle _ channel other _ (find-put_self m.reconnect_states channel _) refl)

-- Once the messages that a reconnection was handed are confirmed, the next reconnection to the
-- channel is handed nothing, if the channel was not replaying before the first.
pub confirm-reconnect :
    (m : BufferManager) (channel user other : String)
    → (get_reconnect_state m channel).is_replaying ≡ false
    → let r = handle_reconnection m channel user in
      (handle_reconnection (confirm_replay r.0 channel (ids_of r.1)) channel other).1 ≡ []
unfolding get_reconnect_state
confirm-reconnect m channel user other idle =
    elim (Option-cases (find m.reconnect_states channel)) [
      | inl e ↦
          rw (handle_unknown m channel user e, confirm_unknown m channel [] e)
            (rw (
              handle_unknown
                (record m { buffer_service = mark_as_replayed m.buffer_service channel [] }) channel
                other e))
      | inr (s, e) ↦
          let idle' : s.is_replaying ≡ false = sym (ap (λ o. (or_fresh o).is_replaying) e) ∙ idle in
          rw (handle_idle m channel user s e idle') (
            handed_after_confirm (replaying m channel s) channel other _ _
              (find-put_self m.reconnect_states channel _)
            ∙ unreplayed-mark m.buffer_service channel _
            ∙ select-confirmed (get_unreplayed_messages m.buffer_service channel))
    ]
