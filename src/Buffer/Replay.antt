-- ===== src/Buffer/Replay.antt =====
-- backend/internal/voice/buffer_service.go, GetMessages and GetUnreplayedMessages: what a client
-- that comes back is sent.
use trabalho_radio_px.Prelude.{
  ℕ, suc, ◌+◌, ◌-◌, ◌<◌, ◌≤◌, String, ◌≡◌, refl, ap, ◌∙◌, true, false, not, ◌&&◌, Bool-cases, inl,
  inr, Option-cases, List, [], ◌∷◌, ◌++◌, length, arith, select, select-append, select_none, All,
  All-select, ltb, if◌then◌else◌, eq_refl, eq_iff, lt→ltb, ◌==◌,
}
use trabalho_radio_px.Prelude.Map.{find, entry-put, entry_of_find, entry_of_missing, entry-put_self}
use trabalho_radio_px.Prelude.Int.{
  ℤ, pos, negsuc, pos_part, ltb_ℤ, increment, increment_pos, max_int64,
}
use trabalho_radio_px.Buffer.{
  MessageBuffer, AudioBufferService, trim, total_size, recent, messages, counter, add_message,
  get_messages, get_unreplayed_messages, mark_as_replayed, mark_all_as_replayed, mark_listed,
  mark_all, contains_id, with_messages,
}
use trabalho_radio_px.Buffer.Trim.{retained}
use trabalho_radio_px.Buffer.Sequence.{Ascending}
use trabalho_radio_px.Buffer.Numbering.{IsSequenced, messages-add}

-- The newest message is never trimmed.
trim-append :
    (P : MessageBuffer → Type 0) (max total : ℕ) (ms : List MessageBuffer) (m : MessageBuffer)
    → All P ms
    → (older : List MessageBuffer) × (trim max total (ms ++ m ∷ []) ≡ older ++ m ∷ []) × All P older
unfolding trim
trim-append P max total [] m h = ([], refl, tt)
trim-append P max total (a ∷ []) m h = elim (Bool-cases (ltb max total)) [
  | inl over ↦ ([], rw over, tt)
  | inr fits ↦ (a ∷ [], rw fits, h)
]
trim-append P max total (a ∷ b ∷ ms) m h = elim (Bool-cases (ltb max total)) [
  | inl over ↦ rw over (trim-append P max (total - length a.audio_data) (b ∷ ms) m h.1)
  | inr fits ↦ (a ∷ b ∷ ms, rw fits, h)
]

retained-append :
    (P : MessageBuffer → Type 0) (now : ℕ) (svc : AudioBufferService) (ms : List MessageBuffer)
    (m : MessageBuffer)
    → recent now svc.config.max_duration m ≡ true
    → All P ms
    → (older : List MessageBuffer) × (retained now svc (ms ++ m ∷ []) ≡ older ++ m ∷ [])
      × All P older
retained-append P now svc ms m r h =
    rw (select-append, r)
      (elim (Bool-cases (ltb max (total_size (cleaned ++ m ∷ [])))) [
        | inl over ↦ rw over (trim-append P max (total_size (cleaned ++ m ∷ [])) cleaned m kept)
        | inr fits ↦ (cleaned, rw fits, kept)
      ])
  where
    max : ℕ
    max = svc.config.max_size_bytes

    cleaned : List MessageBuffer
    cleaned = select (recent now svc.config.max_duration) ms

    kept : All P cleaned
    kept = All-select P (recent now svc.config.max_duration) ms h

Ascending-le : (lo : ℕ) (ms : List MessageBuffer) (hi : ℕ) → Ascending lo ms hi → lo ≤ hi
Ascending-le lo [] hi h = h
Ascending-le lo (m ∷ ms) hi h = omega (arith, Ascending-le (pos_part m.sequence) ms hi h.2)

not_greater : (hi : ℕ) (z : ℤ) → pos_part z ≤ hi → z ≡ pos (pos_part z) → ltb_ℤ (pos hi) z ≡ false
not_greater hi (pos n) l e = ground arith
not_greater hi (negsuc n) l e = refl

-- None of the messages is newer than the counter.
not_newer :
    (lo : ℕ) (ms : List MessageBuffer) (hi : ℕ)
    → Ascending lo ms hi
    → All (λ m. (ltb_ℤ (pos hi) m.sequence && not m.is_replayed) ≡ false) ms
not_newer lo [] hi h = tt
not_newer lo (m ∷ ms) hi h = (
  ap (λ b. b && not m.is_replayed)
      (not_greater hi m.sequence (Ascending-le (pos_part m.sequence) ms hi h.2) h.0),
  not_newer (pos_part m.sequence) ms hi h.2,
)

only_newest :
    (n : ℕ) (since : ℤ) (older : List MessageBuffer) (m : MessageBuffer)
    → since ≡ pos n
    → m.sequence ≡ pos (suc n)
    → m.is_replayed ≡ false
    → All (λ k. (ltb_ℤ (pos n) k.sequence && not k.is_replayed) ≡ false) older
    → select (λ k. ltb_ℤ since k.sequence && not k.is_replayed) (older ++ m ∷ []) ≡ m ∷ []
only_newest n since older m s e r h =
    rw (s, select-append, select_none _ older h, e, r, lt→ltb n (suc n) (omega arith))

-- Where the channel's numbers grow strictly up to its counter, which is below 2^63 - 1, a client
-- that has heard everything up to the counter is sent exactly the message that was added since, if
-- the clean-up ran before that message was too old.
pub get-add_message :
    (limit : ℕ) (id : String) (now later : ℕ) (svc : AudioBufferService) (channel user : String)
    (audio : List ℕ)
    → limit < max_int64
    → IsSequenced limit svc channel
    → later < now + svc.config.max_duration
    → get_messages (add_message id now later svc channel user audio).0 channel (counter svc channel)
      ≡ (add_message id now later svc channel user audio).1 ∷ []
unfolding get_messages add_message
get-add_message limit id now later svc channel user audio l h r =
    rw (messages-add, eq_refl channel, shape)
      (only_newest n (counter svc channel) older message h.0 number refl old)
  where
    n : ℕ
    n = pos_part (counter svc channel)

    message : MessageBuffer
    message = (add_message id now later svc channel user audio).1

    number : message.sequence ≡ pos (suc n)
    number = ap increment h.0 ∙ increment_pos n (omega arith)

    split :
        (older : List MessageBuffer) × (retained later svc (messages svc channel ++ message ∷ [])
          ≡ older ++ message ∷ [])
        × All (λ k. (ltb_ℤ (pos n) k.sequence && not k.is_replayed) ≡ false) older
    split =
        retained-append (λ k. (ltb_ℤ (pos n) k.sequence && not k.is_replayed) ≡ false) later svc
          (messages svc channel) message (lt→ltb later _ r)
          (not_newer 0 (messages svc channel) n h.2)

    older : List MessageBuffer
    older = split.0

    shape : retained later svc (messages svc channel ++ message ∷ []) ≡ older ++ message ∷ []
    shape = split.1

    old : All (λ k. (ltb_ℤ (pos n) k.sequence && not k.is_replayed) ≡ false) older
    old = split.2

select-mark_all :
    (since : ℤ) (ms : List MessageBuffer)
    → select (λ m. ltb_ℤ since m.sequence && not m.is_replayed) (mark_all ms) ≡ []
unfolding mark_all
select-mark_all since [] = refl
select-mark_all since (m ∷ ms) = ground (arith, select-mark_all since ms)

select-mark_listed :
    (ids : List String) (ms : List MessageBuffer)
    → select (λ m. not m.is_replayed) (mark_listed ids ms)
      ≡ select (λ m. not (contains_id ids m.id)) (select (λ m. not m.is_replayed) ms)
unfolding mark_listed
select-mark_listed ids [] = refl
select-mark_listed ids (m ∷ ms) = ground (arith, select-mark_listed ids ms)

-- After MarkAllAsReplayed the channel has nothing to replay, from whatever number on, and every
-- other channel has what it had.
pub replay-mark_all :
    (svc : AudioBufferService) (channel other : String) (since : ℤ)
    → get_messages (mark_all_as_replayed svc channel) other since
      ≡ (if channel == other then [] else get_messages svc other since)
unfolding get_messages mark_all_as_replayed with_messages
replay-mark_all svc channel other since = elim (Option-cases (find svc.buffers channel)) [
  | inl e ↦
      rw (e, with_messages)
        (elim (Bool-cases (channel == other)) [
          | inl same ↦
              let s : channel ≡ other = (eq_iff channel other).0 same in
              rw (same, ← s, entry_of_missing svc.buffers channel e)
          | inr differ ↦ rw differ
        ])
  | inr (ms, e) ↦
      rw (e, with_messages, entry-put)
        (elim (Bool-cases (channel == other)) [
          | inl same ↦ rw same (select-mark_all since ms)
          | inr differ ↦ rw differ
        ])
]

-- After MarkAsReplayed what is still to be replayed is what was to be replayed before, in the same
-- order, less the messages with the listed identifiers.
pub unreplayed-mark :
    (svc : AudioBufferService) (channel : String) (ids : List String)
    → get_unreplayed_messages (mark_as_replayed svc channel ids) channel
      ≡ select (λ m. not (contains_id ids m.id)) (get_unreplayed_messages svc channel)
unfolding get_unreplayed_messages mark_as_replayed with_messages
unreplayed-mark svc channel ids = elim (Option-cases (find svc.buffers channel)) [
  | inl e ↦ rw (e, with_messages, entry_of_missing svc.buffers channel e)
  | inr (ms, e) ↦
      rw (e, with_messages, entry-put_self, entry_of_find svc.buffers channel e)
        (select-mark_listed ids ms)
]
