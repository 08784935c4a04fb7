-- ===== src/Buffer/Numbering.antt =====
-- backend/internal/voice/buffer_service.go: what each method does to the sequence numbers.
use mathlib.Core.Path.{subst}
use trabalho_radio_px.Prelude.{
  ℕ, suc, ◌≤◌, ◌<◌, String, ◌≡◌, refl, ap, sym, ◌∙◌, inl, inr, Bool-cases, Option-cases, List, [],
  ◌∷◌, ◌++◌, arith, if◌then◌else◌, eq_iff, ◌==◌,
}
use trabalho_radio_px.Prelude.Map.{
  Map, put, find, find-put, find-delete, entry, entry-put, entry-put_self, entry_of_find,
  entry-delete, delete,
}
use trabalho_radio_px.Prelude.Int.{ℤ, pos, pos_part, increment, increment_pos, max_int64}
use trabalho_radio_px.Buffer.{
  MessageBuffer, AudioBufferService, cleanup_old_messages, messages, counter, add_message,
  with_messages, cleanup_by_size, cleanup_channels, clear_channel,
}
use trabalho_radio_px.Buffer.Trim.{retained, messages-cleanup}
use trabalho_radio_px.Buffer.Sequence.{Ascending, Ascending-append, Ascending-retained}

-- The channel's counter has not passed the limit, and its messages carry increasing numbers up to it.
abbrev pub IsSequenced : ℕ → AudioBufferService → String → Type 0
IsSequenced limit svc id =
    (counter svc id ≡ pos (pos_part (counter svc id)))
    × (pos_part (counter svc id) ≤ limit)
    × Ascending 0 (messages svc id) (pos_part (counter svc id))

counter-cleanup :
    (now : ℕ) (svc : AudioBufferService) (channel id : String)
    → counter (cleanup_old_messages now svc channel) id ≡ counter svc id
unfolding cleanup_old_messages cleanup_by_size counter
counter-cleanup now svc channel id = ground arith

cleanup-IsSequenced :
    (limit now : ℕ) (svc : AudioBufferService) (channel id : String)
    → IsSequenced limit svc id
    → IsSequenced limit (cleanup_old_messages now svc channel) id
cleanup-IsSequenced limit now svc channel id h =
    rw (counter-cleanup, messages-cleanup)
      (
        h.0,
        h.1,
        elim (Bool-cases (channel == id)) [
          | inl e ↦
              let same : channel ≡ id = (eq_iff channel id).0 e in
              rw (e, same)
                (Ascending-retained now svc (messages svc id) (pos_part (counter svc id)) h.2)
          | inr e ↦ rw e h.2
        ],
      )

counter-put :
    (svc : AudioBufferService) (buffers : Map (List MessageBuffer)) (k : String) (n : ℤ)
    (j : String)
    → counter (record svc { buffers = buffers; sequence_map = put svc.sequence_map k n }) j
      ≡ (if k == j then n else counter svc j)
unfolding counter
counter-put svc buffers k n j = elim (Bool-cases (k == j)) [
  | inl e ↦ rw (counter, find-put, e)
  | inr e ↦ rw (counter, find-put, e)
]

counter-add :
    (id : String) (now later : ℕ) (svc : AudioBufferService) (channel user : String)
    (audio : List ℕ) (other : String)
    → counter (add_message id now later svc channel user audio).0 other
      ≡ (if channel == other then increment (counter svc channel) else counter svc other)
unfolding add_message
counter-add id now later svc channel user audio other =
    rw counter-cleanup (counter-put svc _ channel (increment (counter svc channel)) other)

pub with_messages-keeps {ℓ} :
    (P : List MessageBuffer → Type ℓ) (f : List MessageBuffer → List MessageBuffer)
    (svc : AudioBufferService) (channel id : String)
    → ((ms : List MessageBuffer) → P ms → P (f ms))
    → P (messages svc id)
    → P (messages (with_messages svc channel f) id)
unfolding with_messages
with_messages-keeps P f svc channel id k h = elim (Option-cases (find svc.buffers channel)) [
  | inl e ↦ rw (e, with_messages) h
  | inr (ms, e) ↦
      rw (e, with_messages, entry-put)
        (elim (Bool-cases (channel == id)) [
          | inl same ↦ rw same (
              k ms (
                subst P
                  (ap (entry svc.buffers) (sym ((eq_iff channel id).0 same))
                    ∙ entry_of_find svc.buffers channel e)
                  h))
          | inr differ ↦ rw differ h
        ])
]

pub messages-add :
    (id : String) (now later : ℕ) (svc : AudioBufferService) (channel user : String)
    (audio : List ℕ) (other : String)
    → messages (add_message id now later svc channel user audio).0 other ≡ (
        if channel == other
        then retained later svc
            (messages svc channel ++ (add_message id now later svc channel user audio).1 ∷ [])
        else messages svc other)
unfolding add_message
messages-add id now later svc channel user audio other =
    rw messages-cleanup (elim (Bool-cases (channel == other)) [
      | inl e ↦ rw (e, entry-put_self)
      | inr e ↦ rw (e, entry-put, e)
    ])

add-IsSequenced_self :
    (limit : ℕ) (id : String) (now later : ℕ) (svc : AudioBufferService) (channel user : String)
    (audio : List ℕ)
    → limit < max_int64
    → IsSequenced limit svc channel
    → (increment (counter svc channel) ≡ pos (pos_part (increment (counter svc channel))))
      × (pos_part (increment (counter svc channel)) ≤ suc limit)
      × Ascending 0
          (retained later svc
            (messages svc channel ++ (add_message id now later svc channel user audio).1 ∷ []))
          (pos_part (increment (counter svc channel)))
unfolding add_message
add-IsSequenced_self limit id now later svc channel user audio l h =
    let n = pos_part (counter svc channel) in
    let next : increment (counter svc channel) ≡ pos (suc n) =
      ap increment h.0 ∙ increment_pos n (omega arith) in
    rw next (
      refl,
      omega arith,
      Ascending-retained later svc _ (suc n)
          (Ascending-append 0 (messages svc channel) n _ refl h.2),
    )

pub add-IsSequenced :
    (limit : ℕ) (id : String) (now later : ℕ) (svc : AudioBufferService) (channel user : String)
    (audio : List ℕ) (other : String)
    → limit < max_int64
    → IsSequenced limit svc other
    → IsSequenced (suc limit) (add_message id now later svc channel user audio).0 other
add-IsSequenced limit id now later svc channel user audio other l h =
    rw (counter-add, messages-add)
      (elim (Bool-cases (channel == other)) [
        | inl e ↦
            let same : channel ≡ other = (eq_iff channel other).0 e in
            rw e (add-IsSequenced_self limit id now later svc channel user audio l (rw same h))
        | inr e ↦ rw e (h.0, omega arith, h.2)
      ])

counter-with_messages :
    (svc : AudioBufferService) (channel : String) (f : List MessageBuffer → List MessageBuffer)
    (id : String)
    → counter (with_messages svc channel f) id ≡ counter svc id
unfolding with_messages counter
counter-with_messages svc channel f id = ground arith

counter-delete :
    (svc : AudioBufferService) (buffers : Map (List MessageBuffer)) (k j : String)
    → counter (record svc { buffers = buffers; sequence_map = delete svc.sequence_map k }) j
      ≡ (if k == j then pos 0 else counter svc j)
unfolding counter
counter-delete svc buffers k j = elim (Bool-cases (k == j)) [
  | inl e ↦ rw (counter, find-delete, e)
  | inr e ↦ rw (counter, find-delete, e)
]

pub mark-IsSequenced :
    (limit : ℕ) (f : List MessageBuffer → List MessageBuffer) (svc : AudioBufferService)
    (channel id : String)
    → ((ms : List MessageBuffer)
        → Ascending 0 ms (pos_part (counter svc id))
        → Ascending 0 (f ms) (pos_part (counter svc id)))
    → IsSequenced limit svc id
    → IsSequenced limit (with_messages svc channel f) id
mark-IsSequenced limit f svc channel id keeps h = rw counter-with_messages (
  h.0,
  h.1,
  with_messages-keeps (λ ms. Ascending 0 ms (pos_part (counter svc id))) f svc channel id keeps h.2,
)

pub clear-IsSequenced :
    (limit : ℕ) (svc : AudioBufferService) (channel id : String)
    → IsSequenced limit svc id
    → IsSequenced limit (clear_channel svc channel) id
unfolding clear_channel
clear-IsSequenced limit svc channel id h =
    rw (counter-delete, entry-delete)
      (elim (Bool-cases (channel == id)) [
        | inl e ↦ rw e (refl, omega arith, omega arith)
        | inr e ↦ rw e h
      ])

pub cleanup_channels-IsSequenced :
    (limit : ℕ) (clock : String → ℕ) (svc : AudioBufferService) (channels : List String)
    (id : String)
    → IsSequenced limit svc id
    → IsSequenced limit (cleanup_channels clock svc channels) id
unfolding cleanup_channels
cleanup_channels-IsSequenced limit clock svc [] id h = h
cleanup_channels-IsSequenced limit clock svc (c ∷ cs) id h =
    cleanup_channels-IsSequenced limit clock (cleanup_old_messages (clock c) svc c) cs id
      (cleanup-IsSequenced limit (clock c) svc c id h)
