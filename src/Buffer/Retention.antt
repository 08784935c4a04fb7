-- ===== src/Buffer/Retention.antt =====
-- backend/internal/voice/buffer_service.go: what a clean-up of a channel, and so an added message,
-- leaves in the channel's buffer.
use trabalho_radio_px.Prelude.{
  length-append, true, ℕ, ◌≤◌, ◌<◌, String, ◌≡◌, refl, ap, ◌⊎◌, inl, inr, Bool-cases, List, [],
  ◌++◌, arith, length, select, All, All-select_self, ltb, eq_refl, ltb-ge,
}
use trabalho_radio_px.Buffer.{
  MessageBuffer, AudioBufferService, total_size, cleanup_old_messages, recent, messages,
}
use trabalho_radio_px.Buffer.Trim.{
  trim_fits, trim_suffix, trim_maximal, trim-All, retained, messages-cleanup,
}

retained_fits :
    (now : ℕ) (svc : AudioBufferService) (ms : List MessageBuffer)
    → (total_size (retained now svc ms) ≤ svc.config.max_size_bytes)
      ⊎ (length (retained now svc ms) ≤ 1)
retained_fits now svc ms = elim (Bool-cases (ltb svc.config.max_size_bytes (total_size cleaned))) [
  | inl over ↦ rw over (trim_fits svc.config.max_size_bytes (total_size cleaned) cleaned refl)
  | inr fits ↦ rw fits (inl (ltb-ge svc.config.max_size_bytes (total_size cleaned) fits))
]
  where
    cleaned : List MessageBuffer
    cleaned = select (recent now svc.config.max_duration) ms

-- A predicate of all the recent messages holds of what is retained.
pub retained-All {ℓ} :
    (P : MessageBuffer → Type ℓ) (now : ℕ) (svc : AudioBufferService) (ms : List MessageBuffer)
    → All P (select (recent now svc.config.max_duration) ms)
    → All P (retained now svc ms)
retained-All P now svc ms h =
    elim (Bool-cases (ltb svc.config.max_size_bytes (total_size cleaned))) [
      | inl over ↦ rw over (trim-All P svc.config.max_size_bytes (total_size cleaned) cleaned h)
      | inr fits ↦ rw fits h
    ]
  where
    cleaned : List MessageBuffer
    cleaned = select (recent now svc.config.max_duration) ms

messages-cleanup_self :
    (now : ℕ) (svc : AudioBufferService) (channel : String)
    → messages (cleanup_old_messages now svc channel) channel
      ≡ retained now svc (messages svc channel)
messages-cleanup_self now svc channel = rw (messages-cleanup, eq_refl channel)

-- After a clean-up the channel's audio is within the byte limit, or it is one message at most; and
-- no message in it is older than the maximal duration.
pub cleanup_bounds :
    (now : ℕ) (svc : AudioBufferService) (channel : String)
    → ((total_size (messages (cleanup_old_messages now svc channel) channel)
          ≤ svc.config.max_size_bytes)
        ⊎ (length (messages (cleanup_old_messages now svc channel) channel) ≤ 1))
      × All
          (λ m. recent now svc.config.max_duration m ≡ true)
          (messages (cleanup_old_messages now svc channel) channel)
cleanup_bounds now svc channel = rw messages-cleanup_self (
  retained_fits now svc (messages svc channel),
  retained-All _ now svc (messages svc channel) (All-select_self _ (messages svc channel)),
)

retained_longest :
    (now : ℕ) (svc : AudioBufferService) (ms a b : List MessageBuffer)
    → select (recent now svc.config.max_duration) ms ≡ a ++ b
    → length (retained now svc ms) < length b
    → svc.config.max_size_bytes < total_size b
retained_longest now svc ms a b e l =
    elim (Bool-cases (ltb svc.config.max_size_bytes (total_size cleaned))) [
      | inl over ↦
          trim_maximal svc.config.max_size_bytes (total_size cleaned) cleaned a b refl e
            (rw over at l)
      | inr fits ↦
          let l' : length cleaned < length b = rw fits at l in
          absurd (omega (arith, ap length e, length-append a b))
    ]
  where
    cleaned : List MessageBuffer
    cleaned = select (recent now svc.config.max_duration) ms

retained_suffix :
    (now : ℕ) (svc : AudioBufferService) (ms : List MessageBuffer)
    → (dropped : List MessageBuffer) × (select (recent now svc.config.max_duration) ms
        ≡ dropped ++ retained now svc ms)
retained_suffix now svc ms =
    elim (Bool-cases (ltb svc.config.max_size_bytes (total_size cleaned))) [
      | inl over ↦ rw over (trim_suffix svc.config.max_size_bytes (total_size cleaned) cleaned)
      | inr fits ↦ ([], rw fits)
    ]
  where
    cleaned : List MessageBuffer
    cleaned = select (recent now svc.config.max_duration) ms

-- What a clean-up leaves is a suffix of the messages that are recent.
cleanup_suffix :
    (now : ℕ) (svc : AudioBufferService) (channel : String)
    → (dropped : List MessageBuffer) × (select
          (recent now svc.config.max_duration)
          (messages svc channel)
        ≡ dropped ++ messages (cleanup_old_messages now svc channel) channel)
cleanup_suffix now svc channel =
    rw messages-cleanup_self (retained_suffix now svc (messages svc channel))

-- A suffix of the recent messages that is longer than what a clean-up leaves has more bytes than
-- the limit.
pub cleanup_longest :
    (now : ℕ) (svc : AudioBufferService) (channel : String) (a b : List MessageBuffer)
    → select (recent now svc.config.max_duration) (messages svc channel) ≡ a ++ b
    → length (messages (cleanup_old_messages now svc channel) channel) < length b
    → svc.config.max_size_bytes < total_size b
cleanup_longest now svc channel a b e l =
    retained_longest now svc (messages svc channel) a b e (rw messages-cleanup_self at l)
