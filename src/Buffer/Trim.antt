-- ===== src/Buffer/Trim.antt =====
-- backend/internal/voice/buffer_service.go, cleanupBySize and cleanupOldMessages: what stays.
use trabalho_radio_px.Prelude.{
  ℕ, ◌-◌, ◌≤◌, ◌<◌, String, ◌≡◌, refl, sym, ap, ◌∙◌, ◌⊎◌, inl, inr, List, [], ◌∷◌, ◌++◌, arith,
  Bool, eq_iff, List-cases, Bool-cases, length-append, ◌==◌, length, select, All, ltb,
  if◌then◌else◌,
}
use trabalho_radio_px.Prelude.Map.{entry, put, entry-put, entry-put_self}
use trabalho_radio_px.Buffer.{
  MessageBuffer, AudioBufferService, total_size, trim, cleanup_by_size, cleanup_old_messages,
  recent, messages,
}

-- The loop stops with a total within the limit or with one message at most.
pub trim_fits :
    (max total : ℕ) (ms : List MessageBuffer)
    → total ≡ total_size ms
    → (total_size (trim max total ms) ≤ max) ⊎ (length (trim max total ms) ≤ 1)
unfolding trim total_size
trim_fits max total [] e = inr (omega arith)
trim_fits max total (m ∷ []) e = inr (omega arith)
trim_fits max total (m ∷ n ∷ ms) e =
    ground (arith, trim_fits max (total - length m.audio_data) (n ∷ ms) (ground arith))

-- What the loop drops is a prefix.
pub trim_suffix :
    (max total : ℕ) (ms : List MessageBuffer)
    → (dropped : List MessageBuffer) × (ms ≡ dropped ++ trim max total ms)
unfolding trim
trim_suffix max total [] = ([], refl)
trim_suffix max total (m ∷ []) = ([], refl)
trim_suffix max total (m ∷ n ∷ ms) = elim (Bool-cases (ltb max total)) [
  | inl over ↦
      let (dropped, e) = trim_suffix max (total - length m.audio_data) (n ∷ ms) in
      (m ∷ dropped, rw over (ap (◌∷◌ m) e))
  | inr fits ↦ ([], rw fits)
]

-- No longer suffix would have fitted.
pub trim_maximal :
    (max total : ℕ) (ms a b : List MessageBuffer)
    → total ≡ total_size ms
    → ms ≡ a ++ b
    → length (trim max total ms) < length b
    → max < total_size b
unfolding trim total_size
trim_maximal max total [] a b e s l = absurd (omega (arith, ap length s, length-append a b))
trim_maximal max total (m ∷ []) a b e s l = absurd (omega (arith, ap length s, length-append a b))
trim_maximal max total (m ∷ n ∷ ms) [] b e s l = ground (arith, ap length s, ap total_size s)
trim_maximal max total (m ∷ n ∷ ms) (x ∷ a) b e s l = ground (
  arith,
  length-append a b,
  ap length s,
  trim_maximal max (total - length m.audio_data) (n ∷ ms) a b (omega arith) (cc),
)

-- The messages that are young enough, less those that cleanupBySize drops.
abbrev pub retained : ℕ → AudioBufferService → List MessageBuffer → List MessageBuffer
retained now svc ms =
    let cleaned = select (recent now svc.config.max_duration) ms in
    if ltb svc.config.max_size_bytes (total_size cleaned)
    then trim svc.config.max_size_bytes (total_size cleaned) cleaned
    else cleaned

messages-cleanup_by_size :
    (svc : AudioBufferService) (channel other : String)
    → messages (cleanup_by_size svc channel) other ≡ (
        if channel == other
        then trim svc.config.max_size_bytes
            (total_size (messages svc channel))
            (messages svc channel)
        else messages svc other)
unfolding cleanup_by_size trim
messages-cleanup_by_size svc channel other = elim (List-cases (messages svc channel)) [
  | inl e ↦ elim (Bool-cases (channel == other)) [
    | inl same ↦
        rw (e, cleanup_by_size, same)
          (ap (entry svc.buffers) (sym ((eq_iff channel other).0 same)) ∙ e)
    | inr differ ↦ rw (e, cleanup_by_size, differ)
  ]
  | inr (m, ms, e) ↦ rw (e, cleanup_by_size) (entry-put svc.buffers channel _ other)
]

pub messages-cleanup :
    (now : ℕ) (svc : AudioBufferService) (channel other : String)
    → messages (cleanup_old_messages now svc channel) other
      ≡ (if channel == other then retained now svc (messages svc channel) else messages svc other)
unfolding cleanup_old_messages
messages-cleanup now svc channel other = elim (Bool-cases large) [
  | inl e ↦ rw e (
      messages-cleanup_by_size svc' channel other ∙ elim (Bool-cases (channel == other)) [
        | inl same ↦ rw (same, entry-put_self)
        | inr differ ↦ rw (differ, entry-put, differ)
      ])
  | inr e ↦ rw e (entry-put svc.buffers channel cleaned other)
]
  where
    cleaned : List MessageBuffer
    cleaned = select (recent now svc.config.max_duration) (messages svc channel)

    large : Bool
    large = ltb svc.config.max_size_bytes (total_size cleaned)

    svc' : AudioBufferService
    svc' = record svc { buffers = put svc.buffers channel cleaned }

pub trim-All {ℓ} :
    (P : MessageBuffer → Type ℓ) (max total : ℕ) (ms : List MessageBuffer)
    → All P ms
    → All P (trim max total ms)
unfolding trim
trim-All P max total [] h = h
trim-All P max total (m ∷ []) h = h
trim-All P max total (m ∷ n ∷ ms) h = elim (Bool-cases (ltb max total)) [
  | inl over ↦ rw over (trim-All P max (total - length m.audio_data) (n ∷ ms) h.1)
  | inr fits ↦ rw fits h
]
