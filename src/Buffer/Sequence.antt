-- ===== src/Buffer/Sequence.antt =====
-- backend/internal/voice/buffer_service.go: the sequence numbers that AddMessage gives.
use trabalho_radio_px.Prelude.{
  ℕ, suc, ◌-◌, ◌≤◌, ◌<◌, String, ◌≡◌, inl, inr, Bool, Bool-cases, List, [], ◌∷◌, ◌++◌, arith,
  length, select, ltb,
}
use trabalho_radio_px.Prelude.Int.{pos, pos_part}
use trabalho_radio_px.Buffer.{
  MessageBuffer, AudioBufferService, total_size, trim, recent, mark_listed, mark_all,
}
use trabalho_radio_px.Buffer.Trim.{retained}

-- The sequence numbers of the messages grow strictly, from above `lo` up to `hi`.
abbrev pub Ascending : ℕ → List MessageBuffer → ℕ → Type 0
Ascending lo [] hi = lo ≤ hi
Ascending lo (m ∷ ms) hi =
    (m.sequence ≡ pos (pos_part m.sequence))
    × (lo < pos_part m.sequence)
    × Ascending (pos_part m.sequence) ms hi

Ascending-weaken :
    (k lo : ℕ) (ms : List MessageBuffer) (hi : ℕ) → k ≤ lo → Ascending lo ms hi → Ascending k ms hi
Ascending-weaken k lo [] hi l h = omega arith
Ascending-weaken k lo (m ∷ ms) hi l h = (h.0, omega arith, h.2)

pub Ascending-append :
    (lo : ℕ) (ms : List MessageBuffer) (hi : ℕ) (m : MessageBuffer)
    → m.sequence ≡ pos (suc hi)
    → Ascending lo ms hi
    → Ascending lo (ms ++ m ∷ []) (suc hi)
Ascending-append lo [] hi m e h = ground arith
Ascending-append lo (n ∷ ms) hi m e h =
    (h.0, h.1, Ascending-append (pos_part n.sequence) ms hi m e h.2)

Ascending-select :
    (p : MessageBuffer → Bool) (lo : ℕ) (ms : List MessageBuffer) (hi : ℕ)
    → Ascending lo ms hi
    → Ascending lo (select p ms) hi
Ascending-select p lo [] hi h = h
Ascending-select p lo (m ∷ ms) hi h = elim (Bool-cases (p m)) [
  | inl e ↦ rw e (h.0, h.1, Ascending-select p (pos_part m.sequence) ms hi h.2)
  | inr e ↦ rw e (
      Ascending-select p lo ms hi
        (Ascending-weaken lo (pos_part m.sequence) ms hi (omega arith) h.2))
]

Ascending-trim :
    (max total lo : ℕ) (ms : List MessageBuffer) (hi : ℕ)
    → Ascending lo ms hi
    → Ascending lo (trim max total ms) hi
unfolding trim
Ascending-trim max total lo [] hi h = h
Ascending-trim max total lo (m ∷ []) hi h = h
Ascending-trim max total lo (m ∷ n ∷ ms) hi h = elim (Bool-cases (ltb max total)) [
  | inl over ↦ rw over (
      Ascending-trim max (total - length m.audio_data) lo (n ∷ ms) hi
        (Ascending-weaken lo (pos_part m.sequence) (n ∷ ms) hi (omega arith) h.2))
  | inr fits ↦ rw fits h
]

pub Ascending-retained :
    (now : ℕ) (svc : AudioBufferService) (ms : List MessageBuffer) (hi : ℕ)
    → Ascending 0 ms hi
    → Ascending 0 (retained now svc ms) hi
Ascending-retained now svc ms hi h =
    elim (Bool-cases (ltb svc.config.max_size_bytes (total_size cleaned))) [
      | inl over ↦ rw over (
          Ascending-trim svc.config.max_size_bytes (total_size cleaned) 0 cleaned hi
            (Ascending-select (recent now svc.config.max_duration) 0 ms hi h))
      | inr fits ↦ rw fits (Ascending-select (recent now svc.config.max_duration) 0 ms hi h)
    ]
  where
    cleaned : List MessageBuffer
    cleaned = select (recent now svc.config.max_duration) ms

pub Ascending-mark_listed :
    (ids : List String) (lo : ℕ) (ms : List MessageBuffer) (hi : ℕ)
    → Ascending lo ms hi
    → Ascending lo (mark_listed ids ms) hi
unfolding mark_listed
Ascending-mark_listed ids lo [] hi h = h
Ascending-mark_listed ids lo (m ∷ ms) hi h =
    ground (arith, Ascending-mark_listed ids (pos_part m.sequence) ms hi h.2)

pub Ascending-mark_all :
    (lo : ℕ) (ms : List MessageBuffer) (hi : ℕ) → Ascending lo ms hi → Ascending lo (mark_all ms) hi
unfolding mark_all
Ascending-mark_all lo [] hi h = h
Ascending-mark_all lo (m ∷ ms) hi h = (h.0, h.1, Ascending-mark_all (pos_part m.sequence) ms hi h.2)
