-- ===== src/Buffer/Status.antt =====
-- backend/internal/voice/buffer_service.go, GetStatus, against a description by lists.
use trabalho_radio_px.Prelude.{
  ℕ, ◌+◌, ◌≤◌, ◌≡◌, refl, ◌∙◌, sym, List, [], ◌∷◌, ◌++◌, Option, none, some, length, arith, All,
}
use trabalho_radio_px.Prelude.Map.{Map}
use trabalho_radio_px.Buffer.{
  MessageBuffer, AudioBufferService, BufferStatus, total_size, count_message, count_messages,
  count_channels, get_status,
}

-- All messages, channel after channel.
unfoldable pub all_messages : Map (List MessageBuffer) → List MessageBuffer
all_messages [] = []
all_messages ((channel, ms) ∷ rest) = ms ++ all_messages rest

count_messages-append :
    (s : BufferStatus) (xs ys : List MessageBuffer)
    → count_messages s (xs ++ ys) ≡ count_messages (count_messages s xs) ys
unfolding count_messages
count_messages-append s [] ys = refl
count_messages-append s (m ∷ ms) ys = count_messages-append (count_message s m) ms ys

count_channels-all :
    (s : BufferStatus) (m : Map (List MessageBuffer))
    → count_channels s m ≡ count_messages s (all_messages m)
unfolding count_channels all_messages
count_channels-all s [] = refl
count_channels-all s ((channel, ms) ∷ rest) =
    count_channels-all (count_messages s ms) rest
    ∙ sym (count_messages-append s ms (all_messages rest))

-- The bound holds where there is one.
abbrev pub AtMost : Option ℕ → ℕ → Type 0
AtMost none t = ⊥
AtMost (some o) t = o ≤ t

abbrev pub AtLeast : Option ℕ → ℕ → Type 0
AtLeast none t = ⊥
AtLeast (some o) t = t ≤ o

count_messages_totals :
    (s : BufferStatus) (ms : List MessageBuffer)
    → ((count_messages s ms).total_messages ≡ s.total_messages + length ms)
      × ((count_messages s ms).total_size_bytes ≡ s.total_size_bytes + total_size ms)
      × ((count_messages s ms).channel_count ≡ s.channel_count)
unfolding count_messages total_size
count_messages_totals s [] = omega arith
count_messages_totals s (m ∷ ms) = ground (arith, count_messages_totals (count_message s m) ms)

count_messages-AtMost :
    (s : BufferStatus) (ms : List MessageBuffer) (t : ℕ)
    → AtMost s.oldest_message t
    → AtMost (count_messages s ms).oldest_message t
unfolding count_messages
count_messages-AtMost s [] t h = h
count_messages-AtMost s (m ∷ ms) t h = count_messages-AtMost (count_message s m) ms t (ground arith)

count_messages-AtLeast :
    (s : BufferStatus) (ms : List MessageBuffer) (t : ℕ)
    → AtLeast s.newest_message t
    → AtLeast (count_messages s ms).newest_message t
unfolding count_messages
count_messages-AtLeast s [] t h = h
count_messages-AtLeast s (m ∷ ms) t h =
    count_messages-AtLeast (count_message s m) ms t (ground arith)

count_messages_span :
    (s : BufferStatus) (ms : List MessageBuffer)
    → All
        (λ m.
          AtMost (count_messages s ms).oldest_message m.timestamp
          × AtLeast (count_messages s ms).newest_message m.timestamp)
        ms
unfolding count_messages
count_messages_span s [] = tt
count_messages_span s (m ∷ ms) = (
  (
    count_messages-AtMost (count_message s m) ms m.timestamp (ground arith),
    count_messages-AtLeast (count_message s m) ms m.timestamp (ground arith),
  ),
  count_messages_span (count_message s m) ms,
)

-- The status counts all messages and their bytes over the channels, in whatever order the channels are visited, and every
-- message's time lies between the oldest and the newest that it reports.
get_status_totals :
    (svc : AudioBufferService)
    → ((get_status svc).total_messages ≡ length (all_messages svc.buffers))
      × ((get_status svc).total_size_bytes ≡ total_size (all_messages svc.buffers))
      × ((get_status svc).channel_count ≡ length svc.buffers)
      × All
          (λ m.
            AtMost (get_status svc).oldest_message m.timestamp
            × AtLeast (get_status svc).newest_message m.timestamp)
          (all_messages svc.buffers)
unfolding get_status
get_status_totals svc =
    rw count_channels-all
      (totals.0, totals.1, totals.2, count_messages_span start (all_messages svc.buffers))
  where
    start : BufferStatus
    start = record {
      total_messages = 0;
      total_size_bytes = 0;
      oldest_message = none;
      newest_message = none;
      channel_count = length svc.buffers;
    }

    totals :
        ((count_messages start (all_messages svc.buffers)).total_messages
          ≡ length (all_messages svc.buffers))
        × ((count_messages start (all_messages svc.buffers)).total_size_bytes
            ≡ total_size (all_messages svc.buffers))
        × ((count_messages start (all_messages svc.buffers)).channel_count ≡ length svc.buffers)
    totals = omega (arith, count_messages_totals start (all_messages svc.buffers))
