-- ===== src/Client/Replay.antt =====
-- backend/pkg/websocket/client.go, sendReplay: what a client that asks for a replay is sent.
use mathlib.Core.List.{append_assoc, append-nil}
use trabalho_radio_px.Prelude.{
  ℕ, zero, suc, ◌-◌, String, ◌≡◌, ap, sym, subst, ◌∙◌, refl, Bool, true, false, Bool-cases, inl,
  inr, List, [], ◌∷◌, ◌++◌, length, length-append, take, ltb→lt, ltb-ge, arith, if◌then◌else◌,
  nat_eq,
}
use trabalho_radio_px.Prelude.Int.{ℤ}
use trabalho_radio_px.Prelude.Sets.{String_comparable, contains, nat_eq_iff}
use trabalho_radio_px.Buffer.{MessageBuffer, get_messages}
use trabalho_radio_px.Hub.{Message, Endpoint, Hub, capacity, has_room, update, send, send_to}
use trabalho_radio_px.Client.{
  Encoding, Client, World, safe_send, send_all, send_terminator, replay_all, terminator,
  send_replay,
}

-- The free places of a client's channel.
abbrev pub free : Endpoint → ℕ
free x = capacity - length x.queue

abbrev pub extend : Endpoint → List Message → Endpoint
extend x ms = record x { queue = x.queue ++ ms }

-- A hub where one client's channel got some messages.
pub record Sent (h : Hub) (c : ℕ) (ms : List Message) (g : Hub) : Type 0 where
  pub clients : g.clients ≡ h.clients
  pub rooms : g.rooms ≡ h.rooms
  pub heap : (d : ℕ) → g.heap d ≡ (if nat_eq c d then extend (h.heap d) ms else h.heap d)

Sent-nothing : (h : Hub) (c : ℕ) → Sent h c [] h
Sent-nothing h c = record {
  clients = refl;
  rooms = refl;
  heap =
      λ d. elim (Bool-cases (nat_eq c d)) [ inl e ↦ rw (e, append-nil) refl | inr e ↦ rw e refl ];
}

Sent-more :
    (h g : Hub) (c : ℕ) (m : Message) (ms : List Message)
    → Sent (send_to h m c) c ms g
    → Sent h c (m ∷ ms) g
unfolding send_to update send
Sent-more h g c m ms s = record {
  clients = s.clients;
  rooms = s.rooms;
  heap = λ d. s.heap d ∙ elim (Bool-cases (nat_eq c d)) [
    | inl e ↦ rw (e, (nat_eq_iff c d).0 e, append_assoc) refl
    | inr e ↦ rw e refl
  ];
}

take_nil : {A : Type 0} (n : ℕ) → take {A = A} n [] ≡ []
take_nil zero = refl
take_nil (suc n) = refl

free-send : (x : Endpoint) (m : Message) → has_room x ≡ true → free x ≡ suc (free (send x m))
unfolding send
free-send x m h = let l = ltb→lt (length x.queue) capacity h in rw length-append (omega arith)

free_full : (x : Endpoint) → has_room x ≡ false → free x ≡ 0
free_full x h = let l = ltb-ge (length x.queue) capacity h in omega arith

sent_at : (h : Hub) (m : Message) (c : ℕ) → (send_to h m c).heap c ≡ send (h.heap c) m
unfolding send_to update
sent_at h m c = rw ((nat_eq_iff c c).1 refl) refl

send_all_lem :
    (ms : List Message) (h : Hub) (c : ℕ)
    → (h.heap c).closed ≡ false
    → Sent h c (take (free (h.heap c)) ms) (send_all ms h c).0
unfolding send_all safe_send send
send_all_lem [] h c o = rw take_nil (Sent-nothing h c)
send_all_lem (m ∷ ms) h c o = elim (Bool-cases (has_room (h.heap c))) [
  | inl room ↦
      rw (o, room)
        (subst (λ k. Sent h c (take k (m ∷ ms)) (send_all ms (send_to h m c) c).0)
          (sym (free-send (h.heap c) m room))
          (Sent-more h _ c m _ (
            subst (λ k. Sent (send_to h m c) c (take k ms) (send_all ms (send_to h m c) c).0)
              (ap free (sent_at h m c))
              (send_all_lem ms (send_to h m c) c (ap (λ x. x.closed) (sent_at h m c) ∙ o)))))
  | inr full ↦ rw (o, full, free_full (h.heap c) full) (Sent-nothing h c)
]

send_all-append :
    (xs ys : List Message) (h : Hub) (c : ℕ)
    → send_all (xs ++ ys) h c
      ≡ (if (send_all xs h c).1 then send_all ys (send_all xs h c).0 c else send_all xs h c)
unfolding send_all
send_all-append [] ys h c = refl
send_all-append (m ∷ xs) ys h c = elim (Bool-cases (safe_send h c m).1) [
  | inl e ↦ rw e (send_all-append xs ys (safe_send h c m).0 c)
  | inr e ↦ rw e (rw e refl)
]

-- The packets of a replay: the buffered messages, and the terminator where there are any.
unfoldable pub packets : Encoding → List MessageBuffer → List Message
packets e [] = []
packets e (m ∷ ms) = replay_all e (m ∷ ms) ++ terminator ∷ []

send_terminator-packets :
    (e : Encoding) (msgs : List MessageBuffer) (h : Hub) (c : ℕ)
    → send_terminator msgs (send_all (replay_all e msgs) h c) c ≡ (send_all (packets e msgs) h c).0
unfolding packets send_terminator send_all safe_send replay_all
send_terminator-packets e [] h c = refl
send_terminator-packets e (m ∷ ms) h c =
    after_all (send_all (replay_all e (m ∷ ms)) h c)
    ∙ ap (λ r. r.0) (sym (send_all-append (replay_all e (m ∷ ms)) (terminator ∷ []) h c))
  where
    one_sent : (r : Hub × Bool) → r.0 ≡ (if r.1 then (r.0, true) else r).0
    one_sent (g, false) = refl
    one_sent (g, true) = refl

    after_all :
        (r : Hub × Bool)
        → send_terminator (m ∷ ms) r c ≡ (if r.1 then send_all (terminator ∷ []) r.0 c else r).0
    after_all (g, false) = refl
    after_all (g, true) = one_sent (safe_send g c terminator)

-- A client with a buffer and an open channel that asks for a replay of a room in its set is sent the
-- packets of the messages after the number it names, in their order, as far as its channel has free
-- places; nothing else of the hub changes.
pub send_replay_lem :
    (e : Encoding) (w : World) (c : Client) (room : String) (since : ℤ)
    → c.buffered ≡ true
    → contains (w.hub.heap c.pointer).rooms room ≡ true
    → (w.hub.heap c.pointer).closed ≡ false
    → Sent w.hub c.pointer
        (take (free (w.hub.heap c.pointer)) (packets e (get_messages w.buffer room since)))
        (send_replay e w c room since).hub
unfolding send_replay
send_replay_lem e w c room since b i o =
    let msgs = get_messages w.buffer room since in
    rw (b, i, send_terminator-packets) (send_all_lem (packets e msgs) w.hub c.pointer o)
