-- ===== src/Hub/Broadcast.antt =====
-- backend/pkg/websocket/hub.go, the broadcast case of Run: who gets the message.
use trabalho_radio_px.Prelude.{
  ℕ, ◌≡◌, ap, sym, ◌∙◌, refl, true, false, not, ◌&&◌, Bool-cases, Option-cases, inl, inr, List, [],
  ◌∷◌, All, arith, nat_eq, if◌then◌else◌,
}
use trabalho_radio_px.Prelude.Map.{find}
use trabalho_radio_px.Prelude.Sets.{ℕ_comparable, contains, IsDistinct, nat_eq_iff}
use trabalho_radio_px.Hub.{
  Message, Endpoint, Hub, Outcome, ok, has_room, update, send, close, is_sender, send_to,
  drop_client, deliver, broadcast, members_of,
}

-- What a broadcast does to a member that is not the sender.
abbrev pub received : Endpoint → Message → Endpoint
received x m = if has_room x then send x m else close x

-- No listed client but the sender has a closed channel.
abbrev pub IsOpen : (ℕ → Endpoint) → Message → List ℕ → Type 0
IsOpen heap m cs = All (λ c. (is_sender m c ≡ false) → (heap c).closed ≡ false) cs

abbrev pub after_delivery : (ℕ → Endpoint) → Message → List ℕ → ℕ → Endpoint
after_delivery heap m cs d =
    if contains cs d && not (is_sender m d) then received (heap d) m else heap d

IsOpen-update :
    (heap : ℕ → Endpoint) (m : Message) (c : ℕ) (x : Endpoint) (cs : List ℕ)
    → contains cs c ≡ false
    → IsOpen heap m cs
    → IsOpen (update heap c x) m cs
unfolding contains update
IsOpen-update heap m c x [] n o = tt
IsOpen-update heap m c x (d ∷ cs) n o =
    (λ s. ground (arith, o.0 s), IsOpen-update heap m c x cs (ground arith) o.1)

-- The delivery does not panic, and changes the heap as `after_delivery` says.
abbrev pub Delivered : Hub → Message → List ℕ → Outcome → Type 0
Delivered h m cs r =
    (h' : Hub) × (r ≡ ok h')
    × (h'.clients ≡ h.clients)
    × ((d : ℕ) → h'.heap d ≡ after_delivery h.heap m cs d)

skip_at :
    (heap : ℕ → Endpoint) (m : Message) (c : ℕ) (cs : List ℕ) (d : ℕ)
    → is_sender m c ≡ true
    → after_delivery heap m cs d ≡ after_delivery heap m (c ∷ cs) d
unfolding contains
skip_at heap m c cs d s = elim (Bool-cases (nat_eq c d)) [
  | inl same ↦ ground (arith, ap (is_sender m) ((nat_eq_iff c d).0 same))
  | inr differ ↦ rw differ
]

change_at :
    (heap : ℕ → Endpoint) (m : Message) (c : ℕ) (cs : List ℕ) (d : ℕ)
    → is_sender m c ≡ false
    → contains cs c ≡ false
    → after_delivery (update heap c (received (heap c) m)) m cs d ≡ after_delivery heap m (c ∷ cs) d
unfolding contains update
change_at heap m c cs d s n = elim (Bool-cases (nat_eq c d)) [
  | inl same ↦
      let e : c ≡ d = (nat_eq_iff c d).0 same in
      ground (arith, ap (contains cs) e, ap (is_sender m) e, ap (λ k. received (heap k) m) e)
  | inr differ ↦ rw differ
]

skip-Delivered :
    (h : Hub) (m : Message) (c : ℕ) (cs : List ℕ) (r : Outcome)
    → is_sender m c ≡ true
    → Delivered h m cs r
    → Delivered h m (c ∷ cs) r
unfolding contains
skip-Delivered h m c cs r s (h', e, k, q) = (h', e, k, λ d. q d ∙ skip_at h.heap m c cs d s)

change-Delivered :
    (h g : Hub) (m : Message) (c : ℕ) (cs : List ℕ) (r : Outcome)
    → is_sender m c ≡ false
    → contains cs c ≡ false
    → g.clients ≡ h.clients
    → g.heap ≡ update h.heap c (received (h.heap c) m)
    → Delivered g m cs r
    → Delivered h m (c ∷ cs) r
unfolding contains update
change-Delivered h g m c cs r s n k e (h', o, k', q) = (
  h',
  o,
  k' ∙ k,
  λ d. q d ∙ ap (λ heap. after_delivery heap m cs d) e ∙ change_at h.heap m c cs d s n,
)

deliver_open :
    (h : Hub) (m : Message) (c : ℕ) (cs : List ℕ)
    → is_sender m c ≡ false
    → (h.heap c).closed ≡ false
    → deliver h m (c ∷ cs) ≡ (
        if has_room (h.heap c)
        then deliver (send_to h m c) m cs
        else deliver (drop_client h m c) m cs)
unfolding deliver
deliver_open h m c cs s open_at = ground arith

deliver_lem :
    (m : Message) (cs : List ℕ) (h : Hub)
    → IsDistinct cs
    → IsOpen h.heap m cs
    → Delivered h m cs (deliver h m cs)
unfolding deliver contains
deliver_lem m [] h u o = (h, refl, refl, λ d. refl)
deliver_lem m (c ∷ cs) h u o = elim (Bool-cases (is_sender m c)) [
  | inl s ↦ rw s (skip-Delivered h m c cs _ s (deliver_lem m cs h u.1 o.1))
  | inr s ↦ rw (deliver_open h m c cs s (o.0 s)) (elim (Bool-cases (has_room (h.heap c))) [
    | inl room ↦ rw room (
        change-Delivered h (send_to h m c) m c cs _ s u.0 refl
          (ap (λ b. update h.heap c (if b then send (h.heap c) m else close (h.heap c))) (sym room))
          (deliver_lem m cs (send_to h m c) u.1 (IsOpen-update h.heap m c _ cs u.0 o.1)))
    | inr full ↦ rw full (
        change-Delivered h (drop_client h m c) m c cs _ s u.0 refl
          (ap (λ b. update h.heap c (if b then send (h.heap c) m else close (h.heap c))) (sym full))
          (deliver_lem m cs (drop_client h m c) u.1 (IsOpen-update h.heap m c _ cs u.0 o.1)))
  ])
]

-- A broadcast to a room that lists each member once, and none of whose members but the sender has
-- a closed channel, does not panic. Each member but the sender gets the message at the end of its
-- queue where there is room, or has its channel closed where there is none; every other client is
-- as it was, and the same clients are registered.
pub broadcast_lem :
    (h : Hub) (m : Message)
    → IsDistinct (members_of h.rooms m.room)
    → IsOpen h.heap m (members_of h.rooms m.room)
    → Delivered h m (members_of h.rooms m.room) (broadcast h m)
unfolding members_of broadcast
broadcast_lem h m u o = elim (Option-cases (find h.rooms m.room)) [
  | inl e ↦ rw (e, broadcast, members_of) (unfold contains in (h, refl, refl, λ d. refl))
  | inr (cs, e) ↦
      rw (e, broadcast, members_of)
        (deliver_lem m cs h (rw (e, members_of) at u) (rw (e, members_of) at o))
]
