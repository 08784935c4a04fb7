-- ===== src/Hub/Crash.antt =====
-- backend/pkg/websocket/hub.go: when a step of the hub panics, and so ends the process.
use trabalho_radio_px.Prelude.{
  ℕ, ◌≡◌, ap, sym, ◌∙◌, true, false, Bool-cases, Option-cases, inl, inr, List, [], ◌∷◌, arith,
  nat_eq,
}
use trabalho_radio_px.Prelude.Map.{find}
use trabalho_radio_px.Prelude.Sets.{ℕ_comparable, contains, IsDistinct, nat_eq_iff}
use trabalho_radio_px.Hub.{
  Message, Endpoint, Hub, Outcome, ok, panicked, has_room, update, is_sender, send_to, drop_client,
  deliver, broadcast, unregister, members_of,
}
use trabalho_radio_px.Hub.Broadcast.{IsOpen, after_delivery, broadcast_lem}

update-closed :
    (heap : ℕ → Endpoint) (c d : ℕ) (x : Endpoint)
    → (heap d).closed ≡ true
    → (nat_eq c d ≡ true → x.closed ≡ true)
    → (update heap c x d).closed ≡ true
unfolding update
update-closed heap c d x h k = elim (Bool-cases (nat_eq c d)) [
  | inl same ↦ rw same (k same)
  | inr differ ↦ rw differ h
]

closed_member_deliver :
    (m : Message) (c : ℕ) (cs : List ℕ) (h : Hub)
    → contains cs c ≡ true
    → is_sender m c ≡ false
    → (h.heap c).closed ≡ true
    → deliver h m cs ≡ panicked
unfolding contains deliver
closed_member_deliver m c [] h n s closed = cc
closed_member_deliver m c (d ∷ cs) h n s closed = elim (Bool-cases (nat_eq d c)) [
  | inl same ↦
      let e : d ≡ c = (nat_eq_iff d c).0 same in
      ground (arith, ap (is_sender m) e, ap (λ k. (h.heap k).closed) e)
  | inr differ ↦ ground (
    arith,
    closed_member_deliver m c cs h (ground arith) s closed,
    closed_member_deliver m c cs (send_to h m d) (ground arith) s
        (update-closed h.heap d c _ closed (λ k. cc)),
    closed_member_deliver m c cs (drop_client h m d) (ground arith) s
        (update-closed h.heap d c _ closed (λ k. cc)),
  )
]

none_contained : (c : ℕ) → contains [] c ≡ true → ⊥
unfolding contains
none_contained c h = cc

-- A broadcast to a room that has a member with a closed channel, who is not the sender, panics.
pub closed_member_broadcast :
    (h : Hub) (m : Message) (c : ℕ)
    → contains (members_of h.rooms m.room) c ≡ true
    → is_sender m c ≡ false
    → (h.heap c).closed ≡ true
    → broadcast h m ≡ panicked
unfolding members_of broadcast contains
closed_member_broadcast h m c n s closed = elim (Option-cases (find h.rooms m.room)) [
  | inl e ↦ absurd (none_contained c (rw (e, members_of) at n))
  | inr (cs, e) ↦
      rw (e, broadcast) (closed_member_deliver m c cs h (rw (e, members_of) at n) s closed)
]

abbrev reached : Hub → Outcome → Hub
reached h (ok g) = g
reached h panicked = h

-- A broadcast ended in a room that lists each member once and none of whose members but the sender
-- had a closed channel. A registered member other than the sender whose buffer was full then
-- panics the hub when it is unregistered: its channel is closed a second time.
pub slow_client_unregister :
    (h h' : Hub) (m : Message) (c : ℕ)
    → IsDistinct (members_of h.rooms m.room)
    → IsOpen h.heap m (members_of h.rooms m.room)
    → broadcast h m ≡ ok h'
    → contains (members_of h.rooms m.room) c ≡ true
    → is_sender m c ≡ false
    → has_room (h.heap c) ≡ false
    → contains h.clients c ≡ true
    → unregister h' c ≡ panicked
unfolding unregister
slow_client_unregister h h' m c u o b n s full r =
    let (g, e, kept, changed) = broadcast_lem h m u o in
    let same : g ≡ h' = ap (reached g) (sym e ∙ b) in
    let registered : contains h'.clients c ≡ true =
      ap (λ (k : Hub). contains k.clients c) (sym same) ∙ ap (λ cs. contains cs c) kept ∙ r in
    let shut : (h'.heap c).closed ≡ true =
      ap (λ (k : Hub). (k.heap c).closed) (sym same)
      ∙ ap (λ (x : Endpoint). x.closed) (changed c)
      ∙ dropped in
    ground arith
  where
    dropped : (after_delivery h.heap m (members_of h.rooms m.room) c).closed ≡ true
    dropped = ground arith
