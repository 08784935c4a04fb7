-- ===== src/Hub/Rooms.antt =====
-- backend/pkg/websocket/hub.go: who is in which room after each step.
use trabalho_radio_px.Prelude.{
  ℕ, String, ◌≡◌, ◌==◌, eq_iff, ap, sym, ◌∙◌, not, ◌&&◌, ◌||◌, Bool-cases, Option-cases, List-cases,
  inl, inr, none, some, List, [], ◌∷◌, arith, nat_eq, if◌then◌else◌,
}
use trabalho_radio_px.Prelude.Map.{Map, find, put, delete, find-put, find-delete}
use trabalho_radio_px.Prelude.Sets.{
  ℕ_comparable, String_comparable, contains, insert, remove, contains-insert, contains-remove,
}
use trabalho_radio_px.Hub.{drop_member, drop_from_all, forget_member, add_member, members_of}

members-put :
    (rooms : Map (List ℕ)) (room : String) (cs : List ℕ) (r : String)
    → members_of (put rooms room cs) r ≡ (if room == r then cs else members_of rooms r)
unfolding members_of
members-put rooms room cs r = elim (Bool-cases (room == r)) [
  | inl e ↦ rw (members_of, find-put, e)
  | inr e ↦ rw (members_of, find-put, e)
]

members-delete :
    (rooms : Map (List ℕ)) (room r : String)
    → members_of (delete rooms room) r ≡ (if room == r then [] else members_of rooms r)
unfolding members_of
members-delete rooms room r = elim (Bool-cases (room == r)) [
  | inl e ↦ rw (members_of, find-delete, e)
  | inr e ↦ rw (members_of, find-delete, e)
]

members_none :
    (rooms : Map (List ℕ)) (room : String) → find rooms room ≡ none → members_of rooms room ≡ []
unfolding members_of
members_none rooms room e = rw (e, members_of)

members_some :
    (rooms : Map (List ℕ)) (room : String) {cs : List ℕ}
    → find rooms room ≡ some cs
    → members_of rooms room ≡ cs
unfolding members_of
members_some rooms room e = rw (e, members_of)

members_same :
    (rooms : Map (List ℕ)) (room r : String) {cs : List ℕ}
    → members_of rooms room ≡ cs
    → members_of rooms r ≡ (if room == r then cs else members_of rooms r)
members_same rooms room r e = elim (Bool-cases (room == r)) [
  | inl same ↦ rw same (ap (members_of rooms) (sym ((eq_iff room r).0 same)) ∙ e)
  | inr differ ↦ rw differ
]

pub members-drop :
    (rooms : Map (List ℕ)) (c : ℕ) (room r : String)
    → members_of (drop_member rooms c room) r
      ≡ (if room == r then remove (members_of rooms room) c else members_of rooms r)
unfolding drop_member remove
members-drop rooms c room r = elim (Option-cases (find rooms room)) [
  | inl e ↦
      rw (e, drop_member)
        (members_same rooms room r
          (members_none rooms room e ∙ sym (ap (λ cs. remove cs c) (members_none rooms room e))))
  | inr (cs, e) ↦ elim (List-cases (remove cs c)) [
    | inl none_left ↦
        rw (e, drop_member, none_left)
          (members-delete rooms room r
            ∙ ap (λ cs. if room == r then cs else members_of rooms r)
                (sym none_left ∙ ap (λ l. remove l c) (sym (members_some rooms room e))))
    | inr (x, xs, left) ↦
        rw (e, drop_member, left)
          (members-put rooms room (x ∷ xs) r
            ∙ ap (λ cs. if room == r then cs else members_of rooms r)
                (sym left ∙ ap (λ l. remove l c) (sym (members_some rooms room e))))
  ]
]

pub members-add :
    (rooms : Map (List ℕ)) (c : ℕ) (room r : String)
    → members_of (add_member rooms c room) r
      ≡ (if room == r then insert (members_of rooms room) c else members_of rooms r)
unfolding add_member
members-add rooms c room r = elim (Option-cases (find rooms room)) [
  | inl e ↦
      rw (e, add_member)
        (members-put rooms room (insert [] c) r
          ∙ ap (λ cs. if room == r then cs else members_of rooms r)
              (ap (λ l. insert l c) (sym (members_none rooms room e))))
  | inr (cs, e) ↦
      rw (e, add_member)
        (members-put rooms room (insert cs c) r
          ∙ ap (λ cs. if room == r then cs else members_of rooms r)
              (ap (λ l. insert l c) (sym (members_some rooms room e))))
]

pub members-forget :
    (rooms : Map (List ℕ)) (c : ℕ) (room r : String)
    → members_of (forget_member rooms c room) r
      ≡ (if room == r then remove (members_of rooms room) c else members_of rooms r)
unfolding forget_member remove
members-forget rooms c room r = elim (Option-cases (find rooms room)) [
  | inl e ↦
      rw (e, forget_member)
        (members_same rooms room r
          (members_none rooms room e ∙ sym (ap (λ cs. remove cs c) (members_none rooms room e))))
  | inr (cs, e) ↦
      rw (e, forget_member)
        (members-put rooms room (remove cs c) r
          ∙ ap (λ l. if room == r then l else members_of rooms r)
              (ap (λ l. remove l c) (sym (members_some rooms room e))))
]

-- Membership after a client was taken out of a room: only its own, in that room, is gone.
pub contains-drop :
    (rooms : Map (List ℕ)) (c : ℕ) (room r : String) (d : ℕ)
    → contains (members_of (drop_member rooms c room) r) d
      ≡ (contains (members_of rooms r) d && not (room == r && nat_eq c d))
contains-drop rooms c room r d = rw members-drop (elim (Bool-cases (room == r)) [
  | inl e ↦ rw (e, contains-remove, (eq_iff room r).0 e) (ground arith)
  | inr e ↦ rw e (ground arith)
])

pub contains-drop_from_all :
    (rs : List String) (rooms : Map (List ℕ)) (c : ℕ) (r : String) (d : ℕ)
    → contains (members_of (drop_from_all rooms c rs) r) d
      ≡ (contains (members_of rooms r) d && not (contains rs r && nat_eq c d))
unfolding drop_from_all contains
contains-drop_from_all [] rooms c r d = ground arith
contains-drop_from_all (room ∷ rs) rooms c r d =
    rw (contains-drop_from_all rs (drop_member rooms c room) c r d, contains-drop) (ground arith)

pub contains-forget :
    (rooms : Map (List ℕ)) (c : ℕ) (room r : String) (d : ℕ)
    → contains (members_of (forget_member rooms c room) r) d
      ≡ (contains (members_of rooms r) d && not (room == r && nat_eq c d))
contains-forget rooms c room r d = rw members-forget (elim (Bool-cases (room == r)) [
  | inl e ↦ rw (e, contains-remove, (eq_iff room r).0 e) (ground arith)
  | inr e ↦ rw e (ground arith)
])

pub contains-add :
    (rooms : Map (List ℕ)) (c : ℕ) (room r : String) (d : ℕ)
    → contains (members_of (add_member rooms c room) r) d
      ≡ ((room == r && nat_eq c d) || contains (members_of rooms r) d)
contains-add rooms c room r d = rw members-add (elim (Bool-cases (room == r)) [
  | inl e ↦ rw (e, contains-insert, (eq_iff room r).0 e) (ground arith)
  | inr e ↦ rw e (ground arith)
])
