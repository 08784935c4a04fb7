-- ===== src/Channel/Handler/Paths.antt =====
-- extractChannelID of backend/internal/channel/handler.go, on the paths of the routes.
use Prim.Native.Char.{Char, code}
use Prim.Native.String
use Prim.Native.String.append
use trabalho_radio_px.Prelude.{
  String, ◌≡◌, refl, ap, ◌∙◌, true, false, List, [], ◌∷◌, ◌++◌, Bool-cases, inl, inr,
}
use text.Mathlib.TextLemmas.{append_assoc}
use trabalho_radio_px.Prelude.Sets.{nat_eq_iff}
use trabalho_radio_px.Http.Text.{same_char, before_first, split, contains_char}
use trabalho_radio_px.Channel.Handler.{slash, after_channels, extract_channel_id}

split-cons : (sep : Char) (s : String) → (p : String) × (ps : List String) × (split sep s ≡ p ∷ ps)
unfolding split
split-cons sep String.[] = (String.[], [], refl)
split-cons sep (String.◌∷◌ c s) = elim (Bool-cases (same_char c sep)) [
  | inl e ↦ (String.[], split sep s, rw (split, e) refl)
  | inr e ↦ let (p, ps, h) = split-cons sep s in (String.◌∷◌ c p, ps, rw (split, e, h) refl)
]

before_first-append :
    (c : Char) (xs ys : List String) (p : String) (ps : List String)
    → xs ≡ p ∷ ps
    → before_first c (xs ++ ys) ≡ before_first c xs ++ ys
before_first-append c xs ys p ps h = rw h refl

same_char_refl : (c : Char) → same_char c c ≡ true
same_char_refl c = (nat_eq_iff (code c) (code c)).1 refl

-- Splitting distributes over a separator.
split-append :
    (sep : Char) (s t : String)
    → split sep (String.◌++◌ s (String.◌∷◌ sep t)) ≡ split sep s ++ split sep t
unfolding split
split-append sep String.[] t =
    ap (split sep) (String.append.nil (String.◌∷◌ sep t)) ∙ rw (split, same_char_refl sep) refl
split-append sep (String.◌∷◌ c s) t =
    ap (split sep) (String.append.cons c s (String.◌∷◌ sep t))
    ∙ elim (Bool-cases (same_char c sep)) [
      | inl e ↦ rw (split, e, split-append sep s t) refl
      | inr e ↦
          let (p, ps, h) = split-cons sep s in
          rw (split, e, split-append sep s t)
            (before_first-append c (split sep s) (split sep t) p ps h)
    ]

split-absent : (sep : Char) (s : String) → contains_char sep s ≡ false → split sep s ≡ s ∷ []
unfolding split contains_char
split-absent sep String.[] h = refl
split-absent sep (String.◌∷◌ c s) h = elim (Bool-cases (same_char c sep)) [
  | inl e ↦ let h' = rw (contains_char, e) at h in cc
  | inr e ↦
      let h' : contains_char sep s ≡ false = rw (contains_char, e) at h in
      rw (split, e, split-absent sep s h') refl
]

extract-route :
    (id : String) (t : String) (rest : List String)
    → split slash t ≡ id ∷ rest
    → extract_channel_id (String.◌++◌ "/api/v1/channels/" t) ≡ id
unfolding extract_channel_id split
extract-route id t rest h =
    let path : String.◌++◌ "/api/v1/channels/" t
        ≡ String.◌++◌ "/api/v1/channels" (String.◌∷◌ slash t) =
      append_assoc "/api/v1/channels" "/" t
      ∙ ap (λ u. String.◌++◌ "/api/v1/channels" u)
          (String.append.cons slash "" t ∙ ap (λ u. String.◌∷◌ slash u) (String.append.nil t)) in
    let parts : split slash (String.◌++◌ "/api/v1/channels/" t)
        ≡ "" ∷ "api" ∷ "v1" ∷ "channels" ∷ id ∷ rest =
      ap (split slash) path
      ∙ split-append slash "/api/v1/channels" t
      ∙ ap (λ u. "" ∷ "api" ∷ "v1" ∷ "channels" ∷ u) h in
    ap after_channels parts

-- A path of a channel whose identifier has no slash gives the identifier, alone or in front of
-- another segment.
pub extract_channel_id-append :
    (id rest : String)
    → contains_char slash id ≡ false
    → (extract_channel_id (String.◌++◌ "/api/v1/channels/" id) ≡ id)
      × (extract_channel_id
            (String.◌++◌ "/api/v1/channels/" (String.◌++◌ id (String.◌∷◌ slash rest)))
          ≡ id)
extract_channel_id-append id rest h =
    let alone = split-absent slash id h in
    (
      extract-route id id [] alone,
      extract-route id (String.◌++◌ id (String.◌∷◌ slash rest)) (split slash rest)
          (split-append slash id rest ∙ ap (λ u. u ++ split slash rest) alone),
    )
