-- ===== src/Http/Text/Folding.antt =====
-- EqualFold and ToLower of package strings.
use Prim.Native.Char.{Char, code}
use text.Mathlib.TextEquality.{Char-path}
use text.Mathlib.TextLemmas.{cons-eq-cons}
use trabalho_radio_px.Prelude.{String, ◌≡◌, refl, ap, true, ◌==◌, ◌↔◌, eq_iff, arith}
use trabalho_radio_px.Prelude.Sets.{nat_eq_iff}
use trabalho_radio_px.Http.Text.{lower_char, to_lower, equal_fold, same_char}

same_char_iff : (c d : Char) → (same_char c d ≡ true) ↔ (c ≡ d)
same_char_iff c d = (
  λ h. Char-path c d ((nat_eq_iff (code c) (code d)).0 h),
  λ p. (nat_eq_iff (code c) (code d)).1 (ap code p),
)

equal_fold_iff : (s t : String) → (equal_fold s t ≡ true) ↔ (to_lower s ≡ to_lower t)
unfolding equal_fold to_lower
equal_fold_iff String.[] String.[] = (λ h. refl, λ h. refl)
equal_fold_iff String.[] (String.◌∷◌ d t) = (λ h. cc, λ h. cc)
equal_fold_iff (String.◌∷◌ c s) String.[] = (λ h. cc, λ h. cc)
equal_fold_iff (String.◌∷◌ c s) (String.◌∷◌ d t) =
    let same = same_char_iff (lower_char c) (lower_char d) in
    let rest = equal_fold_iff s t in
    let parts =
      cons-eq-cons {x = lower_char c} {y = lower_char d} {xs = to_lower s} {ys = to_lower t} in
    ground (arith, same, rest, parts)

-- EqualFold gives the same answer as `==` on the texts in lower case.
pub equal_fold-to_lower : (s t : String) → equal_fold s t ≡ (to_lower s == to_lower t)
equal_fold-to_lower s t = ground (arith, equal_fold_iff s t, eq_iff (to_lower s) (to_lower t))
