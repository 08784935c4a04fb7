-- ===== src/Http/Text.antt =====
-- Package strings on texts of ASCII characters, as far as the handlers call it.
pub mod Folding
use Prim.Native.Char.{Char, code}
use Prim.Native.String.{char_at}
use Prim.Native.String
use trabalho_radio_px.Prelude.{
  ℕ, ◌-◌, String, Bool, true, false, not, ◌&&◌, ◌||◌, Option, none, some, List, [], ◌∷◌, leb,
  nat_eq, if◌then◌else◌, ◌==◌,
}

abbrev pub same_char : Char → Char → Bool
same_char c d = nat_eq (code c) (code d)

abbrev pub before_first : Char → List String → List String
before_first c [] = String.◌∷◌ c String.[] ∷ []
before_first c (p ∷ ps) = String.◌∷◌ c p ∷ ps

-- `Split(s, sep)` for a separator of one character
unfoldable pub split : Char → String → List String
split sep String.[] = String.[] ∷ []
split sep (String.◌∷◌ c s) =
    let rest = split sep s in if same_char c sep then String.[] ∷ rest else before_first c rest

abbrev pub before : Char → Option (String × String) → Option (String × String)
before c none = none
before c (some (a, b)) = some (String.◌∷◌ c a, b)

-- The two parts of `SplitN(s, sep, 2)`, `none` where there is one only
unfoldable pub cut : Char → String → Option (String × String)
cut sep String.[] = none
cut sep (String.◌∷◌ c s) =
    let rest = cut sep s in if same_char c sep then some (String.[], s) else before c rest

abbrev pub lower_letters : String
lower_letters = "abcdefghijklmnopqrstuvwxyz"

abbrev pub lower_char : Char → Char
lower_char c = if leb 65 (code c) && leb (code c) 90 then char_at lower_letters (code c - 65) else c

unfoldable pub to_lower : String → String
to_lower String.[] = String.[]
to_lower (String.◌∷◌ c s) = String.◌∷◌ (lower_char c) (to_lower s)

unfoldable pub equal_fold : String → String → Bool
equal_fold String.[] String.[] = true
equal_fold String.[] (String.◌∷◌ d t) = false
equal_fold (String.◌∷◌ c s) String.[] = false
equal_fold (String.◌∷◌ c s) (String.◌∷◌ d t) =
    same_char (lower_char c) (lower_char d) && equal_fold s t

-- What follows a prefix, the prefix first
unfoldable pub after_prefix : String → String → Option String
after_prefix String.[] s = some s
after_prefix (String.◌∷◌ c p) String.[] = none
after_prefix (String.◌∷◌ c p) (String.◌∷◌ d s) =
    let rest = after_prefix p s in if same_char c d then rest else none

unfoldable pub has_prefix : String → String → Bool
unfolding after_prefix
has_prefix s p = elim (after_prefix p s) [ none ↦ false | some _ ↦ true ]

unfoldable pub trim_prefix : String → String → String
unfolding after_prefix
trim_prefix s p = elim (after_prefix p s) [ none ↦ s | some rest ↦ rest ]

unfoldable pub has_suffix : String → String → Bool
has_suffix String.[] t = t == String.[]
has_suffix (String.◌∷◌ c s) t = String.◌∷◌ c s == t || has_suffix s t

-- `Contains` and `Trim` for one character
unfoldable pub contains_char : Char → String → Bool
contains_char sep String.[] = false
contains_char sep (String.◌∷◌ c s) = same_char c sep || contains_char sep s

unfoldable pub trim_left : Char → String → String
trim_left sep String.[] = String.[]
trim_left sep (String.◌∷◌ c s) =
    let rest = trim_left sep s in if same_char c sep then rest else String.◌∷◌ c s

abbrev pub before_end : Char → Char → String → String
before_end sep c String.[] = if same_char c sep then String.[] else String.◌∷◌ c String.[]
before_end sep c (String.◌∷◌ d s) = String.◌∷◌ c (String.◌∷◌ d s)

unfoldable pub trim_right : Char → String → String
trim_right sep String.[] = String.[]
trim_right sep (String.◌∷◌ c s) = before_end sep c (trim_right sep s)

unfoldable pub trim_char : Char → String → String
unfolding trim_left trim_right
trim_char sep s = trim_left sep (trim_right sep s)
