-- ===== src/Prelude/Sets.antt =====
-- Go's `map[K]bool` as the list of its keys in the order of a `range` loop, and slices searched for
-- an item.
use Prim.Native.Nat.{ℕ, suc}
use Prim.Native.String.{String}
use mathlib.Core.Path.{◌≡◌, refl}
use mathlib.Core.Logic.{◌↔◌}
use mathlib.Core.Bool.{Bool, true, false, not, ◌&&◌, ◌||◌}
use mathlib.Core.List.{List, [], ◌∷◌, ◌++◌}
use native.Mathlib.Omega.{arith}
use text.Mathlib.Text.{◌==◌}
use text.Mathlib.TextEquality.{eq_iff}
use trabalho_radio_px.Prelude.Tests.{nat_eq, if◌then◌else◌}
use trabalho_radio_px.Prelude.Lists.{length}

-- A type with Go's `==`.
pub record Comparable {ℓ} (A : Type ℓ) : Type ℓ where
  pub same : A → A → Bool
  pub same_iff : (a b : A) → (same a b ≡ true) ↔ (a ≡ b)

pub nat_eq_iff : (a b : ℕ) → (nat_eq a b ≡ true) ↔ (a ≡ b)
nat_eq_iff a b = (λ h. ground arith, λ h. ground arith)

instance abbrev pub ℕ_comparable : Comparable ℕ
ℕ_comparable = record { same = nat_eq; same_iff = nat_eq_iff }

instance abbrev pub String_comparable : Comparable String
String_comparable = record { same = ◌==◌; same_iff = eq_iff }

module _ {ℓ} {A : Type ℓ} ⦃e : Comparable A⦄ where
  -- `_, ok := set[a]`, or the search of a slice
  unfoldable pub contains : List A → A → Bool
  contains [] a = false
  contains (x ∷ xs) a = e.same x a || contains xs a

  -- `set[a] = true`
  unfoldable pub insert : List A → A → List A
  insert [] a = a ∷ []
  insert (x ∷ xs) a = let rest = insert xs a in if e.same x a then x ∷ xs else x ∷ rest

  -- `delete(set, a)`
  unfoldable pub remove : List A → A → List A
  remove [] a = []
  remove (x ∷ xs) a = let rest = remove xs a in if e.same x a then rest else x ∷ rest

  -- The items are distinct.
  abbrev pub IsDistinct : List A → Type 0
  IsDistinct [] = Unit
  IsDistinct (x ∷ xs) = (contains xs x ≡ false) × IsDistinct xs

  pub same-sym : (a b : A) → e.same a b ≡ e.same b a
  same-sym a b = ground (arith, e.same_iff a b, e.same_iff b a)

  pub contains-insert :
      (xs : List A) (a b : A) → contains (insert xs a) b ≡ (e.same a b || contains xs b)
  unfolding contains insert
  contains-insert [] a b = refl
  contains-insert (x ∷ xs) a b =
      ground (arith, e.same_iff x a, e.same_iff x b, e.same_iff a b, contains-insert xs a b)

  pub contains-remove :
      (xs : List A) (a b : A) → contains (remove xs a) b ≡ (not (e.same a b) && contains xs b)
  unfolding contains remove
  contains-remove [] a b = ground arith
  contains-remove (x ∷ xs) a b =
      ground (arith, e.same_iff x a, e.same_iff x b, e.same_iff a b, contains-remove xs a b)

  pub insert-IsDistinct : (xs : List A) (a : A) → IsDistinct xs → IsDistinct (insert xs a)
  unfolding contains insert
  insert-IsDistinct [] a h = (refl, tt)
  insert-IsDistinct (x ∷ xs) a h =
      ground
        (arith, e.same_iff x a, e.same_iff a x, contains-insert xs a x, insert-IsDistinct xs a h.1)

  pub remove-IsDistinct : (xs : List A) (a : A) → IsDistinct xs → IsDistinct (remove xs a)
  unfolding remove
  remove-IsDistinct [] a h = tt
  remove-IsDistinct (x ∷ xs) a h =
      ground (arith, contains-remove xs a x, remove-IsDistinct xs a h.1)

  pub length-insert :
      (xs : List A) (a : A)
      → length (insert xs a) ≡ (if contains xs a then length xs else suc (length xs))
  unfolding contains insert
  length-insert [] a = refl
  length-insert (x ∷ xs) a = ground (arith, length-insert xs a)

  pub remove-not_in : (xs : List A) (a : A) → contains xs a ≡ false → remove xs a ≡ xs
  unfolding contains remove
  remove-not_in [] a h = refl
  remove-not_in (x ∷ xs) a h = ground (arith, remove-not_in xs a)

  pub contains-append :
      (xs ys : List A) (a : A) → contains (xs ++ ys) a ≡ (contains xs a || contains ys a)
  unfolding contains
  contains-append [] ys a = refl
  contains-append (x ∷ xs) ys a = ground (arith, contains-append xs ys a)

  pub append-IsDistinct :
      (xs : List A) (a : A) → contains xs a ≡ false → IsDistinct xs → IsDistinct (xs ++ a ∷ [])
  unfolding contains
  append-IsDistinct [] a h d = (refl, tt)
  append-IsDistinct (x ∷ xs) a h d = ground (
    arith,
    same-sym x a,
    contains-append xs (a ∷ []) x,
    append-IsDistinct xs a (ground arith) d.1,
  )
