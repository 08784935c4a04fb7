-- ===== src/Channel/Service/Sort.antt =====
-- backend/internal/channel/service.go, sortChannelsByDistance: the exchange sort, for any test of
-- which item is nearer.
use mathlib.Core.List.{Perm}
use mathlib.Core.List.Perm
use mathlib.Core.Path.{subst}
use trabalho_radio_px.Prelude.{
  ℕ, zero, suc, ◌≤◌, ◌≡◌, sym, refl, Bool, true, false, Bool-cases, inl, inr, List, [], ◌∷◌, length,
  arith, All,
}
use trabalho_radio_px.Channel.Service.{sort_pass, sort_rounds}

-- Of two items the later one is never the nearer.
abbrev pub IsSorted {ℓ} : {A : Type ℓ} → (A → A → Bool) → List A → Type 0
IsSorted nearer [] = Unit
IsSorted nearer (x ∷ xs) = All (λ y. nearer y x ≡ false) xs × IsSorted nearer xs

module _ {ℓ} {A : Type ℓ} (nearer : A → A → Bool) where
  pass-perm :
      (x : A) (xs : List A) → Perm ((sort_pass nearer x xs).0 ∷ (sort_pass nearer x xs).1) (x ∷ xs)
  unfolding sort_pass
  pass-perm x [] = Perm.refl (x ∷ [])
  pass-perm x (y ∷ ys) = elim (Bool-cases (nearer y x)) [
    | inl e ↦
        rw e
          (Perm.trans (Perm.swap _ _ _) (Perm.trans (Perm.cons x (pass-perm y ys)) (Perm.refl _)))
    | inr e ↦
        rw e (
          Perm.trans (Perm.swap _ _ _)
            (Perm.trans (Perm.cons y (pass-perm x ys)) (Perm.swap _ _ _)))
  ]

  pub rounds-perm : (n : ℕ) (xs : List A) → Perm (sort_rounds nearer n xs) xs
  unfolding sort_rounds
  rounds-perm zero xs = Perm.refl xs
  rounds-perm (suc n) [] = Perm.refl []
  rounds-perm (suc n) (x ∷ xs) =
      Perm.trans (Perm.cons _ (rounds-perm n (sort_pass nearer x xs).1)) (pass-perm x xs)

  pass_swap :
      (x y : A) (ys : List A)
      → nearer y x ≡ true
      → sort_pass nearer x (y ∷ ys) ≡ ((sort_pass nearer y ys).0, x ∷ (sort_pass nearer y ys).1)
  unfolding sort_pass
  pass_swap x y ys e = rw e

  pass_keep :
      (x y : A) (ys : List A)
      → nearer y x ≡ false
      → sort_pass nearer x (y ∷ ys) ≡ ((sort_pass nearer x ys).0, y ∷ (sort_pass nearer x ys).1)
  unfolding sort_pass
  pass_keep x y ys e = rw e

  pass-length : (x : A) (xs : List A) → length (sort_pass nearer x xs).1 ≡ length xs
  unfolding sort_pass
  pass-length x [] = refl
  pass-length x (y ∷ ys) = ground (arith, pass-length x ys, pass-length y ys)

  pub rounds-length : (n : ℕ) (xs : List A) → length (sort_rounds nearer n xs) ≡ length xs
  unfolding sort_rounds
  rounds-length zero xs = refl
  rounds-length (suc n) [] = refl
  rounds-length (suc n) (x ∷ xs) =
      omega (arith, rounds-length n (sort_pass nearer x xs).1, pass-length x xs)

  pass-All {κ} :
      (P : A → Type κ) (x : A) (xs : List A)
      → P x
      → All P xs
      → P (sort_pass nearer x xs).0 × All P (sort_pass nearer x xs).1
  unfolding sort_pass
  pass-All P x [] h hs = (h, tt)
  pass-All P x (y ∷ ys) h hs = elim (Bool-cases (nearer y x)) [
    | inl e ↦ let r = pass-All P y ys hs.0 hs.1 in rw e (r.0, (h, r.1))
    | inr e ↦ let r = pass-All P x ys h hs.1 in rw e (r.0, (hs.0, r.1))
  ]

  pub rounds-All {κ} :
      (P : A → Type κ) (n : ℕ) (xs : List A) → All P xs → All P (sort_rounds nearer n xs)
  unfolding sort_rounds
  rounds-All P zero xs h = h
  rounds-All P (suc n) [] h = h
  rounds-All P (suc n) (x ∷ xs) h =
      let r = pass-All P x xs h.0 h.1 in (r.0, rounds-All P n (sort_pass nearer x xs).1 r.1)

-- What the test must satisfy on the items: `Proper` ones compare as the numbers they stand for.
module _ {ℓ} {A : Type ℓ} (nearer : A → A → Bool) (Proper : A → Type 0)
    (asym : (a b : A) → nearer a b ≡ true → nearer b a ≡ false)
    (negative_trans : (a b c : A)
      → Proper b
      → nearer b a ≡ false
      → nearer c b ≡ false
      → nearer c a ≡ false) where
  irrefl : (a : A) → nearer a a ≡ false
  irrefl a = elim (Bool-cases (nearer a a)) [ inl e ↦ asym a a e | inr e ↦ e ]

  -- The old first item and the others are no nearer than the new first item.
  abbrev IsLeast : A → A × List A → Type 0
  IsLeast x r = (nearer x r.0 ≡ false) × All (λ y. nearer y r.0 ≡ false) r.1

  pass-IsLeast :
      (x : A) (xs : List A) → Proper x → All Proper xs → IsLeast x (sort_pass nearer x xs)
  unfolding sort_pass
  pass-IsLeast x [] p ps = (irrefl x, tt)
  pass-IsLeast x (y ∷ ys) p ps = elim (Bool-cases (nearer y x)) [
    | inl e ↦
        let r = pass-IsLeast y ys ps.0 ps.1 in
        let old = negative_trans _ y x ps.0 r.0 (asym y x e) in
        subst (IsLeast x) (sym (pass_swap nearer x y ys e)) (old, (old, r.1))
    | inr e ↦
        let r = pass-IsLeast x ys p ps.1 in
        subst (IsLeast x) (sym (pass_keep nearer x y ys e))
          (r.0, (negative_trans _ x y p r.0 e, r.1))
  ]

  -- With as many rounds as items the result is sorted.
  pub rounds-IsSorted :
      (n : ℕ) (xs : List A)
      → length xs ≤ n
      → All Proper xs
      → IsSorted nearer (sort_rounds nearer n xs)
  unfolding sort_rounds
  rounds-IsSorted zero [] l p = tt
  rounds-IsSorted zero (x ∷ xs) l p = absurd (omega arith)
  rounds-IsSorted (suc n) [] l p = tt
  rounds-IsSorted (suc n) (x ∷ xs) l p =
      let least = pass-IsLeast x xs p.0 p.1 in
      (
        rounds-All nearer _ n (sort_pass nearer x xs).1 least.1,
        rounds-IsSorted n (sort_pass nearer x xs).1 (omega (arith, pass-length nearer x xs))
            (pass-All nearer Proper x xs p.0 p.1).1,
      )
