-- ===== src/Prelude/Map.antt =====
-- Go's `map[string]V` as a list of entries in the order in which a `range` loop visits them. Go
-- leaves that order open, so theorems hold for every list of entries with distinct keys.
use Prim.Native.String.{String}
use mathlib.Core.Path.{◌≡◌, refl, ap, ◌∙◌}
use mathlib.Core.Logic.{◌⊎◌, inl, inr}
use mathlib.Core.Bool.{Bool, true, false}
use mathlib.Core.List.{List, [], ◌∷◌}
use mathlib.Core.Option.{Option, none, some}
use native.Mathlib.Omega.{arith}
use text.Mathlib.Text.{◌==◌}
use text.Mathlib.TextEquality.{eq_iff}
use text.Mathlib.TextPositions.{eq_refl}
use trabalho_radio_px.Prelude.Tests.{Bool-cases, if◌then◌else◌}

abbrev pub Map {ℓ} : Type ℓ → Type ℓ
Map V = List (String × V)

module _ {ℓ} {V : Type ℓ} where
  -- `v, ok := m[key]`
  unfoldable pub find : Map V → String → Option V
  find [] key = none
  find ((j, v) ∷ m) key = if j == key then some v else find m key

  -- `m[key] = value`
  unfoldable pub put : Map V → String → V → Map V
  put [] key value = (key, value) ∷ []
  put ((j, v) ∷ m) key value = if j == key then (j, value) ∷ m else (j, v) ∷ put m key value

  -- `delete(m, key)`
  unfoldable pub delete : Map V → String → Map V
  delete [] key = []
  delete ((j, v) ∷ m) key = let rest = delete m key in if j == key then rest else (j, v) ∷ rest

  -- A `range` loop that deletes the entries which fail a test.
  unfoldable pub retain : (String → V → Bool) → Map V → Map V
  retain p [] = []
  retain p ((j, v) ∷ m) = let rest = retain p m in if p j v then (j, v) ∷ rest else rest

  -- The keys are distinct, as they are in every Go map.
  abbrev pub IsMap : Map V → Type ℓ
  IsMap [] = Unit
  IsMap ((j, v) ∷ m) = (find m j ≡ none) × IsMap m

  pub find-put :
      (m : Map V) (k : String) (v : V) (j : String)
      → find (put m k v) j ≡ (if k == j then some v else find m j)
  unfolding find put
  find-put [] k v j = refl
  find-put ((i, w) ∷ m) k v j = ground (arith, eq_iff i k, eq_iff i j, eq_iff k j, find-put m k v j)

  -- The same law by cases of the test, as hypotheses that the tactics read.
  pub find-put_cases :
      (m : Map V) (k : String) (v : V) (j : String)
      → ((k == j) ≡ true) × (find (put m k v) j ≡ some v)
        ⊎ ((k == j) ≡ false) × (find (put m k v) j ≡ find m j)
  find-put_cases m k v j = elim (Bool-cases (k == j)) [
    | inl e ↦ inl (e, find-put m k v j ∙ ap (λ b. if b then some v else find m j) e)
    | inr e ↦ inr (e, find-put m k v j ∙ ap (λ b. if b then some v else find m j) e)
  ]

  pub find-delete :
      (m : Map V) (k j : String) → find (delete m k) j ≡ (if k == j then none else find m j)
  unfolding find delete
  find-delete [] k j = ground arith
  find-delete ((i, w) ∷ m) k j =
      ground (arith, eq_iff i k, eq_iff i j, eq_iff k j, find-delete m k j)

  abbrev pub kept : (String → V → Bool) → String → Option V → Option V
  kept p k none = none
  kept p k (some v) = if p k v then some v else none

  pub find-retain :
      (p : String → V → Bool) (m : Map V) (j : String)
      → IsMap m
      → find (retain p m) j ≡ kept p j (find m j)
  unfolding find retain
  find-retain p [] j h = refl
  find-retain p ((i, w) ∷ m) j h = ground (arith, eq_iff i j, find-retain p m j h.1)

  pub put-IsMap : (m : Map V) (k : String) (v : V) → IsMap m → IsMap (put m k v)
  unfolding find put
  put-IsMap [] k v h = (refl, tt)
  put-IsMap ((i, w) ∷ m) k v h =
      ground (arith, eq_iff i k, eq_iff k i, find-put m k v i, put-IsMap m k v h.1)

  pub delete-IsMap : (m : Map V) (k : String) → IsMap m → IsMap (delete m k)
  unfolding delete
  delete-IsMap [] k h = tt
  delete-IsMap ((i, w) ∷ m) k h = ground (arith, find-delete m k i, delete-IsMap m k h.1)

  pub retain-IsMap : (p : String → V → Bool) (m : Map V) → IsMap m → IsMap (retain p m)
  unfolding retain
  retain-IsMap p [] h = tt
  retain-IsMap p ((i, w) ∷ m) h = ground (arith, find-retain p m i h.1, retain-IsMap p m h.1)

pub ruleset map_laws = (find-put, find-delete)

-- `m[key]` where the values are slices: a missing key reads as the empty slice.
unfoldable pub entry {ℓ} : {A : Type ℓ} → Map (List A) → String → List A
entry m key = elim (find m key) [ none ↦ [] | some xs ↦ xs ]

-- The keys in the order of a `range` loop.
unfoldable pub keys {ℓ} : {V : Type ℓ} → Map V → List String
keys [] = []
keys ((k, v) ∷ m) = k ∷ keys m

pub entry-put {ℓ} :
    {A : Type ℓ} (m : Map (List A)) (k : String) (xs : List A) (j : String)
    → entry (put m k xs) j ≡ (if k == j then xs else entry m j)
unfolding entry
entry-put m k xs j = elim (Bool-cases (k == j)) [
  | inl e ↦ rw e (ground (arith, find-put_cases m k xs j))
  | inr e ↦ rw e (ground (arith, find-put_cases m k xs j))
]

pub entry-put_self {ℓ} :
    {A : Type ℓ} (m : Map (List A)) (k : String) (xs : List A) → entry (put m k xs) k ≡ xs
entry-put_self m k xs = rw (entry-put, eq_refl k)

pub entry_of_find {ℓ} :
    {A : Type ℓ} (m : Map (List A)) (k : String) {xs : List A} → find m k ≡ some xs → entry m k ≡ xs
unfolding entry
entry_of_find m k e = rw (e, entry)

pub entry-delete {ℓ} :
    {A : Type ℓ} (m : Map (List A)) (k j : String)
    → entry (delete m k) j ≡ (if k == j then [] else entry m j)
unfolding entry
entry-delete m k j = elim (Bool-cases (k == j)) [
  | inl e ↦ rw (entry, find-delete, e)
  | inr e ↦ rw (entry, find-delete, e)
]

pub entry_of_missing {ℓ} :
    {A : Type ℓ} (m : Map (List A)) (k : String) → find m k ≡ none → entry m k ≡ []
unfolding entry
entry_of_missing m k e = rw (e, entry)
