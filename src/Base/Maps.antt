-- ===== src/Base/Maps.antt =====
-- Maps with numbers as keys, as lists of entries in the order of insertion.
use Prim.Native.Nat.{ℕ, ◌≤◌}
use mathlib.Core.Path.{◌≡◌, refl}
use mathlib.Core.Option.{Option, none, some}
use mathlib.Core.List.{List, [], ◌∷◌}
use mathlib.Core.Logic.{inl, inr}
use native.Mathlib.Omega.{arith}
use safe_pass.Base.Tests.{◌==◌, leb, if◌then◌else◌, Bool-cases}

module _ {ℓ} {A : Type ℓ} where
  -- `Map.get`
  unfoldable pub map_get : ℕ → List (ℕ × A) → Option A
  map_get k [] = none
  map_get k ((i, a) ∷ m) = if i == k then some a else map_get k m

  -- `Map.set`: in place of the entry of the key, or after all entries.
  unfoldable pub map_set : ℕ → A → List (ℕ × A) → List (ℕ × A)
  map_set k a [] = (k, a) ∷ []
  map_set k a ((i, b) ∷ m) =
      let rest = map_set k a m in if i == k then (i, a) ∷ m else (i, b) ∷ rest

  -- The largest key, and 0 if there is none.
  unfoldable pub max_key : List (ℕ × A) → ℕ
  max_key [] = 0
  max_key ((i, a) ∷ m) = let rest = max_key m in if leb rest i then i else rest

  pub map_get-map_set :
      (j k : ℕ) (a : A) (m : List (ℕ × A))
      → map_get j (map_set k a m) ≡ (if k == j then some a else map_get j m)
  unfolding map_get map_set
  map_get-map_set j k a [] = refl
  map_get-map_set j k a ((i, b) ∷ m) = elim (Bool-cases (i == k)) [
    | inl same ↦ ground arith
    | inr other ↦ ground (arith, map_get-map_set j k a m)
  ]

  pub map_get-le : (k : ℕ) (m : List (ℕ × A)) {a : A} → map_get k m ≡ some a → k ≤ max_key m
  unfolding map_get max_key
  map_get-le k [] e = cc
  map_get-le k ((i, b) ∷ m) {a} e = ground (arith, map_get-le k m {a = a})

  -- The largest key of a map with an entry has an entry.
  pub map_get-max_key :
      (i : ℕ) (b : A) (m : List (ℕ × A))
      → (a : A) × (map_get (max_key ((i, b) ∷ m)) ((i, b) ∷ m) ≡ some a)
  unfolding map_get max_key
  map_get-max_key i b [] = (b, ground arith)
  map_get-max_key i b ((j, c) ∷ m) =
      let (a, found) = map_get-max_key j c m in
      elim (Bool-cases (leb (max_key ((j, c) ∷ m)) i)) [
        | inl top ↦ (b, ground arith)
        | inr below ↦ (a, ground arith)
      ]
