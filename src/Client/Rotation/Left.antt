-- ===== src/Client/Rotation/Left.antt =====
-- Rows that a rotation has yet to rewrite: those of the old generation whose id is in a list.
use safe_pass.Base.{
  ℕ, zero, suc, ◌≤◌, ◌≡◌, refl, sym, ap, ◌∙◌, Bool, true, false, ◌&&◌, not, List, [], ◌∷◌, ◌++◌,
  ◌==◌, any, filter, update, count, map, length, take, drop, All, All-map, All-update, count-zero,
  Bool-cases, inl, inr, arith,
}
use mathlib.Core.Path.{subst}

-- Whether an id is listed.
abbrev pub has : ℕ → List ℕ → Bool
has k ids = any (λ i. i == k) ids

module _ {ℓ} {A : Type ℓ} (id : A → ℕ) (old : A → Bool) where
  -- Every row of the old generation is listed.
  abbrev pub AreListed : List ℕ → List A → Type 0
  AreListed ids xs = All (λ x. (old x && not (has (id x) ids)) ≡ false) xs

  pub AreListed-update :
      (f : A → A) (k : ℕ) (ids : List ℕ) (xs : List A)
      → ((x : A) → old (f x) ≡ false)
      → AreListed (k ∷ ids) xs
      → AreListed ids (update (λ x. id x == k) f xs)
  unfolding any
  AreListed-update f k ids xs fresh h =
      All-update (λ x. (old x && not (has (id x) (k ∷ ids))) ≡ false)
        (λ x. (old x && not (has (id x) ids)) ≡ false) (λ x. id x == k) f xs h
        (λ x _ _. ground (arith, fresh x)) (λ x other held. ground arith)

  AreListed-cons : (k : ℕ) (ids : List ℕ) (xs : List A) → AreListed ids xs → AreListed (k ∷ ids) xs
  unfolding any
  AreListed-cons k ids xs h = All-map _ _ (λ x held. ground arith) xs h

  -- At the start, the rows that a filter lists.
  pub AreListed-filter :
      (p : A → Bool) (xs : List A)
      → ((x : A) → old x ≡ true → p x ≡ true)
      → AreListed (map id (filter p xs)) xs
  unfolding any filter
  AreListed-filter p [] all' = tt
  AreListed-filter p (x ∷ xs) all' = elim (Bool-cases (p x)) [
    | inl in' ↦
        let kept : filter p (x ∷ xs) ≡ x ∷ filter p xs = ground arith in
        subst (λ l. AreListed (map id l) (x ∷ xs)) (sym kept)
          (ground arith, AreListed-cons (id x) _ xs (AreListed-filter p xs all'))
    | inr out ↦
        let dropped : filter p (x ∷ xs) ≡ filter p xs = ground arith in
        subst (λ l. AreListed (map id l) (x ∷ xs)) (sym dropped)
          (ground (arith, all' x), AreListed-filter p xs all')
  ]

  pub AreListed-none : (xs : List A) → AreListed [] xs → count old xs ≡ 0
  unfolding any
  AreListed-none xs h = count-zero old xs (All-map _ _ (λ x held. ground arith) xs h)

module _ {ℓ} {A : Type ℓ} (id : A → ℕ) where
  -- Every listed id is that of a row.
  abbrev pub AreRows : List ℕ → List A → Type 0
  AreRows ids xs = All (λ k. any (λ x. id x == k) xs ≡ true) ids

  any-update :
      (f : A → A) (j k : ℕ) (xs : List A)
      → ((x : A) → id (f x) ≡ id x)
      → any (λ x. id x == j) (update (λ x. id x == k) f xs) ≡ any (λ x. id x == j) xs
  unfolding any update
  any-update f j k [] same = refl
  any-update f j k (x ∷ xs) same = ground (arith, same x, any-update f j k xs same)

  pub AreRows-update :
      (f : A → A) (k : ℕ) (ids : List ℕ) (xs : List A)
      → ((x : A) → id (f x) ≡ id x)
      → AreRows ids xs
      → AreRows ids (update (λ x. id x == k) f xs)
  AreRows-update f k ids xs same h = All-map _ _ (λ j there. any-update f j k xs same ∙ there) ids h

  AreRows-cons : (x : A) (ids : List ℕ) (xs : List A) → AreRows ids xs → AreRows ids (x ∷ xs)
  unfolding any
  AreRows-cons x ids xs h = All-map _ _ (λ k there. ground arith) ids h

  pub AreRows-filter : (p : A → Bool) (xs : List A) → AreRows (map id (filter p xs)) xs
  unfolding any filter
  AreRows-filter p [] = tt
  AreRows-filter p (x ∷ xs) = elim (Bool-cases (p x)) [
    | inl in' ↦
        let kept : filter p (x ∷ xs) ≡ x ∷ filter p xs = ground arith in
        subst (λ l. AreRows (map id l) (x ∷ xs)) (sym kept)
          (ground arith, AreRows-cons x _ xs (AreRows-filter p xs))
    | inr out ↦
        let dropped : filter p (x ∷ xs) ≡ filter p xs = ground arith in
        subst (λ l. AreRows (map id l) (x ∷ xs)) (sym dropped)
          (AreRows-cons x _ xs (AreRows-filter p xs))
  ]

module _ {ℓ κ} {A : Type ℓ} (P : A → Type κ) where
  pub All-take : (n : ℕ) (xs : List A) → All P xs → All P (take n xs)
  All-take zero xs h = tt
  All-take (suc n) [] h = tt
  All-take (suc n) (x ∷ xs) (p, h) = (p, All-take n xs h)

  pub All-drop : (n : ℕ) (xs : List A) → All P xs → All P (drop n xs)
  All-drop zero xs h = h
  All-drop (suc n) [] h = tt
  All-drop (suc n) (x ∷ xs) (p, h) = All-drop n xs h

module _ {ℓ} {A : Type ℓ} where
  pub filter-filter :
      (p q : A → Bool) (xs : List A) → filter q (filter p xs) ≡ filter (λ x. p x && q x) xs
  unfolding filter
  filter-filter p q [] = refl
  filter-filter p q (x ∷ xs) = ground (arith, filter-filter p q xs)

  pub length-drop-le : (n : ℕ) (xs : List A) → length (drop n xs) ≤ length xs
  length-drop-le zero xs = omega arith
  length-drop-le (suc n) [] = omega arith
  length-drop-le (suc n) (x ∷ xs) = ground (arith, length-drop-le n xs)

  pub append-nil : (xs : List A) → xs ++ [] ≡ xs
  append-nil [] = refl
  append-nil (x ∷ xs) = ap (λ t. x ∷ t) (append-nil xs)

  pub take-drop : (n : ℕ) (xs : List A) → take n xs ++ drop n xs ≡ xs
  take-drop zero xs = refl
  take-drop (suc n) [] = refl
  take-drop (suc n) (x ∷ xs) = ap (λ t. x ∷ t) (take-drop n xs)

pub map-append {ℓ κ} :
    {A : Type ℓ} {B : Type κ} (f : A → B) (xs ys : List A) → map f (xs ++ ys) ≡ map f xs ++ map f ys
map-append f [] ys = refl
map-append f (x ∷ xs) ys = ap (λ t. f x ∷ t) (map-append f xs ys)
