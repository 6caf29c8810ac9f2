-- ===== src/Base/Unique.antt =====
-- Keys that no two rows share, as a primary key or a unique index keeps them.
use Prim.Native.Nat.{ℕ, ◌≤◌}
use mathlib.Core.Path.{◌≡◌, sym, ap, ◌∙◌}
use mathlib.Core.Logic.{◌≢◌, inl, inr}
use mathlib.Core.Bool.{Bool, false, not, false≢true}
use mathlib.Core.Option.{some}
use mathlib.Core.List.{List, [], ◌∷◌}
use native.Mathlib.Omega.{arith}
use safe_pass.Base.Tests.{◌==◌, if◌then◌else◌, Bool-cases, ==_iff}
use safe_pass.Base.Rows.{
  All, find, filter, update, delete, any, count, count-update-le, count-delete, All-find,
  All-filter, All-update, All-map,
}

module _ {ℓ} {A : Type ℓ} (key : A → ℕ) where
  -- No two rows have the same key.
  abbrev pub IsUnique : List A → Type 0
  IsUnique [] = Unit
  IsUnique (x ∷ xs) = All (λ y. key y ≢ key x) xs × IsUnique xs

  -- Of rows with unique keys, those with the key of a row that was found are that row.
  pub find-All_unique :
      (p : A → Bool) (xs : List A) {m : A}
      → IsUnique xs
      → find p xs ≡ some m
      → All (λ x. key x ≡ key m → x ≡ m) xs
  unfolding find
  find-All_unique p [] u e = tt
  find-All_unique p (x ∷ xs) {m} (apart, u) e = elim (Bool-cases (p x)) [
    | inl hit ↦
        let same : x ≡ m = ground arith in
        (
          λ _. same,
          All-map (λ y. key y ≢ key x) (λ y. key y ≡ key m → y ≡ m)
              (λ y ne k. absurd (ne (k ∙ ap key (sym same)))) xs apart,
        )
    | inr miss ↦
        let found : find p xs ≡ some m = ground arith in
        (
          λ k. absurd (All-find (λ y. key y ≢ key x) p xs apart found (sym k)),
          find-All_unique p xs u found,
        )
  ]

  pub IsUnique-delete : (p : A → Bool) (xs : List A) → IsUnique xs → IsUnique (delete p xs)
  unfolding delete filter
  IsUnique-delete p [] u = tt
  IsUnique-delete p (x ∷ xs) (apart, u) = elim (Bool-cases (p x)) [
    | inl gone ↦ rw gone (IsUnique-delete p xs u)
    | inr kept ↦
        rw kept (All-filter (λ y. key y ≢ key x) (λ y. not (p y)) xs apart, IsUnique-delete p xs u)
  ]

  pub IsUnique-update :
      (p : A → Bool) (f : A → A) (xs : List A)
      → ((x : A) → key (f x) ≡ key x)
      → IsUnique xs
      → IsUnique (update p f xs)
  unfolding update
  IsUnique-update p f [] same u = tt
  IsUnique-update p f (x ∷ xs) same (apart, u) =
      let here : key (if p x then f x else x) ≡ key x = ground (arith, same x) in
      rw here (
        (
          All-update (λ y. key y ≢ key x) (λ y. key y ≢ key x) p f xs apart
              (λ y _ ne. rw (same y) ne) (λ y _ ne. ne),
          IsUnique-update p f xs same u,
        ))

  any-All_ne : (k : ℕ) (xs : List A) → any (λ y. key y == k) xs ≡ false → All (λ y. key y ≢ k) xs
  unfolding any
  any-All_ne k [] e = tt
  any-All_ne k (x ∷ xs) e = (ground arith, any-All_ne k xs (ground arith))

  -- A row whose key no row has may be added.
  pub IsUnique-cons :
      (x : A) (xs : List A) → any (λ y. key y == key x) xs ≡ false → IsUnique xs → IsUnique (x ∷ xs)
  IsUnique-cons x xs e u = (any-All_ne (key x) xs e, u)

  -- Rewriting the one row that was found keeps the count of a predicate that it does not meet.
  pub count-update_row :
      (p q : A → Bool) (f : A → A) (xs : List A) {m : A}
      → IsUnique xs
      → find p xs ≡ some m
      → q m ≡ false
      → count q xs ≤ count q (update (λ x. key x == key m) f xs)
  count-update_row p q f xs {m} u e h =
      count-update-le (λ x. key x == key m) q f xs
        (All-map (λ x. key x ≡ key m → x ≡ m) _
          (λ x same k t. absurd (false≢true (sym h ∙ ap q (sym (same ((==_iff _ _).0 k))) ∙ t))) xs
          (find-All_unique p xs u e))

  -- Deleting the one row that was found keeps the count of a predicate that it does not meet.
  pub count-delete_row :
      (p q : A → Bool) (xs : List A) {m : A}
      → IsUnique xs
      → find p xs ≡ some m
      → q m ≡ false
      → count q (delete (λ x. key x == key m) xs) ≡ count q xs
  count-delete_row p q xs {m} u e h =
      count-delete (λ x. key x == key m) q xs
        (All-map (λ x. key x ≡ key m → x ≡ m) _
          (λ x same t. elim (Bool-cases (key x == key m)) [
            | inl k ↦ absurd (false≢true (sym h ∙ ap q (sym (same ((==_iff _ _).0 k))) ∙ t))
            | inr k ↦ k
          ])
          xs (find-All_unique p xs u e))
