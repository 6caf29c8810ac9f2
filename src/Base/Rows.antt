-- ===== src/Base/Rows.antt =====
-- Tables as lists of rows: the queries that the code asks of its database client, and their laws.
use Prim.Native.Nat.{ℕ, zero, suc, ◌+◌, ◌≤◌, ◌<◌}
use mathlib.Core.Path.{◌≡◌, refl}
use mathlib.Core.Bool.{Bool, true, false, not, ◌&&◌, ◌||◌}
use mathlib.Core.Option.{Option, none, some}
use mathlib.Core.List.{List, [], ◌∷◌, ◌++◌}
use native.Mathlib.Omega.{arith}
use mathlib.Core.Logic.{inl, inr}
use safe_pass.Base.Tests.{if◌then◌else◌, Bool-cases}

abbrev pub All {ℓ κ} : {A : Type ℓ} → (A → Type κ) → List A → Type κ
All P [] = Unit
All P (x ∷ xs) = P x × All P xs

module _ {ℓ} {A : Type ℓ} where
  abbrev pub length : List A → ℕ
  length [] = 0
  length (x ∷ xs) = suc (length xs)

  abbrev pub get_elem? : List A → ℕ → Option A
  get_elem? [] i = none
  get_elem? (x ∷ xs) zero = some x
  get_elem? (x ∷ xs) (suc i) = get_elem? xs i

  abbrev pub take : ℕ → List A → List A
  take zero xs = []
  take (suc n) [] = []
  take (suc n) (x ∷ xs) = x ∷ take n xs

  abbrev pub drop : ℕ → List A → List A
  drop zero xs = xs
  drop (suc n) [] = []
  drop (suc n) (x ∷ xs) = drop n xs

  abbrev pub replicate : ℕ → A → List A
  replicate zero a = []
  replicate (suc n) a = a ∷ replicate n a

  pub get-append_old :
      (xs : List A) (x : A) (i : ℕ) → i < length xs → get_elem? (xs ++ x ∷ []) i ≡ get_elem? xs i
  get-append_old [] x i h = ground arith
  get-append_old (y ∷ ys) x zero h = refl
  get-append_old (y ∷ ys) x (suc i) h = get-append_old ys x i (omega arith)

  pub get-append_new : (xs : List A) (x : A) → get_elem? (xs ++ x ∷ []) (length xs) ≡ some x
  get-append_new [] x = refl
  get-append_new (y ∷ ys) x = get-append_new ys x

  pub length-append : (xs ys : List A) → length (xs ++ ys) ≡ length xs + length ys
  length-append [] ys = omega arith
  length-append (x ∷ xs) ys = ground (arith, length-append xs ys)

  pub length-append_one : (xs : List A) (x : A) → length (xs ++ x ∷ []) ≡ suc (length xs)
  length-append_one [] x = refl
  length-append_one (y ∷ ys) x = ground (arith, length-append_one ys x)

  -- `findFirst`
  unfoldable pub find : (A → Bool) → List A → Option A
  find p [] = none
  find p (x ∷ xs) = if p x then some x else find p xs

  unfoldable pub any : (A → Bool) → List A → Bool
  any p [] = false
  any p (x ∷ xs) = p x || any p xs

  unfoldable pub all : (A → Bool) → List A → Bool
  all p [] = true
  all p (x ∷ xs) = p x && all p xs

  -- `findMany`
  unfoldable pub filter : (A → Bool) → List A → List A
  filter p [] = []
  filter p (x ∷ xs) = let rest = filter p xs in if p x then x ∷ rest else rest

  -- `count`
  unfoldable pub count : (A → Bool) → List A → ℕ
  count p [] = 0
  count p (x ∷ xs) = (if p x then 1 else 0) + count p xs

  -- `update` and `updateMany`
  unfoldable pub update : (A → Bool) → (A → A) → List A → List A
  update p f [] = []
  update p f (x ∷ xs) = (if p x then f x else x) ∷ update p f xs

  -- `delete` and `deleteMany`
  unfoldable pub delete : (A → Bool) → List A → List A
  delete p xs = filter (λ x. not (p x)) xs

module _ {ℓ} {A : Type ℓ} where
  pub find_sound : (p : A → Bool) (xs : List A) {x : A} → find p xs ≡ some x → p x ≡ true
  unfolding find
  find_sound p [] h = cc
  find_sound p (y ∷ ys) {x} h = ground (arith, find_sound p ys {x = x})

  -- A weaker test finds a row too.
  pub find_mono :
      (p q : A → Bool) (xs : List A) {x : A}
      → ((y : A) → p y ≡ true → q y ≡ true)
      → find p xs ≡ some x
      → (y : A) × (find q xs ≡ some y)
  unfolding find
  find_mono p q [] weaker e = cc
  find_mono p q (y ∷ ys) {x} weaker e = elim (Bool-cases (q y)) [
    | inl hit ↦ (y, rw hit refl)
    | inr miss ↦
        let (z, later) = find_mono p q ys {x = x} weaker (ground (arith, weaker y)) in
        (z, rw miss later)
  ]

  pub any-find : (p : A → Bool) (xs : List A) {x : A} → find p xs ≡ some x → any p xs ≡ true
  unfolding find any
  any-find p [] e = cc
  any-find p (y ∷ ys) {x} e = ground (arith, any-find p ys {x = x})

  pub count-le-length : (p : A → Bool) (xs : List A) → count p xs ≤ length xs
  unfolding count
  count-le-length p [] = omega arith
  count-le-length p (x ∷ xs) = ground (arith, count-le-length p xs)

  pub count-append : (p : A → Bool) (xs ys : List A) → count p (xs ++ ys) ≡ count p xs + count p ys
  unfolding count
  count-append p [] ys = omega arith
  count-append p (x ∷ xs) ys = ground (arith, count-append p xs ys)

  pub any-count : (p : A → Bool) (xs : List A) → any p xs ≡ true → 0 < count p xs
  unfolding any count
  any-count p [] h = cc
  any-count p (x ∷ xs) h = ground (arith, any-count p xs)

  -- A count grows with the predicate.
  pub count_mono :
      (p q : A → Bool) (xs : List A)
      → All (λ x. p x ≡ true → q x ≡ true) xs
      → count p xs ≤ count q xs
  unfolding count
  count_mono p q [] h = omega arith
  count_mono p q (x ∷ xs) (h, hs) = ground (arith, count_mono p q xs hs)

  -- An update that keeps a predicate where it holds does not lower its count.
  pub count-update-le :
      (p q : A → Bool) (f : A → A) (xs : List A)
      → All (λ x. p x ≡ true → q x ≡ true → q (f x) ≡ true) xs
      → count q xs ≤ count q (update p f xs)
  unfolding count update
  count-update-le p q f [] h = omega arith
  count-update-le p q f (x ∷ xs) (h, hs) = ground (arith, count-update-le p q f xs hs)

  -- An update that does not change a predicate keeps its count.
  pub count-update_same :
      (p q : A → Bool) (f : A → A) (xs : List A)
      → ((x : A) → q (f x) ≡ q x)
      → count q (update p f xs) ≡ count q xs
  unfolding count update
  count-update_same p q f [] h = refl
  count-update_same p q f (x ∷ xs) h = ground (arith, h x, count-update_same p q f xs h)

  -- Deleting rows outside a predicate keeps its count.
  pub count-delete :
      (p q : A → Bool) (xs : List A)
      → All (λ x. q x ≡ true → p x ≡ false) xs
      → count q (delete p xs) ≡ count q xs
  unfolding count delete filter
  count-delete p q [] h = refl
  count-delete p q (x ∷ xs) (h, hs) = ground (arith, count-delete p q xs hs)

  -- No row that a deletion named is left.
  pub count-delete_zero :
      (p q : A → Bool) (xs : List A)
      → ((x : A) → q x ≡ true → p x ≡ true)
      → count q (delete p xs) ≡ 0
  unfolding count delete filter
  count-delete_zero p q [] h = refl
  count-delete_zero p q (x ∷ xs) h = ground (arith, h x, count-delete_zero p q xs h)

module _ {ℓ} {A : Type ℓ} where
  pub find-none-All : (p : A → Bool) (xs : List A) → find p xs ≡ none → All (λ x. p x ≡ false) xs
  unfolding find
  find-none-All p [] h = tt
  find-none-All p (x ∷ xs) h = (ground arith, find-none-All p xs (ground arith))

  pub any-false : (p : A → Bool) (xs : List A) → any p xs ≡ false → All (λ x. p x ≡ false) xs
  unfolding any
  any-false p [] h = tt
  any-false p (x ∷ xs) h = (ground arith, any-false p xs (ground arith))

  pub find-none : (p : A → Bool) (xs : List A) → All (λ x. p x ≡ false) xs → find p xs ≡ none
  unfolding find
  find-none p [] h = refl
  find-none p (x ∷ xs) (h, hs) = ground (arith, find-none p xs hs)

  -- What a wider test does not find a narrower one does not find.
  pub find-none_mono :
      (p q : A → Bool) (xs : List A)
      → ((x : A) → q x ≡ false → p x ≡ false)
      → find q xs ≡ none
      → find p xs ≡ none
  unfolding find
  find-none_mono p q [] narrower h = refl
  find-none_mono p q (x ∷ xs) narrower h =
      ground (arith, narrower x, find-none_mono p q xs narrower)

  pub count-zero_All : (p : A → Bool) (xs : List A) → count p xs ≡ 0 → All (λ x. p x ≡ false) xs
  unfolding count
  count-zero_All p [] h = tt
  count-zero_All p (x ∷ xs) h = (ground arith, count-zero_All p xs (ground arith))

  pub count-zero : (p : A → Bool) (xs : List A) → All (λ x. p x ≡ false) xs → count p xs ≡ 0
  unfolding count
  count-zero p [] h = refl
  count-zero p (x ∷ xs) (h, hs) = ground (arith, count-zero p xs hs)

  pub count_pos_of_find :
      (p q : A → Bool) (xs : List A) {x : A} → find p xs ≡ some x → q x ≡ true → 0 < count q xs
  unfolding find count
  count_pos_of_find p q [] e h = cc
  count_pos_of_find p q (y ∷ ys) {x} e h = ground (arith, count_pos_of_find p q ys {x = x})

module _ {ℓ κ} {A : Type ℓ} (P : A → Type κ) where
  pub All-intro : ((x : A) → P x) → (xs : List A) → All P xs
  All-intro h [] = tt
  All-intro h (x ∷ xs) = (h x, All-intro h xs)

  pub All-append : (xs ys : List A) → All P xs → All P ys → All P (xs ++ ys)
  All-append [] ys h k = k
  All-append (x ∷ xs) ys (p, h) k = (p, All-append xs ys h k)

  pub All-find : (p : A → Bool) (xs : List A) {x : A} → All P xs → find p xs ≡ some x → P x
  unfolding find
  All-find p [] h e = cc
  All-find p (y ∷ ys) {x} (h, hs) e = ground (arith, All-find p ys {x = x} hs)

  pub All-filter : (p : A → Bool) (xs : List A) → All P xs → All P (filter p xs)
  unfolding filter
  All-filter p [] h = tt
  All-filter p (x ∷ xs) (h, hs) = ground (arith, All-filter p xs hs)

  pub All-delete : (p : A → Bool) (xs : List A) → All P xs → All P (delete p xs)
  unfolding delete
  All-delete p xs h = All-filter (λ x. not (p x)) xs h

  -- What is left after a deletion does not meet its test.
  pub All-delete_strict :
      (p : A → Bool) (xs : List A) → ((x : A) → p x ≡ false → P x) → All P (delete p xs)
  unfolding delete filter
  All-delete_strict p [] h = tt
  All-delete_strict p (x ∷ xs) h = ground (arith, h x, All-delete_strict p xs h)

module _ {ℓ κ μ} {A : Type ℓ} (P : A → Type κ) (Q : A → Type μ) where
  pub All-map : ((x : A) → P x → Q x) → (xs : List A) → All P xs → All Q xs
  All-map f [] h = tt
  All-map f (x ∷ xs) (h, hs) = (f x h, All-map f xs hs)

  pub All-update :
      (p : A → Bool) (f : A → A) (xs : List A)
      → All P xs
      → ((x : A) → p x ≡ true → P x → Q (f x))
      → ((x : A) → p x ≡ false → P x → Q x)
      → All Q (update p f xs)
  unfolding update
  All-update p f [] h yes' no' = tt
  All-update p f (x ∷ xs) (h, hs) yes' no' =
      (ground (arith, yes' x, no' x), All-update p f xs hs yes' no')

  -- What holds of the rows that a deletion leaves, from what held before.
  pub All-delete_keep :
      (p : A → Bool) (xs : List A)
      → All P xs
      → ((x : A) → p x ≡ false → P x → Q x)
      → All Q (delete p xs)
  unfolding delete filter
  All-delete_keep p [] h keep = tt
  All-delete_keep p (x ∷ xs) (h, hs) keep = elim (Bool-cases (p x)) [
    | inl gone ↦ rw gone (All-delete_keep p xs hs keep)
    | inr kept ↦ rw kept (keep x kept h, All-delete_keep p xs hs keep)
  ]

module _ {ℓ} {A : Type ℓ} where
  -- An update leaves the rows as they are that it does not name.
  pub filter-update :
      (p q : A → Bool) (f : A → A) (xs : List A)
      → ((y : A) → q y ≡ true → p y ≡ false)
      → ((y : A) → p (f y) ≡ p y)
      → filter p (update q f xs) ≡ filter p xs
  unfolding filter update
  filter-update p q f [] apart same = refl
  filter-update p q f (y ∷ ys) apart same =
      ground (arith, apart y, same y, filter-update p q f ys apart same)

  -- A search by what an update does not change finds the updated row.
  pub find-update :
      (p q : A → Bool) (f : A → A) (xs : List A) {x : A}
      → ((y : A) → p (f y) ≡ p y)
      → find p xs ≡ some x
      → find p (update q f xs) ≡ some (if q x then f x else x)
  unfolding find update
  find-update p q f [] same e = cc
  find-update p q f (y ∷ ys) {x} same e = elim (Bool-cases (p y)) [
    | inl hit ↦ ground (arith, same y)
    | inr miss ↦ ground (arith, same y, find-update p q f ys {x = x} same)
  ]
