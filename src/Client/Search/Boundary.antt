-- ===== src/Client/Search/Boundary.antt =====
-- A term without the separator's characters does not match across the boundary of two joined values.
use safe_pass.Base.{
  ℕ, ◌≡◌, refl, ap, ◌∙◌, Bool, true, false, ◌||◌, List, [], ◌∷◌, ◌++◌, ◌==◌, any, arith,
}
use safe_pass.Envelope.Base64.{Text}
use safe_pass.Json.{to_lower}
use safe_pass.Auth.Guard.{starts_with}
use safe_pass.Client.Search.{separator, join, lower, index_of, includes, is_nothing}

or_assoc : (a b c : Bool) → (a || (b || c)) ≡ ((a || b) || c)
or_assoc true b c = refl
or_assoc false b c = refl

includes-nil : (t : Text) → is_nothing t ≡ false → includes t [] ≡ false
unfolding includes index_of starts_with
includes-nil [] h = cc
includes-nil (c ∷ cs) h = refl

includes-cons :
    (t : Text) (c : ℕ) (cs : Text) → includes t (c ∷ cs) ≡ (starts_with t (c ∷ cs) || includes t cs)
unfolding includes index_of
includes-cons t c cs = ground arith

includes-nil_starts : (t : Text) → includes t [] ≡ starts_with t []
unfolding includes index_of
includes-nil_starts t = ground arith

-- A term without a character does not reach over it.
module _ (gap : ℕ) where
  starts_with-append :
      (t a b : Text)
      → any (λ c. c == gap) t ≡ false
      → starts_with t (a ++ gap ∷ b) ≡ starts_with t a
  unfolding starts_with any
  starts_with-append [] a b h = refl
  starts_with-append (c ∷ t) [] b h = ground arith
  starts_with-append (c ∷ t) (d ∷ a) b h = ground (arith, starts_with-append t a b)

  includes-append :
      (t a b : Text)
      → any (λ c. c == gap) t ≡ false
      → includes t (a ++ gap ∷ b) ≡ (includes t a || includes t b)
  includes-append t [] b free =
      rw (includes-cons t gap b, starts_with-append t [] b free, includes-nil_starts t) refl
  includes-append t (d ∷ a) b free =
      rw
        (
          includes-cons t d (a ++ gap ∷ b),
          includes-cons t d a,
          starts_with-append t (d ∷ a) b free,
          includes-append t a b free,
        )
        (or_assoc (starts_with t (d ∷ a)) (includes t a) (includes t b))

-- A term is not empty and has neither of the separator's characters.
abbrev pub IsTerm : Text → Type 0
IsTerm t = (any (λ c. c == 32) t ≡ false) × (any (λ c. c == 0) t ≡ false) × (is_nothing t ≡ false)

includes-separator :
    (t a b : Text) → IsTerm t → includes t (a ++ (separator ++ b)) ≡ (includes t a || includes t b)
includes-separator t a b (no_space, no_nul, full) =
    let last : includes t (32 ∷ b) ≡ includes t b =
      includes-append 32 t [] b no_space ∙ rw (includes-nil t full) refl in
    let middle : includes t (0 ∷ 32 ∷ b) ≡ includes t b =
      includes-append 0 t [] (32 ∷ b) no_nul ∙ rw (includes-nil t full) last in
    includes-append 32 t a (0 ∷ 32 ∷ b) no_space ∙ ap (λ x. includes t a || x) middle

lower-append : (a b : Text) → lower (a ++ (separator ++ b)) ≡ lower a ++ (separator ++ lower b)
unfolding to_lower
lower-append [] b = refl
lower-append (c ∷ a) b = ap (λ x. to_lower c ∷ x) (lower-append a b)

-- A term occurs in the joined values just if it occurs in one of them.
pub includes-join :
    (t : Text) (vs : List Text)
    → IsTerm t
    → includes t (lower (join vs)) ≡ any (λ v. includes t (lower v)) vs
unfolding join any
includes-join t [] (_, _, full) = includes-nil t full
includes-join t (v ∷ []) term = ground arith
includes-join t (v ∷ w ∷ vs) term =
    rw
      (
        lower-append v (join (w ∷ vs)),
        includes-separator t (lower v) (lower (join (w ∷ vs))) term,
        includes-join t (w ∷ vs) term,
      )
      refl
