-- ===== src/Templates/Fields.antt =====
-- What holds of a field list that has been accepted.
use safe_pass.Base.{
  ℕ, suc, ◌≤◌, ◌≡◌, refl, sym, ap, ◌∙◌, Bool, true, false, none, some, List, [], ◌∷◌, ◌++◌, count,
  leb, delete, filter, map, length, All, All-map, Bool-cases, Option-cases, inl, inr, arith,
}
use mathlib.Core.Path.{subst}
use safe_pass.Auth.Guard.{has}
use safe_pass.Envelope.Base64.{Text}
use safe_pass.Errors.{ok, ok-injective, on_bind, on_guard, on_required}
use safe_pass.Tables.{text_eq}
use safe_pass.Templates.{
  RawField, Field, trim, parse_field, parse_all, parse_fields, to_set, insert, sort, lower_label,
  field_types,
}

text_eq_comm : (a b : Text) → text_eq a b ≡ text_eq b a
unfolding text_eq
text_eq_comm [] [] = refl
text_eq_comm [] (d ∷ b) = refl
text_eq_comm (c ∷ a) [] = refl
text_eq_comm (c ∷ a) (d ∷ b) = ground (arith, text_eq_comm a b)

module _ (p : Text → Bool) where
  length-delete-le : (ts : List Text) → length (delete p ts) ≤ length ts
  unfolding delete filter
  length-delete-le [] = omega arith
  length-delete-le (t ∷ ts) = ground (arith, length-delete-le ts)

  delete_none : (ts : List Text) → length (delete p ts) ≡ length ts → All (λ t. p t ≡ false) ts
  unfolding delete filter
  delete_none [] e = tt
  delete_none (t ∷ ts) e = elim (Bool-cases (p t)) [
    | inl gone ↦ absurd (ground (arith, length-delete-le ts))
    | inr kept ↦ (kept, delete_none ts (ground arith))
  ]

  delete_id : (ts : List Text) → All (λ t. p t ≡ false) ts → delete p ts ≡ ts
  unfolding delete filter
  delete_id [] h = refl
  delete_id (t ∷ ts) (kept, h) = rw (kept, delete_id ts h) refl

-- No two of the texts are the same.
abbrev pub IsDistinct : List Text → Type 0
IsDistinct [] = Unit
IsDistinct (t ∷ ts) = All (λ u. text_eq t u ≡ false) ts × IsDistinct ts

length-to_set-le : (ts : List Text) → length (to_set ts) ≤ length ts
unfolding to_set
length-to_set-le [] = omega arith
length-to_set-le (t ∷ ts) =
    let a = length-delete-le (text_eq t) (to_set ts) in let b = length-to_set-le ts in omega arith

-- A set as large as the list has all of its members, and they differ.
to_set-IsDistinct :
    (ts : List Text) → length (to_set ts) ≡ length ts → (to_set ts ≡ ts) × IsDistinct ts
unfolding to_set
to_set-IsDistinct [] e = (refl, tt)
to_set-IsDistinct (t ∷ ts) e =
    let a = length-delete-le (text_eq t) (to_set ts) in
    let b = length-to_set-le ts in
    let (same, distinct) = to_set-IsDistinct ts (omega arith) in
    let apart : All (λ u. text_eq t u ≡ false) (to_set ts) =
      delete_none (text_eq t) (to_set ts) (omega arith) in
    (
      ap (λ us. t ∷ us) (delete_id (text_eq t) (to_set ts) apart ∙ same),
      (subst (All (λ u. text_eq t u ≡ false)) same apart, distinct),
    )

module _ (P : Field → Type 0) where
  All-insert : (f : Field) (gs : List Field) → P f → All P gs → All P (insert f gs)
  unfolding insert
  All-insert f [] p h = (p, tt)
  All-insert f (g ∷ gs) p (q, h) = elim (Bool-cases (leb f.order g.order)) [
    | inl first ↦ rw first (p, (q, h))
    | inr later ↦ rw later (q, All-insert f gs p h)
  ]

  All-sort : (fs : List Field) → All P fs → All P (sort fs)
  unfolding sort
  All-sort [] h = tt
  All-sort (f ∷ fs) (p, h) = All-insert f (sort fs) p (All-sort fs h)

-- Each order is at most those after it.
abbrev pub IsSorted : List Field → Type 0
IsSorted [] = Unit
IsSorted (f ∷ fs) = All (λ (g : Field). f.order ≤ g.order) fs × IsSorted fs

insert-IsSorted : (f : Field) (gs : List Field) → IsSorted gs → IsSorted (insert f gs)
unfolding insert
insert-IsSorted f [] s = (tt, tt)
insert-IsSorted f (g ∷ gs) (least, s) = elim (Bool-cases (leb f.order g.order)) [
  | inl first ↦
      let below : f.order ≤ g.order = ground arith in
      rw first ((below, All-map _ _ (λ x h. omega arith) gs least), (least, s))
  | inr later ↦
      let above : g.order ≤ f.order = ground arith in
      rw later (All-insert _ f gs above least, insert-IsSorted f gs s)
]

sort-IsSorted : (fs : List Field) → IsSorted (sort fs)
unfolding sort
sort-IsSorted [] = tt
sort-IsSorted (f ∷ fs) = insert-IsSorted f (sort fs) (sort-IsSorted fs)

length-insert : (f : Field) (gs : List Field) → length (insert f gs) ≡ suc (length gs)
unfolding insert
length-insert f [] = refl
length-insert f (g ∷ gs) = ground (arith, length-insert f gs)

length-sort : (fs : List Field) → length (sort fs) ≡ length fs
unfolding sort
length-sort [] = refl
length-sort (f ∷ fs) = length-insert f (sort fs) ∙ ap suc (length-sort fs)

module _ (key : Field → Text) where
  -- No two fields have one key.
  abbrev pub IsKeyed : List Field → Type 0
  IsKeyed [] = Unit
  IsKeyed (f ∷ fs) = All (λ g. text_eq (key f) (key g) ≡ false) fs × IsKeyed fs

  All-keys :
      (t : Text) (fs : List Field)
      → All (λ u. text_eq t u ≡ false) (map key fs)
      → All (λ g. text_eq t (key g) ≡ false) fs
  All-keys t [] h = tt
  All-keys t (f ∷ fs) (p, h) = (p, All-keys t fs h)

  distinct-IsKeyed : (fs : List Field) → IsDistinct (map key fs) → IsKeyed fs
  distinct-IsKeyed [] h = tt
  distinct-IsKeyed (f ∷ fs) (apart, h) = (All-keys (key f) fs apart, distinct-IsKeyed fs h)

  insert-IsKeyed :
      (f : Field) (gs : List Field)
      → All (λ g. text_eq (key f) (key g) ≡ false) gs
      → IsKeyed gs
      → IsKeyed (insert f gs)
  unfolding insert
  insert-IsKeyed f [] apart k = (tt, tt)
  insert-IsKeyed f (g ∷ gs) (far, apart) (own, k) = elim (Bool-cases (leb f.order g.order)) [
    | inl first ↦ rw first ((far, apart), (own, k))
    | inr later ↦
        rw later
          (All-insert _ f gs (text_eq_comm (key g) (key f) ∙ far) own, insert-IsKeyed f gs apart k)
  ]

  sort-IsKeyed : (fs : List Field) → IsKeyed fs → IsKeyed (sort fs)
  unfolding sort
  sort-IsKeyed [] k = tt
  sort-IsKeyed (f ∷ fs) (apart, k) =
      insert-IsKeyed f (sort fs) (All-sort _ fs apart) (sort-IsKeyed fs k)

-- A field that can be rendered: it has an id, a label and one of the known types.
abbrev pub IsField : Field → Type 0
IsField f =
    (text_eq f.id [] ≡ false) × (text_eq f.label [] ≡ false) × (has field_types f.type ≡ true)

parse_field-IsField :
    (index : ℕ) (raw : RawField) {f : Field} → parse_field index raw ≡ ok f → IsField f
unfolding parse_field
parse_field-IsField index raw e = on_guard _ _ _ e λ named e1.
    on_guard _ _ _ e1
      λ known e2. subst IsField (ok-injective e2) (ground arith, ground arith, known)

parse_all-IsField :
    (index : ℕ) (raws : List RawField) {fs : List Field}
    → parse_all index raws ≡ ok fs
    → All IsField fs × (length fs ≡ length raws)
unfolding parse_all
parse_all-IsField index [] e =
    subst (λ fs. All IsField fs × (length fs ≡ 0)) (ok-injective e) (tt, refl)
parse_all-IsField index (r ∷ rs) e = on_bind _ _ e λ f first e1. on_bind _ _ e1 λ fs others e2.
    let (all, len) = parse_all-IsField (suc index) rs others in
    subst (λ x. All IsField x × (length x ≡ suc (length rs))) (ok-injective e2)
      ((parse_field-IsField index r first, all), ap suc len)

-- The fields that a body asks for: the texts without the white space around them, and the order that
-- the field names, or else its place in the body.
abbrev pub asked : ℕ → List RawField → List Field
asked index [] = []
asked index (r ∷ rs) =
    record {
      id = trim r.id;
      label = trim r.label;
      type = r.type;
      required = r.required;
      sensitive = r.sensitive;
      order = elim r.order [ none ↦ index | some order ↦ order ];
    }
    ∷ asked (suc index) rs

parse_field-asked :
    (index : ℕ) (raw : RawField) {f : Field}
    → parse_field index raw ≡ ok f
    → f ∷ [] ≡ asked index (raw ∷ [])
unfolding parse_field
parse_field-asked index raw e = on_guard _ _ _ e λ _ e1. on_guard _ _ _ e1 λ _ e2.
    subst (λ f. f ∷ [] ≡ asked index (raw ∷ [])) (ok-injective e2)
      (elim (Option-cases raw.order) [ inl free ↦ rw free refl | inr (o, set) ↦ rw set refl ])

parse_all-asked :
    (index : ℕ) (raws : List RawField) {fs : List Field}
    → parse_all index raws ≡ ok fs
    → fs ≡ asked index raws
unfolding parse_all
parse_all-asked index [] e = sym (ok-injective e)
parse_all-asked index (r ∷ rs) e = on_bind _ _ e λ f first e1. on_bind _ _ e1 λ fs others e2.
    sym (ok-injective e2)
    ∙ ap (λ x. f ∷ x) (parse_all-asked (suc index) rs others)
    ∙ ap (λ x. x ++ asked (suc index) rs) (parse_field-asked index r first)

insert-count :
    (p : Field → Bool) (f : Field) (gs : List Field) → count p (insert f gs) ≡ count p (f ∷ gs)
unfolding insert count
insert-count p f [] = refl
insert-count p f (g ∷ gs) = elim (Bool-cases (leb f.order g.order)) [
  | inl first ↦ rw first refl
  | inr later ↦ rw later (ground (arith, insert-count p f gs))
]

sort-count : (p : Field → Bool) (fs : List Field) → count p (sort fs) ≡ count p fs
unfolding sort count
sort-count p [] = refl
sort-count p (f ∷ fs) = insert-count p f (sort fs) ∙ ground (arith, sort-count p fs)

-- An accepted field list has just the fields that the body asks for, each with the order that the body
-- gives it (or its place in the body), as often as it asks for them, sorted by that order. Each has an
-- id, a label and a known type, no two have one id, and no two have one label in lower case.
pub parse_fields_sound :
    (raws : List RawField) (fs : List Field) (p : Field → Bool)
    → parse_fields (some raws) ≡ ok fs
    → (count p fs ≡ count p (asked 0 raws))
      × IsSorted fs
      × All IsField fs
      × IsKeyed (λ f. f.id) fs
      × IsKeyed lower_label fs
unfolding parse_fields
parse_fields_sound raws fs p e = on_required _ _ _ e λ items given e1. on_guard _ _ _ e1 λ _ e2.
    on_bind _ _ e2 λ fields parsed e3. on_guard _ _ _ e3 λ labels e4. on_guard _ _ _ e4 λ ids e5.
      let (all, _) = parse_all-IsField 0 items parsed in
      let same : items ≡ raws = cc in
      let by_label = (to_set-IsDistinct (map lower_label fields) (ground arith)).1 in
      let by_id = (to_set-IsDistinct (map (λ (f : Field). f.id) fields) (ground arith)).1 in
      subst
        (λ x.
          (count p x ≡ count p (asked 0 raws))
          × IsSorted x
          × All IsField x
          × IsKeyed (λ f. f.id) x
          × IsKeyed lower_label x)
        (ok-injective e5)
        (
          sort-count p fields ∙ ap (count p) (parse_all-asked 0 items parsed ∙ ap (asked 0) same),
          sort-IsSorted fields,
          All-sort _ fields all,
          sort-IsKeyed (λ f. f.id) fields (distinct-IsKeyed (λ f. f.id) fields by_id),
          sort-IsKeyed lower_label fields (distinct-IsKeyed lower_label fields by_label),
        )
