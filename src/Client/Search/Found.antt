-- ===== src/Client/Search/Found.antt =====
-- The hits of a search are the secrets in which every term of the query occurs.
use safe_pass.Base.{
  ℕ, zero, suc, ◌≤◌, ◌≡◌, refl, sym, ap, ◌∙◌, Bool, true, false, ◌&&◌, ◌||◌, not, Option, none,
  List, [], ◌∷◌, all, count, length, take, Bool-cases, Option-cases, inl, inr, arith,
}
use safe_pass.Envelope.Base64.{Text}
use safe_pass.Auth.Session.{is_none}
use safe_pass.Client.Search.{
  Entry, Part, in_field, SearchHit, index_of, includes, score_title, score_term, score_terms,
  collect, not_after, insert_hit, sort_hits,
}

-- A term occurs in one of the texts of an entry.
abbrev pub matches : Entry → Text → Bool
matches e t =
    includes t e.title
    || includes t e.tags
    || includes t e.folder
    || includes t e.template
    || includes t e.fields

score_title-none : (title t : Text) → is_none (score_title title t) ≡ not (includes t title)
unfolding score_title includes
score_title-none title t = elim (Option-cases (index_of t title)) [
  | inl absent ↦ rw (absent, score_title) refl
  | inr (zero, at) ↦ rw (at, score_title) refl
  | inr (suc n, at) ↦ rw (at, score_title) refl
]

score_term-none : (e : Entry) (t : Text) → is_none (score_term e t) ≡ not (matches e t)
unfolding score_term
score_term-none e t = elim (Option-cases (score_title e.title t)) [
  | inl absent ↦
      let out : not (includes t e.title) ≡ true =
        sym (score_title-none e.title t) ∙ rw absent refl in
      rw (absent, score_term) (ground arith)
  | inr (scored, at) ↦
      let within : not (includes t e.title) ≡ false =
        sym (score_title-none e.title t) ∙ rw at refl in
      rw (at, score_term) (ground arith)
]

score_terms-none :
    (e : Entry) (ts : List Text) (total : ℕ) (best : Part) (weight : Option ℕ)
    → is_none (score_terms e ts total best weight) ≡ not (all (matches e) ts)
unfolding score_terms all
score_terms-none e [] total best weight = refl
score_terms-none e (t ∷ ts) total best weight = elim (Option-cases (score_term e t)) [
  | inl absent ↦
      let out : not (matches e t) ≡ true = sym (score_term-none e t) ∙ rw absent refl in
      rw (absent, score_terms) (ground arith)
  | inr (scored, at) ↦
      let within : not (matches e t) ≡ false = sym (score_term-none e t) ∙ rw at refl in
      rw (at, score_terms) (score_terms-none e ts _ _ _ ∙ ground arith)
]

pub collect-count :
    (p : ℕ → Bool) (ts : List Text) (es : List Entry)
    → count (λ h. p h.id) (collect ts es) ≡ count (λ e. p e.id && all (matches e) ts) es
unfolding collect count
collect-count p ts [] = refl
collect-count p ts (e ∷ es) = elim (Option-cases (score_terms e ts 0 in_field none)) [
  | inl absent ↦
      let out : not (all (matches e) ts) ≡ true =
        sym (score_terms-none e ts 0 in_field none) ∙ rw absent refl in
      rw (absent, collect) (ground (arith, collect-count p ts es))
  | inr (scored, at) ↦
      let within : not (all (matches e) ts) ≡ false =
        sym (score_terms-none e ts 0 in_field none) ∙ rw at refl in
      rw (at, collect) (ground (arith, collect-count p ts es))
]

pub length-collect : (ts : List Text) (es : List Entry) → length (collect ts es) ≤ length es
unfolding collect
length-collect ts [] = omega arith
length-collect ts (e ∷ es) = elim (Option-cases (score_terms e ts 0 in_field none)) [
  | inl absent ↦ rw (absent, collect) (ground (arith, length-collect ts es))
  | inr (scored, at) ↦ rw (at, collect) (ground (arith, length-collect ts es))
]

module _ (leq : ℕ → ℕ → Bool) where
  insert_hit-count :
      (q : SearchHit → Bool) (h : SearchHit) (hs : List SearchHit)
      → count q (insert_hit leq h hs) ≡ count q (h ∷ hs)
  unfolding insert_hit count
  insert_hit-count q h [] = refl
  insert_hit-count q h (g ∷ gs) = elim (Bool-cases (not_after leq h g)) [
    | inl stay ↦ rw (stay, insert_hit) refl
    | inr go ↦ rw (go, insert_hit) (ground (arith, insert_hit-count q h gs))
  ]

  pub sort_hits-count :
      (q : SearchHit → Bool) (hs : List SearchHit) → count q (sort_hits leq hs) ≡ count q hs
  unfolding sort_hits count
  sort_hits-count q [] = refl
  sort_hits-count q (h ∷ hs) =
      insert_hit-count q h (sort_hits leq hs) ∙ ground (arith, sort_hits-count q hs)

  length-insert_hit :
      (h : SearchHit) (hs : List SearchHit) → length (insert_hit leq h hs) ≡ suc (length hs)
  unfolding insert_hit
  length-insert_hit h [] = refl
  length-insert_hit h (g ∷ gs) = elim (Bool-cases (not_after leq h g)) [
    | inl stay ↦ rw (stay, insert_hit) refl
    | inr go ↦ rw (go, insert_hit) (ground (arith, length-insert_hit h gs))
  ]

  pub length-sort_hits : (hs : List SearchHit) → length (sort_hits leq hs) ≡ length hs
  unfolding sort_hits
  length-sort_hits [] = refl
  length-sort_hits (h ∷ hs) = length-insert_hit h (sort_hits leq hs) ∙ ap suc (length-sort_hits hs)

pub take-all {ℓ} : {A : Type ℓ} (n : ℕ) (xs : List A) → length xs ≤ n → take n xs ≡ xs
take-all zero [] h = refl
take-all zero (x ∷ xs) h = absurd (omega arith)
take-all (suc n) [] h = refl
take-all (suc n) (x ∷ xs) h = ap (λ ys. x ∷ ys) (take-all n xs (omega arith))
