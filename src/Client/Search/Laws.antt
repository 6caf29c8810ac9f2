-- ===== src/Client/Search/Laws.antt =====
-- What a search finds.
use safe_pass.Base.{
  ℕ, suc, ◌≤◌, ◌≡◌, refl, ap, ◌∙◌, Bool, true, false, ◌&&◌, ◌||◌, not, List, [], ◌∷◌, All,
  All-filter, All-delete_strict, ◌==◌, any, all, count, delete, map, length, Bool-cases, inl, inr,
  arith,
}
use safe_pass.Envelope.Base64.{Text}
use safe_pass.Json.{normalize, is_white_space}
use safe_pass.Client.Search.{
  Indexable, Entry, lower, or_empty, entry_of, build, includes, is_nothing, push_char, segments,
  terms_of, collect, sort_hits, search_terms, search_index,
}
use safe_pass.Client.Search.Boundary.{IsTerm, includes-join}
use safe_pass.Client.Search.Found.{
  matches, collect-count, length-collect, sort_hits-count, length-sort_hits, take-all,
}

-- A term occurs in the title, a tag, the folder, the type or a field of a secret.
abbrev pub occurs : Indexable → Text → Bool
occurs item t =
    includes t (lower item.title)
    || any (λ v. includes t (lower v)) item.tag_names
    || includes t (lower (or_empty item.folder_name))
    || includes t (lower item.template_name)
    || any (λ v. includes t (lower v)) (map (λ (f : Text × Text). f.1) item.searchable_fields)

abbrev is_blank : List Text → Bool
is_blank [] = true
is_blank (t ∷ ts) = false

all-occurs :
    (item : Indexable) (ts : List Text)
    → All IsTerm ts
    → all (matches (entry_of item)) ts ≡ all (occurs item) ts
unfolding all
all-occurs item [] h = refl
all-occurs item (t ∷ ts) (term, h) =
    rw
      (
        includes-join t item.tag_names term,
        includes-join t (map (λ (f : Text × Text). f.1) item.searchable_fields) term,
        all-occurs item ts h,
      )
      refl

build-count :
    (p : ℕ → Bool) (ts : List Text) (items : List Indexable)
    → All IsTerm ts
    → count (λ e. p e.id && all (matches e) ts) (build items)
      ≡ count (λ i. p i.id && all (occurs i) ts) items
unfolding build count
build-count p ts [] h = refl
build-count p ts (i ∷ items) h = rw (all-occurs i ts h, build-count p ts items h) refl

length-build : (items : List Indexable) → length (build items) ≡ length items
unfolding build
length-build [] = refl
length-build (i ∷ items) = ap suc (length-build items)

-- The pieces of a query have no character that the query does not have, and no white space.
module _ (gap : ℕ) where
  abbrev IsFree : Text → Type 0
  IsFree t = any (λ c. c == gap) t ≡ false

  push_char-IsFree :
      (c : ℕ) (ss : List Text) → (c == gap) ≡ false → All IsFree ss → All IsFree (push_char c ss)
  unfolding any
  push_char-IsFree c [] h k = (ground arith, tt)
  push_char-IsFree c (s ∷ ss) h (k, ks) = (ground arith, ks)

  segments-IsFree : (t : Text) → IsFree t → All IsFree (segments t)
  unfolding segments any
  segments-IsFree [] h = (refl, tt)
  segments-IsFree (c ∷ t) h = elim (Bool-cases (is_white_space c)) [
    | inl white ↦ rw (white, segments) (refl, segments-IsFree t (ground arith))
    | inr black ↦
        rw (black, segments)
          (push_char-IsFree c (segments t) (ground arith) (segments-IsFree t (ground arith)))
  ]

not_space : (c : ℕ) → is_white_space c ≡ false → (c == 32) ≡ false
unfolding is_white_space
not_space c black = ground arith

segments-no_space : (t : Text) → All (IsFree 32) (segments t)
unfolding segments any
segments-no_space [] = (refl, tt)
segments-no_space (c ∷ t) = elim (Bool-cases (is_white_space c)) [
  | inl white ↦ rw (white, segments) (refl, segments-no_space t)
  | inr black ↦
      rw (black, segments)
        (push_char-IsFree 32 c (segments t) (not_space c black) (segments-no_space t))
]

together :
    (ts : List Text)
    → All (IsFree 32) ts
    → All (IsFree 0) ts
    → All (λ t. is_nothing t ≡ false) ts
    → All IsTerm ts
together [] h k l = tt
together (t ∷ ts) (h, hs) (k, ks) (l, ls) = ((h, k, l), together ts hs ks ls)

terms_of-IsTerm :
    (query : Text) → any (λ c. c == 0) (normalize query) ≡ false → All IsTerm (terms_of query)
unfolding terms_of delete
terms_of-IsTerm query free =
    let pieces = segments (normalize query) in
    together (terms_of query)
      (All-filter (IsFree 32) (λ t. not (is_nothing t)) pieces
        (segments-no_space (normalize query)))
      (All-filter (IsFree 0) (λ t. not (is_nothing t)) pieces
        (segments-IsFree 0 (normalize query) free))
      (All-delete_strict (λ t. is_nothing t ≡ false) is_nothing pieces λ t h. h)

-- A limit that is large enough leaves all hits.
search_terms-count :
    (leq : ℕ → ℕ → Bool) (ids : ℕ → Bool) (es : List Entry) (limit : ℕ) (ts : List Text)
    → is_blank ts ≡ false
    → length es ≤ limit
    → count (λ h. ids h.id) (search_terms leq es limit ts) ≡ count (λ h. ids h.id) (collect ts es)
unfolding search_terms
search_terms-count leq ids es limit [] some_term enough = cc
search_terms-count leq ids es limit (t ∷ ts) some_term enough =
    let hits = collect (t ∷ ts) es in
    let short : length (sort_hits leq hits) ≤ limit =
      rw (length-sort_hits leq hits) (ground (arith, length-collect (t ∷ ts) es)) in
    rw (take-all limit (sort_hits leq hits) short) (sort_hits-count leq (λ h. ids h.id) hits)

-- A search whose limit is no less than the number of the secrets, for a query with a term and without
-- NUL, has for each set of ids as many hits with an id in the set as there are secrets with
-- such an id in which every term of the query occurs, in a title, a tag, a folder, a type or a single
-- field.
pub search_index-build :
    (locale_leq : ℕ → ℕ → Bool) (items : List Indexable) (query : Text) (limit : ℕ) (ids : ℕ → Bool)
    → any (λ c. c == 0) (normalize query) ≡ false
    → is_blank (terms_of query) ≡ false
    → length items ≤ limit
    → count (λ h. ids h.id) (search_index locale_leq (build items) query limit)
      ≡ count (λ i. ids i.id && all (occurs i) (terms_of query)) items
unfolding search_index
search_index-build locale_leq items query limit ids free some_term enough =
    let terms = terms_of-IsTerm query free in
    search_terms-count locale_leq ids (build items) limit (terms_of query) some_term
      (rw (length-build items) enough)
    ∙ collect-count ids (terms_of query) (build items)
    ∙ build-count ids (terms_of query) items terms
