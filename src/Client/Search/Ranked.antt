-- ===== src/Client/Search/Ranked.antt =====
-- The order and the number of the hits of a search.
use safe_pass.Base.{
  ℕ, zero, suc, ◌≤◌, Bool, List, [], ◌∷◌, All, All-map, length, take, Bool-cases, inl, inr, arith,
}
use safe_pass.Envelope.Base64.{Text}
use safe_pass.Client.Search.{
  Entry, SearchHit, terms_of, collect, not_after, insert_hit, sort_hits, search_terms, search_index,
}

module _ (P : SearchHit → Type 0) where
  insert_hit-All :
      (leq : ℕ → ℕ → Bool) (h : SearchHit) (hs : List SearchHit)
      → P h
      → All P hs
      → All P (insert_hit leq h hs)
  unfolding insert_hit
  insert_hit-All leq h [] p ps = (p, tt)
  insert_hit-All leq h (g ∷ gs) p (q, qs) = elim (Bool-cases (not_after leq h g)) [
    | inl stay ↦ rw (stay, insert_hit) (p, (q, qs))
    | inr go ↦ rw (go, insert_hit) (q, insert_hit-All leq h gs p qs)
  ]

  take-All : (n : ℕ) (hs : List SearchHit) → All P hs → All P (take n hs)
  take-All zero hs h = tt
  take-All (suc n) [] h = tt
  take-All (suc n) (x ∷ xs) (h, hs) = (h, take-All n xs hs)

-- No hit has a lower score than one after it.
abbrev pub IsRanked : List SearchHit → Type 0
IsRanked [] = Unit
IsRanked (h ∷ hs) = All (λ g. g.score ≤ h.score) hs × IsRanked hs

insert_hit-IsRanked :
    (leq : ℕ → ℕ → Bool) (h : SearchHit) (hs : List SearchHit)
    → IsRanked hs
    → IsRanked (insert_hit leq h hs)
unfolding insert_hit
insert_hit-IsRanked leq h [] r = (tt, tt)
insert_hit-IsRanked leq h (g ∷ gs) (low, r) = elim (Bool-cases (not_after leq h g)) [
  | inl stay ↦
      rw (stay, insert_hit)
        (let le : g.score ≤ h.score = ground arith in
          (
            (
              le,
              All-map (λ x. x.score ≤ g.score) (λ x. x.score ≤ h.score) (λ x k. omega arith) gs low,
            ),
            (low, r),
          ))
  | inr go ↦
      rw (go, insert_hit)
        (
          insert_hit-All (λ x. x.score ≤ g.score) leq h gs (ground arith) low,
          insert_hit-IsRanked leq h gs r,
        )
]

sort_hits-IsRanked : (leq : ℕ → ℕ → Bool) (hs : List SearchHit) → IsRanked (sort_hits leq hs)
unfolding sort_hits
sort_hits-IsRanked leq [] = tt
sort_hits-IsRanked leq (h ∷ hs) =
    insert_hit-IsRanked leq h (sort_hits leq hs) (sort_hits-IsRanked leq hs)

take-IsRanked : (n : ℕ) (hs : List SearchHit) → IsRanked hs → IsRanked (take n hs)
take-IsRanked zero hs r = tt
take-IsRanked (suc n) [] r = tt
take-IsRanked (suc n) (h ∷ hs) (low, r) =
    (take-All (λ g. g.score ≤ h.score) n hs low, take-IsRanked n hs r)

length-take_le {ℓ} : {A : Type ℓ} (n : ℕ) (xs : List A) → length (take n xs) ≤ n
length-take_le zero xs = omega arith
length-take_le (suc n) [] = omega arith
length-take_le (suc n) (x ∷ xs) = ground (arith, length-take_le n xs)

search_terms-IsRanked :
    (leq : ℕ → ℕ → Bool) (es : List Entry) (limit : ℕ) (ts : List Text)
    → IsRanked (search_terms leq es limit ts) × (length (search_terms leq es limit ts) ≤ limit)
unfolding search_terms
search_terms-IsRanked leq es limit [] = (tt, omega arith)
search_terms-IsRanked leq es limit (t ∷ ts) =
    let hits = collect (t ∷ ts) es in
    (
      take-IsRanked limit (sort_hits leq hits) (sort_hits-IsRanked leq hits),
      length-take_le limit (sort_hits leq hits),
    )

-- A search has no more hits than its limit, and no hit has a lower score than one after it.
pub search_index-IsRanked :
    (locale_leq : ℕ → ℕ → Bool) (entries : List Entry) (query : Text) (limit : ℕ)
    → IsRanked (search_index locale_leq entries query limit)
      × (length (search_index locale_leq entries query limit) ≤ limit)
unfolding search_index
search_index-IsRanked locale_leq entries query limit =
    search_terms-IsRanked locale_leq entries limit (terms_of query)
