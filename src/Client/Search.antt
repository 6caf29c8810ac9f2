-- ===== src/Client/Search.antt =====
-- frontend/src/search/index.ts: the index of the decrypted secrets and its ranked search. The order of
-- two ids by `localeCompare`, of the runtime, is an argument. Lower case is that of ASCII.
pub mod Laws
pub mod Boundary
pub mod Found
pub mod Ranked
use safe_pass.Base.{
  ℕ, zero, suc, ◌+◌, Bool, true, false, ◌&&◌, ◌||◌, not, Option, none, some, List, [], ◌∷◌, ◌++◌,
  ◌==◌, ltb, filter, map, length, take, get_elem?, if◌then◌else◌,
}
use safe_pass.Envelope.Base64.{Text}
use safe_pass.Json.{normalize, to_lower, is_white_space}
use safe_pass.Auth.Session.{is_none}
use safe_pass.Auth.Guard.{starts_with}

-- `SEP`: a space, NUL and a space.
abbrev pub separator : Text
separator = 32 ∷ 0 ∷ 32 ∷ []

pub record Indexable : Type 0 where
  pub id : ℕ
  pub title : Text
  pub searchable_fields : List (Text × Text)
  pub folder_name : Option Text
  pub tag_names : List Text
  pub template_name : Text

pub record Entry : Type 0 where
  pub id : ℕ
  pub title : Text
  pub fields : Text
  pub folder : Text
  pub tags : Text
  pub template : Text

-- `matchedIn`
pub data Part : Type 0 where
  in_title in_field in_folder in_tag in_type : Part

pub record SearchHit : Type 0 where
  pub id : ℕ
  pub score : ℕ
  pub matched_in : Part

pub record Scored : Type 0 where
  pub score : ℕ
  pub weight : ℕ
  pub matched_in : Part

abbrev pub lower : Text → Text
lower t = map to_lower t

-- `values.join(SEP)`
unfoldable pub join : List Text → Text
join [] = []
join (v ∷ []) = v
join (v ∷ w ∷ vs) = v ++ (separator ++ join (w ∷ vs))

abbrev pub or_empty : Option Text → Text
or_empty none = []
or_empty (some t) = t

abbrev pub entry_of : Indexable → Entry
entry_of item = record {
  id = item.id;
  title = lower item.title;
  fields = lower (join (map (λ (f : Text × Text). f.1) item.searchable_fields));
  folder = lower (or_empty item.folder_name);
  tags = lower (join item.tag_names);
  template = lower item.template_name;
}

-- `build`: the entries of the index.
unfoldable pub build : List Indexable → List Entry
build items = map entry_of items

-- `text.indexOf(term)`
unfoldable pub index_of : Text → Text → Option ℕ
unfolding starts_with
index_of term [] = if starts_with term [] then some 0 else none
index_of term (c ∷ cs) =
    let rest = index_of term cs in
    if starts_with term (c ∷ cs) then some 0 else elim rest [ none ↦ none | some i ↦ some (suc i) ]

-- `text.includes(term)`
unfoldable pub includes : Text → Text → Bool
unfolding index_of
includes term text = not (is_none (index_of term text))

-- A character before the first piece.
abbrev pub push_char : ℕ → List Text → List Text
push_char c [] = (c ∷ []) ∷ []
push_char c (s ∷ ss) = (c ∷ s) ∷ ss

-- The pieces between white space.
unfoldable pub segments : Text → List Text
unfolding is_white_space
segments [] = [] ∷ []
segments (c ∷ cs) =
    let rest = segments cs in if is_white_space c then [] ∷ rest else push_char c rest

abbrev pub is_nothing : Text → Bool
is_nothing [] = true
is_nothing (c ∷ cs) = false

-- `query.trim().toLowerCase().split(/\s+/).filter(Boolean)`: a run of white space has empty pieces
-- inside, which the filter drops.
unfoldable pub terms_of : Text → List Text
unfolding segments normalize filter
terms_of query = filter (λ t. not (is_nothing t)) (segments (normalize query))

-- `title[at - 1] === ' '`
abbrev pub is_boundary : Text → ℕ → Bool
is_boundary title before = elim (get_elem? title before) [ none ↦ false | some c ↦ c == 32 ]

-- The branch of `scoreTerm` for the title.
unfoldable pub score_title : Text → Text → Option Scored
unfolding index_of
score_title title term = elim (index_of term title) [
  | none ↦ none
  | some zero ↦ some (record { score = 100; weight = 5; matched_in = in_title })
  | some (suc before) ↦ some (record {
    score = if is_boundary title before then 70 else 45;
    weight = 4;
    matched_in = in_title;
  })
]

-- `scoreTerm`
unfoldable pub score_term : Entry → Text → Option Scored
unfolding score_title includes
score_term entry term = elim (score_title entry.title term) [
  | some scored ↦ some scored
  | none ↦
      if includes term entry.tags
      then some (record { score = 35; weight = 3; matched_in = in_tag })
      else if includes term entry.folder
      then some (record { score = 30; weight = 2; matched_in = in_folder })
      else if includes term entry.template
      then some (record { score = 20; weight = 1; matched_in = in_type })
      else if includes term entry.fields
      then some (record { score = 15; weight = 0; matched_in = in_field })
      else none
]

-- `scored.weight > bestWeight`, where the best weight starts below all.
abbrev pub is_better : ℕ → Option ℕ → Bool
is_better weight none = true
is_better weight (some best) = ltb best weight

-- The loop over the terms: the total and the best part, unless a term is nowhere.
unfoldable pub score_terms : Entry → List Text → ℕ → Part → Option ℕ → Option (ℕ × Part)
unfolding score_term
score_terms entry [] total best best_weight = some (total, best)
score_terms entry (term ∷ terms) total best best_weight = elim (score_term entry term) [
  | none ↦ none
  | some scored ↦
      let better = is_better scored.weight best_weight in
      score_terms entry terms (total + scored.score) (if better then scored.matched_in else best)
        (if better then some scored.weight else best_weight)
]

-- The loop over the entries.
unfoldable pub collect : List Text → List Entry → List SearchHit
unfolding score_terms
collect terms [] = []
collect terms (entry ∷ entries) =
    let rest = collect terms entries in
    elim (score_terms entry terms 0 in_field none) [
      | none ↦ rest
      | some scored ↦ record { id = entry.id; score = scored.0; matched_in = scored.1 } ∷ rest
    ]

-- The comparison of `hits.sort`: whether the first of two hits may stay before the second.
abbrev pub not_after : (ℕ → ℕ → Bool) → SearchHit → SearchHit → Bool
not_after locale_leq a b = ltb b.score a.score || (a.score == b.score && locale_leq a.id b.id)

unfoldable pub insert_hit : (ℕ → ℕ → Bool) → SearchHit → List SearchHit → List SearchHit
insert_hit locale_leq h [] = h ∷ []
insert_hit locale_leq h (g ∷ gs) =
    let rest = insert_hit locale_leq h gs in
    if not_after locale_leq h g then h ∷ g ∷ gs else g ∷ rest

unfoldable pub sort_hits : (ℕ → ℕ → Bool) → List SearchHit → List SearchHit
unfolding insert_hit
sort_hits locale_leq [] = []
sort_hits locale_leq (h ∷ hs) = insert_hit locale_leq h (sort_hits locale_leq hs)

-- `search`, from the terms of the query: nothing for none.
unfoldable pub search_terms : (ℕ → ℕ → Bool) → List Entry → ℕ → List Text → List SearchHit
unfolding collect sort_hits
search_terms locale_leq entries limit [] = []
search_terms locale_leq entries limit (term ∷ terms) =
    take limit (sort_hits locale_leq (collect (term ∷ terms) entries))

-- `search`
unfoldable pub search_index : (ℕ → ℕ → Bool) → List Entry → Text → ℕ → List SearchHit
unfolding terms_of search_terms
search_index locale_leq entries query limit = search_terms locale_leq entries limit (terms_of query)
