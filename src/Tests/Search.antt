-- ===== src/Tests/Search.antt =====
-- Runs of the search.
use safe_pass.Base.{
  ℕ, ◌≤◌, ◌≡◌, refl, ◌&&◌, some, List, [], ◌∷◌, ◌==◌, all, any, filter, count, length, leb, arith,
}
use safe_pass.Json.{normalize, trim_start, trim_end, to_lower, is_white_space}
use safe_pass.Auth.Guard.{codes, starts_with}
use safe_pass.Client.Search.{
  Indexable, in_title, build, index_of, includes, join, segments, terms_of, score_title, score_term,
  score_terms, collect, insert_hit, sort_hits, search_terms, search_index,
}
use safe_pass.Client.Search.Laws.{occurs, search_index-build}
use safe_pass.Client.Search.Ranked.{IsRanked, search_index-IsRanked}

abbrev item : ℕ → List ℕ → List (List ℕ) → Indexable
item id title tags = record {
  id = id;
  title = title;
  searchable_fields = (codes "user", codes "me") ∷ [];
  folder_name = some (codes "Work");
  tag_names = tags;
  template_name = codes "Login";
}

abbrev items : List Indexable
items =
    item 1 (codes "my git notes") (codes "code" ∷ [])
    ∷ item 2 (codes "GitHub") (codes "code" ∷ codes "web" ∷ [])
    ∷ item 3 (codes "Bank") []
    ∷ []

finder : Unit {0}
unfolding normalize trim_start trim_end to_lower is_white_space any all filter count build index_of
    includes join segments terms_of score_title score_term score_terms collect insert_hit sort_hits
    search_terms search_index starts_with
finder = tt

-- A title that starts with the first term comes before one that has it at the start of a word.
search_test :
    (search_index leb (build items) (codes " Git  WORK ") 100
      ≡ record { id = 2; score = 130; matched_in = in_title }
        ∷ record { id = 1; score = 100; matched_in = in_title }
        ∷ [])
unfolding finder
search_test = refl

search_index-build_example :
    count (λ h. h.id == 2) (search_index leb (build items) (codes " Git  WORK ") 100)
    ≡ count (λ i. i.id == 2 && all (occurs i) (terms_of (codes " Git  WORK "))) items
unfolding finder
search_index-build_example =
    search_index-build leb items (codes " Git  WORK ") 100 (λ i. i == 2) refl refl (omega arith)

search_index-IsRanked_example :
    IsRanked (search_index leb (build items) (codes " Git  WORK ") 1)
    × (length (search_index leb (build items) (codes " Git  WORK ") 1) ≤ 1)
search_index-IsRanked_example = search_index-IsRanked leb (build items) (codes " Git  WORK ") 1
