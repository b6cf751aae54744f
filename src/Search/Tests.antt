-- ===== src/Search/Tests.antt =====
-- Searches on small data, and the theorems on the search applied there.
use ozzb2b.Shared.{
  ℕ, ◌≡◌, refl, subst, Bool, true, false, Option, none, some, List, [], ◌∷◌, ◌++◌, Text, codes, any,
  list_beq, if◌then◌else◌, Exec, map, all, nat_eq, IsUnique, Result, ok, err,
}
use ozzb2b.Errors.{Error, error, matcher_unavailable}
use ozzb2b.Search.{
  SearchHit, SearchResult, SearchQuery, is_forbidden, escape_meili_value, switch_keyboard_layout,
  query_variants, meili_filter_expression,
}
use ozzb2b.Search.Layout.{is_ru_letter, switch_keyboard_layout-switch_keyboard_layout}
use ozzb2b.Search.Rerank.{FoundProvider, MatcherCandidate, MatcherScore, maybe_rerank}
use ozzb2b.Search.Suggest.{SearchSuggestion, SuggestHit, suggest}
use ozzb2b.Search.Permutation.{IsReordered, maybe_rerank-IsReordered}

abbrev query : SearchQuery
query = record {
  q = codes " Ghbdtn ";
  category_slugs = codes "it" ∷ codes "a'b" ∷ [];
  country_codes = [];
  city_slugs = codes "kazan" ∷ [];
  legal_form_codes = [];
  limit = 24;
  offset = 0;
}

filters :
    meili_filter_expression query
    ≡ ok (
        codes "status = 'published'"
        ∷ codes "(category_slugs = 'it' OR category_slugs = 'a''b')"
        ∷ codes "(city_slug = 'kazan')"
        ∷ [])
unfolding meili_filter_expression ozzb2b.Search.filter_parts ozzb2b.Search.ors
    ozzb2b.Search.comparison escape_meili_value any is_forbidden ozzb2b.Search.double_quotes
filters = refl

variants : query_variants query.q ≡ codes "ghbdtn" ∷ codes "привет" ∷ []
unfolding query_variants ozzb2b.Shared.lower ozzb2b.Shared.strip ozzb2b.Shared.rstrip
    ozzb2b.Shared.lstrip ozzb2b.Shared.is_space ozzb2b.Shared.list_beq switch_keyboard_layout
    ozzb2b.Search.get_key any ozzb2b.Search.to_en ozzb2b.Shared.find ozzb2b.Search.layout
    ozzb2b.Shared.lower_char ozzb2b.Search.to_ru
variants = refl

-- quotes are doubled
escaped : escape_meili_value (codes "a'b") ≡ ok (codes "a''b")
unfolding escape_meili_value any is_forbidden ozzb2b.Search.double_quotes
escaped = refl

letters : all is_ru_letter (codes "привет") ≡ true
unfolding all is_ru_letter ozzb2b.Search.to_en ozzb2b.Shared.find ozzb2b.Search.layout
    ozzb2b.Search.to_ru ozzb2b.Shared.lower_char
letters = refl

switch_keyboard_layout-switch_keyboard_layout_example :
    switch_keyboard_layout (switch_keyboard_layout (codes "привет")) ≡ codes "привет"
switch_keyboard_layout-switch_keyboard_layout_example =
    switch_keyboard_layout-switch_keyboard_layout (codes "привет") letters

abbrev hit : ℕ → ℕ → SearchHit ℕ
hit id score = record { provider_id = id; score = score }

abbrev result : SearchResult ℕ
result = record {
  total = 3;
  hits = hit 1 100 ∷ hit 2 100 ∷ hit 3 100 ∷ [];
  engine = codes "meilisearch";
}

abbrev found : ℕ → FoundProvider
found id = record {
  id = id;
  display_name = codes "Firm";
  description = none;
  categories = [];
  country = none;
  city = none;
  legal_form = none;
}

abbrev scores : List (MatcherScore ℕ)
scores =
    record { provider_id = 2; score = 90 }
    ∷ record { provider_id = 1; score = 50 }
    ∷ record { provider_id = 7; score = 10 }
    ∷ []

abbrev rank : List (MatcherCandidate ℕ) → Result Error (List (MatcherScore ℕ))
rank cs = ok scores

abbrev reranked : SearchResult ℕ
reranked = record {
  total = 3;
  hits = hit 2 90 ∷ hit 1 50 ∷ hit 3 100 ∷ [];
  engine = codes "meilisearch+matcher";
}

-- the hit that the matcher drops comes last, and the id that it adds is left out
answer : maybe_rerank 0 true rank result (found 1 ∷ found 2 ∷ found 3 ∷ []) ≡ ok reranked
unfolding maybe_rerank ozzb2b.Search.Rerank.rerank_candidates ozzb2b.Search.Rerank.candidates_of
    ozzb2b.Search.Rerank.last_of ozzb2b.Search.Rerank.with_scores ozzb2b.Search.Rerank.reordered
    ozzb2b.Shared.select any ozzb2b.Search.Rerank.matcher_score
answer = refl

unreachable :
    maybe_rerank 0 true (λ cs. err (error matcher_unavailable "deadline")) result (found 1 ∷ [])
    ≡ ok result
unfolding maybe_rerank ozzb2b.Search.Rerank.rerank_candidates ozzb2b.Search.Rerank.candidates_of
    ozzb2b.Search.Rerank.last_of ozzb2b.Search.Rerank.with_scores
    ozzb2b.Errors.is_matcher_unavailable
unreachable = refl

once :
    (cs : List (MatcherCandidate ℕ)) (answered : List (MatcherScore ℕ))
    → rank cs ≡ ok answered
    → IsUnique (λ (s : MatcherScore ℕ). s.provider_id) answered
unfolding any
once cs answered h =
    let same : scores ≡ answered = cc in
    subst (IsUnique (λ (s : MatcherScore ℕ). s.provider_id)) same (refl, (refl, (refl, tt)))

distinct_hits : IsUnique (λ (h : SearchHit ℕ). h.provider_id) result.hits
unfolding any
distinct_hits = (refl, (refl, (refl, tt)))

maybe_rerank-IsReordered_example : IsReordered result reranked
maybe_rerank-IsReordered_example =
    maybe_rerank-IsReordered 0 result distinct_hits true rank (found 1 ∷ found 2 ∷ found 3 ∷ [])
      once answer

abbrev shown : Option Text → SuggestHit
shown slug = record {
  slug = slug;
  display_name = some (codes "Privet");
  description = none;
  city_name = none;
  country_code = none;
}

abbrev russian : Text
russian = codes "привет"

-- an index that notes the texts it is asked for and knows one of them
abbrev noting : Text → List Text → ℕ → Exec (List Text) Error (List SuggestHit)
noting v given limit asked = (
  ok (if list_beq v russian then shown none ∷ shown (some (codes "privet")) ∷ [] else []),
  v ∷ asked,
)

-- the second variant is asked for when the first has no hits, and a hit without a slug is passed over
suggested : suggest noting query [] ≡ (
  ok (
      record {
        slug = codes "privet";
        display_name = codes "Privet";
        description = none;
        city_name = none;
        country_code = none;
      }
      ∷ []),
  russian ∷ codes "ghbdtn" ∷ [],
)
unfolding suggest ozzb2b.Search.Suggest.suggest_variants ozzb2b.Search.Suggest.suggestions_of
    meili_filter_expression ozzb2b.Search.filter_parts ozzb2b.Search.ors ozzb2b.Search.comparison
    escape_meili_value any is_forbidden ozzb2b.Search.double_quotes query_variants
    ozzb2b.Shared.lower ozzb2b.Shared.strip ozzb2b.Shared.rstrip ozzb2b.Shared.lstrip
    ozzb2b.Shared.is_space ozzb2b.Shared.list_beq switch_keyboard_layout ozzb2b.Search.get_key
    ozzb2b.Search.to_en ozzb2b.Shared.find ozzb2b.Search.layout ozzb2b.Shared.lower_char
    ozzb2b.Search.to_ru ozzb2b.Search.variants_or
suggested = refl
