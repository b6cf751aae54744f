-- ===== src/Search/Rerank.antt =====
-- `maybe_rerank` and `hydrate_providers` in apps/api/src/ozzb2b_api/services/search.py. Whether the
-- matcher is enabled is an argument, and so is its answer. An id stands for the provider, of which the
-- matcher gets the texts and codes.
use ozzb2b.Shared.{
  ℕ, Bool, not, Option, none, some, List, [], ◌∷◌, ◌++◌, ◌==◌, nat_eq, if◌then◌else◌, Text, codes,
  or_empty, any, select, map, Result, ok, err,
}
use ozzb2b.Errors.{Error, is_matcher_unavailable}
use ozzb2b.Search.{SearchHit, SearchResult}

-- a provider with the rows that it refers to
pub record FoundProvider : Type 0 where
  pub id : ℕ
  pub display_name : Text
  pub description : Option Text
  pub categories : List Text
  pub country : Option Text
  pub city : Option Text
  pub legal_form : Option Text

pub record MatcherCandidate (F : Type 0) : Type 0 where
  pub provider_id : ℕ
  pub display_name : Text
  pub description : Text
  pub category_slugs : List Text
  pub country_code : Text
  pub city_slug : Text
  pub legal_form_code : Text
  pub retrieval_score : F

pub record MatcherScore (F : Type 0) : Type 0 where
  pub provider_id : ℕ
  pub score : F

-- the last of the values of a key, as in a dict that is filled in order
unfoldable pub last_of {ℓ} : {A : Type ℓ} → (A → Bool) → List A → Option A
last_of p [] = none
last_of p (x ∷ xs) =
    let later = last_of p xs in elim later [ some y ↦ some y | none ↦ if p x then some x else none ]

module _ {F : Type 0} (nought : F) where
  unfoldable pub hit_score : List (SearchHit F) → ℕ → F
  hit_score hits id = elim (last_of (λ h. h.provider_id == id) hits) [
    | none ↦ nought
    | some h ↦ h.score
  ]

  unfoldable pub matcher_score : List (MatcherScore F) → ℕ → F
  matcher_score scores id = elim (last_of (λ s. s.provider_id == id) scores) [
    | none ↦ nought
    | some s ↦ s.score
  ]

  -- the candidates: the hits whose provider is there
  unfoldable pub candidates_of :
      List (SearchHit F) → List FoundProvider → List (SearchHit F) → List (MatcherCandidate F)
  candidates_of all_hits providers [] = []
  candidates_of all_hits providers (hit ∷ hits) =
      let rest = candidates_of all_hits providers hits in
      elim (last_of (λ p. p.id == hit.provider_id) providers) [
        | none ↦ rest
        | some p ↦
            record {
              provider_id = p.id;
              display_name = p.display_name;
              description = or_empty p.description;
              category_slugs = p.categories;
              country_code = or_empty p.country;
              city_slug = or_empty p.city;
              legal_form_code = or_empty p.legal_form;
              retrieval_score = hit_score all_hits p.id;
            }
            ∷ rest
      ]

  -- the matcher's order, without ids that are no hits, and the hits that it dropped
  unfoldable pub reordered : List (MatcherScore F) → List (SearchHit F) → List (SearchHit F)
  reordered scores hits =
      map (λ s. record { provider_id = s.provider_id; score = matcher_score scores s.provider_id })
        (select (λ s. any (λ h. h.provider_id == s.provider_id) hits) scores)
      ++ select (λ h. not (any (λ s. s.provider_id == h.provider_id) scores)) hits

  unfoldable pub with_scores :
      SearchResult F → Result Error (List (MatcherScore F)) → Result Error (SearchResult F)
  with_scores result (ok scores) = ok (record {
    total = result.total;
    hits = reordered scores result.hits;
    engine = result.engine ++ codes "+matcher";
  })
  with_scores result (err e) = if is_matcher_unavailable e then ok result else err e

  unfoldable pub rerank_candidates :
      (List (MatcherCandidate F) → Result Error (List (MatcherScore F)))
      → SearchResult F
      → List (MatcherCandidate F)
      → Result Error (SearchResult F)
  rerank_candidates rank result [] = ok result
  rerank_candidates rank result (c ∷ cs) = with_scores result (rank (c ∷ cs))

  -- `rank` is the call of the matcher for the query; without hits or providers there are no candidates
  unfoldable pub maybe_rerank :
      Bool
      → (List (MatcherCandidate F) → Result Error (List (MatcherScore F)))
      → SearchResult F
      → List FoundProvider
      → Result Error (SearchResult F)
  maybe_rerank enabled rank result providers =
      if not enabled
      then ok result
      else rerank_candidates rank result (candidates_of result.hits providers result.hits)

-- the rows in the order of the ids
pub hydrate_providers : List FoundProvider → List ℕ → List FoundProvider
hydrate_providers rows [] = []
hydrate_providers rows (id ∷ ids) =
    let rest = hydrate_providers rows ids in
    elim (last_of (λ p. p.id == id) rows) [ none ↦ rest | some p ↦ p ∷ rest ]
