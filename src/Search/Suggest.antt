-- ===== src/Search/Suggest.antt =====
-- `suggest` of apps/api/src/ozzb2b_api/services/search.py: the names for a text that is being typed.
use ozzb2b.Shared.{
  ℕ, Bool, true, false, not, ◌||◌, Option, List, [], ◌∷◌, if◌then◌else◌, Text, strip, is_truthy,
  or_empty, Exec, ok, ◌>>=◌, pure, lift,
}
use ozzb2b.Errors.{Error}
use ozzb2b.Search.{SearchQuery, query_variants, meili_filter_expression, variants_or}

pub record SearchSuggestion : Type 0 where
  pub slug : Text
  pub display_name : Text
  pub description : Option Text
  pub city_name : Option Text
  pub country_code : Option Text

-- a document with the attributes that are retrieved, each of which may be missing
pub record SuggestHit : Type 0 where
  pub slug : Option Text
  pub display_name : Option Text
  pub description : Option Text
  pub city_name : Option Text
  pub country_code : Option Text

abbrev pub any_hits : List SuggestHit → Bool
any_hits [] = false
any_hits (h ∷ hs) = true

-- `index` answers a variant of the text, with the filter and the limit
module _ {N : Type 0} (index : Text → List Text → ℕ → Exec N Error (List SuggestHit)) where
  unfoldable pub suggest_variants :
      List Text → List Text → ℕ → List SuggestHit → Exec N Error (List SuggestHit)
  suggest_variants filters [] limit last = pure last
  suggest_variants filters (v ∷ vs) limit last = do
    hits ← index v filters limit
    (if any_hits hits then pure hits else suggest_variants filters vs limit hits)

  -- a hit without a slug or a name is passed over
  unfoldable pub suggestions_of : List SuggestHit → List SearchSuggestion
  suggestions_of [] = []
  suggestions_of (h ∷ hs) =
      let rest = suggestions_of hs in
      let slug = or_empty h.slug in
      let display_name = or_empty h.display_name in
      if not (is_truthy slug) || not (is_truthy display_name)
      then rest
      else record {
        slug = slug;
        display_name = display_name;
        description = h.description;
        city_name = h.city_name;
        country_code = h.country_code;
      }
        ∷ rest

  unfoldable pub suggest : SearchQuery → Exec N Error (List SearchSuggestion)
  suggest q s =
      let text = strip q.q in
      if is_truthy text
      then (do
        filters ← lift (meili_filter_expression q)
        hits ← suggest_variants filters (variants_or (query_variants text) text) q.limit []
        pure (suggestions_of hits))
          s
      else (ok [], s)
