-- ===== src/Search.antt =====
-- The search for providers: apps/api/src/ozzb2b_api/services/search.py. A score is a float that is only
-- passed on, so its type is a parameter with the constants 1.0 and 0.0. Meilisearch, the fallback in
-- Postgres and the matcher are arguments.
pub mod Layout
pub mod Rerank
pub mod Permutation
pub mod Fallback
pub mod Suggest
pub mod Endpoint
pub mod Tests
use ozzb2b.Shared.{
  ℕ, ◌+◌, Bool, true, false, not, ◌&&◌, ◌||◌, Option, none, some, List, [], ◌∷◌, ◌++◌, ◌==◌, nat_eq,
  text_eq, if◌then◌else◌, is_some, Text, codes, lower, strip, or_empty, is_truthy, length, any,
  find, select, map, Exec, Result, ok, err, pure, raise, lift, ◌>>=◌, ◌>>◌,
}
use ozzb2b.Errors.{Error, error, value_error, matcher_unavailable, is_matcher_unavailable}

pub record SearchQuery : Type 0 where
  pub q : Text
  pub category_slugs : List Text
  pub country_codes : List Text
  pub city_slugs : List Text
  pub legal_form_codes : List Text
  pub limit : ℕ
  pub offset : ℕ

pub record SearchHit (F : Type 0) : Type 0 where
  pub provider_id : ℕ
  pub score : F

pub record SearchResult (F : Type 0) : Type 0 where
  pub total : ℕ
  pub hits : List (SearchHit F)
  pub engine : Text

pub is_forbidden : ℕ → Bool
is_forbidden c = c == 13 || (c == 10 || c == 0)

-- `value.replace("'", "''")`
pub double_quotes : Text → Text
double_quotes [] = []
double_quotes (c ∷ s) = if c == 39 then 39 ∷ 39 ∷ double_quotes s else c ∷ double_quotes s

pub escape_meili_value : Text → Result Error Text
escape_meili_value value =
    if any is_forbidden value
    then err (error value_error "invalid filter value")
    else ok (double_quotes value)

-- the keys of the two layouts, the Latin key first
unfoldable pub layout : List (ℕ × ℕ)
layout =
    keys (codes "`qwertyuiop[]asdfghjkl;'zxcvbnm,./") (codes "ёйцукенгшщзхъфывапролджэячсмитьбю.")
  where
    keys : Text → Text → List (ℕ × ℕ)
    keys (a ∷ as') (b ∷ bs) = (a, b) ∷ keys as' bs
    keys _ _ = []

unfoldable pub to_ru : ℕ → Option ℕ
to_ru c = elim (find (λ k. k.0 == c) layout) [ none ↦ none | some k ↦ some k.1 ]

unfoldable pub to_en : ℕ → Option ℕ
to_en c = elim (find (λ k. k.1 == c) layout) [ none ↦ none | some k ↦ some k.0 ]

-- `mapping.get(ch, ch)`
unfoldable pub get_key : (ℕ → Option ℕ) → ℕ → ℕ
get_key mapping c = elim (mapping c) [ none ↦ c | some d ↦ d ]

unfoldable pub switch_keyboard_layout : Text → Text
switch_keyboard_layout value =
    let has_ru = any (λ c. is_some (to_en c)) (lower value) in
    let has_en = any (λ c. is_some (to_ru c)) (lower value) in
    map (get_key (if has_ru && not has_en then to_en else to_ru)) (lower value)

pub query_variants : Text → List Text
query_variants value =
    let base = lower (strip value) in
    let switched = switch_keyboard_layout base in
    if not (is_truthy base)
    then []
    else if switched == base
    then base ∷ []
    else base ∷ switched ∷ []

-- one comparison of a field, and all of them
pub comparison : Text → Text → Result Error Text
comparison field value = elim (escape_meili_value value) [
  | err e ↦ err e
  | ok escaped ↦ ok (field ++ codes " = '" ++ escaped ++ codes "'")
]

pub ors : Text → List Text → Result Error Text
ors field [] = ok []
ors field (v ∷ []) = comparison field v
ors field (v ∷ w ∷ vs) =
    let rest = ors field (w ∷ vs) in
    elim (comparison field v) [
      | err e ↦ err e
      | ok first ↦ (elim rest [ err e ↦ err e | ok others ↦ ok (first ++ codes " OR " ++ others) ])
    ]

-- the parts of the fields that have values, in parentheses
pub filter_parts : List (Text × List Text) → Result Error (List Text)
filter_parts [] = ok []
filter_parts ((field, []) ∷ fields) = filter_parts fields
filter_parts ((field, v ∷ vs) ∷ fields) =
    let rest = filter_parts fields in
    elim (ors field (v ∷ vs)) [
      | err e ↦ err e
      | ok alternatives ↦ (elim rest [
        | err e ↦ err e
        | ok parts ↦ ok ((codes "(" ++ alternatives ++ codes ")") ∷ parts)
      ])
    ]

pub meili_filter_expression : SearchQuery → Result Error (List Text)
meili_filter_expression q =
    elim (filter_parts (
      (codes "category_slugs", q.category_slugs)
      ∷ (codes "country_code", q.country_codes)
      ∷ (codes "city_slug", q.city_slugs)
      ∷ (codes "legal_form_code", q.legal_form_codes)
      ∷ [])) [ err e ↦ err e | ok parts ↦ ok (codes "status = 'published'" ∷ parts) ]

-- what Meilisearch answers: the ids of the hits that have one, and its two counts
pub record MeiliResponse : Type 0 where
  pub hits : List (Option Text)
  pub estimated_total_hits : Option ℕ
  pub total_hits : Option ℕ

pub record MeiliIndex (N : Type 0) : Type 0 where
  pub query : Text → List Text → ℕ → ℕ → Exec N Error MeiliResponse
  pub uuid : Text → Option ℕ

pub total_of : MeiliResponse → ℕ
total_of r = elim r.estimated_total_hits [
  | some n ↦ n
  | none ↦ (elim r.total_hits [ some n ↦ n | none ↦ length r.hits ])
]

pub has_hits : MeiliResponse → Bool
has_hits r = elim r.hits [ [] ↦ false | h ∷ hs ↦ true ]

-- `_query_variants(q.q) or [q.q]`
pub variants_or : List Text → Text → List Text
variants_or [] q = q ∷ []
variants_or (v ∷ vs) q = v ∷ vs

module _ {N F : Type 0} (index : MeiliIndex N) (one : F) where
  -- the loop over the variants: the first response with hits, or the last one
  pub search_variants :
      List Text → List Text → SearchQuery → MeiliResponse → Exec N Error MeiliResponse
  search_variants filters [] q last = pure last
  search_variants filters (v ∷ vs) q last = do
    response ← index.query v filters q.limit q.offset
    (if has_hits response then pure response else search_variants filters vs q response)

  pub hits_of : List (Option Text) → Result Error (List (SearchHit F))
  hits_of [] = ok []
  hits_of (none ∷ ids) = hits_of ids
  hits_of (some id ∷ ids) =
      let rest = hits_of ids in
      elim (index.uuid id) [
        | none ↦ err (error value_error "badly formed hexadecimal UUID string")
        | some pid ↦ (elim rest [
          | err e ↦ err e
          | ok hs ↦ ok (record { provider_id = pid; score = one } ∷ hs)
        ])
      ]

  pub meili_search : SearchQuery → Exec N Error (SearchResult F)
  meili_search q = do
    filters ← lift (meili_filter_expression q)
    response ←
        search_variants filters (variants_or (query_variants q.q) q.q) q
          (record { hits = []; estimated_total_hits = some 0; total_hits = none })
    hits ← lift (hits_of response.hits)
    pure (record { total = total_of response; hits = hits; engine = codes "meilisearch" })

  -- Meilisearch first, and after any exception the gateway to Postgres
  pub search :
      (SearchQuery → Exec N Error (SearchResult F)) → SearchQuery → Exec N Error (SearchResult F)
  search postgres q n = elim (meili_search q n).0 [
    | ok result ↦ (ok result, (meili_search q n).1)
    | err e ↦ postgres q (meili_search q n).1
  ]
