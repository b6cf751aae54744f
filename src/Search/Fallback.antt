-- ===== src/Search/Fallback.antt =====
-- The gateway to Postgres in apps/api/src/ozzb2b_api/services/search.py, over the rows of the catalogue. The
-- full-text search and its rank are arguments; ranks are floats of any type with an order.
use ozzb2b.Shared.{
  Bool, List, map, if◌then◌else◌, Text, codes, strip, is_truthy, length, take, select, sort_by,
  nat_eq, Result, ok, err,
}
use ozzb2b.Errors.{Error, error, programming}
use ozzb2b.Domain.{is_published}
use ozzb2b.Catalog.Data.{ProviderEntry, CatalogDb}
use ozzb2b.Catalog.Rows.{drop, distinct_rows}
use ozzb2b.Catalog.Query.{country_in, city_in_slugs, legal_form_in, linked, category_in, joined_if}
use ozzb2b.Search.{SearchQuery, SearchResult}

-- `search_document @@ plainto_tsquery('simple', unaccent(text))`, `ts_rank_cd`, and `a >= b` on ranks
pub record FullText (F : Type 0) : Type 0 where
  pub found : Text → ProviderEntry → Bool
  pub rank : Text → ProviderEntry → F
  pub at_least : F → F → Bool

-- the statement with its joins, before the text
pub fts_rows : CatalogDb → SearchQuery → List ProviderEntry
fts_rows db q =
    joined_if q.category_slugs (category_in q.category_slugs) (linked db.links db.categories) (
      joined_if q.legal_form_codes (legal_form_in q.legal_form_codes) db.legal_forms (
        joined_if q.city_slugs (city_in_slugs q.city_slugs) db.cities (
          joined_if q.country_codes (country_in q.country_codes) db.countries
            (select (λ p. is_published p.status) db.providers))))

module _ {F : Type 0} (fts : FullText F) where
  -- SELECT DISTINCT id, rank … ORDER BY rank DESC
  pub ranked : CatalogDb → SearchQuery → Text → List ProviderEntry
  ranked db q text =
      sort_by (λ p r. fts.at_least (fts.rank text p) (fts.rank text r))
        (distinct_rows (λ (p : ProviderEntry). p.id) (select (fts.found text) (fts_rows db q)))

  -- without a text the rows are ordered by a column that DISTINCT does not select, which the database
  -- refuses
  pub postgres_search : CatalogDb → SearchQuery → Result Error (SearchResult F)
  postgres_search db q =
      let text = strip q.q in
      if is_truthy text
      then ok (record {
        total = length (ranked db q text);
        hits =
            map (λ (p : ProviderEntry). record { provider_id = p.id; score = fts.rank text p })
              (take q.limit (drop q.offset (ranked db q text)));
        engine = codes "postgres-fts";
      })
      else err
          (error programming "for SELECT DISTINCT, ORDER BY expressions must appear in select list")
