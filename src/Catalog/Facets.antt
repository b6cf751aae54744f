-- ===== src/Catalog/Facets.antt =====
-- The facets of apps/api/src/ozzb2b_api/services/catalog.py: for each axis, the values of the providers
-- that the other axes admit, with counts. The four queries are the same on separate connections as on one.
use ozzb2b.Shared.{
  ℕ, Bool, ◌&&◌, ◌||◌, none, some, List, [], ◌∷◌, map, ◌==◌, nat_eq, text_eq, pair_eq, ltb, Text,
  take, find, count, sort_by,
}
use ozzb2b.Catalog.Data.{
  CountryEntry, CityEntry, LegalFormEntry, CategoryEntry, ProviderEntry, ProviderCategory,
  CatalogDb, Sql, ProviderFilter, is_id,
}
use ozzb2b.Catalog.Rows.{pairs, distinct_rows}
use ozzb2b.Catalog.Query.{filtered, linked}

pub data Axis : Type 0 where
  categories countries cities legal_forms : Axis
  unknown : Text → Axis

pub record FacetCount : Type 0 where
  pub value : Text
  pub label : Text
  pub count : ℕ

-- the filter without the axis, and with the limit and the offset of a new one
unfoldable pub other_axes : Axis → ProviderFilter → ProviderFilter
other_axes categories f = record f { category_slugs = []; limit = 24; offset = 0 }
other_axes countries f = record f { country_codes = []; limit = 24; offset = 0 }
other_axes cities f = record f { city_slugs = []; limit = 24; offset = 0 }
other_axes legal_forms f = record f { legal_form_codes = []; limit = 24; offset = 0 }
other_axes (unknown name) f = record f { limit = 24; offset = 0 }

-- GROUP BY value, label with count(*)
unfoldable pub group_counts : List (Text × Text) → List FacetCount
group_counts keys =
    map (λ k. record { value = k.0; label = k.1; count = count (λ j. j == k) keys })
      (distinct_rows (λ k. k) keys)

-- ORDER BY count DESC, label
abbrev pub by_count : Sql → FacetCount → FacetCount → Bool
by_count sql a b = ltb b.count a.count || (a.count == b.count && sql.before a.label b.label)

unfoldable pub country_keys : CatalogDb → List ProviderEntry → List (Text × Text)
country_keys db rows =
    map (λ r. (r.0.code, r.0.name))
      (pairs (λ (c : CountryEntry) (p : ProviderEntry). is_id p.country_id c.id) db.countries rows)

unfoldable pub city_keys : CatalogDb → List ProviderEntry → List (Text × Text)
city_keys db rows =
    map (λ r. (r.0.slug, r.0.name))
      (pairs (λ (c : CityEntry) (p : ProviderEntry). is_id p.city_id c.id) db.cities rows)

unfoldable pub legal_form_keys : CatalogDb → List ProviderEntry → List (Text × Text)
legal_form_keys db rows =
    map (λ r. (r.0.code, r.0.name))
      (pairs (λ (l : LegalFormEntry) (p : ProviderEntry). is_id p.legal_form_id l.id) db.legal_forms
        rows)

-- `coalesce(parent.slug, category.slug)` and the name beside it; the parent is a row by its primary key
unfoldable pub effective : List CategoryEntry → CategoryEntry → Text × Text
effective all_categories c =
    elim (find (λ (q : CategoryEntry). is_id c.parent_id q.id) all_categories) [
      | none ↦ (c.slug, c.name)
      | some parent ↦ (parent.slug, parent.name)
    ]

-- count(DISTINCT id): each provider once under each value
unfoldable pub category_keys : CatalogDb → List ProviderEntry → List (Text × Text)
category_keys db rows =
    map (λ r. r.0)
      (distinct_rows {A = (Text × Text) × ℕ} (λ r. r)
        (map (λ r. (effective db.categories r.1.1, r.0.id))
          (pairs
            (λ (p : ProviderEntry) (l : ProviderCategory × CategoryEntry). l.0.provider_id == p.id)
            rows (linked db.links db.categories))))

unfoldable pub axis_keys : Axis → CatalogDb → List ProviderEntry → List (Text × Text)
axis_keys categories db rows = category_keys db rows
axis_keys countries db rows = country_keys db rows
axis_keys cities db rows = city_keys db rows
axis_keys legal_forms db rows = legal_form_keys db rows
axis_keys (unknown name) db rows = []

-- `_FACET_LIMITS`
abbrev pub within_facet_limit : Axis → List FacetCount → List FacetCount
within_facet_limit cities rows = take 50 rows
within_facet_limit _ rows = rows

unfoldable pub count_axis : Sql → CatalogDb → Axis → ProviderFilter → List FacetCount
count_axis sql db axis f = within_facet_limit axis (
    sort_by (by_count sql) (group_counts (axis_keys axis db (filtered sql db (other_axes axis f)))))

unfoldable pub facet_counts : Sql → CatalogDb → ProviderFilter → List (Axis × List FacetCount)
facet_counts sql db f =
    map (λ axis. (axis, count_axis sql db axis f))
      (categories ∷ countries ∷ cities ∷ legal_forms ∷ [])
