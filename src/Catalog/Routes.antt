-- ===== src/Catalog/Routes.antt =====
-- The endpoints of apps/api/src/ozzb2b_api/routes/catalog.py. Query parameters that do not meet their
-- bounds are refused with 422, as FastAPI does.
use ozzb2b.Shared.{
  ℕ, ◌*◌, Bool, ◌&&◌, Option, none, some, List, [], ◌++◌, map, if◌then◌else◌, leb, is_truthy,
  or_empty, Text, codes, length, Exec, Result, ok, err, pure, lift, or_raise, modify, ◌>>=◌, ◌>>◌,
}
use ozzb2b.Errors.{Error, error, http}
use ozzb2b.Leads.Form.{decimal}
use ozzb2b.Events.{EventEmitter, Published, emit}
use ozzb2b.Catalog.Data.{
  CountryEntry, CityEntry, CategoryEntry, ProviderEntry, CatalogDb, Sql, ProviderFilter,
}
use ozzb2b.Catalog.Query.{
  list_providers, get_provider_by_slug, list_categories, list_countries, list_cities,
  list_legal_forms,
}
use ozzb2b.Catalog.Facets.{Axis, FacetCount, count_axis}
use ozzb2b.Catalog.View.{
  CategoryPublic, CountryPublic, CityPublic, LegalFormPublic, ProviderSummary, ProviderDetail,
  public_category, public_country, public_city, public_legal_form, provider_country, provider_city,
  provider_categories, map_option, to_summary, to_detail,
}
use ozzb2b.Catalog.Cached.{Redis, Codec, get_or_set}

pub record ProviderFacets : Type 0 where
  pub categories : List FacetCount
  pub countries : List FacetCount
  pub cities : List FacetCount
  pub legal_forms : List FacetCount

pub record ProviderListResponse : Type 0 where
  pub total : ℕ
  pub limit : ℕ
  pub offset : ℕ
  pub items : List ProviderSummary
  pub facets : Option ProviderFacets

-- `tuple(values or ())`
abbrev pub or_no_values : Option (List Text) → List Text
or_no_values none = []
or_no_values (some values) = values

pub facets_of : Sql → CatalogDb → ProviderFilter → ProviderFacets
facets_of sql db f = record {
  categories = count_axis sql db Axis.categories f;
  countries = count_axis sql db Axis.countries f;
  cities = count_axis sql db Axis.cities f;
  legal_forms = count_axis sql db Axis.legal_forms f;
}

pub list_response : Sql → CatalogDb → ProviderFilter → Bool → ProviderListResponse
list_response sql db f with_facets =
    let found = list_providers sql db f in
    record {
      total = found.0;
      limit = f.limit;
      offset = f.offset;
      items = map (to_summary db) found.1;
      facets = if with_facets then some (facets_of sql db f) else none;
    }

abbrev pub unprocessable : Error
unprocessable = error (http 422) "Unprocessable Entity"

pub list_providers_endpoint :
    Sql
    → CatalogDb
    → Option Text
    → Option (List Text)
    → Option (List Text)
    → Option (List Text)
    → Option (List Text)
    → ℕ
    → ℕ
    → Bool
    → Result Error ProviderListResponse
list_providers_endpoint sql db q categories countries cities legal_forms limit offset with_facets =
    if leb 1 limit && leb limit 100
    then ok (
        list_response sql db
          (record {
            query = q;
            category_slugs = or_no_values categories;
            country_codes = or_no_values countries;
            city_slugs = or_no_values cities;
            legal_form_codes = or_no_values legal_forms;
            limit = limit;
            offset = offset;
          })
          with_facets)
    else err unprocessable

-- the properties of a `provider_viewed` event
pub record ViewedProvider : Type 0 where
  pub provider_id : ℕ
  pub slug : Text
  pub display_name : Text
  pub country_code : Option Text
  pub city_slug : Option Text
  pub category_slugs : List Text

pub viewed : CatalogDb → ProviderEntry → ViewedProvider
viewed db p = record {
  provider_id = p.id;
  slug = p.slug;
  display_name = p.display_name;
  country_code = map_option (λ (c : CountryEntry). c.code) (provider_country db p);
  city_slug = map_option (λ (c : CityEntry). c.slug) (provider_city db p);
  category_slugs = map (λ (c : CategoryEntry). c.slug) (provider_categories db p);
}

module _ {N : Type 0} (xadd : Text → Text → ℕ → N → Bool × N) (emitter : EventEmitter)
    (payload : ViewedProvider → Text) where
  pub get_provider_endpoint : CatalogDb → Text → Exec (Published N) Error ProviderDetail
  get_provider_endpoint db slug = do
    found ← lift (get_provider_by_slug db slug)
    provider ← or_raise (error (http 404) "provider not found") found
    modify (emit xadd emitter (payload (viewed db provider)))
    pure (to_detail db provider)

abbrev pub reference_ttl_seconds : ℕ
reference_ttl_seconds = 5 * 60

-- `value or '*'`
abbrev pub or_star : Option Text → Text
or_star value = if is_truthy (or_empty value) then or_empty value else codes "*"

unfoldable pub cities_key : Option Text → Option Text → ℕ → Text
cities_key country q limit =
    codes "ref:cities:v3:"
    ++ (or_star country ++ (codes ":" ++ (or_star q ++ (codes ":" ++ decimal limit))))

unfoldable pub legal_forms_key : Option Text → Text
legal_forms_key country = codes "ref:legal-forms:v1:" ++ or_star country

module _ {N : Type 0} (redis : Redis N) (sql : Sql) (db : CatalogDb) where
  pub list_categories_endpoint : Codec (List CategoryPublic) → Exec N Error (List CategoryPublic)
  list_categories_endpoint codec =
      get_or_set redis codec (codes "ref:categories:v1") reference_ttl_seconds
        (pure (map public_category (list_categories sql db)))

  pub list_countries_endpoint : Codec (List CountryPublic) → Exec N Error (List CountryPublic)
  list_countries_endpoint codec =
      get_or_set redis codec (codes "ref:countries:v1") reference_ttl_seconds
        (pure (map public_country (list_countries sql db)))

  pub list_cities_endpoint :
      Codec (List CityPublic) → Option Text → Option Text → ℕ → Exec N Error (List CityPublic)
  list_cities_endpoint codec country q limit =
      if leb (length (or_empty q)) 80 && (leb 1 limit && leb limit 100)
      then get_or_set redis codec (cities_key country q limit) reference_ttl_seconds
          (pure (map public_city (list_cities sql db country q limit)))
      else lift (err unprocessable)

  pub list_legal_forms_endpoint :
      Codec (List LegalFormPublic) → Option Text → Exec N Error (List LegalFormPublic)
  list_legal_forms_endpoint codec country =
      get_or_set redis codec (legal_forms_key country) reference_ttl_seconds
        (pure (map public_legal_form (list_legal_forms sql db country)))
