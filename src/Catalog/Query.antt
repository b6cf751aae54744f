-- ===== src/Catalog/Query.antt =====
-- The queries of apps/api/src/ozzb2b_api/services/catalog.py. A statement is the list of the rows that it
-- selects; ORDER BY is a stable sort.
use ozzb2b.Shared.{
  ℕ, Bool, false, ◌&&◌, ◌||◌, Option, none, some, List, [], ◌∷◌, ◌++◌, map, ◌==◌, nat_eq, text_eq,
  if◌then◌else◌, ltb, Text, codes, lower, strip, is_truthy, length, take, select, any, contains,
  sort_by, has_prefix, has_infix, or_empty, is_none, Result, scalar_one_or_none,
}
use ozzb2b.Errors.{Error, multiple}
use ozzb2b.Domain.{is_published}
use ozzb2b.Catalog.Data.{
  CountryEntry, CityEntry, LegalFormEntry, CategoryEntry, ProviderEntry, ProviderCategory,
  CatalogDb, Sql, ProviderFilter, is_id,
}
use ozzb2b.Catalog.Rows.{drop, join, pairs, distinct_rows}

abbrev pub country_in : List Text → ProviderEntry → CountryEntry → Bool
country_in values p c = is_id p.country_id c.id && contains values c.code

abbrev pub city_in_slugs : List Text → ProviderEntry → CityEntry → Bool
city_in_slugs values p c = is_id p.city_id c.id && contains values c.slug

abbrev pub legal_form_in : List Text → ProviderEntry → LegalFormEntry → Bool
legal_form_in values p l = is_id p.legal_form_id l.id && contains values l.code

-- the join with provider_categories and categories
abbrev pub linked :
    List ProviderCategory → List CategoryEntry → List (ProviderCategory × CategoryEntry)
linked = pairs λ (l : ProviderCategory) (c : CategoryEntry). l.category_id == c.id

abbrev pub category_in : List Text → ProviderEntry → ProviderCategory × CategoryEntry → Bool
category_in values p row = row.0.provider_id == p.id && contains values row.1.slug

-- `if values: stmt = stmt.join(…).where(….in_(values))`
abbrev pub joined_if : {A B : Type 0} → List Text → (A → B → Bool) → List B → List A → List A
joined_if [] on ys rows = rows
joined_if (v ∷ vs) on ys rows = join on ys rows

-- `%q%`
abbrev pub like_pattern : Text → Text
like_pattern q = codes "%" ++ lower q ++ codes "%"

-- a LIKE on NULL selects no row
abbrev pub like_or_null : Sql → Text → Option Text → Bool
like_or_null sql pattern' none = false
like_or_null sql pattern' (some s) = sql.like (sql.lower s) pattern'

unfoldable pub has_text : Sql → Text → ProviderEntry → Bool
has_text sql pattern' p =
    sql.like (sql.lower p.display_name) pattern'
    || (sql.like (sql.lower p.legal_name) pattern' || like_or_null sql pattern' p.description)

abbrev pub where_text : Sql → Option Text → List ProviderEntry → List ProviderEntry
where_text sql none rows = rows
where_text sql (some q) rows =
    if is_truthy (strip q) then select (has_text sql (like_pattern (strip q))) rows else rows

unfoldable pub apply_filter : Sql → CatalogDb → ProviderFilter → List ProviderEntry
apply_filter sql db f = where_text sql f.query (
    joined_if f.category_slugs (category_in f.category_slugs) (linked db.links db.categories) (
      joined_if f.legal_form_codes (legal_form_in f.legal_form_codes) db.legal_forms (
        joined_if f.city_slugs (city_in_slugs f.city_slugs) db.cities (
          joined_if f.country_codes (country_in f.country_codes) db.countries
            (select (λ p. is_published p.status) db.providers)))))

-- `_apply_filter(select(Provider), f).distinct()`
unfoldable pub filtered : Sql → CatalogDb → ProviderFilter → List ProviderEntry
filtered sql db f = distinct_rows (λ (p : ProviderEntry). p.id) (apply_filter sql db f)

abbrev pub by_display_name : Sql → ProviderEntry → ProviderEntry → Bool
by_display_name sql p q = sql.before p.display_name q.display_name

unfoldable pub list_providers : Sql → CatalogDb → ProviderFilter → ℕ × List ProviderEntry
list_providers sql db f =
    let rows = filtered sql db f in
    (length rows, take f.limit (drop f.offset (sort_by (by_display_name sql) rows)))

unfoldable pub get_provider_by_slug : CatalogDb → Text → Result Error (Option ProviderEntry)
get_provider_by_slug db slug =
    scalar_one_or_none multiple
      (select (λ (p : ProviderEntry). p.slug == slug && is_published p.status) db.providers)

abbrev pub by_position : Sql → CategoryEntry → CategoryEntry → Bool
by_position sql a b =
    ltb a.position b.position || (a.position == b.position && sql.before a.name b.name)

unfoldable pub list_categories : Sql → CatalogDb → List CategoryEntry
list_categories sql db = sort_by (by_position sql) db.categories

unfoldable pub list_countries : Sql → CatalogDb → List CountryEntry
list_countries sql db = sort_by (λ a b. sql.before a.name b.name) db.countries

-- the English names that a Russian search for a city also looks for
abbrev pub city_search_aliases : List (Text × Text)
city_search_aliases =
    (codes "москва", codes "moscow")
    ∷ (codes "санкт-петербург", codes "saint petersburg")
    ∷ (codes "петербург", codes "saint petersburg")
    ∷ (codes "новосибирск", codes "novosibirsk")
    ∷ (codes "екатеринбург", codes "yekaterinburg")
    ∷ (codes "казань", codes "kazan")
    ∷ (codes "нижний новгород", codes "nizhny novgorod")
    ∷ (codes "самара", codes "samara")
    ∷ (codes "ульяновск", codes "ulyanovsk")
    ∷ (codes "воронеж", codes "voronezh")
    ∷ (codes "омск", codes "omsk")
    ∷ (codes "киров", codes "kirov")
    ∷ (codes "пермь", codes "perm")
    ∷ (codes "ростов-на-дону", codes "rostov-on-don")
    ∷ (codes "краснодар", codes "krasnodar")
    ∷ []

-- the patterns that a name may match, for a search text that is stripped and in lower case
pub city_patterns : Text → List Text
city_patterns q =
    let contains_pattern = λ (name : Text). codes "%" ++ name ++ codes "%" in
    contains_pattern q
    ∷ map (λ a. contains_pattern a.1)
        (select (λ a. has_prefix q a.0 || has_infix q a.0) city_search_aliases)

abbrev pub in_country : Text → CityEntry → CountryEntry → Bool
in_country code city c = city.country_id == c.id && c.code == code

abbrev pub where_city : Sql → Option Text → List CityEntry → List CityEntry
where_city sql none rows = rows
where_city sql (some query) rows =
    let q = lower (strip query) in
    if is_truthy q
    then select (λ (c : CityEntry). any (sql.like (sql.lower c.name)) (city_patterns q)) rows
    else rows

unfoldable pub list_cities : Sql → CatalogDb → Option Text → Option Text → ℕ → List CityEntry
list_cities sql db country query limit =
    let code = or_empty country in
    take limit (
      sort_by (λ a b. sql.before a.name b.name)
        (where_city sql query
          (if is_truthy code then join (in_country code) db.countries db.cities else db.cities)))

-- LEFT JOIN countries: a form that is not of a country comes once, with NULL
abbrev pub is_form_for : List CountryEntry → Text → LegalFormEntry → Bool
is_form_for countries code form =
    is_none form.country_id
    || any (λ (c : CountryEntry). is_id form.country_id c.id && c.code == code) countries

unfoldable pub list_legal_forms : Sql → CatalogDb → Option Text → List LegalFormEntry
list_legal_forms sql db country =
    let code = or_empty country in
    sort_by (λ a b. sql.before a.name b.name)
      (if is_truthy code
        then select (is_form_for db.countries code) db.legal_forms
        else db.legal_forms)
