-- ===== src/Catalog/Tests.antt =====
-- Listings, facets and caches on small data, and the theorems on the catalogue applied there.
use ozzb2b.Shared.{
  ℕ, ◌≡◌, refl, ◌⊎◌, inl, inr, Bool, true, false, Option, none, some, List, [], ◌∷◌, ◌++◌, map,
  Text, codes, ◌==◌, text_eq, nat_eq, find, length, take, select, sort_by, All, any, IsUnique,
  Result, ok, err, Exec, has_infix, Option-cases, if◌then◌else◌, list_beq, eq_iff, Bool-cases,
  arith, sym, ap,
}
use ozzb2b.Errors.{Error}
use ozzb2b.Domain.{ProviderStatus}
use ozzb2b.Catalog.Data.{CountryEntry, CategoryEntry, ProviderEntry, CatalogDb, Sql, ProviderFilter}
use ozzb2b.Catalog.Rows.{drop}
use ozzb2b.Catalog.Query.{list_providers, by_display_name}
use ozzb2b.Catalog.Facets.{Axis, FacetCount, count_axis}
use ozzb2b.Catalog.Matching.{matches, list_providers-eq-select}
use ozzb2b.Catalog.Counts.{chosen, count_axis-countries}
use ozzb2b.Catalog.Cached.{Redis, Codec, IsCache, answers, answers-eq-map}
use ozzb2b.Catalog.Forest.{Forest, categories_tree}

-- LIKE of `%q%` with no wildcard in q, and names in the order of the table
abbrev unquoted : Text → Text
unquoted [] = []
unquoted (c ∷ s) = if c == b'%' then unquoted s else c ∷ unquoted s

abbrev sql : Sql
sql = record { like = λ s p. has_infix (unquoted p) s; lower = λ s. s; before = λ a b. true }

abbrev firm : ℕ → ℕ → ProviderEntry
firm id country = record {
  id = id;
  slug = codes "p";
  legal_name = codes "OOO";
  display_name = codes "firm";
  description = none;
  country_id = some country;
  city_id = none;
  legal_form_id = none;
  website = none;
  email = none;
  phone = none;
  address = none;
  registration_number = none;
  tax_id = none;
  year_founded = none;
  employee_count_range = none;
  logo_url = none;
  source = none;
  source_url = none;
  last_scraped_at = none;
  status = ProviderStatus.published;
  is_claimed = false;
  created_at = 0;
  updated_at = 0;
}

abbrev category : ℕ → Option ℕ → Text → CategoryEntry
category id parent slug = record {
  id = id;
  parent_id = parent;
  slug = slug;
  name = slug;
  description = none;
  position = 0;
}

-- a firm with two categories, one below the other, and one with none
abbrev small : CatalogDb
small = record {
  providers = firm 1 7 ∷ firm 2 7 ∷ firm 3 8 ∷ [];
  countries =
      record { id = 7; code = codes "RU"; name = codes "Russia"; slug = codes "russia" }
      ∷ record { id = 8; code = codes "DE"; name = codes "Germany"; slug = codes "germany" }
      ∷ [];
  cities = [];
  legal_forms = [];
  categories = category 1 none (codes "it") ∷ category 2 (some 1) (codes "web") ∷ [];
  links =
      record { provider_id = 1; category_id = 1 }
      ∷ record { provider_id = 1; category_id = 2 }
      ∷ record { provider_id = 3; category_id = 2 }
      ∷ [];
}

abbrev asked : ProviderFilter
asked = record {
  query = some (codes " FIRM ");
  category_slugs = codes "it" ∷ codes "web" ∷ [];
  country_codes = codes "RU" ∷ [];
  city_slugs = [];
  legal_form_codes = [];
  limit = 24;
  offset = 0;
}

abbrev anyone : ProviderFilter
anyone = record asked { category_slugs = [] }

listed_once : list_providers sql small asked ≡ (1, firm 1 7 ∷ [])
unfolding list_providers ozzb2b.Catalog.Query.filtered sort_by ozzb2b.Catalog.Rows.distinct_rows
    ozzb2b.Catalog.Query.apply_filter ozzb2b.Shared.strip ozzb2b.Shared.rstrip ozzb2b.Shared.lstrip
    ozzb2b.Shared.is_space select ozzb2b.Catalog.Rows.join ozzb2b.Shared.count
    ozzb2b.Shared.contains list_beq ozzb2b.Catalog.Rows.pairs ozzb2b.Catalog.Query.has_text
    has_infix ozzb2b.Shared.has_prefix ozzb2b.Catalog.Rows.expand ozzb2b.Shared.times
    ozzb2b.Shared.any ozzb2b.Shared.insert_by ozzb2b.Shared.lower ozzb2b.Shared.lower_char
listed_once = refl

facet_of_countries :
    count_axis sql small Axis.countries anyone
    ≡ record { value = codes "RU"; label = codes "Russia"; count = 2 }
      ∷ record { value = codes "DE"; label = codes "Germany"; count = 1 }
      ∷ []
unfolding list_providers ozzb2b.Catalog.Query.filtered sort_by ozzb2b.Catalog.Rows.distinct_rows
    ozzb2b.Catalog.Query.apply_filter ozzb2b.Shared.strip ozzb2b.Shared.rstrip ozzb2b.Shared.lstrip
    ozzb2b.Shared.is_space select ozzb2b.Catalog.Rows.join ozzb2b.Shared.count
    ozzb2b.Shared.contains list_beq ozzb2b.Catalog.Rows.pairs ozzb2b.Catalog.Query.has_text
    has_infix ozzb2b.Shared.has_prefix ozzb2b.Catalog.Rows.expand ozzb2b.Shared.times
    ozzb2b.Shared.any ozzb2b.Shared.insert_by ozzb2b.Shared.lower ozzb2b.Shared.lower_char
    count_axis ozzb2b.Catalog.Facets.group_counts ozzb2b.Catalog.Facets.axis_keys
    ozzb2b.Catalog.Facets.country_keys ozzb2b.Catalog.Facets.category_keys
    ozzb2b.Catalog.Facets.effective ozzb2b.Catalog.Facets.other_axes find
facet_of_countries = refl

-- the third firm counts under its parent category, which it is not listed under
facet_of_categories :
    count_axis sql small Axis.categories anyone
    ≡ record { value = codes "it"; label = codes "it"; count = 1 } ∷ []
unfolding list_providers ozzb2b.Catalog.Query.filtered sort_by ozzb2b.Catalog.Rows.distinct_rows
    ozzb2b.Catalog.Query.apply_filter ozzb2b.Shared.strip ozzb2b.Shared.rstrip ozzb2b.Shared.lstrip
    ozzb2b.Shared.is_space select ozzb2b.Catalog.Rows.join ozzb2b.Shared.count
    ozzb2b.Shared.contains list_beq ozzb2b.Catalog.Rows.pairs ozzb2b.Catalog.Query.has_text
    has_infix ozzb2b.Shared.has_prefix ozzb2b.Catalog.Rows.expand ozzb2b.Shared.times
    ozzb2b.Shared.any ozzb2b.Shared.insert_by ozzb2b.Shared.lower ozzb2b.Shared.lower_char
    count_axis ozzb2b.Catalog.Facets.group_counts ozzb2b.Catalog.Facets.axis_keys
    ozzb2b.Catalog.Facets.country_keys ozzb2b.Catalog.Facets.category_keys
    ozzb2b.Catalog.Facets.effective ozzb2b.Catalog.Facets.other_axes find
facet_of_categories = refl

abbrev in_germany : ProviderFilter
in_germany = record anyone { country_codes = codes "DE" ∷ [] }

facet_not_listed :
    (count_axis sql small Axis.categories in_germany
      ≡ record { value = codes "it"; label = codes "it"; count = 1 } ∷ [])
    × ((list_providers sql small (record in_germany { category_slugs = codes "it" ∷ [] })).0 ≡ 0)
unfolding list_providers ozzb2b.Catalog.Query.filtered sort_by ozzb2b.Catalog.Rows.distinct_rows
    ozzb2b.Catalog.Query.apply_filter ozzb2b.Shared.strip ozzb2b.Shared.rstrip ozzb2b.Shared.lstrip
    ozzb2b.Shared.is_space select ozzb2b.Catalog.Rows.join ozzb2b.Shared.count
    ozzb2b.Shared.contains list_beq ozzb2b.Catalog.Rows.pairs ozzb2b.Catalog.Query.has_text
    has_infix ozzb2b.Shared.has_prefix ozzb2b.Catalog.Rows.expand ozzb2b.Shared.times
    ozzb2b.Shared.any ozzb2b.Shared.insert_by ozzb2b.Shared.lower ozzb2b.Shared.lower_char
    count_axis ozzb2b.Catalog.Facets.group_counts ozzb2b.Catalog.Facets.axis_keys
    ozzb2b.Catalog.Facets.country_keys ozzb2b.Catalog.Facets.category_keys
    ozzb2b.Catalog.Facets.effective ozzb2b.Catalog.Facets.other_axes find
facet_not_listed = (refl, refl)

tree : categories_tree small.categories ≡ record {
  by_id =
      record {
        id = 1;
        category = record {
          id = 1;
          parent_id = none;
          slug = codes "it";
          name = codes "it";
          description = none;
          position = 0;
        };
        children = 2 ∷ [];
      }
      ∷ record {
        id = 2;
        category = record {
          id = 2;
          parent_id = some 1;
          slug = codes "web";
          name = codes "web";
          description = none;
          position = 0;
        };
        children = [];
      }
      ∷ [];
  roots = 1 ∷ [];
}
unfolding categories_tree ozzb2b.Catalog.Forest.place_all ozzb2b.Catalog.Forest.place_category
    ozzb2b.Catalog.Forest.append_child ozzb2b.Shared.update ozzb2b.Catalog.Forest.tree_node
    ozzb2b.Catalog.View.public_category
tree = refl

distinct_ids : IsUnique (λ (p : ProviderEntry). p.id) small.providers
unfolding any
distinct_ids = (refl, (refl, (refl, tt)))

distinct_codes : IsUnique (λ (c : CountryEntry). c.code) small.countries
unfolding any list_beq
distinct_codes = (refl, (refl, tt))

list_providers-eq-select_example : list_providers sql small asked ≡ (
  length (select (matches sql small asked) small.providers),
  take 24
      (drop 0 (sort_by (by_display_name sql) (select (matches sql small asked) small.providers))),
)
list_providers-eq-select_example = list_providers-eq-select sql small asked distinct_ids

count_axis-countries_example :
    All
      (λ r. r.count ≡ (list_providers sql small (chosen anyone r.value)).0)
      (count_axis sql small Axis.countries anyone)
count_axis-countries_example = count_axis-countries sql small anyone distinct_ids distinct_codes

-- a Redis that keeps everything, with texts for values
abbrev Store : Type 0
Store = List (Text × Text)

stored : Text → Store → Option Text
stored k [] = none
stored k (e ∷ s) = if e.0 == k then some e.1 else stored k s

abbrev redis : Redis Store
redis = record {
  get = λ k s. (ok (stored k s), s);
  set = λ k text ttl s. (ok tt, (k, text) ∷ s);
  lock = λ k s. s;
}

abbrev plain : Codec Text
plain = record { decode = λ t. some t; encode = λ t. some t }

abbrev load_key : Text → Exec Store Error Text
load_key k s = (ok k, s)

stored-set :
    (k text j t : Text) (s : Store)
    → stored j ((k, text) ∷ s) ≡ some t
    → (stored j s ≡ some t) ⊎ ((j ≡ k) × (t ≡ text))
unfolding stored
stored-set k text j t s h = elim (Bool-cases (k == j)) [
  | inl e ↦ inr (sym ((eq_iff k j).0 e), ground arith)
  | inr e ↦ inl (ground arith)
]

stored-empty : (k text : Text) → stored k [] ≡ some text → plain.decode text ≡ some k
unfolding stored
stored-empty k text h = absurd cc

redis-IsCache : IsCache redis plain load_key (λ k. k) (λ s k t. stored k s ≡ some t)
redis-IsCache = record {
  get-holds = λ k text s h. ground arith;
  holds-get = λ k j text s h. h;
  holds-set = λ k text j t ttl s h. stored-set k text j t s h;
  holds-lock = λ k j text s h. inl h;
  holds-loader = λ k j text s h. h;
  loader-value = λ k s. refl;
  decode-encode = λ v text h. sym h;
}

abbrev two_keys : List Text
two_keys = codes "ref:countries:v1" ∷ codes "ref:categories:v1" ∷ []

answers-eq-map_example :
    answers redis plain 300 load_key (two_keys ++ two_keys) []
    ≡ map (λ k. ok k) (two_keys ++ two_keys)
answers-eq-map_example =
    answers-eq-map redis plain load_key (λ k. k) (λ s k t. stored k s ≡ some t) redis-IsCache 300
      (two_keys ++ two_keys) [] stored-empty
