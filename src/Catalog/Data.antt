-- ===== src/Catalog/Data.antt =====
-- The rows that the catalogue reads: apps/api/src/ozzb2b_api/db/models/provider.py, geo.py, legal_form.py
-- and category.py, and the filter of services/catalog.py. LIKE, lower() and the collation are those of
-- the database, the record `Sql`.
use ozzb2b.Shared.{ℕ, Bool, false, Option, none, some, List, ◌==◌, nat_eq, Text}
use ozzb2b.Domain.{ProviderStatus}

pub record CountryEntry : Type 0 where
  pub id : ℕ
  pub code : Text
  pub name : Text
  pub slug : Text

pub record CityEntry : Type 0 where
  pub id : ℕ
  pub country_id : ℕ
  pub name : Text
  pub slug : Text
  pub region : Option Text

pub record LegalFormEntry : Type 0 where
  pub id : ℕ
  pub country_id : Option ℕ
  pub code : Text
  pub name : Text
  pub slug : Text

pub record CategoryEntry : Type 0 where
  pub id : ℕ
  pub parent_id : Option ℕ
  pub slug : Text
  pub name : Text
  pub description : Option Text
  pub position : ℕ

pub record ProviderEntry : Type 0 where
  pub id : ℕ
  pub slug : Text
  pub legal_name : Text
  pub display_name : Text
  pub description : Option Text
  pub country_id : Option ℕ
  pub city_id : Option ℕ
  pub legal_form_id : Option ℕ
  pub website : Option Text
  pub email : Option Text
  pub phone : Option Text
  pub address : Option Text
  pub registration_number : Option Text
  pub tax_id : Option Text
  pub year_founded : Option ℕ
  pub employee_count_range : Option Text
  pub logo_url : Option Text
  pub source : Option Text
  pub source_url : Option Text
  pub last_scraped_at : Option ℕ
  pub status : ProviderStatus
  pub is_claimed : Bool
  pub created_at : ℕ
  pub updated_at : ℕ

-- the row of provider_categories: a provider and a category
pub record ProviderCategory : Type 0 where
  pub provider_id : ℕ
  pub category_id : ℕ

pub record CatalogDb : Type 0 where
  pub providers : List ProviderEntry
  pub countries : List CountryEntry
  pub cities : List CityEntry
  pub legal_forms : List LegalFormEntry
  pub categories : List CategoryEntry
  pub links : List ProviderCategory

-- `a LIKE pattern`, `lower(a)` and `a <= b` of the database
pub record Sql : Type 0 where
  pub like : Text → Text → Bool
  pub lower : Text → Text
  pub before : Text → Text → Bool

pub record ProviderFilter : Type 0 where
  pub query : Option Text
  pub category_slugs : List Text
  pub country_codes : List Text
  pub city_slugs : List Text
  pub legal_form_codes : List Text
  pub limit : ℕ
  pub offset : ℕ

-- `fk = id`, which NULL does not pass
abbrev pub is_id : Option ℕ → ℕ → Bool
is_id none id = false
is_id (some k) id = k == id
