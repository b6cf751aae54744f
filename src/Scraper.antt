-- ===== src/Scraper.antt =====
-- The scraper's items and the tables it writes: apps/scraper/src/ozzb2b_scraper/models.py and the
-- columns that pipeline.py names. A JSON object is its list of keys with values, newest first.
pub mod Lookup
pub mod Slug
pub mod Upsert
pub mod Refer
pub mod Invariant
pub mod Found
pub mod References
pub mod Merging
pub mod Kept
pub mod Steps
pub mod Runs
pub mod Again
pub mod Tests
pub mod Registry
pub mod Official
use ozzb2b.Shared.{
  ℕ, ◌+◌, Bool, true, false, not, ◌&&◌, ◌||◌, Option, none, some, List, [], ◌∷◌, ◌++◌, ◌==◌, nat_eq,
  text_eq, option_nat_eq, Text, any, select, if◌then◌else◌,
}
use ozzb2b.Domain.{ProviderStatus}

pub data JsonValue : Type 0 where
  null : JsonValue
  string_value : Text → JsonValue
  int_value : ℕ → JsonValue

abbrev pub Json : Type 0
Json = List (Text × JsonValue)

pub record ScrapedProvider : Type 0 where
  pub source : Text
  pub source_id : Text
  pub source_url : Option Text
  pub display_name : Text
  pub legal_name : Option Text
  pub description : Option Text
  pub country_code : Option Text
  pub city_name : Option Text
  pub legal_form_code : Option Text
  pub website : Option Text
  pub email : Option Text
  pub phone : Option Text
  pub address : Option Text
  pub registration_number : Option Text
  pub tax_id : Option Text
  pub year_founded : Option ℕ
  pub employee_count_range : Option Text
  pub category_slugs : List Text
  pub meta : Json

-- a row of `providers`, the column `source` and its id being set or NULL on their own
pub record ProviderRow : Type 0 where
  pub id : ℕ
  pub slug : Text
  pub legal_name : Text
  pub display_name : Text
  pub description : Option Text
  pub country_id : Option ℕ
  pub city_id : Option ℕ
  pub legal_form_id : Option ℕ
  pub website : Option Text
  pub email : Option Text
  pub phone : Option Text
  pub address : Option Text
  pub registration_number : Option Text
  pub tax_id : Option Text
  pub year_founded : Option ℕ
  pub employee_count_range : Option Text
  pub source : Option Text
  pub source_id : Option Text
  pub source_url : Option Text
  pub last_scraped_at : Option ℕ
  pub status : ProviderStatus
  pub is_claimed : Bool
  pub meta : Json

pub record CountryRow : Type 0 where
  pub id : ℕ
  pub code : Text

pub record CityRow : Type 0 where
  pub id : ℕ
  pub country_id : ℕ
  pub name : Text
  pub slug : Text

pub record LegalFormRow : Type 0 where
  pub id : ℕ
  pub code : Text
  pub country_id : Option ℕ

pub record CategoryRow : Type 0 where
  pub id : ℕ
  pub slug : Text

-- `links` is provider_categories: the pairs of a provider's id and a category's
pub record ScrapeDb : Type 0 where
  pub countries : List CountryRow
  pub cities : List CityRow
  pub legal_forms : List LegalFormRow
  pub categories : List CategoryRow
  pub providers : List ProviderRow
  pub links : List (ℕ × ℕ)

-- slugify, urllib, ILIKE and pg_trgm's similarity, in hundredths
pub record Externals : Type 0 where
  pub slugify : Text → Text
  pub hostname : Text → Option Text
  pub ilike : Text → Text → Bool
  pub similarity : Text → Text → ℕ

-- what one upsert draws: the UUID of a new row, the hexadecimal digits of another, the next key of a
-- city, and the time
pub record Draw : Type 0 where
  pub uuid : ℕ
  pub hex : Text
  pub city : ℕ
  pub now : ℕ

-- the row carries the item's source and id; NULL equals nothing
unfoldable pub is_text : Option Text → Text → Bool
is_text none t = false
is_text (some s) t = s == t

unfoldable pub has_source : Text → Text → ProviderRow → Bool
has_source source source_id p = is_text p.source source && is_text p.source_id source_id
