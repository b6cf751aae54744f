-- ===== src/Catalog/View.antt =====
-- What the catalogue shows: apps/api/src/ozzb2b_api/schemas/catalog.py and services/provider_mapping.py.
-- The rows that a provider refers to are searched by their primary keys, as selectinload does.
use ozzb2b.Shared.{ℕ, Bool, Option, none, some, List, map, ◌==◌, nat_eq, Text, codes, find, select}
use ozzb2b.Domain.{ProviderStatus}
use ozzb2b.Catalog.Data.{
  CountryEntry, CityEntry, LegalFormEntry, CategoryEntry, ProviderEntry, ProviderCategory,
  CatalogDb, is_id,
}
use ozzb2b.Catalog.Query.{linked}

pub record CategoryPublic : Type 0 where
  pub id : ℕ
  pub parent_id : Option ℕ
  pub slug : Text
  pub name : Text
  pub description : Option Text
  pub position : ℕ

pub record CountryPublic : Type 0 where
  pub id : ℕ
  pub code : Text
  pub name : Text
  pub slug : Text

pub record CityPublic : Type 0 where
  pub id : ℕ
  pub country_id : ℕ
  pub name : Text
  pub slug : Text
  pub region : Option Text

pub record LegalFormPublic : Type 0 where
  pub id : ℕ
  pub country_id : Option ℕ
  pub code : Text
  pub name : Text
  pub slug : Text

pub record ProviderSummary : Type 0 where
  pub id : ℕ
  pub slug : Text
  pub display_name : Text
  pub description : Option Text
  pub country : Option CountryPublic
  pub city : Option CityPublic
  pub legal_form : Option LegalFormPublic
  pub year_founded : Option ℕ
  pub employee_count_range : Option Text
  pub logo_url : Option Text
  pub categories : List CategoryPublic
  pub last_scraped_at : Option ℕ

pub record ProviderDetail : Type 0 where
  pub summary : ProviderSummary
  pub legal_name : Text
  pub website : Option Text
  pub email : Option Text
  pub phone : Option Text
  pub address : Option Text
  pub registration_number : Option Text
  pub tax_id : Option Text
  pub source : Option Text
  pub source_url : Option Text
  pub status : Text
  pub is_claimed : Bool
  pub created_at : ℕ
  pub updated_at : ℕ

-- `model_validate` of a row, which copies the columns
unfoldable pub public_category : CategoryEntry → CategoryPublic
public_category c = record {
  id = c.id;
  parent_id = c.parent_id;
  slug = c.slug;
  name = c.name;
  description = c.description;
  position = c.position;
}

pub public_country : CountryEntry → CountryPublic
public_country c = record { id = c.id; code = c.code; name = c.name; slug = c.slug }

pub public_city : CityEntry → CityPublic
public_city c = record {
  id = c.id;
  country_id = c.country_id;
  name = c.name;
  slug = c.slug;
  region = c.region;
}

pub public_legal_form : LegalFormEntry → LegalFormPublic
public_legal_form l = record {
  id = l.id;
  country_id = l.country_id;
  code = l.code;
  name = l.name;
  slug = l.slug;
}

abbrev pub map_option : {A B : Type 0} → (A → B) → Option A → Option B
map_option f none = none
map_option f (some a) = some (f a)

-- the relationships of a provider
unfoldable pub provider_country : CatalogDb → ProviderEntry → Option CountryEntry
provider_country db p = find (λ (c : CountryEntry). is_id p.country_id c.id) db.countries

unfoldable pub provider_city : CatalogDb → ProviderEntry → Option CityEntry
provider_city db p = find (λ (c : CityEntry). is_id p.city_id c.id) db.cities

unfoldable pub provider_legal_form : CatalogDb → ProviderEntry → Option LegalFormEntry
provider_legal_form db p = find (λ (l : LegalFormEntry). is_id p.legal_form_id l.id) db.legal_forms

unfoldable pub provider_categories : CatalogDb → ProviderEntry → List CategoryEntry
provider_categories db p =
    map (λ (r : ProviderCategory × CategoryEntry). r.1)
      (select (λ (r : ProviderCategory × CategoryEntry). r.0.provider_id == p.id)
        (linked db.links db.categories))

unfoldable pub to_summary : CatalogDb → ProviderEntry → ProviderSummary
to_summary db p = record {
  id = p.id;
  slug = p.slug;
  display_name = p.display_name;
  description = p.description;
  country = map_option public_country (provider_country db p);
  city = map_option public_city (provider_city db p);
  legal_form = map_option public_legal_form (provider_legal_form db p);
  year_founded = p.year_founded;
  employee_count_range = p.employee_count_range;
  logo_url = p.logo_url;
  categories = map public_category (provider_categories db p);
  last_scraped_at = p.last_scraped_at;
}

abbrev pub status_value : ProviderStatus → Text
status_value ProviderStatus.draft = codes "draft"
status_value ProviderStatus.published = codes "published"
status_value ProviderStatus.archived = codes "archived"

unfoldable pub to_detail : CatalogDb → ProviderEntry → ProviderDetail
to_detail db p = record {
  summary = to_summary db p;
  legal_name = p.legal_name;
  website = p.website;
  email = p.email;
  phone = p.phone;
  address = p.address;
  registration_number = p.registration_number;
  tax_id = p.tax_id;
  source = p.source;
  source_url = p.source_url;
  status = status_value p.status;
  is_claimed = p.is_claimed;
  created_at = p.created_at;
  updated_at = p.updated_at;
}
