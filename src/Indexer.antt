-- ===== src/Indexer.antt =====
-- The documents of the search engine: apps/api/src/ozzb2b_api/services/indexer.py. The index is a table of
-- documents under their ids, in which a document that is added takes the place of the one with its id; a
-- call of Meilisearch that fails ends the run, and that is left out.
pub mod Batches
mod Tests
use ozzb2b.Shared.{
  ℕ, ◌+◌, Bool, not, Option, none, some, List, [], ◌∷◌, ◌++◌, map, ◌==◌, nat_eq, if◌then◌else◌, leb,
  length, Text, codes, select, delete, sort_by,
}
use ozzb2b.Domain.{is_published}
use ozzb2b.Catalog.Data.{
  CountryEntry, CityEntry, LegalFormEntry, CategoryEntry, ProviderEntry, CatalogDb,
}
use ozzb2b.Catalog.View.{
  map_option, provider_country, provider_city, provider_legal_form, provider_categories,
  status_value,
}

pub record ProviderDoc : Type 0 where
  pub id : ℕ
  pub slug : Text
  pub display_name : Text
  pub legal_name : Text
  pub description : Option Text
  pub address : Option Text
  pub country_code : Option Text
  pub country_name : Option Text
  pub city_slug : Option Text
  pub city_name : Option Text
  pub legal_form_code : Option Text
  pub legal_form_name : Option Text
  pub category_slugs : List Text
  pub category_names : List Text
  pub year_founded : Option ℕ
  pub employee_count_range : Option Text
  pub status : Text

-- what `ensure_index` tells the engine
pub record IndexSettings : Type 0 where
  pub searchable : List Text
  pub filterable : List Text
  pub sortable : List Text
  pub ranking : List Text

pub record SearchIndex : Type 0 where
  pub settings : Option IndexSettings
  pub docs : List ProviderDoc

pub index_settings : IndexSettings
index_settings = record {
  searchable =
      codes "display_name"
      ∷ codes "legal_name"
      ∷ codes "description"
      ∷ codes "country_name"
      ∷ codes "city_name"
      ∷ codes "address"
      ∷ codes "category_names"
      ∷ [];
  filterable =
      codes "status"
      ∷ codes "country_code"
      ∷ codes "city_slug"
      ∷ codes "legal_form_code"
      ∷ codes "category_slugs"
      ∷ codes "year_founded"
      ∷ codes "employee_count_range"
      ∷ [];
  sortable = codes "display_name" ∷ codes "year_founded" ∷ [];
  ranking =
      codes "words"
      ∷ codes "typo"
      ∷ codes "proximity"
      ∷ codes "attribute"
      ∷ codes "sort"
      ∷ codes "exactness"
      ∷ [];
}

unfoldable pub ensure_index : SearchIndex → SearchIndex
ensure_index index = record index { settings = some index_settings }

unfoldable pub provider_to_doc : CatalogDb → ProviderEntry → ProviderDoc
provider_to_doc db p = record {
  id = p.id;
  slug = p.slug;
  display_name = p.display_name;
  legal_name = p.legal_name;
  description = p.description;
  address = p.address;
  country_code = map_option (λ (c : CountryEntry). c.code) (provider_country db p);
  country_name = map_option (λ (c : CountryEntry). c.name) (provider_country db p);
  city_slug = map_option (λ (c : CityEntry). c.slug) (provider_city db p);
  city_name = map_option (λ (c : CityEntry). c.name) (provider_city db p);
  legal_form_code = map_option (λ (l : LegalFormEntry). l.code) (provider_legal_form db p);
  legal_form_name = map_option (λ (l : LegalFormEntry). l.name) (provider_legal_form db p);
  category_slugs = map (λ (c : CategoryEntry). c.slug) (provider_categories db p);
  category_names = map (λ (c : CategoryEntry). c.name) (provider_categories db p);
  year_founded = p.year_founded;
  employee_count_range = p.employee_count_range;
  status = status_value p.status;
}

-- `add_documents(docs, primary_key="id")`
unfoldable pub put_doc : ProviderDoc → List ProviderDoc → List ProviderDoc
put_doc d docs = d ∷ delete (λ (e : ProviderDoc). e.id == d.id) docs

unfoldable pub add_documents : List ProviderDoc → List ProviderDoc → List ProviderDoc
add_documents [] docs = docs
add_documents (d ∷ ds) docs = add_documents ds (put_doc d docs)

-- the loop of `reindex_all` over the documents that are left, with the batch, the index and the total
unfoldable pub index_rest :
    ℕ → List ProviderDoc → List ProviderDoc → List ProviderDoc → ℕ → ℕ × List ProviderDoc
index_rest batch_size [] [] docs total = (total, docs)
index_rest batch_size [] (b ∷ batch) docs total =
    (total + length (b ∷ batch), add_documents (b ∷ batch) docs)
index_rest batch_size (d ∷ ds) batch docs total =
    let fuller = batch ++ d ∷ [] in
    let flushed = index_rest batch_size ds [] (add_documents fuller docs) (total + length fuller) in
    let kept = index_rest batch_size ds fuller docs total in
    if leb batch_size (length fuller) then flushed else kept

-- the published providers in the order of their creation
unfoldable pub docs_of : CatalogDb → List ProviderDoc
docs_of db = map (provider_to_doc db) (
    sort_by (λ (p q : ProviderEntry). leb p.created_at q.created_at)
      (select (λ (p : ProviderEntry). is_published p.status) db.providers))

unfoldable pub reindex_all : ℕ → CatalogDb → SearchIndex → ℕ × SearchIndex
reindex_all batch_size db index =
    let ready = ensure_index index in
    let done = index_rest batch_size (docs_of db) [] ready.docs 0 in
    (done.0, record ready { docs = done.1 })

unfoldable pub index_provider : CatalogDb → ProviderEntry → SearchIndex → SearchIndex
index_provider db p index =
    let ready = ensure_index index in
    record ready { docs = add_documents (provider_to_doc db p ∷ []) ready.docs }

unfoldable pub delete_one : ℕ → SearchIndex → SearchIndex
delete_one provider_id index = record index {
  docs = delete (λ (e : ProviderDoc). e.id == provider_id) index.docs;
}
