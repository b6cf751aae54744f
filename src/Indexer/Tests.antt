-- ===== src/Indexer/Tests.antt =====
-- A reindex of three providers in batches of two, and its theorem applied there.
use ozzb2b.Shared.{
  ℕ, ◌-◌, ◌≡◌, refl, Bool, true, false, Option, none, some, List, [], ◌∷◌, Text, codes, length,
  find, map,
}
use ozzb2b.Domain.{ProviderStatus}
use ozzb2b.Catalog.Data.{ProviderEntry, CatalogDb}
use ozzb2b.Search.Rerank.{last_of}
use ozzb2b.Indexer.{ProviderDoc, SearchIndex, docs_of, provider_to_doc, reindex_all}
use ozzb2b.Indexer.Batches.{has_doc_id, or_else, reindex_all_lem}

abbrev firm : ℕ → ProviderStatus → ProviderEntry
firm id status = record {
  id = id;
  slug = codes "p";
  legal_name = codes "OOO";
  display_name = codes "firm";
  description = none;
  country_id = none;
  city_id = none;
  legal_form_id = none;
  website = none;
  email = none;
  phone = none;
  address = none;
  registration_number = none;
  tax_id = none;
  year_founded = none;
  employee_count_range = none;
  logo_url = none;
  source = none;
  source_url = none;
  last_scraped_at = none;
  status = status;
  is_claimed = false;
  created_at = 10 - id;
  updated_at = 0;
}

abbrev small : CatalogDb
small = record {
  providers =
      firm 1 ProviderStatus.published
      ∷ firm 2 ProviderStatus.published
      ∷ firm 3 ProviderStatus.published
      ∷ firm 4 ProviderStatus.archived
      ∷ [];
  countries = [];
  cities = [];
  legal_forms = [];
  categories = [];
  links = [];
}

-- the fourth provider was indexed before it was archived
abbrev index : SearchIndex
index = record {
  settings = none;
  docs = provider_to_doc small (firm 4 ProviderStatus.published) ∷ [];
}

-- and its document stays, with the status that it had
stale_document :
    map {B = ℕ × Text} (λ (d : ProviderDoc). (d.id, d.status)) (reindex_all 2 small index).1.docs
    ≡ (1, codes "published")
      ∷ (2, codes "published")
      ∷ (3, codes "published")
      ∷ (4, codes "published")
      ∷ []
unfolding reindex_all ozzb2b.Indexer.index_rest docs_of ozzb2b.Shared.sort_by ozzb2b.Shared.select
    ozzb2b.Shared.insert_by ozzb2b.Indexer.add_documents ozzb2b.Indexer.put_doc provider_to_doc
    ozzb2b.Shared.delete ozzb2b.Indexer.ensure_index
stale_document = refl

reindex_all_lem_example :
    ((reindex_all 2 small index).0 ≡ length (docs_of small))
    × (find (has_doc_id 4) (reindex_all 2 small index).1.docs
        ≡ or_else (last_of (has_doc_id 4) (docs_of small)) (find (has_doc_id 4) index.docs))
reindex_all_lem_example = reindex_all_lem 2 small index 4
