-- ===== src/Scraper/Upsert.antt =====
-- The upsert of an item and the run of a spider: apps/scraper/src/ozzb2b_scraper/pipeline.py. Each
-- statement is a transaction of its own, so what was written before an exception stays.
use ozzb2b.Shared.{
  ℕ, ◌+◌, Bool, false, not, ◌&&◌, ◌||◌, Option, none, some, List, [], ◌∷◌, ◌++◌, ◌==◌, nat_eq,
  text_eq, option_nat_eq, leb, if◌then◌else◌, is_some, Text, or_empty, any, select, update, Exec,
  pure, gets, modify, guard, ◌>>=◌, ◌>>◌,
}
use ozzb2b.Errors.{Error, violation}
use ozzb2b.Domain.{ProviderStatus}
use ozzb2b.Scraper.{
  Json, Externals, ScrapedProvider, ProviderRow, CategoryRow, ScrapeDb, Draw, has_source,
}
use ozzb2b.Scraper.Lookup.{
  filled, find_existing_by_source, find_existing_by_public_id, find_existing_by_domain,
  find_existing_by_fuzzy,
}
use ozzb2b.Scraper.Refer.{ensure_reference}
use ozzb2b.Scraper.Slug.{make_unique_slug}

pub data Action : Type 0 where
  inserted updated merged_by_domain merged_by_fuzzy : Action

-- `COALESCE(a, b)`
unfoldable pub coalesce {ℓ} : {A : Type ℓ} → Option A → Option A → Option A
coalesce none b = b
coalesce (some a) b = some a

-- `a || b` of JSON objects, the keys of the second first
pub json_concat : Json → Json → Json
json_concat a b = b ++ select (λ kv. not (any (λ new. new.0 == kv.0) b)) a

-- `CASE WHEN $19 = '{}' THEN meta ELSE meta || $19 END`
pub merged_meta : Json → Json → Json
merged_meta old [] = old
merged_meta old (kv ∷ new) = json_concat old (kv ∷ new)

-- `COALESCE(NULLIF($2,''), display_name)` of a column that is never NULL
unfoldable pub text_over : Option Text → Text → Text
text_over given old = elim (filled given) [ none ↦ old | some t ↦ t ]

-- the assignments of the UPDATE
unfoldable pub updated_row :
    Draw → ScrapedProvider → Option ℕ × Option ℕ × Option ℕ → ProviderRow → ProviderRow
updated_row draw item (country, city, legal_form) p = record p {
  display_name = text_over (some item.display_name) p.display_name;
  legal_name = text_over item.legal_name p.legal_name;
  description = coalesce (filled item.description) p.description;
  country_id = coalesce country p.country_id;
  city_id = coalesce city p.city_id;
  legal_form_id = coalesce legal_form p.legal_form_id;
  website = coalesce (filled item.website) p.website;
  email = coalesce (filled item.email) p.email;
  phone = coalesce (filled item.phone) p.phone;
  address = coalesce (filled item.address) p.address;
  registration_number = coalesce (filled item.registration_number) p.registration_number;
  tax_id = coalesce (filled item.tax_id) p.tax_id;
  year_founded = coalesce item.year_founded p.year_founded;
  employee_count_range = coalesce (filled item.employee_count_range) p.employee_count_range;
  source = coalesce p.source (some item.source);
  source_id = coalesce p.source_id (some item.source_id);
  source_url = coalesce p.source_url (some (or_empty item.source_url));
  meta = merged_meta p.meta item.meta;
  last_scraped_at = some draw.now;
}

-- the row of the INSERT
unfoldable pub new_row :
    Draw → ScrapedProvider → Option ℕ × Option ℕ × Option ℕ → Text → ProviderRow
new_row draw item (country, city, legal_form) slug = record {
  id = draw.uuid;
  slug = slug;
  legal_name = text_over item.legal_name item.display_name;
  display_name = item.display_name;
  description = item.description;
  country_id = country;
  city_id = city;
  legal_form_id = legal_form;
  website = item.website;
  email = item.email;
  phone = item.phone;
  address = item.address;
  registration_number = item.registration_number;
  tax_id = item.tax_id;
  year_founded = item.year_founded;
  employee_count_range = item.employee_count_range;
  source = some item.source;
  source_id = some item.source_id;
  source_url = item.source_url;
  last_scraped_at = some draw.now;
  status = ProviderStatus.published;
  is_claimed = false;
  meta = item.meta;
}

-- two rows that the unique constraint on the source and its id keeps apart
unfoldable pub shares_source : ProviderRow → ProviderRow → Bool
shares_source p q = elim p.source [
  | none ↦ false
  | some source ↦ (elim p.source_id [ none ↦ false | some id ↦ has_source source id q ])
]

-- the INSERT, which the key, the slug and the source with its id may stop
unfoldable pub insert_provider : ProviderRow → Exec ScrapeDb Error Unit
insert_provider p = do
  taken ←
      gets (λ db. any (λ q. q.id == p.id || (q.slug == p.slug || shares_source p q)) db.providers)
  guard (not taken) violation
  modify (λ db. record db { providers = p ∷ db.providers })

-- the UPDATE of a row by its key, which the source with its id may stop
unfoldable pub clashes : (ProviderRow → ProviderRow) → ℕ → List ProviderRow → Bool
clashes f id rows =
    any (λ p. p.id == id && any (λ q. not (q.id == id) && shares_source (f p) q) rows) rows

unfoldable pub update_provider : ℕ → (ProviderRow → ProviderRow) → Exec ScrapeDb Error Unit
update_provider id f = do
  taken ← gets (λ db. clashes f id db.providers)
  guard (not taken) violation
  modify (λ db. record db { providers = update (λ q. q.id == id) f db.providers })

-- `ON CONFLICT DO NOTHING`
unfoldable pub add_links : ℕ → List CategoryRow → List (ℕ × ℕ) → List (ℕ × ℕ)
add_links provider [] links = links
add_links provider (c ∷ cs) links =
    add_links provider cs
      (if any (λ l. l.0 == provider && l.1 == c.id) links then links else (provider, c.id) ∷ links)

unfoldable pub link_categories : ℕ → List Text → Exec ScrapeDb Error Unit
link_categories provider slugs = modify (λ db. record db {
  links = add_links provider (select (λ c. any (λ s. s == c.slug) slugs) db.categories) db.links;
})

-- the fuzzy match, only for an item without public identifiers and from the threshold 0.85 on
unfoldable pub fuzzy_match : Externals → ScrapeDb → ScrapedProvider → Option ℕ → Option ProviderRow
fuzzy_match ext db item country =
    if is_some (filled item.tax_id) || is_some (filled item.registration_number)
    then none
    else (elim (find_existing_by_fuzzy ext db item country) [
      | none ↦ none
      | some p ↦ if leb 85 (ext.similarity p.display_name item.display_name) then some p else none
    ])

-- the provider that the item is merged into, and how it was found
unfoldable pub find_existing :
    Externals → ScrapeDb → ScrapedProvider → Option ℕ → Option (Action × ProviderRow)
find_existing ext db item country = elim (find_existing_by_source db item) [
  | some p ↦ some (updated, p)
  | none ↦ (elim (find_existing_by_public_id db item) [
    | some p ↦ some (merged_by_domain, p)
    | none ↦ (elim (find_existing_by_domain ext db item) [
      | some p ↦ some (merged_by_domain, p)
      | none ↦ (elim (fuzzy_match ext db item country) [
        | some p ↦ some (merged_by_fuzzy, p)
        | none ↦ none
      ])
    ])
  ])
]

unfoldable pub upsert_found :
    Externals
    → Draw
    → ScrapedProvider
    → Option ℕ × Option ℕ × Option ℕ
    → Option (Action × ProviderRow)
    → Exec ScrapeDb Error (Action × ℕ)
upsert_found ext draw item refs none = do
  slug ← gets (λ db. make_unique_slug ext db.providers draw.hex item.display_name)
  insert_provider (new_row draw item refs slug)
  link_categories draw.uuid item.category_slugs
  pure (inserted, draw.uuid)
upsert_found ext draw item refs (some (action, p)) = do
  update_provider p.id (updated_row draw item refs)
  link_categories p.id item.category_slugs
  pure (action, p.id)

unfoldable pub upsert_one : Externals → Draw → ScrapedProvider → Exec ScrapeDb Error (Action × ℕ)
upsert_one ext draw item = do
  refs ← ensure_reference ext draw item
  existing ← gets (λ db. find_existing ext db item refs.0)
  upsert_found ext draw item refs existing

pub record IngestionStats : Type 0 where
  pub fetched : ℕ
  pub n_inserted : ℕ
  pub n_updated : ℕ
  pub n_merged_by_fuzzy : ℕ
  pub n_merged_by_domain : ℕ

unfoldable pub counted : Action → IngestionStats → IngestionStats
counted inserted s = record s { fetched = s.fetched + 1; n_inserted = s.n_inserted + 1 }
counted updated s = record s { fetched = s.fetched + 1; n_updated = s.n_updated + 1 }
counted merged_by_fuzzy s = record s {
  fetched = s.fetched + 1;
  n_merged_by_fuzzy = s.n_merged_by_fuzzy + 1;
}
counted merged_by_domain s = record s {
  fetched = s.fetched + 1;
  n_merged_by_domain = s.n_merged_by_domain + 1;
}

-- the loop over what the spider yields
unfoldable pub run_spider :
    Externals → List (Draw × ScrapedProvider) → IngestionStats → Exec ScrapeDb Error IngestionStats
run_spider ext [] stats = pure stats
run_spider ext ((draw, item) ∷ items) stats = do
  (action, _) ← upsert_one ext draw item
  run_spider ext items (counted action stats)
