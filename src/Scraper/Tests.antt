-- ===== src/Scraper/Tests.antt =====
-- Runs of the pipeline on small tables, and its theorems applied there.
use ozzb2b.Shared.{
  All, ℕ, ◌+◌, ◌≡◌, refl, ◌⊎◌, inl, inr, Bool, true, false, Option, none, some, List, [], ◌∷◌, ◌==◌,
  text_eq, Text, codes, lower, if◌then◌else◌, any, map, length, Result, ok, arith,
}
use ozzb2b.Scraper.{Externals, ScrapedProvider, ProviderRow, ScrapeDb, Draw}
use ozzb2b.Scraper.Slug.{make_unique_slug, is_taken, base_slug, IsFirstFree, make_unique_slug_lem}
use ozzb2b.Scraper.Upsert.{
  Action, inserted, updated, new_row, IngestionStats, run_spider, upsert_one,
}
use ozzb2b.Scraper.Invariant.{IsSound}
use ozzb2b.Scraper.Runs.{HaveFreshIds, HasRun, run_spider_lem}
use ozzb2b.Scraper.Official.{is_official, run_spider_official}
use ozzb2b.Scraper.Again.{Repeated, upsert_one-upsert_one}

abbrev ext : Externals
ext = record {
  slugify = lower;
  hostname = λ url. some url;
  ilike = λ pattern url. pattern == url;
  similarity = λ a b. if a == b then 100 else 0;
}

abbrev item : Text → ScrapedProvider
item source_id = record {
  source = codes "seed";
  source_id = source_id;
  source_url = none;
  display_name = codes "Firm";
  legal_name = none;
  description = none;
  country_code = some (codes "RU");
  city_name = none;
  legal_form_code = none;
  website = none;
  email = none;
  phone = none;
  address = none;
  registration_number = none;
  tax_id = some source_id;
  year_founded = none;
  employee_count_range = none;
  category_slugs = codes "it" ∷ [];
  meta = [];
}

abbrev draw : ℕ → Draw
draw n = record { uuid = n; hex = codes "abc"; city = n; now = n }

abbrev zeros : IngestionStats
zeros = record {
  fetched = 0;
  n_inserted = 0;
  n_updated = 0;
  n_merged_by_fuzzy = 0;
  n_merged_by_domain = 0;
}

abbrev db : ScrapeDb
db = record {
  countries = record { id = 7; code = codes "RU" } ∷ [];
  cities = [];
  legal_forms = [];
  categories = record { id = 3; slug = codes "it" } ∷ [];
  providers = [];
  links = [];
}

abbrev items : List (Draw × ScrapedProvider)
items = (draw 1, item (codes "a")) ∷ (draw 2, item (codes "b")) ∷ (draw 3, item (codes "a")) ∷ []

-- two companies of one name get two slugs, and the third item updates the first company
slugs :
    map (λ p. p.slug) (run_spider ext items zeros db).1.providers
    ≡ codes "firm-2" ∷ codes "firm" ∷ []
unfolding run_spider upsert_one ozzb2b.Scraper.Refer.ensure_reference
    ozzb2b.Scraper.Refer.ensure_city ozzb2b.Scraper.Lookup.country_of ozzb2b.Scraper.Lookup.filled
    ozzb2b.Shared.find ozzb2b.Shared.list_beq ozzb2b.Scraper.Upsert.upsert_found
    ozzb2b.Scraper.Upsert.find_existing ozzb2b.Scraper.Lookup.find_existing_by_source
    ozzb2b.Scraper.Lookup.find_existing_by_public_id ozzb2b.Scraper.Lookup.find_existing_by_domain
    ozzb2b.Scraper.Lookup.normalize_host ozzb2b.Scraper.Upsert.fuzzy_match
    ozzb2b.Scraper.Upsert.insert_provider any ozzb2b.Scraper.Upsert.link_categories
    ozzb2b.Scraper.has_source ozzb2b.Scraper.is_text new_row make_unique_slug is_taken base_slug
    lower ozzb2b.Shared.lower_char ozzb2b.Scraper.Slug.first_free ozzb2b.Scraper.Slug.numbered
    ozzb2b.Scraper.Upsert.shares_source ozzb2b.Scraper.Upsert.update_provider
    ozzb2b.Scraper.Upsert.clashes ozzb2b.Scraper.Upsert.updated_row ozzb2b.Scraper.Upsert.coalesce
    ozzb2b.Shared.update ozzb2b.Leads.Form.decimal ozzb2b.Leads.Form.digits_onto
slugs = refl

abbrev final : IngestionStats
final = record {
  fetched = 3;
  n_inserted = 2;
  n_updated = 1;
  n_merged_by_fuzzy = 0;
  n_merged_by_domain = 0;
}

stats : (run_spider ext items zeros db).0 ≡ ok final
unfolding run_spider upsert_one ozzb2b.Scraper.Refer.ensure_reference
    ozzb2b.Scraper.Refer.ensure_city ozzb2b.Scraper.Lookup.country_of ozzb2b.Scraper.Lookup.filled
    ozzb2b.Shared.find ozzb2b.Shared.list_beq ozzb2b.Scraper.Upsert.upsert_found
    ozzb2b.Scraper.Upsert.find_existing ozzb2b.Scraper.Lookup.find_existing_by_source
    ozzb2b.Scraper.Lookup.find_existing_by_public_id ozzb2b.Scraper.Lookup.find_existing_by_domain
    ozzb2b.Scraper.Lookup.normalize_host ozzb2b.Scraper.Upsert.fuzzy_match
    ozzb2b.Scraper.Upsert.insert_provider any ozzb2b.Scraper.Upsert.link_categories
    ozzb2b.Scraper.has_source ozzb2b.Scraper.is_text new_row make_unique_slug is_taken base_slug
    lower ozzb2b.Shared.lower_char ozzb2b.Scraper.Slug.first_free ozzb2b.Scraper.Slug.numbered
    ozzb2b.Scraper.Upsert.shares_source ozzb2b.Scraper.Upsert.update_provider
    ozzb2b.Scraper.Upsert.clashes ozzb2b.Scraper.Upsert.updated_row ozzb2b.Scraper.Upsert.coalesce
    ozzb2b.Scraper.Upsert.counted
stats = refl

links_made : (run_spider ext items zeros db).1.links ≡ (2, 3) ∷ (1, 3) ∷ []
unfolding run_spider upsert_one ozzb2b.Scraper.Refer.ensure_reference
    ozzb2b.Scraper.Refer.ensure_city ozzb2b.Scraper.Lookup.country_of ozzb2b.Scraper.Lookup.filled
    ozzb2b.Shared.find ozzb2b.Shared.list_beq ozzb2b.Scraper.Upsert.upsert_found
    ozzb2b.Scraper.Upsert.find_existing ozzb2b.Scraper.Lookup.find_existing_by_source
    ozzb2b.Scraper.Lookup.find_existing_by_public_id ozzb2b.Scraper.Lookup.find_existing_by_domain
    ozzb2b.Scraper.Lookup.normalize_host ozzb2b.Scraper.Upsert.fuzzy_match
    ozzb2b.Scraper.Upsert.insert_provider any ozzb2b.Scraper.Upsert.link_categories
    ozzb2b.Scraper.has_source ozzb2b.Scraper.is_text new_row make_unique_slug is_taken base_slug
    lower ozzb2b.Shared.lower_char ozzb2b.Scraper.Slug.first_free ozzb2b.Scraper.Slug.numbered
    ozzb2b.Scraper.Upsert.shares_source ozzb2b.Scraper.Upsert.update_provider
    ozzb2b.Scraper.Upsert.clashes ozzb2b.Scraper.Upsert.updated_row ozzb2b.Scraper.Upsert.coalesce
    ozzb2b.Scraper.Upsert.add_links ozzb2b.Shared.select
links_made = refl

db-IsSound : IsSound db.providers
db-IsSound = record { ids = tt; slugs = tt; apart = tt; paired = tt }

items-HaveFreshIds : HaveFreshIds items db
unfolding any
items-HaveFreshIds = record { own = (refl, (refl, (refl, tt))); new = (refl, (refl, (refl, tt))) }

run_spider_lem_example : HasRun ext items zeros db
run_spider_lem_example = run_spider_lem ext items zeros db db-IsSound items-HaveFreshIds

first_time : (upsert_one ext (draw 1) (item (codes "a")) db).0 ≡ ok (inserted, 1)
unfolding upsert_one ozzb2b.Scraper.Refer.ensure_reference ozzb2b.Scraper.Refer.ensure_city
    ozzb2b.Scraper.Lookup.country_of ozzb2b.Scraper.Lookup.filled ozzb2b.Shared.find
    ozzb2b.Shared.list_beq ozzb2b.Scraper.Upsert.upsert_found ozzb2b.Scraper.Upsert.find_existing
    ozzb2b.Scraper.Lookup.find_existing_by_source ozzb2b.Scraper.Lookup.find_existing_by_public_id
    ozzb2b.Scraper.Lookup.find_existing_by_domain ozzb2b.Scraper.Lookup.normalize_host
    ozzb2b.Scraper.Upsert.fuzzy_match ozzb2b.Scraper.Upsert.insert_provider any
    ozzb2b.Scraper.Upsert.link_categories
first_time = refl

upsert_one-upsert_one_example :
    Repeated
      (item (codes "a"))
      1
      (upsert_one ext (draw 1) (item (codes "a")) db).1
      (upsert_one ext (draw 9) (item (codes "a")) (upsert_one ext (draw 1) (item (codes "a")) db).1)
unfolding any
upsert_one-upsert_one_example =
    upsert_one-upsert_one ext (draw 1) (draw 9) (item (codes "a")) db db-IsSound refl first_time
      (inl refl)

abbrev rows : List ProviderRow
rows = new_row (draw 1) (item (codes "a")) (none, none, none) (codes "firm") ∷ []

make_unique_slug_lem_example :
    (is_taken rows (make_unique_slug ext rows (codes "abc") (codes "Firm")) ≡ false)
    × ((make_unique_slug ext rows (codes "abc") (codes "Firm")
          ≡ base_slug ext (codes "abc") (codes "Firm"))
        ⊎ ((is_taken rows (base_slug ext (codes "abc") (codes "Firm")) ≡ true)
            × IsFirstFree rows
                (base_slug ext (codes "abc") (codes "Firm"))
                2
                (make_unique_slug ext rows (codes "abc") (codes "Firm"))))
make_unique_slug_lem_example = make_unique_slug_lem ext rows (codes "abc") (codes "Firm")

all_official : All (λ (i : Draw × ScrapedProvider). is_official i.1 ≡ true) items
unfolding ozzb2b.Scraper.Lookup.filled
all_official = (refl, (refl, (refl, tt)))

run_spider_official_example : final.n_merged_by_fuzzy ≡ zeros.n_merged_by_fuzzy
run_spider_official_example = run_spider_official ext items zeros db all_official stats
