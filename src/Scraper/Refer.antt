-- ===== src/Scraper/Refer.antt =====
-- The rows that an item refers to, where a city that is missing is inserted: `_ensure_reference` in
-- apps/scraper/src/ozzb2b_scraper/pipeline.py.
use ozzb2b.Shared.{
  ℕ, ◌&&◌, Option, none, some, ◌∷◌, ◌==◌, nat_eq, text_eq, Text, find, Exec, pure, gets, modify,
  ◌>>=◌, ◌>>◌,
}
use ozzb2b.Errors.{Error}
use ozzb2b.Scraper.{Externals, ScrapedProvider, ScrapeDb, Draw}
use ozzb2b.Scraper.Lookup.{filled, country_of, legal_form_of}

unfoldable pub city_in : Text → ℕ → Text → ℕ → Exec ScrapeDb Error ℕ
city_in slug country name fresh db =
    elim (find (λ c. c.country_id == country && c.slug == slug) db.cities) [
      | some c ↦ pure c.id db
      | none ↦
          (modify (λ d. record d {
            cities =
                record { id = fresh; country_id = country; name = name; slug = slug } ∷ d.cities;
          })
              >> pure fresh)
            db
    ]

unfoldable pub ensure_city :
    Externals → Draw → Option ℕ → ScrapedProvider → Exec ScrapeDb Error (Option ℕ)
ensure_city ext draw none item = pure none
ensure_city ext draw (some country) item = elim (filled item.city_name) [
  | none ↦ pure none
  | some name ↦ do id ← city_in (ext.slugify name) country name draw.city; pure (some id)
]

-- the ids of the country, the city and the legal form
unfoldable pub ensure_reference :
    Externals → Draw → ScrapedProvider → Exec ScrapeDb Error (Option ℕ × Option ℕ × Option ℕ)
ensure_reference ext draw item = do
  country ← gets (λ db. country_of db item)
  city ← ensure_city ext draw country item
  legal_form ← gets (λ db. legal_form_of db country item)
  pure (country, city, legal_form)
