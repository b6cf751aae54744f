-- ===== src/Scraper/References.antt =====
-- The references of an item are looked up without an exception.
use ozzb2b.Shared.{
  ℕ, ◌≡◌, refl, inl, inr, ◌&&◌, Option, none, some, List, ◌∷◌, ◌==◌, nat_eq, text_eq, option_nat_eq,
  Text, find, Option-cases, ok,
}
use ozzb2b.Scraper.{Externals, ScrapedProvider, CityRow, ScrapeDb, Draw}
use ozzb2b.Scraper.Lookup.{filled, country_of, legal_form_of}
use ozzb2b.Scraper.Refer.{ensure_reference, ensure_city, city_in}

-- the references are looked up without an exception, and only the cities change
city_in-eq :
    (slug : Text) (country : ℕ) (name : Text) (fresh : ℕ) (db : ScrapeDb)
    → (id : ℕ) × ((cities : List CityRow) × (city_in slug country name fresh db
          ≡ (ok id, record db { cities = cities })))
unfolding city_in
city_in-eq slug country name fresh db =
    elim (Option-cases (find (λ c. c.country_id == country && c.slug == slug) db.cities)) [
      | inl f ↦ (
        fresh,
        (
          record { id = fresh; country_id = country; name = name; slug = slug } ∷ db.cities,
          rw (f, city_in) refl,
        ),
      )
      | inr (city, f) ↦ (city.id, (db.cities, rw (f, city_in) refl))
    ]

ensure_city-eq :
    (ext : Externals) (draw : Draw) (country : Option ℕ) (item : ScrapedProvider) (db : ScrapeDb)
    → (id : Option ℕ) × ((cities : List CityRow) × (ensure_city ext draw country item db
          ≡ (ok id, record db { cities = cities })))
unfolding ensure_city
ensure_city-eq ext draw none item db = (none, (db.cities, refl))
ensure_city-eq ext draw (some country) item db = elim (Option-cases (filled item.city_name)) [
  | inl n ↦ (none, (db.cities, rw (n, ensure_city) refl))
  | inr (name, n) ↦
      let (id, (cities, e)) = city_in-eq (ext.slugify name) country name draw.city db in
      (some id, (cities, rw (n, ensure_city, e) refl))
]

pub ensure_reference-eq :
    (ext : Externals) (draw : Draw) (item : ScrapedProvider) (db : ScrapeDb)
    → (refs : Option ℕ × Option ℕ × Option ℕ) × ((cities : List CityRow) × (ensure_reference ext
            draw item db
          ≡ (ok refs, record db { cities = cities })))
unfolding ensure_reference
ensure_reference-eq ext draw item db =
    let (id, (cities, e)) = ensure_city-eq ext draw (country_of db item) item db in
    (
      (
        country_of db item,
        id,
        legal_form_of (record db { cities = cities }) (country_of db item) item,
      ),
      (cities, rw e refl),
    )
