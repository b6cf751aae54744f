-- ===== src/Scraper/Lookup.antt =====
-- What an upsert reads first: the country and the legal form of an item, and the provider it may be
-- already. apps/scraper/src/ozzb2b_scraper/pipeline.py. A query without ORDER BY gives the first row of the list.
use ozzb2b.Shared.{
  has_prefix, ℕ, Bool, true, false, ◌&&◌, ◌||◌, Option, none, some, List, [], ◌∷◌, ◌++◌, ◌==◌,
  nat_eq, text_eq, option_nat_eq, leb, if◌then◌else◌, is_some, Text, codes, lower, or_empty,
  or_none, find, select, sort_by,
}
use ozzb2b.Scraper.{Externals, ScrapedProvider, ProviderRow, ScrapeDb, has_source, is_text}

-- lookups that end at the first one that finds nothing
infixl 5 ◌>>=◌
abbrev pub ◌>>=◌ : {A B : Type 0} → Option A → (A → Option B) → Option B
◌>>=◌ none f = none
◌>>=◌ (some a) f = f a

-- a text that Python takes for true
unfoldable pub filled : Option Text → Option Text
filled t = or_none (or_empty t)

-- `host.removeprefix("www.")`
pub drop_www : Text → Text
drop_www (a ∷ b ∷ c ∷ d ∷ host) =
    if has_prefix (codes "www.") (a ∷ b ∷ c ∷ d ∷ []) then host else a ∷ b ∷ c ∷ d ∷ host
drop_www host = host

unfoldable pub normalize_host : Externals → Option Text → Option Text
normalize_host ext url = do
  given ← filled url
  host ← ext.hostname given
  named ← or_none host
  some (drop_www (lower named))

unfoldable pub country_of : ScrapeDb → ScrapedProvider → Option ℕ
country_of db item = do
  code ← filled item.country_code
  row ← find (λ c. c.code == code) db.countries
  some row.id

-- `code = $1 AND (country_id = $2 OR country_id IS NULL) ORDER BY country_id NULLS LAST LIMIT 1`
pub legal_form_of : ScrapeDb → Option ℕ → ScrapedProvider → Option ℕ
legal_form_of db country item = do
  code ← filled item.legal_form_code
  row ←
      elim (find (λ f. f.code == code && (is_some country && f.country_id == country))
        db.legal_forms) [
          | none ↦ find (λ f. f.code == code && f.country_id == none) db.legal_forms
          | some f ↦ some f
        ]
  some row.id

unfoldable pub find_existing_by_source : ScrapeDb → ScrapedProvider → Option ProviderRow
find_existing_by_source db item = find (has_source item.source item.source_id) db.providers

-- `ORDER BY last_scraped_at DESC NULLS LAST`
pub is_scraped_later : ProviderRow → ProviderRow → Bool
is_scraped_later p q = elim q.last_scraped_at [
  | none ↦ true
  | some b ↦ (elim p.last_scraped_at [ none ↦ false | some a ↦ leb b a ])
]

unfoldable pub first_of : List ProviderRow → Option ProviderRow
first_of [] = none
first_of (p ∷ ps) = some p

-- the website is set and matches one of the two patterns
pub is_at_host : Externals → Text → ProviderRow → Bool
is_at_host ext host p = elim p.website [
  | none ↦ false
  | some url ↦
      ext.ilike (codes "%://" ++ host ++ codes "/%") url
      || ext.ilike (codes "%://www." ++ host ++ codes "/%") url
]

unfoldable pub find_existing_by_domain : Externals → ScrapeDb → ScrapedProvider → Option ProviderRow
find_existing_by_domain ext db item = do
  host ← normalize_host ext item.website
  named ← or_none host
  first_of (sort_by is_scraped_later (select (is_at_host ext named) db.providers))

unfoldable pub find_existing_by_public_id : ScrapeDb → ScrapedProvider → Option ProviderRow
find_existing_by_public_id db item =
    let by_registration = filled item.registration_number >>= λ number.
    find (λ p. is_text p.registration_number number) db.providers in
    elim (filled item.tax_id) [
      | none ↦ by_registration
      | some tax ↦ elim (find (λ p. is_text p.tax_id tax) db.providers) [
        | none ↦ by_registration
        | some p ↦ some p
      ]
    ]

-- `ORDER BY similarity(display_name, $1) DESC`
pub is_closer : Externals → Text → ProviderRow → ProviderRow → Bool
is_closer ext name p q =
    leb (ext.similarity q.display_name name) (ext.similarity p.display_name name)

unfoldable pub find_existing_by_fuzzy :
    Externals → ScrapeDb → ScrapedProvider → Option ℕ → Option ProviderRow
find_existing_by_fuzzy ext db item none = none
find_existing_by_fuzzy ext db item (some country) = first_of (
    sort_by (is_closer ext item.display_name)
      (select (λ p. p.country_id == some country) db.providers))
