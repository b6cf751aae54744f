-- ===== src/Scraper/Official.antt =====
-- Items with a public identifier are never merged by their name.
use ozzb2b.Shared.{
  ℕ, ◌≡◌, ◌≢◌, refl, sym, ap, ◌∙◌, ◌⊎◌, inl, inr, Bool, true, ◌||◌, Option, none, some, List, [],
  ◌∷◌, is_some, Result, ok, bind_returns, Option-cases, All, arith,
}
use ozzb2b.Errors.{Error}
use ozzb2b.Scraper.{Externals, ScrapedProvider, ProviderRow, ScrapeDb, Draw}
use ozzb2b.Scraper.Lookup.{
  filled, find_existing_by_source, find_existing_by_public_id, find_existing_by_domain,
}
use ozzb2b.Scraper.Slug.{make_unique_slug}
use ozzb2b.Scraper.Refer.{ensure_reference}
use ozzb2b.Scraper.Upsert.{
  Action, inserted, updated, merged_by_domain, merged_by_fuzzy, find_existing, fuzzy_match,
  upsert_found, upsert_one, updated_row, new_row, insert_provider, update_provider, link_categories,
  IngestionStats, counted, run_spider,
}

-- a tax id or a registration number is given
abbrev pub is_official : ScrapedProvider → Bool
is_official item = is_some (filled item.tax_id) || is_some (filled item.registration_number)

returned :
    {a b : Action} {i j : ℕ} → ◌≡◌ {A = Result Error (Action × ℕ)} (ok (a, i)) (ok (b, j)) → b ≡ a
returned e = cc

distinct : inserted ≡ merged_by_fuzzy → ⊥
distinct e = cc

module _ (ext : Externals) (draw : Draw) (item : ScrapedProvider)
    (official : is_official item ≡ true) where
  find_existing_official :
      (db : ScrapeDb) (country : Option ℕ) (p : ProviderRow)
      → find_existing ext db item country ≢ some (merged_by_fuzzy, p)
  unfolding find_existing fuzzy_match
  find_existing_official db country p h = elim (Option-cases (find_existing_by_source db item)) [
    | inr (q, a) ↦ ground (arith, h, a)
    | inl a ↦ elim (Option-cases (find_existing_by_public_id db item)) [
      | inr (q, b) ↦ ground (arith, h, a, b)
      | inl b ↦ elim (Option-cases (find_existing_by_domain ext db item)) [
        | inr (q, c) ↦ ground (arith, h, a, b, c)
        | inl c ↦
            let unmatched : fuzzy_match ext db item country ≡ none = rw official refl in
            ground (arith, h, a, b, c, unmatched)
      ]
    ]
  ]

  upsert_found_official :
      (refs : Option ℕ × Option ℕ × Option ℕ) (existing : Option (Action × ProviderRow))
      (db : ScrapeDb) {action : Action} {id : ℕ}
      → (upsert_found ext draw item refs existing db).0 ≡ ok (action, id)
      → (action ≡ inserted) ⊎ ((p : ProviderRow) × (existing ≡ some (action, p)))
  unfolding upsert_found link_categories
  upsert_found_official refs none db h =
      let slug = make_unique_slug ext db.providers draw.hex item.display_name in
      let (_, _, h') = bind_returns (insert_provider (new_row draw item refs slug)) _ db h in
      inl (returned h')
  upsert_found_official refs (some (action, p)) db h =
      let (_, _, h') = bind_returns (update_provider p.id (updated_row draw item refs)) _ db h in
      inr (p, ap (λ a. some (a, p)) (sym (returned h')))

  upsert_one_official :
      (db : ScrapeDb) {action : Action} {id : ℕ}
      → (upsert_one ext draw item db).0 ≡ ok (action, id)
      → action ≢ merged_by_fuzzy
  unfolding upsert_one
  upsert_one_official db {action} h fuzzy =
      let (refs, _, h') = bind_returns (ensure_reference ext draw item) _ db h in
      let s = (ensure_reference ext draw item db).1 in
      elim (upsert_found_official refs (find_existing ext s item refs.0) s h') [
        | inl new ↦ distinct (sym new ∙ fuzzy)
        | inr (p, found) ↦ find_existing_official s refs.0 p (found ∙ ap (λ a. some (a, p)) fuzzy)
      ]

counted_official :
    (a : Action) (s : IngestionStats)
    → a ≢ merged_by_fuzzy
    → (counted a s).n_merged_by_fuzzy ≡ s.n_merged_by_fuzzy
unfolding counted
counted_official inserted s h = refl
counted_official updated s h = refl
counted_official merged_by_domain s h = refl
counted_official merged_by_fuzzy s h = absurd (h refl)

-- A run over items that each have a tax id or a registration number merges none of them into a company
-- by a similar name: a run that ends leaves the counter of such merges as it was.
pub run_spider_official :
    (ext : Externals) (items : List (Draw × ScrapedProvider)) (stats : IngestionStats)
    (db : ScrapeDb) {final : IngestionStats}
    → All (λ (i : Draw × ScrapedProvider). is_official i.1 ≡ true) items
    → (run_spider ext items stats db).0 ≡ ok final
    → final.n_merged_by_fuzzy ≡ stats.n_merged_by_fuzzy
unfolding run_spider
run_spider_official ext [] stats db o h = ground (arith, h)
run_spider_official ext ((draw, item) ∷ items) stats db o h =
    let ((action, id), done, rest) = bind_returns (upsert_one ext draw item) _ db h in
    run_spider_official ext items (counted action stats) (upsert_one ext draw item db).1 o.1 rest
    ∙ counted_official action stats (upsert_one_official ext draw item o.0 db done)
