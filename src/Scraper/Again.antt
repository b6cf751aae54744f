-- ===== src/Scraper/Again.antt =====
-- An item that is scraped again updates the row that it made.
use ozzb2b.Shared.{
  ℕ, ◌≡◌, refl, sym, ap, ◌∙◌, ◌⊎◌, inl, inr, false, Option, some, ◌==◌, nat_eq, any, find, Result,
  ok, length, ◌≢◌, find-update_other, arith, nat_beq_iff, true,
}
use ozzb2b.Errors.{Error}
use ozzb2b.Scraper.{Externals, ScrapedProvider, ProviderRow, ScrapeDb, Draw, has_source}
use ozzb2b.Scraper.Lookup.{find_existing_by_source}
use ozzb2b.Scraper.Upsert.{Action, inserted, updated, updated_row, find_existing, upsert_one}
use ozzb2b.Scraper.Kept.{SameData}
use ozzb2b.Scraper.Merging.{find-updated_row, length-update}
use ozzb2b.Scraper.Invariant.{IsSound}
use ozzb2b.Scraper.References.{ensure_reference-eq}
use ozzb2b.Scraper.Steps.{upserted, merge, merge_result}

by_source :
    (ext : Externals) (item : ScrapedProvider) (db : ScrapeDb) (country : Option ℕ)
    {p : ProviderRow}
    → find (has_source item.source item.source_id) db.providers ≡ some p
    → find_existing ext db item country ≡ some (updated, p)
unfolding find_existing find_existing_by_source
by_source ext item db country h = rw (h, find_existing_by_source, find_existing) refl

returned :
    {a b : Action} {i j : ℕ} → ◌≡◌ {A = Result Error (Action × ℕ)} (ok (a, i)) (ok (b, j)) → a ≡ b
returned e = cc

keyed :
    {a b : Action} {i j : ℕ} → ◌≡◌ {A = Result Error (Action × ℕ)} (ok (a, i)) (ok (b, j)) → i ≡ j
keyed e = cc

carried : {a b : Action} → a ≡ b → (b ≡ inserted) ⊎ (b ≡ updated) → (a ≡ inserted) ⊎ (a ≡ updated)
carried e (inl h) = inl (e ∙ h)
carried e (inr h) = inr (e ∙ h)

apart : (i j k : ℕ) → (i == j) ≡ true → k ≢ j → (i == k) ≡ false
apart i j k e other = ground (arith, nat_beq_iff i j, nat_beq_iff i k, e, other)

-- what a second upsert of an item leaves of the tables `db` that the first one left
pub record Repeated (item : ScrapedProvider) (id : ℕ) (db : ScrapeDb)
    (second : Result Error (Action × ℕ) × ScrapeDb) : Type 0 where
  pub result : second.0 ≡ ok (updated, id)
  pub row : ProviderRow
  pub there : find (has_source item.source item.source_id) db.providers ≡ some row
  pub key : row.id ≡ id
  pub row_again : ProviderRow
  pub there_again : find (has_source item.source item.source_id) second.1.providers ≡ some row_again
  pub same : SameData row row_again
  pub others :
      (k : ℕ)
      → k ≢ id
      → find (λ (p : ProviderRow). p.id == k) second.1.providers
        ≡ find (λ (p : ProviderRow). p.id == k) db.providers
  pub number : length second.1.providers ≡ length db.providers

-- An upsert is idempotent on the table of providers: when it inserted the item, or updated a row by
-- the item's source, a second upsert of the item, with any draws, raises nothing and updates the same
-- row; that row keeps its data (all columns but the references to the country, the city and the
-- legal form, the URL of the source, the metadata and the time), every row with another key stays
-- as it is, and there are as many rows as before. The table is sound and the first UUID is new.
pub upsert_one-upsert_one :
    (ext : Externals) (draw again : Draw) (item : ScrapedProvider) (db : ScrapeDb) {action : Action}
    {id : ℕ}
    → IsSound db.providers
    → any (λ (p : ProviderRow). p.id == draw.uuid) db.providers ≡ false
    → (upsert_one ext draw item db).0 ≡ ok (action, id)
    → (action ≡ inserted) ⊎ (action ≡ updated)
    → Repeated item id
        (upsert_one ext draw item db).1
        (upsert_one ext again item (upsert_one ext draw item db).1)
unfolding updated_row
upsert_one-upsert_one ext draw again item db {action} {id} s fresh h how =
    let first = upserted ext draw item db s fresh in
    let is : first.action ≡ action = returned (ap (λ r. r.0) (sym first.runs) ∙ h) in
    let same : first.id ≡ id = keyed (ap (λ r. r.0) (sym first.runs) ∙ h) in
    let (row, (found, here, holds)) = first.sourced (carried is how) in
    let (refs, (cities, referred)) = ensure_reference-eq ext again item first.after in
    let hit = by_source ext item (record first.after { cities = cities }) refs.0 found in
    let second =
      merge ext again item first.after refs cities referred first.sound updated row hit in
    let (as_updated, at_row, rows) =
      merge_result ext again item first.after refs cities referred first.sound updated row hit in
    rw (first.runs, second.runs)
      (record {
        result = rw (as_updated, at_row) (ap (λ i. ok (updated, i)) (here ∙ same));
        row = row;
        there = found;
        key = here ∙ same;
        row_again = updated_row again item refs row;
        there_again =
            rw rows
              (find-updated_row again item refs first.after.providers row first.sound.ids found);
        same = holds again refs;
        others = λ k other. rw rows (
            find-update_other (λ q. q.id == row.id) (λ p. p.id == k) (updated_row again item refs)
              first.after.providers (λ q e. apart q.id row.id k e (λ a. other (a ∙ here ∙ same)))
              (λ q e. apart q.id row.id k e (λ a. other (a ∙ here ∙ same))));
        number = rw rows (
            length-update (λ q. q.id == row.id) (updated_row again item refs)
              first.after.providers);
      })
