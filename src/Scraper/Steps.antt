-- ===== src/Scraper/Steps.antt =====
-- One upsert ends without an exception, and what it leaves.
use ozzb2b.Shared.{
  ℕ, ◌+◌, ◌≡◌, ◌≢◌, refl, ◌∙◌, ◌⊎◌, inl, inr, false, ◌||◌, Option, none, some, List, ◌∷◌, ◌==◌,
  nat_eq, text_eq, option_nat_eq, eq_iff, Text, any, find, update, length, Option-cases, ok, arith,
  any-of_find-none, any-of_Mem, any-Mem, any-update,
}
use ozzb2b.Scraper.{Externals, ScrapedProvider, ProviderRow, CityRow, ScrapeDb, Draw, has_source}
use ozzb2b.Scraper.Lookup.{find_existing_by_source}
use ozzb2b.Scraper.Refer.{ensure_reference}
use ozzb2b.Scraper.Slug.{make_unique_slug, make_unique_slug_lem, is_taken}
use ozzb2b.Scraper.Upsert.{
  Action, inserted, updated, updated_row, new_row, shares_source, clashes, insert_provider,
  update_provider, link_categories, find_existing, upsert_found, upsert_one,
}
use ozzb2b.Scraper.Invariant.{IsSound, IsPaired, update-IsSound}
use ozzb2b.Scraper.Found.{find_existing-Mem}
use ozzb2b.Scraper.References.{ensure_reference-eq}
use ozzb2b.Scraper.Kept.{Holds, new_row-Holds, updated_row-Holds}
use ozzb2b.Scraper.Merging.{
  growth, unclashed_row, updated_row-IsPaired, new_row-has_source, find-updated_row,
  find_existing-growth, matched, length-update,
}

-- what an upsert that runs to its end leaves
pub record Upserted (ext : Externals) (draw : Draw) (item : ScrapedProvider) (db : ScrapeDb)
    : Type 0 where
  pub action : Action
  pub id : ℕ
  pub after : ScrapeDb
  pub runs : upsert_one ext draw item db ≡ (ok (action, id), after)
  pub sound : IsSound after.providers
  pub grown : length after.providers ≡ length db.providers + growth action
  pub sourced :
      (action ≡ inserted) ⊎ (action ≡ updated)
      → (row : ProviderRow) × ((find (has_source item.source item.source_id) after.providers
            ≡ some row)
          × (row.id ≡ id)
          × Holds item row)
  pub fresh :
      (u : ℕ)
      → u ≢ draw.uuid
      → any (λ (p : ProviderRow). p.id == u) db.providers ≡ false
      → any (λ (p : ProviderRow). p.id == u) after.providers ≡ false

insert_provider-eq :
    (p : ProviderRow) (db : ScrapeDb)
    → any (λ (q : ProviderRow). q.id == p.id) db.providers ≡ false
    → any (λ (q : ProviderRow). q.slug == p.slug) db.providers ≡ false
    → any (shares_source p) db.providers ≡ false
    → insert_provider p db ≡ (ok tt, record db { providers = p ∷ db.providers })
unfolding insert_provider
insert_provider-eq p db a b c =
    rw
      (any-of_Mem (λ q. q.id == p.id || (q.slug == p.slug || shares_source p q)) db.providers
        λ q m. ground (
          arith,
          any-Mem (λ (q : ProviderRow). q.id == p.id) db.providers a m,
          any-Mem (λ (q : ProviderRow). q.slug == p.slug) db.providers b m,
          any-Mem (shares_source p) db.providers c m,
        ))
      refl

update_provider-eq :
    (id : ℕ) (f : ProviderRow → ProviderRow) (db : ScrapeDb)
    → clashes f id db.providers ≡ false
    → update_provider id f db
      ≡ (ok tt, record db { providers = update (λ q. q.id == id) f db.providers })
unfolding update_provider
update_provider-eq id f db c = rw c refl

find_existing-none :
    (ext : Externals) (item : ScrapedProvider) (db : ScrapeDb) (country : Option ℕ)
    → find_existing ext db item country ≡ none
    → find (has_source item.source item.source_id) db.providers ≡ none
unfolding find_existing find_existing_by_source
find_existing-none ext item db country h =
    elim (Option-cases (find (has_source item.source item.source_id) db.providers)) [
      | inl e ↦ e
      | inr (p, e) ↦ absurd (ground (arith, h, e))
    ]

module _ (ext : Externals) (draw : Draw) (item : ScrapedProvider) (db : ScrapeDb)
    (refs : Option ℕ × Option ℕ × Option ℕ) (cities : List CityRow)
    (referred : ensure_reference ext draw item db ≡ (ok refs, record db { cities = cities }))
    (s : IsSound db.providers) where
  abbrev slug : Text
  slug = make_unique_slug ext db.providers draw.hex item.display_name

  slug_free : any (λ (q : ProviderRow). q.slug == slug) db.providers ≡ false
  unfolding is_taken
  slug_free = (make_unique_slug_lem ext db.providers draw.hex item.display_name).0

  -- the tables after the links
  linked : ScrapeDb → ℕ → ScrapeDb
  linked d id = (link_categories id item.category_slugs d).1

  insertion :
      find_existing ext (record db { cities = cities }) item refs.0 ≡ none
      → any (λ (p : ProviderRow). p.id == draw.uuid) db.providers ≡ false
      → Upserted ext draw item db
  unfolding upsert_one upsert_found linked link_categories new_row shares_source any IsPaired growth
      find
  insertion none_found fresh = record {
    action = inserted;
    id = draw.uuid;
    after =
        linked
          (record db { cities = cities; providers = new_row draw item refs slug ∷ db.providers })
          draw.uuid;
    runs =
        rw
          (
            referred,
            none_found,
            insert_provider-eq (new_row draw item refs slug) (record db { cities = cities }) fresh
                slug_free apart,
          )
          refl;
    sound = record {
      ids = (fresh, s.ids);
      slugs = (slug_free, s.slugs);
      apart = (apart, s.apart);
      paired = (paired, s.paired);
    };
    grown = omega arith;
    sourced = λ _. (
      new_row draw item refs slug,
      (rw (new_row-has_source draw item refs slug) refl, refl, new_row-Holds draw item refs slug),
    );
    fresh = λ u other old. ground (arith, other, old, eq_iff draw.uuid u);
  }
    where
      apart : any (shares_source (new_row draw item refs slug)) db.providers ≡ false
      apart =
          any-of_find-none (has_source item.source item.source_id) db.providers
            (find_existing-none ext item (record db { cities = cities }) refs.0 none_found)

      paired : IsPaired (new_row draw item refs slug)
      paired = refl

  pub merge :
      (action : Action) (p : ProviderRow)
      → find_existing ext (record db { cities = cities }) item refs.0 ≡ some (action, p)
      → Upserted ext draw item db
  unfolding upsert_one upsert_found linked link_categories find_existing_by_source find updated_row
  merge action p found = record {
    action = action;
    id = p.id;
    after = linked (record db { cities = cities; providers = rows }) p.id;
    runs =
        rw
          (
            referred,
            found,
            update_provider-eq p.id (updated_row draw item refs) (record db { cities = cities })
                unclashed,
          )
          refl;
    sound =
        update-IsSound (updated_row draw item refs) p.id (λ q. refl) (λ q. refl)
          (updated_row-IsPaired draw item refs) db.providers s unclashed;
    grown =
        rw (length-update (λ q. q.id == p.id) (updated_row draw item refs) db.providers) (
          omega
            (arith, find_existing-growth ext item (record db { cities = cities }) refs.0 found));
    sourced = λ how. (
      updated_row draw item refs p,
      (
        find-updated_row draw item refs db.providers p s.ids
            (matched ext item (record db { cities = cities }) refs.0 found how),
        refl,
        updated_row-Holds draw item refs p,
      ),
    );
    fresh = λ u other old.
        any-update (λ q. q.id == p.id) (λ q. q.id == u) (updated_row draw item refs) db.providers
          (λ q h. refl)
        ∙ old;
  }
    where
      rows : List ProviderRow
      rows = update (λ q. q.id == p.id) (updated_row draw item refs) db.providers

      unclashed : clashes (updated_row draw item refs) p.id db.providers ≡ false
      unclashed =
          let (there, sourced) =
            find_existing-Mem ext (record db { cities = cities }) item refs.0 found in
          unclashed_row draw item refs db.providers p s there sourced

  -- a merge keeps the action and the row that were found
  pub merge_result :
      (action : Action) (p : ProviderRow)
      (found : find_existing ext (record db { cities = cities }) item refs.0 ≡ some (action, p))
      → ((merge action p found).action ≡ action)
        × ((merge action p found).id ≡ p.id)
        × ((merge action p found).after.providers
            ≡ update (λ q. q.id == p.id) (updated_row draw item refs) db.providers)
  unfolding merge linked link_categories
  merge_result action p found = (refl, refl, refl)

pub upserted :
    (ext : Externals) (draw : Draw) (item : ScrapedProvider) (db : ScrapeDb)
    → IsSound db.providers
    → any (λ (p : ProviderRow). p.id == draw.uuid) db.providers ≡ false
    → Upserted ext draw item db
upserted ext draw item db s fresh =
    let (refs, (cities, referred)) = ensure_reference-eq ext draw item db in
    elim (Option-cases (find_existing ext (record db { cities = cities }) item refs.0)) [
      | inl e ↦ insertion ext draw item db refs cities referred s e fresh
      | inr ((action, p), e) ↦ merge ext draw item db refs cities referred s action p e
    ]
