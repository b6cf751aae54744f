-- ===== src/Scraper/Runs.antt =====
-- A run over scraped items: no statement fails, the keys stay apart, and the counters add up.
use ozzb2b.Shared.{
  ℕ, ◌+◌, ◌≡◌, refl, false, List, [], ◌∷◌, ◌==◌, nat_eq, text_eq, option_nat_eq, any, length, ok,
  All, IsUnique, arith, any-Mem, All-Mem, All-of_Mem,
}
use ozzb2b.Scraper.{Externals, ScrapedProvider, ProviderRow, ScrapeDb, Draw}
use ozzb2b.Scraper.Upsert.{
  Action, inserted, updated, merged_by_domain, merged_by_fuzzy, IngestionStats, counted, run_spider,
}
use ozzb2b.Scraper.Invariant.{IsSound}
use ozzb2b.Scraper.Merging.{growth}
use ozzb2b.Scraper.Steps.{Upserted, upserted}

-- the sum of the four counters
abbrev pub total : IngestionStats → ℕ
total s = s.n_inserted + s.n_updated + s.n_merged_by_fuzzy + s.n_merged_by_domain

-- the items have UUIDs of their own, which no provider has
pub record HaveFreshIds (items : List (Draw × ScrapedProvider)) (db : ScrapeDb) : Type 0 where
  pub own : IsUnique (λ (i : Draw × ScrapedProvider). i.0.uuid) items
  pub new :
      All
        (λ (i : Draw × ScrapedProvider).
          any (λ (p : ProviderRow). p.id == i.0.uuid) db.providers ≡ false)
        items

-- a run that ended: it raised nothing, the table is sound, every item was counted under one action,
-- and the table grew by the insertions
pub record HasRun (ext : Externals) (items : List (Draw × ScrapedProvider)) (stats : IngestionStats)
    (db : ScrapeDb) : Type 0 where
  pub final : IngestionStats
  pub after : ScrapeDb
  pub runs : run_spider ext items stats db ≡ (ok final, after)
  pub sound : IsSound after.providers
  pub fetched : final.fetched ≡ stats.fetched + length items
  pub actions : total final ≡ total stats + length items
  pub grown : length after.providers + stats.n_inserted ≡ length db.providers + final.n_inserted

counted_lem :
    (a : Action) (s : IngestionStats)
    → ((counted a s).fetched ≡ s.fetched + 1)
      × (total (counted a s) ≡ total s + 1)
      × ((counted a s).n_inserted ≡ s.n_inserted + growth a)
unfolding counted growth
counted_lem inserted s = (refl, omega arith, omega arith)
counted_lem updated s = (refl, omega arith, omega arith)
counted_lem merged_by_fuzzy s = (refl, omega arith, omega arith)
counted_lem merged_by_domain s = (refl, omega arith, omega arith)

kept_fresh :
    (ext : Externals) (draw : Draw) (item : ScrapedProvider) (items : List (Draw × ScrapedProvider))
    (db : ScrapeDb) (u : Upserted ext draw item db)
    → HaveFreshIds ((draw, item) ∷ items) db
    → HaveFreshIds items u.after
kept_fresh ext draw item items db u h = record { own = h.own.1; new = later }
  where
    later :
        All
          (λ (i : Draw × ScrapedProvider).
            any (λ (p : ProviderRow). p.id == i.0.uuid) u.after.providers ≡ false)
          items
    later = All-of_Mem _ items λ i m.
        u.fresh i.0.uuid
          (λ same. absurd (
            ground (
              arith,
              same,
              any-Mem (λ (j : Draw × ScrapedProvider). j.0.uuid == draw.uuid) items h.own.0 m,
            )))
          (All-Mem
            (λ (j : Draw × ScrapedProvider).
              any (λ (p : ProviderRow). p.id == j.0.uuid) db.providers ≡ false)
            items h.new.1 m)

-- No unique constraint stops a run of a spider, whatever it scraped: when the ids, the slugs and the
-- sources of the table are apart, each source is set with its id, and the UUIDs that are drawn are new,
-- the run returns, the table's keys stay apart, each item is counted under exactly one action, and the
-- table grows by as many rows as the run reports insertions.
pub run_spider_lem :
    (ext : Externals) (items : List (Draw × ScrapedProvider)) (stats : IngestionStats)
    (db : ScrapeDb)
    → IsSound db.providers
    → HaveFreshIds items db
    → HasRun ext items stats db
unfolding run_spider
run_spider_lem ext [] stats db s h = record {
  final = stats;
  after = db;
  runs = refl;
  sound = s;
  fetched = omega arith;
  actions = omega arith;
  grown = refl;
}
run_spider_lem ext ((draw, item) ∷ items) stats db s h =
    let first = upserted ext draw item db s h.new.0 in
    let rest =
      run_spider_lem ext items (counted first.action stats) first.after first.sound
        (kept_fresh ext draw item items db first h) in
    let (a, b, c) = counted_lem first.action stats in
    record {
      final = rest.final;
      after = rest.after;
      runs = rw (first.runs, rest.runs) refl;
      sound = rest.sound;
      fetched = omega (arith, rest.fetched, a);
      actions = omega (arith, rest.actions, b);
      grown = omega (arith, rest.grown, c, first.grown);
    }
