-- ===== src/Scraper/Found.antt =====
-- The provider that an item is merged into is a row of the table.
use ozzb2b.Shared.{
  ℕ, ◌≡◌, ◌∙◌, ap, subst, inl, inr, Bool, true, Option, none, some, List, [], ◌∷◌, ◌==◌, text_eq,
  nat_eq, option_nat_eq, find, select, sort_by, Option-cases, All, All-sort_by, All-select_of,
  All-of_Mem, find-Mem, find_sound, arith, or_none,
}
use mathlib.Core.List.{Memᴰ}
use ozzb2b.Scraper.{Externals, ScrapedProvider, ProviderRow, ScrapeDb, has_source, is_text}
use ozzb2b.Scraper.Lookup.{
  ◌>>=◌, filled, normalize_host, first_of, is_at_host, is_scraped_later, is_closer,
  find_existing_by_source, find_existing_by_public_id, find_existing_by_domain,
  find_existing_by_fuzzy,
}
use ozzb2b.Scraper.Upsert.{Action, find_existing, fuzzy_match}

bind_some :
    {A B : Type 0} (o : Option A) (f : A → Option B) {b : B}
    → (o >>= f) ≡ some b
    → (a : A) × (f a ≡ some b)
bind_some none f h = absurd cc
bind_some (some a) f h = (a, h)

module _ (rows : List ProviderRow) where
  everyone : All (λ p. Memᴰ p rows) rows
  everyone = All-of_Mem (λ p. Memᴰ p rows) rows λ p m. m

  first_of-Mem :
      (ps : List ProviderRow) {p : ProviderRow}
      → All (λ p. Memᴰ p rows) ps
      → first_of ps ≡ some p
      → Memᴰ p rows
  unfolding first_of
  first_of-Mem [] h e = absurd cc
  first_of-Mem (q ∷ ps) {p} h e = let same : q ≡ p = cc in subst (λ r. Memᴰ r rows) same h.0

  ordered-Mem :
      (before : ProviderRow → ProviderRow → Bool) (test : ProviderRow → Bool) {p : ProviderRow}
      → first_of (sort_by before (select test rows)) ≡ some p
      → Memᴰ p rows
  ordered-Mem before test h =
      first_of-Mem (sort_by before (select test rows))
        (All-sort_by before (λ p. Memᴰ p rows) (select test rows)
          (All-select_of before (λ p. Memᴰ p rows) test rows everyone))
        h

module _ (ext : Externals) (db : ScrapeDb) (item : ScrapedProvider) where
  registered :
      {p : ProviderRow}
      → (filled item.registration_number >>= λ number.
          find (λ p. is_text p.registration_number number) db.providers)
        ≡ some p
      → Memᴰ p db.providers
  registered h =
      let (number, h') = bind_some (filled item.registration_number) _ h in
      find-Mem (λ p. is_text p.registration_number number) db.providers h'

  find_existing_by_public_id-Mem :
      {p : ProviderRow} → find_existing_by_public_id db item ≡ some p → Memᴰ p db.providers
  unfolding find_existing_by_public_id
  find_existing_by_public_id-Mem {p} h = elim (Option-cases (filled item.tax_id)) [
    | inl e ↦ registered (ground (arith, h, e))
    | inr (tax, e) ↦ elim (Option-cases (find (λ p. is_text p.tax_id tax) db.providers)) [
      | inl e' ↦ registered (ground (arith, h, e, e'))
      | inr (q, e') ↦ find-Mem (λ p. is_text p.tax_id tax) db.providers (ground (arith, h, e, e'))
    ]
  ]

  find_existing_by_domain-Mem :
      {p : ProviderRow} → find_existing_by_domain ext db item ≡ some p → Memᴰ p db.providers
  unfolding find_existing_by_domain
  find_existing_by_domain-Mem h =
      let (host, h') = bind_some (normalize_host ext item.website) _ h in
      let (named, h'') = bind_some (or_none host) _ h' in
      ordered-Mem db.providers is_scraped_later (is_at_host ext named) h''

  fuzzy_match-Mem :
      (country : Option ℕ) {p : ProviderRow}
      → fuzzy_match ext db item country ≡ some p
      → Memᴰ p db.providers
  unfolding fuzzy_match find_existing_by_fuzzy
  fuzzy_match-Mem none h = absurd (ground (arith, h))
  fuzzy_match-Mem (some country) {p} h =
      elim (Option-cases (find_existing_by_fuzzy ext db item (some country))) [
        | inl e ↦ absurd (ground (arith, h, e))
        | inr (q, e) ↦
            ordered-Mem db.providers (is_closer ext item.display_name)
              (λ p. p.country_id == some country) (ground (arith, h, e))
      ]

  sourceless :
      (q : ProviderRow) → has_source item.source item.source_id q ≡ true → q.source ≡ none → ⊥
  unfolding has_source is_text
  sourceless q h e = ground (arith, h, e)

  -- the row that an item is merged into stands in the table, and was found by its source or, when no
  -- row has the item's source, by something else
  pub find_existing-Mem :
      (country : Option ℕ) {action : Action} {p : ProviderRow}
      → find_existing ext db item country ≡ some (action, p)
      → Memᴰ p db.providers × ((p.source ≡ none) → find_existing_by_source db item ≡ none)
  unfolding find_existing find_existing_by_source
  find_existing-Mem country {action} {p} h = elim (Option-cases (find_existing_by_source db item)) [
    | inr (q, e) ↦
        let same : q ≡ p = ground (arith, h, e) in
        let there = find-Mem (has_source item.source item.source_id) db.providers e in
        (
          subst (λ r. Memᴰ r db.providers) same there,
          λ unset. absurd (
              sourceless q (find_sound (has_source item.source item.source_id) db.providers e)
                (ap (λ r. r.source) same ∙ unset)),
        )
    | inl e ↦ (
      elim (Option-cases (find_existing_by_public_id db item)) [
        | inr (q, e') ↦ find_existing_by_public_id-Mem (ground (arith, h, e, e'))
        | inl e' ↦ elim (Option-cases (find_existing_by_domain ext db item)) [
          | inr (q, e'') ↦ find_existing_by_domain-Mem (ground (arith, h, e, e', e''))
          | inl e'' ↦ elim (Option-cases (fuzzy_match ext db item country)) [
            | inr (q, e3) ↦ fuzzy_match-Mem country (ground (arith, h, e, e', e'', e3))
            | inl e3 ↦ absurd (ground (arith, h, e, e', e'', e3))
          ]
        ]
      ],
      λ _. e,
    )
  ]
