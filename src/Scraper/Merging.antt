-- ===== src/Scraper/Merging.antt =====
-- How an item is matched with a row, and what its UPDATE does to the row.
use ozzb2b.Shared.{
  ℕ, suc, ◌≡◌, ◌≢◌, refl, sym, ap, ◌∙◌, ◌⊎◌, inl, inr, Bool, true, false, not, ◌&&◌, Option, none,
  some, List, [], ◌∷◌, ◌==◌, nat_eq, text_eq, option_nat_eq, eq_iff, eq_refl, Text, any, find,
  update, length, Bool-cases, Option-cases, IsUnique, arith, any-of_find-none, any-of_Mem, any-Mem,
  find-Mem, All-Mem, IsUnique-eq,
}
use mathlib.Core.List.{Memᴰ}
use ozzb2b.Scraper.{Externals, ScrapedProvider, ProviderRow, ScrapeDb, Draw, has_source, is_text}
use ozzb2b.Scraper.Lookup.{
  find_existing_by_source, find_existing_by_public_id, find_existing_by_domain,
}
use ozzb2b.Scraper.Upsert.{
  Action, inserted, updated, merged_by_domain, merged_by_fuzzy, coalesce, updated_row, new_row,
  shares_source, clashes, find_existing, fuzzy_match,
}
use ozzb2b.Scraper.Invariant.{IsSound, IsPaired, AllApart-Mem}

-- the rows that an action adds
unfoldable pub growth : Action → ℕ
growth inserted = 1
growth updated = 0
growth merged_by_domain = 0
growth merged_by_fuzzy = 0

module _ (draw : Draw) (item : ScrapedProvider) (refs : Option ℕ × Option ℕ × Option ℕ) where
  pub updated_row-IsPaired :
      (p : ProviderRow) → IsPaired p → IsPaired (updated_row draw item refs p)
  unfolding IsPaired updated_row coalesce
  updated_row-IsPaired p h = ground arith

  -- a row keeps the source that it has, and takes the item's when it has none
  shares_source-updated_row :
      (rows : List ProviderRow) (p q : ProviderRow)
      → IsSound rows
      → Memᴰ p rows
      → Memᴰ q rows
      → p.id ≢ q.id
      → ((p.source ≡ none) → find (has_source item.source item.source_id) rows ≡ none)
      → shares_source (updated_row draw item refs p) q ≡ false
  unfolding shares_source updated_row coalesce IsPaired
  shares_source-updated_row rows p q s m n apart none_has = elim (Option-cases p.source) [
    | inl e ↦
        let unset : p.source_id ≡ none = unset_with e in
        rw (e, unset)
          (any-Mem (has_source item.source item.source_id) rows
            (any-of_find-none (has_source item.source item.source_id) rows (none_has e)) n)
    | inr (source, e) ↦
        let kept = AllApart-Mem rows s.apart m n apart in
        elim (Option-cases p.source_id) [
          | inl e' ↦ absurd (ground (arith, e, e', All-Mem IsPaired rows s.paired m))
          | inr (id, e') ↦ ground (arith, kept, e, e')
        ]
  ]
    where
      unset_with : p.source ≡ none → p.source_id ≡ none
      unset_with e = elim (Option-cases p.source_id) [
        | inl e' ↦ e'
        | inr (id, e') ↦ absurd (ground (arith, e, e', All-Mem IsPaired rows s.paired m))
      ]

  pub unclashed_row :
      (rows : List ProviderRow) (p : ProviderRow)
      → IsSound rows
      → Memᴰ p rows
      → ((p.source ≡ none) → find (has_source item.source item.source_id) rows ≡ none)
      → clashes (updated_row draw item refs) p.id rows ≡ false
  unfolding clashes
  unclashed_row rows p s m none_has =
      any-of_Mem
        (λ r.
          r.id == p.id
          && any (λ q. not (q.id == p.id) && shares_source (updated_row draw item refs r) q) rows)
        rows
        λ r n. elim (Bool-cases (r.id == p.id)) [
          | inr e ↦ rw e refl
          | inl e ↦
              rw
                (e, IsUnique-eq (λ (q : ProviderRow). q.id) rows s.ids n m ((eq_iff r.id p.id).0 e))
                (any-of_Mem
                  (λ q. not (q.id == p.id) && shares_source (updated_row draw item refs p) q) rows
                  λ q n'. elim (Bool-cases (q.id == p.id)) [
                    | inl same ↦ rw same refl
                    | inr other ↦
                        rw
                          (
                            other,
                            shares_source-updated_row rows p q s m n'
                                (λ same. absurd (ground (arith, other, same))) none_has,
                          )
                          refl
                  ])
        ]

pub new_row-has_source :
    (draw : Draw) (item : ScrapedProvider) (refs : Option ℕ × Option ℕ × Option ℕ) (slug : Text)
    → has_source item.source item.source_id (new_row draw item refs slug) ≡ true
unfolding has_source new_row is_text
new_row-has_source draw item refs slug = ground (arith, eq_refl item.source, eq_refl item.source_id)

updated_row-has_source :
    (draw : Draw) (item : ScrapedProvider) (refs : Option ℕ × Option ℕ × Option ℕ) (p : ProviderRow)
    → has_source item.source item.source_id p ≡ true
    → has_source item.source item.source_id (updated_row draw item refs p) ≡ true
unfolding has_source updated_row is_text coalesce
updated_row-has_source draw item refs p h = elim (Option-cases p.source) [
  | inl e ↦ absurd (ground (arith, h, e))
  | inr (s, e) ↦ elim (Option-cases p.source_id) [
    | inl e' ↦ absurd (ground (arith, h, e, e'))
    | inr (i, e') ↦ ground (arith, h, e, e')
  ]
]

-- a row with the item's source has it after the update, and is found as before
pub find-updated_row :
    (draw : Draw) (item : ScrapedProvider) (refs : Option ℕ × Option ℕ × Option ℕ)
    (rows : List ProviderRow) (p : ProviderRow)
    → IsUnique (λ (q : ProviderRow). q.id) rows
    → find (has_source item.source item.source_id) rows ≡ some p
    → find
        (has_source item.source item.source_id)
        (update (λ q. q.id == p.id) (updated_row draw item refs) rows)
      ≡ some (updated_row draw item refs p)
unfolding find update
find-updated_row draw item refs [] p u h = cc
find-updated_row draw item refs (q ∷ rows) p u h =
    elim (Bool-cases (has_source item.source item.source_id q)) [
      | inl e ↦
          let same : q ≡ p = ground (arith, h, e) in
          rw
            (
              same,
              eq_refl p.id,
              updated_row-has_source draw item refs p
                  (ap (has_source item.source item.source_id) (sym same) ∙ e),
            )
            refl
      | inr e ↦
          let later : find (has_source item.source item.source_id) rows ≡ some p =
            ground (arith, h, e) in
          let other =
            any-Mem (λ (r : ProviderRow). r.id == q.id) rows u.0
              (find-Mem (has_source item.source item.source_id) rows later) in
          let apart : (q.id == p.id) ≡ false = ground (arith, other) in
          rw (apart, e) (find-updated_row draw item refs rows p u.1 later)
    ]

-- how an item was matched: by its source, or otherwise
pub find_existing-how :
    (ext : Externals) (item : ScrapedProvider) (db : ScrapeDb) (country : Option ℕ)
    {action : Action} {p : ProviderRow}
    → find_existing ext db item country ≡ some (action, p)
    → ((action ≡ updated) × (find (has_source item.source item.source_id) db.providers ≡ some p))
      ⊎ ((action ≡ merged_by_domain) ⊎ (action ≡ merged_by_fuzzy))
unfolding find_existing find_existing_by_source
find_existing-how ext item db country {action} {p} h =
    elim (Option-cases (find (has_source item.source item.source_id) db.providers)) [
      | inr (q, a) ↦
          let is : updated ≡ action = ground (arith, h, a) in
          let same : q ≡ p = ground (arith, h, a) in inl (sym is, a ∙ ap some same)
      | inl a ↦ elim (Option-cases (find_existing_by_public_id db item)) [
        | inr (q, b) ↦
            let is : merged_by_domain ≡ action = ground (arith, h, a, b) in inr (inl (sym is))
        | inl b ↦ elim (Option-cases (find_existing_by_domain ext db item)) [
          | inr (q, c) ↦
              let is : merged_by_domain ≡ action = ground (arith, h, a, b, c) in inr (inl (sym is))
          | inl c ↦ elim (Option-cases (fuzzy_match ext db item country)) [
            | inr (q, d) ↦
                let is : merged_by_fuzzy ≡ action = ground (arith, h, a, b, c, d) in
                inr (inr (sym is))
            | inl d ↦ absurd (ground (arith, h, a, b, c, d))
          ]
        ]
      ]
    ]

pub find_existing-growth :
    (ext : Externals) (item : ScrapedProvider) (db : ScrapeDb) (country : Option ℕ)
    {action : Action} {p : ProviderRow}
    → find_existing ext db item country ≡ some (action, p)
    → growth action ≡ 0
unfolding growth
find_existing-growth ext item db country h = elim (find_existing-how ext item db country h) [
  | inl (is, _) ↦ ap growth is
  | inr (inl is) ↦ ap growth is
  | inr (inr is) ↦ ap growth is
]

nonzero : growth inserted ≡ 0 → ⊥
unfolding growth
nonzero e = ground (arith, e)

-- an item that is counted as an update was matched by its source
pub matched :
    (ext : Externals) (item : ScrapedProvider) (db : ScrapeDb) (country : Option ℕ)
    {action : Action} {p : ProviderRow}
    → find_existing ext db item country ≡ some (action, p)
    → (action ≡ inserted) ⊎ (action ≡ updated)
    → find (has_source item.source item.source_id) db.providers ≡ some p
matched ext item db country h (inl new) =
    absurd (nonzero (ap growth (sym new) ∙ find_existing-growth ext item db country h))
matched ext item db country h (inr old) = elim (find_existing-how ext item db country h) [
  | inl (_, e) ↦ e
  | inr (inl is) ↦ absurd (distinct (sym is ∙ old))
  | inr (inr is) ↦ absurd (distinct' (sym is ∙ old))
]
  where
    distinct : merged_by_domain ≡ updated → ⊥
    distinct e = cc

    distinct' : merged_by_fuzzy ≡ updated → ⊥
    distinct' e = cc

pub length-update :
    (test : ProviderRow → Bool) (f : ProviderRow → ProviderRow) (rows : List ProviderRow)
    → length (update test f rows) ≡ length rows
unfolding update
length-update test f [] = refl
length-update test f (p ∷ rows) = ap suc (length-update test f rows)
