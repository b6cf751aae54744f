-- ===== src/Catalog/Counts.antt =====
-- The counts beside the countries in the facets of services/catalog.py, against the listing that a
-- choice of the country gives.
use ozzb2b.Shared.{
  ◌≡◌, sym, ap, ◌∙◌, Bool, ◌&&◌, [], ◌∷◌, arith, ◌==◌, text_eq, pair_eq, nat_eq, Text, length, any,
  count, select, contains, All, All-sort_by, All-of_Mem, IsUnique,
}
use mathlib.Core.Path.{fun_ext}
use mathlib.Core.List.{Memᴰ}
use ozzb2b.Catalog.Data.{CountryEntry, ProviderEntry, CatalogDb, Sql, ProviderFilter, is_id}
use ozzb2b.Catalog.Query.{filtered, list_providers}
use ozzb2b.Catalog.Facets.{Axis, other_axes, axis_keys, country_keys, by_count, count_axis}
use ozzb2b.Catalog.Matching.{matches, filtered-eq-select, list_providers-eq-select}
use ozzb2b.Catalog.Grouping.{
  length-select_and, All-group_counts, All-keys_of, count-keys_of, any-of_key,
}

-- `f` with the one country
abbrev pub chosen : ProviderFilter → Text → ProviderFilter
chosen f code = record f { country_codes = code ∷ [] }

module _ (sql : Sql) (db : CatalogDb) (f : ProviderFilter)
    (ids : IsUnique (λ (p : ProviderEntry). p.id) db.providers)
    (distinct_codes : IsUnique (λ (c : CountryEntry). c.code) db.countries) where
  abbrev others : ProviderFilter
  others = other_axes Axis.countries f

  matches-chosen :
      (c : CountryEntry) (p : ProviderEntry)
      → any (λ y. is_id p.country_id y.id && contains (c.code ∷ []) y.code) db.countries
        ≡ is_id p.country_id c.id
      → matches sql db (chosen f c.code) p ≡ (matches sql db others p && is_id p.country_id c.id)
  unfolding matches other_axes
  matches-chosen c p h = ground (arith, h)

  -- the group of a country counts what the listing of that country gives
  group-eq-total :
      (c : CountryEntry)
      → Memᴰ c db.countries
      → count
          (λ (k : Text × Text). k == (c.code, c.name))
          (country_keys db (filtered sql db others))
        ≡ (list_providers sql db (chosen f c.code)).0
  unfolding country_keys
  group-eq-total c m =
      count-keys_of on (λ y. y.code) (λ y. y.name) c db.countries (filtered sql db others)
        distinct_codes m
      ∙ ap (count (on c)) (filtered-eq-select sql db others ids)
      ∙ sym (length-select_and (matches sql db others) (on c) db.providers)
      ∙ ap (λ t. length (select t db.providers))
          (fun_ext λ p. sym (
            matches-chosen c p
              (any-of_key on (λ y. y.code) (λ y. y.name) c p db.countries distinct_codes m)))
      ∙ sym (ap (λ r. r.0) (list_providers-eq-select sql db (chosen f c.code) ids))
    where
      on : CountryEntry → ProviderEntry → Bool
      on y p = is_id p.country_id y.id

  -- Where the ids of the providers and the codes of the countries are distinct, the count beside each
  -- country in the facets is the total that `list_providers` answers for the same filter with that
  -- country chosen in place of the countries it had.
  pub count_axis-countries :
      All
        (λ r. r.count ≡ (list_providers sql db (chosen f r.value)).0)
        (count_axis sql db Axis.countries f)
  unfolding count_axis axis_keys country_keys
  count_axis-countries = All-sort_by (by_count sql) _ _ (
      All-group_counts _ _ (
        All-keys_of (λ (c : CountryEntry) (p : ProviderEntry). is_id p.country_id c.id)
          (λ c. c.code) (λ c. c.name)
          (λ k.
            count (λ (j : Text × Text). j == k) (country_keys db (filtered sql db others))
            ≡ (list_providers sql db (chosen f k.0)).0)
          db.countries (filtered sql db others) (All-of_Mem _ db.countries group-eq-total)))
