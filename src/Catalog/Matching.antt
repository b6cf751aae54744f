-- ===== src/Catalog/Matching.antt =====
-- What `list_providers` of services/catalog.py selects, said without joins: the published providers that
-- each axis of the filter admits.
use ozzb2b.Shared.{
  ℕ, ◌*◌, ◌≡◌, refl, sym, ap, ◌∙◌, inl, inr, Bool, true, ◌&&◌, Option, none, some, List, [], ◌∷◌,
  arith, nat_eq, text_eq, if◌then◌else◌, ltb, Text, strip, is_truthy, length, take, any, count,
  select, sort_by, IsUnique, Bool-cases,
}
use mathlib.Core.Path.{fun_ext}
use ozzb2b.Domain.{is_published}
use ozzb2b.Catalog.Data.{ProviderEntry, CatalogDb, Sql, ProviderFilter}
use ozzb2b.Catalog.Rows.{drop, expand, join, distinct_rows}
use ozzb2b.Catalog.Multiplicity.{
  expand-expand, expand_one, select-expand, select-select, ltb-count, ltb-mul,
  select-keeps_IsUnique, distinct_rows-expand,
}
use ozzb2b.Catalog.Query.{
  country_in, city_in_slugs, legal_form_in, linked, category_in, joined_if, like_pattern, has_text,
  where_text, apply_filter, filtered, by_display_name, list_providers,
}

-- an axis of the filter admits a provider when it names no value, or a row of the provider has one
abbrev pub admits : {A B : Type 0} → List Text → (A → B → Bool) → List B → A → Bool
admits [] on ys p = true
admits (v ∷ vs) on ys p = any (on p) ys

abbrev pub text_admits : Sql → Option Text → ProviderEntry → Bool
text_admits sql none p = true
text_admits sql (some q) p =
    if is_truthy (strip q) then has_text sql (like_pattern (strip q)) p else true

unfoldable pub matches : Sql → CatalogDb → ProviderFilter → ProviderEntry → Bool
matches sql db f p =
    is_published p.status
    && (admits f.country_codes (country_in f.country_codes) db.countries p
        && (admits f.city_slugs (city_in_slugs f.city_slugs) db.cities p
            && (admits f.legal_form_codes (legal_form_in f.legal_form_codes) db.legal_forms p
                && (admits f.category_slugs (category_in f.category_slugs)
                      (linked db.links db.categories) p
                    && text_admits sql f.query p))))

-- how often the join of an axis gives a row
weight : {A B : Type 0} → List Text → (A → B → Bool) → List B → A → ℕ
weight [] on ys p = 1
weight (v ∷ vs) on ys p = count (on p) ys

joined_if-expand :
    {A B : Type 0} (vs : List Text) (on : A → B → Bool) (ys : List B) (rows : List A)
    → joined_if vs on ys rows ≡ expand (weight vs on ys) rows
unfolding weight
joined_if-expand [] on ys rows = sym (expand_one rows)
joined_if-expand (v ∷ vs) on ys rows = unfold join in refl

ltb-weight :
    {A B : Type 0} (vs : List Text) (on : A → B → Bool) (ys : List B) (p : A)
    → ltb 0 (weight vs on ys p) ≡ admits vs on ys p
unfolding weight
ltb-weight [] on ys p = refl
ltb-weight (v ∷ vs) on ys p = ltb-count (on p) ys

select_every : {A : Type 0} (xs : List A) → select (λ (_ : A). true) xs ≡ xs
unfolding select
select_every [] = refl
select_every (x ∷ xs) = cc (select_every xs)

-- each clause of the statement multiplies the rows that the ones before it leave
joined_if-expanded :
    {A B : Type 0} (vs : List Text) (on : A → B → Bool) (ys : List B) (m : A → ℕ)
    (rows rows' : List A)
    → rows' ≡ expand m rows
    → joined_if vs on ys rows' ≡ expand (λ p. m p * weight vs on ys p) rows
joined_if-expanded vs on ys m rows rows' h =
    joined_if-expand vs on ys rows'
    ∙ ap (expand (weight vs on ys)) h
    ∙ expand-expand m (weight vs on ys) rows

where_text-expanded :
    (sql : Sql) (q : Option Text) (m : ProviderEntry → ℕ) (rows rows' : List ProviderEntry)
    → rows' ≡ expand m rows
    → where_text sql q rows' ≡ expand m (select (text_admits sql q) rows)
where_text-expanded sql none m rows rows' h = h ∙ ap (expand m) (sym (select_every rows))
where_text-expanded sql (some q) m rows rows' h = elim (Bool-cases (is_truthy (strip q))) [
  | inl e ↦
      rw e (ap (select asked) h ∙ select-expand asked m rows)
      ∙ ap (λ t. expand m (select t rows))
          (fun_ext λ p. ap (λ b. if b then asked p else true) (sym e))
  | inr e ↦
      rw e (h ∙ ap (expand m) (sym (select_every rows)))
      ∙ ap (λ t. expand m (select t rows))
          (fun_ext λ p. ap (λ b. if b then asked p else true) (sym e))
]
  where
    asked : ProviderEntry → Bool
    asked = has_text sql (like_pattern (strip q))

module _ (sql : Sql) (db : CatalogDb) (f : ProviderFilter) where
  abbrev listed : List ProviderEntry
  listed = select (λ p. is_published p.status) db.providers

  multiplicity : ProviderEntry → ℕ
  multiplicity p =
      1
      * weight f.country_codes (country_in f.country_codes) db.countries p
      * weight f.city_slugs (city_in_slugs f.city_slugs) db.cities p
      * weight f.legal_form_codes (legal_form_in f.legal_form_codes) db.legal_forms p
      * weight f.category_slugs (category_in f.category_slugs) (linked db.links db.categories) p

  apply_filter-expand :
      apply_filter sql db f ≡ expand multiplicity (select (text_admits sql f.query) listed)
  unfolding apply_filter multiplicity
  apply_filter-expand = where_text-expanded sql f.query multiplicity listed _ (
      joined_if-expanded f.category_slugs (category_in f.category_slugs)
        (linked db.links db.categories) _ listed _
        (joined_if-expanded f.legal_form_codes (legal_form_in f.legal_form_codes) db.legal_forms _
          listed _
          (joined_if-expanded f.city_slugs (city_in_slugs f.city_slugs) db.cities _ listed _ (
            joined_if-expanded f.country_codes (country_in f.country_codes) db.countries _ listed _
              (sym (expand_one listed))))))

  ltb-multiplicity :
      (p : ProviderEntry)
      → (is_published p.status && (text_admits sql f.query p && ltb 0 (multiplicity p)))
        ≡ matches sql db f p
  unfolding multiplicity matches
  ltb-multiplicity p = ground (
    arith,
    ltb-mul (1 * a * b * c) d,
    ltb-mul (1 * a * b) c,
    ltb-mul (1 * a) b,
    ltb-mul 1 a,
    ltb-weight f.country_codes (country_in f.country_codes) db.countries p,
    ltb-weight f.city_slugs (city_in_slugs f.city_slugs) db.cities p,
    ltb-weight f.legal_form_codes (legal_form_in f.legal_form_codes) db.legal_forms p,
    ltb-weight f.category_slugs (category_in f.category_slugs) (linked db.links db.categories) p,
  )
    where
      a : ℕ
      a = weight f.country_codes (country_in f.country_codes) db.countries p

      b : ℕ
      b = weight f.city_slugs (city_in_slugs f.city_slugs) db.cities p

      c : ℕ
      c = weight f.legal_form_codes (legal_form_in f.legal_form_codes) db.legal_forms p

      d : ℕ
      d = weight f.category_slugs (category_in f.category_slugs) (linked db.links db.categories) p

  -- DISTINCT after the joins selects the matching providers, each once and in the table's order.
  pub filtered-eq-select :
      IsUnique (λ (p : ProviderEntry). p.id) db.providers
      → filtered sql db f ≡ select (matches sql db f) db.providers
  unfolding filtered
  filtered-eq-select u =
      ap (distinct_rows (λ (p : ProviderEntry). p.id)) apply_filter-expand
      ∙ distinct_rows-expand (λ (p : ProviderEntry). p.id) multiplicity _
          (select-keeps_IsUnique (λ (p : ProviderEntry). p.id) (text_admits sql f.query) listed
            (select-keeps_IsUnique (λ (p : ProviderEntry). p.id) (λ p. is_published p.status)
              db.providers u))
      ∙ select-select (λ x. ltb 0 (multiplicity x)) (text_admits sql f.query) listed
      ∙ select-select (λ x. text_admits sql f.query x && ltb 0 (multiplicity x))
          (λ p. is_published p.status) db.providers
      ∙ ap (λ t. select t db.providers) (fun_ext ltb-multiplicity)

  -- For a table of providers with distinct ids, the total that `list_providers` answers is the number of
  -- the providers that match the filter, and the page is the part from `offset`, `limit` long at most, of
  -- these providers sorted by display name: no joined row repeats one or counts it twice.
  pub list_providers-eq-select :
      IsUnique (λ (p : ProviderEntry). p.id) db.providers
      → list_providers sql db f ≡ (
        length (select (matches sql db f) db.providers),
        take f.limit (
            drop f.offset (sort_by (by_display_name sql) (select (matches sql db f) db.providers))),
      )
  unfolding list_providers
  list_providers-eq-select u =
      ap (λ rows. (length rows, take f.limit (drop f.offset (sort_by (by_display_name sql) rows))))
        (filtered-eq-select u)
