-- ===== src/Leads/Match/Addressees.antt =====
-- Whom a lead may go to and who stands first, said of the rows themselves: the meaning of `is_eligible` and
-- `rank` in match_providers of services/leads.py.
use ozzb2b.Shared.{
  ℕ, ◌≤◌, ◌≡◌, refl, true, false, some, List, [], ◌∷◌, nat_eq, Text, All, arith, inl, inr,
  Bool-cases, eq_iff, eq_refl, option_nat_eq, text_eq, any-eq-true, any-of_one, subst, ◌==◌, ◌&&◌,
  ◌⊎◌, ◌↔◌, is_truthy, contains, lower,
}
use ozzb2b.Domain.{Provider, ProviderStatus, is_published}
use mathlib.Core.List.{Memᴰ}
use ozzb2b.Leads.Data.{Lead, LeadsDb, Category}
use ozzb2b.Leads.Match.{in_category, rank}

-- A provider to whom a lead may go: it is listed in the lead's category or in a child of it, it is
-- published, and it has an address that is not suppressed.
pub record IsAddressee (lead : Lead) (db : LeadsDb) (p : Provider) : Type 0 where
  pub category : ℕ
  pub asked : lead.category_id ≡ some category
  pub listing : ℕ × ℕ
  pub listed : Memᴰ listing db.provider_categories
  pub own : listing.0 ≡ p.id
  pub below :
      (listing.1 ≡ category)
      ⊎ ((c : Category) × Memᴰ c db.categories × (c.id ≡ listing.1) × (c.parent_id ≡ some category))
  pub published : p.status ≡ ProviderStatus.published
  pub email : Text
  pub has_email : p.email ≡ some email
  pub non_empty : is_truthy email ≡ true
  pub welcome : contains db.suppressions (lower email) ≡ false

-- One provider may stand before another: it is in the lead's city if the other is, and where both
-- are or both are not, it is claimed if the other is.
pub record MayPrecede (lead : Lead) (p q : Provider) : Type 0 where
  pub near : q.city_id ≡ lead.city_id → p.city_id ≡ lead.city_id
  pub owned :
      (p.city_id == lead.city_id) ≡ (q.city_id == lead.city_id)
      → q.is_claimed ≡ true
      → p.is_claimed ≡ true

abbrev pub IsOrdered : Lead → List Provider → Type 0
IsOrdered lead [] = Unit
IsOrdered lead (p ∷ ps) = All (MayPrecede lead p) ps × IsOrdered lead ps

pub rank-MayPrecede :
    (lead : Lead) (p q : Provider) → rank lead p ≤ rank lead q → MayPrecede lead p q
unfolding rank
rank-MayPrecede lead p q h = record {
  near = λ e.
      (eq_iff p.city_id lead.city_id).0
        (ground (arith, h, subst (λ c. (q.city_id == c) ≡ true) e (eq_refl q.city_id)));
  owned = λ e c. ground (arith, h, e, c);
}

pub published_iff : (s : ProviderStatus) → (is_published s ≡ true) ↔ (s ≡ ProviderStatus.published)
published_iff s = (there s, λ e. rw e refl)
  where
    there : (s : ProviderStatus) → is_published s ≡ true → s ≡ ProviderStatus.published
    there ProviderStatus.published h = refl
    there ProviderStatus.draft h = absurd (ground arith)
    there ProviderStatus.archived h = absurd (ground arith)

-- the test of the category, as listings
pub in_category_iff :
    (db : LeadsDb) (category : ℕ) (p : Provider)
    → (in_category db category p ≡ true) ↔ (
        (l : ℕ × ℕ) × Memᴰ l db.provider_categories
        × (l.0 ≡ p.id)
        × ((l.1 ≡ category)
            ⊎ ((c : Category) × Memᴰ c db.categories
                × (c.id ≡ l.1)
                × (c.parent_id ≡ some category))))
unfolding in_category
in_category_iff db category p = (there, back)
  where
    there :
        in_category db category p ≡ true
        → (l : ℕ × ℕ) × Memᴰ l db.provider_categories
          × (l.0 ≡ p.id)
          × ((l.1 ≡ category)
              ⊎ ((c : Category) × Memᴰ c db.categories
                  × (c.id ≡ l.1)
                  × (c.parent_id ≡ some category)))
    there h =
        let (l, m, hit) = any-eq-true _ db.provider_categories h in
        let own : l.0 ≡ p.id = ground (arith, hit, eq_iff l.0 p.id) in
        elim (Bool-cases (l.1 == category)) [
          | inl e ↦ (l, m, own, inl ((eq_iff l.1 category).0 e))
          | inr e ↦
              let (c, n, child) =
                any-eq-true (λ (c : Category). c.id == l.1 && c.parent_id == some category)
                  db.categories (ground (arith, hit, e)) in
              (
                l,
                m,
                own,
                inr (
                  c,
                  n,
                  ground (arith, child, eq_iff c.id l.1),
                  (eq_iff c.parent_id (some category)).0 (ground (arith, child)),
                ),
              )
        ]

    back :
        (l : ℕ × ℕ) × Memᴰ l db.provider_categories
          × (l.0 ≡ p.id)
          × ((l.1 ≡ category)
              ⊎ ((c : Category) × Memᴰ c db.categories
                  × (c.id ≡ l.1)
                  × (c.parent_id ≡ some category)))
        → in_category db category p ≡ true
    back (l, m, own, inl e) =
        any-of_one _ db.provider_categories m (rw (own, e, eq_refl p.id, eq_refl category) refl)
    back (l, m, own, inr (c, n, same, child)) = any-of_one _ db.provider_categories m (
        ground (
          arith,
          eq_iff l.0 p.id,
          own,
          any-of_one (λ (c : Category). c.id == l.1 && c.parent_id == some category) db.categories n
              (rw (same, child, eq_refl l.1, eq_refl (some category)) refl),
        ))
