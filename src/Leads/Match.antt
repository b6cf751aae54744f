-- ===== src/Leads/Match.antt =====
-- match_providers: apps/api/src/ozzb2b_api/services/leads.py. The database's collation of display
-- names is an argument; rows that it does not tell apart keep the order of the table.
pub mod Addressees
pub mod Laws
use ozzb2b.Shared.{
  ℕ, ◌+◌, Bool, true, false, not, ◌&&◌, ◌||◌, Option, none, some, List, [], ◌∷◌, ltb, leb, ◌==◌,
  nat_eq, text_eq, option_nat_eq, if◌then◌else◌, Text, lower, is_truthy, or_empty, is_some, any,
  contains, select, take,
}
use ozzb2b.Domain.{Provider, is_published}
use ozzb2b.Leads.Data.{Lead, LeadsDb, Category}

-- a row of provider_categories in the lead's category or in one of its children
unfoldable pub in_category : LeadsDb → ℕ → Provider → Bool
in_category db category p =
    any
      (λ pc.
        pc.0 == p.id
        && (pc.1 == category
            || any (λ (c : Category). c.id == pc.1 && c.parent_id == some category) db.categories))
      db.provider_categories

-- the WHERE clause
unfoldable pub is_eligible : LeadsDb → ℕ → Provider → Bool
is_eligible db category p =
    in_category db category p
    && (is_published p.status
        && (is_some p.email
            && (is_truthy (or_empty p.email)
                && not (contains db.suppressions (lower (or_empty p.email))))))

-- the ORDER BY clause: 0 for the lead's city and 2 else, and claimed providers first in each
unfoldable pub rank : Lead → Provider → ℕ
rank lead p = (if p.city_id == lead.city_id then 0 else 2) + (if p.is_claimed then 0 else 1)

module _ (name_le : Text → Text → Bool) (lead : Lead) where
  unfoldable pub precedes : Provider → Provider → Bool
  precedes p q =
      ltb (rank lead p) (rank lead q)
      || (rank lead p == rank lead q && name_le p.display_name q.display_name)

  unfoldable pub place : Provider → List Provider → List Provider
  place p [] = p ∷ []
  place p (q ∷ qs) = if precedes p q then p ∷ q ∷ qs else q ∷ place p qs

  unfoldable pub order_by : List Provider → List Provider
  order_by [] = []
  order_by (p ∷ ps) = place p (order_by ps)

  unfoldable pub match_in : LeadsDb → Option ℕ → ℕ → List Provider
  match_in db none limit = []
  match_in db (some category) limit =
      take limit (order_by (select (is_eligible db category) db.providers))

  unfoldable pub match_providers : LeadsDb → ℕ → List Provider
  match_providers db limit = match_in db lead.category_id limit
