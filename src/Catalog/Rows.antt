-- ===== src/Catalog/Rows.antt =====
-- The operators of SQL on lists of rows that the queries of services/catalog.py are made of: inner joins,
-- DISTINCT, OFFSET and GROUP BY with a count.
use ozzb2b.Shared.{
  times, ℕ, zero, suc, Bool, List, [], ◌∷◌, ◌++◌, map, Eq, ◌==◌, if◌then◌else◌, any, count, select,
}

module _ {ℓ} {A : Type ℓ} where
  abbrev pub drop : ℕ → List A → List A
  drop zero xs = xs
  drop (suc n) [] = []
  drop (suc n) (x ∷ xs) = drop n xs

  -- each row as often as `m` says
  unfoldable pub expand : (A → ℕ) → List A → List A
  expand m [] = []
  expand m (x ∷ xs) = times (m x) x ++ expand m xs

  -- rows JOIN ys ON on, of which the columns of `rows` are selected
  unfoldable pub join {κ} : {B : Type κ} → (A → B → Bool) → List B → List A → List A
  unfolding expand times
  join on ys rows = expand (λ x. count (on x) ys) rows

  -- xs JOIN ys ON on, with the columns of both
  unfoldable pub pairs {κ} : {B : Type κ} → (A → B → Bool) → List A → List B → List (A × B)
  pairs on [] ys = []
  pairs on (x ∷ xs) ys = map (λ y. (x, y)) (select (on x) ys) ++ pairs on xs ys

-- SELECT DISTINCT, where rows of one key are equal
module _ {ℓ κ} {A : Type ℓ} {K : Type κ} ⦃e : Eq K⦄ (key : A → K) where
  unfoldable pub distinct_rows : List A → List A
  distinct_rows [] = []
  distinct_rows (x ∷ xs) =
      let rest = distinct_rows xs in if any (λ y. key y == key x) xs then rest else x ∷ rest
