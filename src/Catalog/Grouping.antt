-- ===== src/Catalog/Grouping.antt =====
-- Counts by a key of a joined table, as the facets of services/catalog.py take them: the group of a row
-- with a unique key counts what joins that row.
use ozzb2b.Shared.{
  ◌+◌, ◌≡◌, refl, sym, ap, subst, ◌∙◌, inl, inr, Bool, false, ◌&&◌, List, [], ◌∷◌, ◌++◌, map, arith,
  Eq, ◌==◌, eq_refl, eq_iff, text_eq, pair_eq, if◌then◌else◌, Text, length, any, count, select,
  contains, All, IsUnique, Bool-cases, count-append, any-Mem, All-append,
}
use mathlib.Core.List.{Memᴰ}
use mathlib.Core.List.Memᴰ.{head, tail}
use mathlib.Core.List.{map-append}
use ozzb2b.Catalog.Rows.{pairs, distinct_rows}
use ozzb2b.Catalog.Facets.{FacetCount, group_counts}

pub length-select_and :
    {A : Type 0} (p d : A → Bool) (xs : List A)
    → length (select (λ x. p x && d x) xs) ≡ count d (select p xs)
unfolding select count
length-select_and p d [] = refl
length-select_and p d (x ∷ xs) = ground (arith, length-select_and p d xs)

All-distinct_rows :
    {A K : Type 0} ⦃e : Eq K⦄ (key : A → K) (P : A → Type 0) (xs : List A)
    → All P xs
    → All P (distinct_rows key xs)
unfolding distinct_rows
All-distinct_rows key P [] h = tt
All-distinct_rows key P (x ∷ xs) h = elim (Bool-cases (any (λ y. key y == key x) xs)) [
  | inl e ↦ rw e (All-distinct_rows key P xs h.1)
  | inr e ↦ rw e (h.0, All-distinct_rows key P xs h.1)
]

All-map :
    {A B : Type 0} (P : B → Type 0) (f : A → B) (xs : List A)
    → All (λ x. P (f x)) xs
    → All P (map f xs)
All-map P f [] h = tt
All-map P f (x ∷ xs) h = (h.0, All-map P f xs h.1)

-- each group is one of a key that stands among the keys
pub All-group_counts :
    (P : FacetCount → Type 0) (keys : List (Text × Text))
    → All (λ k. P (record { value = k.0; label = k.1; count = count (λ j. j == k) keys })) keys
    → All P (group_counts keys)
unfolding group_counts
All-group_counts P keys h =
    All-map P _ (distinct_rows (λ k. k) keys) (All-distinct_rows (λ k. k) _ keys h)

module _ {A B : Type 0} (on : B → A → Bool) (key name : B → Text) where
  abbrev keys_of : List B → List A → List (Text × Text)
  keys_of ys rows = map (λ r. (key r.0, name r.0)) (pairs on ys rows)

  -- the keys that one row of the table gives
  block : B → List A → List (Text × Text)
  block y rows = map (λ (r : B × A). (key r.0, name r.0)) (map (λ x. (y, x)) (select (on y) rows))

  keys_of-cons :
      (y : B) (ys : List B) (rows : List A)
      → keys_of (y ∷ ys) rows ≡ block y rows ++ keys_of ys rows
  unfolding pairs block
  keys_of-cons y ys rows = map-append _ _ _

  All-block :
      (P : Text × Text → Type 0) (y : B) (rows : List A) → P (key y, name y) → All P (block y rows)
  unfolding block select
  All-block P y [] h = tt
  All-block P y (x ∷ rows) h = elim (Bool-cases (on y x)) [
    | inl e ↦ rw e (h, All-block P y rows h)
    | inr e ↦ rw e (All-block P y rows h)
  ]

  -- the keys are those of rows of the table
  pub All-keys_of :
      (P : Text × Text → Type 0) (ys : List B) (rows : List A)
      → All (λ y. P (key y, name y)) ys
      → All P (keys_of ys rows)
  All-keys_of P [] rows h = unfold pairs in tt
  All-keys_of P (y ∷ ys) rows h = subst (All P) (sym (keys_of-cons y ys rows)) (
      All-append P (block y rows) (keys_of ys rows) (All-block P y rows h.0)
        (All-keys_of P ys rows h.1))

  count-block :
      (q : Text × Text → Bool) (y : B) (rows : List A)
      → count q (block y rows) ≡ (if q (key y, name y) then count (on y) rows else 0)
  unfolding count select block
  count-block q y [] = ground arith
  count-block q y (x ∷ rows) = ground (arith, count-block q y rows)

  count-keys_of_cons :
      (q : Text × Text → Bool) (y : B) (ys : List B) (rows : List A)
      → count q (keys_of (y ∷ ys) rows)
        ≡ (if q (key y, name y) then count (on y) rows else 0) + count q (keys_of ys rows)
  count-keys_of_cons q y ys rows =
      ap (count q) (keys_of-cons y ys rows)
      ∙ count-append q (block y rows) (keys_of ys rows)
      ∙ ap (λ n. n + count q (keys_of ys rows)) (count-block q y rows)

  -- the group of a row with a unique key counts what joins it, and so no other row's group
  count-keys_of_absent :
      (c : B) (ys : List B) (rows : List A)
      → any (λ y. key y == key c) ys ≡ false
      → count (λ (j : Text × Text). j == (key c, name c)) (keys_of ys rows) ≡ 0
  unfolding any count pairs
  count-keys_of_absent c [] rows h = refl
  count-keys_of_absent c (y ∷ ys) rows h = ground (
    arith,
    count-keys_of_cons (λ (j : Text × Text). j == (key c, name c)) y ys rows,
    count-keys_of_absent c ys rows,
  )

  pub count-keys_of :
      (c : B) (ys : List B) (rows : List A)
      → IsUnique key ys
      → Memᴰ c ys
      → count (λ (j : Text × Text). j == (key c, name c)) (keys_of ys rows) ≡ count (on c) rows
  count-keys_of c [] rows u m = elim m [ ]
  count-keys_of c (y ∷ ys) rows u (head e) = rw e (
      ground (
        arith,
        count-keys_of_cons (λ (j : Text × Text). j == (key y, name y)) y ys rows,
        count-keys_of_absent y ys rows u.0,
        eq_refl (key y),
        eq_refl (name y),
      ))
  count-keys_of c (y ∷ ys) rows u (tail m) = ground (
    arith,
    count-keys_of_cons (λ (j : Text × Text). j == (key c, name c)) y ys rows,
    count-keys_of c ys rows u.1 m,
    eq_iff (key y) (key c),
    eq_iff (key c) (key y),
    any-Mem (λ w. key w == key y) ys u.0 m,
  )

  any_absent :
      (k : Text) (x : A) (ys : List B)
      → any (λ y. key y == k) ys ≡ false
      → any (λ y. on y x && contains (k ∷ []) (key y)) ys ≡ false
  unfolding any contains
  any_absent k x [] h = refl
  any_absent k x (y ∷ ys) h = ground (arith, any_absent k x ys, eq_iff k (key y), eq_iff (key y) k)

  -- a filter on the one key admits what joins the row
  pub any-of_key :
      (c : B) (x : A) (ys : List B)
      → IsUnique key ys
      → Memᴰ c ys
      → any (λ y. on y x && contains (key c ∷ []) (key y)) ys ≡ on c x
  unfolding any contains
  any-of_key c x [] u m = elim m [ ]
  any-of_key c x (y ∷ ys) u (head e) =
      subst (λ z. any (λ w. on w x && contains (key z ∷ []) (key w)) (y ∷ ys) ≡ on z x) (sym e)
        (ground (arith, any_absent (key y) x ys u.0, eq_refl (key y)))
  any-of_key c x (y ∷ ys) u (tail m) = ground (
    arith,
    any-of_key c x ys u.1 m,
    eq_iff (key y) (key c),
    eq_iff (key c) (key y),
    any-Mem (λ w. key w == key y) ys u.0 m,
  )
