-- ===== src/Catalog/Multiplicity.antt =====
-- Joins repeat a row, and DISTINCT takes the repetitions back: what is left are the rows that some joined
-- row matches.
use ozzb2b.Shared.{
  times, ℕ, zero, suc, ◌+◌, ◌*◌, ◌<◌, ◌≡◌, refl, sym, ap, ◌∙◌, Bool, true, false, ◌&&◌, List, [],
  ◌∷◌, ◌++◌, arith, Eq, ◌==◌, eq_refl, if◌then◌else◌, ltb, any, count, select, IsUnique, any-append,
}
use mathlib.Core.List.{append_assoc}
use ozzb2b.Catalog.Rows.{expand, distinct_rows}

module _ {ℓ} {A : Type ℓ} where
  expand-append : (m : A → ℕ) (xs ys : List A) → expand m (xs ++ ys) ≡ expand m xs ++ expand m ys
  unfolding expand
  expand-append m [] ys = refl
  expand-append m (x ∷ xs) ys =
      rw (expand-append m xs ys) (sym (append_assoc (times (m x) x) (expand m xs) (expand m ys)))

  times-append : (k n : ℕ) (x : A) → times (k + n) x ≡ times k x ++ times n x
  unfolding times
  times-append zero n x = ap (λ k. times k x) (omega arith)
  times-append (suc k) n x =
      ap (λ j. times j x) (let e : suc k + n ≡ suc (k + n) = omega arith in e)
      ∙ ap (λ t. x ∷ t) (times-append k n x)

  expand-times : (m : A → ℕ) (n : ℕ) (x : A) → expand m (times n x) ≡ times (n * m x) x
  unfolding expand times
  expand-times m zero x = ap (λ k. times k x) (let e : 0 ≡ 0 * m x = grind arith in e)
  expand-times m (suc n) x =
      rw (expand-times m n x)
        (sym (times-append (m x) (n * m x) x) ∙ ap (λ k. times k x) (grind arith))

  -- joins multiply
  pub expand-expand :
      (m n : A → ℕ) (xs : List A) → expand n (expand m xs) ≡ expand (λ x. m x * n x) xs
  unfolding expand
  expand-expand m n [] = refl
  expand-expand m n (x ∷ xs) =
      rw
        (
          expand-append n (times (m x) x) (expand m xs),
          expand-times n (m x) x,
          expand-expand m n xs,
        )
        refl

  pub expand_one : (xs : List A) → expand (λ _. 1) xs ≡ xs
  unfolding expand times
  expand_one [] = refl
  expand_one (x ∷ xs) = cc (expand_one xs)

  select-append : (p : A → Bool) (xs ys : List A) → select p (xs ++ ys) ≡ select p xs ++ select p ys
  unfolding select
  select-append p [] ys = refl
  select-append p (x ∷ xs) ys = ground (arith, select-append p xs ys)

  select-times :
      (p : A → Bool) (n : ℕ) (x : A) → select p (times n x) ≡ (if p x then times n x else [])
  unfolding select times
  select-times p zero x = ground arith
  select-times p (suc n) x = ground (arith, select-times p n x)

  pub select-expand :
      (p : A → Bool) (m : A → ℕ) (xs : List A) → select p (expand m xs) ≡ expand m (select p xs)
  unfolding select expand
  select-expand p m [] = refl
  select-expand p m (x ∷ xs) = ground (
    arith,
    select-append p (times (m x) x) (expand m xs),
    select-times p (m x) x,
    select-expand p m xs,
  )

  pub select-select :
      (p q : A → Bool) (xs : List A) → select p (select q xs) ≡ select (λ x. q x && p x) xs
  unfolding select
  select-select p q [] = refl
  select-select p q (x ∷ xs) = ground (arith, select-select p q xs)

  any-of_select : (p q : A → Bool) (xs : List A) → any q xs ≡ false → any q (select p xs) ≡ false
  unfolding any select
  any-of_select p q [] h = refl
  any-of_select p q (x ∷ xs) h = ground (arith, any-of_select p q xs)

  any-times : (q : A → Bool) (n : ℕ) (x : A) → any q (times n x) ≡ (ltb 0 n && q x)
  unfolding any times
  any-times q zero x = refl
  any-times q (suc n) x = ground (arith, any-times q n x)

  any-expand :
      (q : A → Bool) (m : A → ℕ) (xs : List A) → any q xs ≡ false → any q (expand m xs) ≡ false
  unfolding any expand
  any-expand q m [] h = refl
  any-expand q m (x ∷ xs) h =
      ground
        (arith, any-append q (times (m x) x) (expand m xs), any-times q (m x) x, any-expand q m xs)

  pub ltb-count : (p : A → Bool) (xs : List A) → ltb 0 (count p xs) ≡ any p xs
  unfolding count any
  ltb-count p [] = refl
  ltb-count p (x ∷ xs) = ground (arith, ltb-count p xs)

pub ltb-mul : (m n : ℕ) → ltb 0 (m * n) ≡ (ltb 0 m && ltb 0 n)
ltb-mul zero n = ap (ltb 0) (let e : 0 * n ≡ 0 = grind arith in e)
ltb-mul (suc m) zero = let e : suc m * 0 ≡ 0 = grind arith in ground arith
ltb-mul (suc m) (suc n) = let e : 0 < suc m * suc n = grind arith in ground arith

module _ {ℓ κ} {A : Type ℓ} {K : Type κ} ⦃e : Eq K⦄ (key : A → K) where
  pub select-keeps_IsUnique :
      (p : A → Bool) (xs : List A) → IsUnique key xs → IsUnique key (select p xs)
  unfolding select
  select-keeps_IsUnique p [] u = tt
  select-keeps_IsUnique p (x ∷ xs) u =
      ground (arith, any-of_select p (λ y. key y == key x) xs, select-keeps_IsUnique p xs u.1)

  any-times_self :
      (n : ℕ) (x : A) (ys : List A) → any (λ y. key y == key x) (times (suc n) x ++ ys) ≡ true
  unfolding any times
  any-times_self n x ys = rw (eq_refl (key x)) refl

  distinct-times :
      (n : ℕ) (x : A) (ys : List A)
      → any (λ y. key y == key x) ys ≡ false
      → distinct_rows key (times (suc n) x ++ ys) ≡ x ∷ distinct_rows key ys
  unfolding distinct_rows times
  distinct-times zero x ys h = rw h refl
  distinct-times (suc n) x ys h = rw (any-times_self n x ys, distinct-times n x ys h) refl

  distinct-expanded :
      (n : ℕ) (x : A) (ys : List A)
      → any (λ y. key y == key x) ys ≡ false
      → distinct_rows key (times n x ++ ys)
        ≡ (if ltb 0 n then x ∷ distinct_rows key ys else distinct_rows key ys)
  distinct-expanded zero x ys h = unfold times in refl
  distinct-expanded (suc n) x ys h = distinct-times n x ys h ∙ ground arith

  -- DISTINCT after joins is a filter
  pub distinct_rows-expand :
      (m : A → ℕ) (xs : List A)
      → IsUnique key xs
      → distinct_rows key (expand m xs) ≡ select (λ x. ltb 0 (m x)) xs
  unfolding expand select
  distinct_rows-expand m [] u = unfold distinct_rows in refl
  distinct_rows-expand m (x ∷ xs) u =
      distinct-expanded (m x) x (expand m xs) (any-expand (λ y. key y == key x) m xs u.0)
      ∙ rw (distinct_rows-expand m xs u.1) refl
