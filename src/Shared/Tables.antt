-- ===== src/Shared/Tables.antt =====
-- Tables with a unique key: a list of rows, new rows first, in which no two rows agree on the key.
use mathlib.Core.Path.{◌≡◌, refl}
use mathlib.Core.Logic.{inl, inr}
use mathlib.Core.Bool.{Bool, true, false}
use mathlib.Core.Option.{none, some}
use mathlib.Core.List.{List, [], ◌∷◌}
use native.Mathlib.Omega.{arith}
use ozzb2b.Shared.Compare.{Eq, ◌==◌, eq_iff, Bool-cases}
use ozzb2b.Shared.Lists.{select, update, delete, any, find}

module _ {ℓ} {A : Type ℓ} where
  -- where no row passes, nothing is selected, found, updated or deleted
  pub select-of_none : (p : A → Bool) (xs : List A) → any p xs ≡ false → select p xs ≡ []
  unfolding select any
  select-of_none p [] h = refl
  select-of_none p (x ∷ xs) h = ground (arith, select-of_none p xs)

  pub find-of_none : (p : A → Bool) (xs : List A) → any p xs ≡ false → find p xs ≡ none
  unfolding find any
  find-of_none p [] h = refl
  find-of_none p (x ∷ xs) h = ground (arith, find-of_none p xs)

  pub find_sound : (p : A → Bool) (xs : List A) {x : A} → find p xs ≡ some x → p x ≡ true
  unfolding find
  find_sound p [] h = cc
  find_sound p (y ∷ xs) {x} h = elim (Bool-cases (p y)) [
    | inl e ↦ ground arith
    | inr e ↦ find_sound p xs (ground arith)
  ]

  -- an update that keeps what the test reads leaves the test's outcome
  pub any-update :
      (p q : A → Bool) (f : A → A) (xs : List A)
      → ((x : A) → p x ≡ true → q (f x) ≡ q x)
      → any q (update p f xs) ≡ any q xs
  unfolding any update
  any-update p q f [] h = refl
  any-update p q f (x ∷ xs) h = ground (arith, h x, any-update p q f xs h)

  pub any-delete : (p q : A → Bool) (xs : List A) → any q xs ≡ false → any q (delete p xs) ≡ false
  unfolding any delete
  any-delete p q [] h = refl
  any-delete p q (x ∷ xs) h = ground (arith, any-delete p q xs)

  -- the row that a search finds is found again after an update that keeps what the search reads
  pub find-update :
      (p q : A → Bool) (f : A → A) (xs : List A) (x : A)
      → ((y : A) → p y ≡ true → q (f y) ≡ q y)
      → find q xs ≡ some x
      → p x ≡ true
      → find q (update p f xs) ≡ some (f x)
  unfolding find update
  find-update p q f [] x keep e h = cc
  find-update p q f (y ∷ xs) x keep e h = ground (arith, keep y, find-update p q f xs x keep)

  -- an update that does not reach the row found leaves it found
  pub find-update_kept :
      (p q : A → Bool) (f : A → A) (xs : List A) (x : A)
      → ((y : A) → p y ≡ true → q (f y) ≡ q y)
      → find q xs ≡ some x
      → p x ≡ false
      → find q (update p f xs) ≡ some x
  unfolding find update
  find-update_kept p q f [] x keep e h = cc
  find-update_kept p q f (y ∷ xs) x keep e h =
      ground (arith, keep y, find-update_kept p q f xs x keep)

  -- an update or a deletion of rows that a search does not read leaves what it finds
  pub find-update_other :
      (p q : A → Bool) (f : A → A) (xs : List A)
      → ((y : A) → p y ≡ true → q y ≡ false)
      → ((y : A) → p y ≡ true → q (f y) ≡ false)
      → find q (update p f xs) ≡ find q xs
  unfolding find update
  find-update_other p q f [] apart apart' = refl
  find-update_other p q f (y ∷ xs) apart apart' =
      ground (arith, apart y, apart' y, find-update_other p q f xs apart apart')

  pub find-delete_other :
      (p q : A → Bool) (xs : List A)
      → ((y : A) → p y ≡ true → q y ≡ false)
      → find q (delete p xs) ≡ find q xs
  unfolding find delete
  find-delete_other p q [] apart = refl
  find-delete_other p q (y ∷ xs) apart = ground (arith, apart y, find-delete_other p q xs apart)

  -- a row that a search finds passes no test that no row passes
  pub find-any :
      (p q : A → Bool) (xs : List A) (x : A) → find q xs ≡ some x → any p xs ≡ false → p x ≡ false
  unfolding find any
  find-any p q [] x e h = cc
  find-any p q (y ∷ xs) x e h = ground (arith, find-any p q xs x)

module _ {ℓ κ} {A : Type ℓ} {K : Type κ} ⦃e : Eq K⦄ (key : A → K) where
  abbrev pub IsUnique : List A → Type 0
  IsUnique [] = Unit
  IsUnique (x ∷ xs) = (any (λ y. key y == key x) xs ≡ false) × IsUnique xs

  pub update-IsUnique :
      (p : A → Bool) (f : A → A) (xs : List A)
      → ((x : A) → p x ≡ true → key (f x) ≡ key x)
      → IsUnique xs
      → IsUnique (update p f xs)
  unfolding update
  update-IsUnique p f [] h u = tt
  update-IsUnique p f (x ∷ xs) h u = elim (Bool-cases (p x)) [
    | inl hit ↦ rw hit (rw (h x hit) (apart, update-IsUnique p f xs h u.1))
    | inr miss ↦ rw miss (apart, update-IsUnique p f xs h u.1)
  ]
    where
      apart : any (λ y. key y == key x) (update p f xs) ≡ false
      apart = rw (any-update p (λ y. key y == key x) f xs (λ y e. rw (h y e) refl)) u.0

  pub delete-IsUnique : (p : A → Bool) (xs : List A) → IsUnique xs → IsUnique (delete p xs)
  unfolding delete
  delete-IsUnique p [] u = tt
  delete-IsUnique p (x ∷ xs) u =
      ground (arith, any-delete p (λ y. key y == key x) xs, delete-IsUnique p xs u.1)

  -- a query by the key gives one row at most, the one that a search finds
  pub select-IsUnique :
      (k : K) (xs : List A)
      → IsUnique xs
      → select (λ x. key x == k) xs
        ≡ (elim (find (λ x. key x == k) xs) [ none ↦ [] | some x ↦ x ∷ [] ])
  unfolding select find
  select-IsUnique k [] u = refl
  select-IsUnique k (x ∷ xs) u = elim (Bool-cases (key x == k)) [
    | inl hit ↦
        rw hit (
          ground
            (arith, select-of_none (λ y. key y == k) xs (rw ((eq_iff (key x) k).0 hit) at u.0)))
    | inr miss ↦ rw miss (select-IsUnique k xs u.1)
  ]
