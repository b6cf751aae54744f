-- ===== src/Shared/Sort.antt =====
-- ORDER BY as a stable insertion sort by a test that says which row comes first, and its laws.
use Prim.Native.Nat.{◌+◌}
use mathlib.Core.Path.{◌≡◌, refl}
use mathlib.Core.Logic.{inl, inr}
use mathlib.Core.Bool.{Bool, true, false, ◌||◌}
use mathlib.Core.List.{List, [], ◌∷◌}
use native.Mathlib.Omega.{arith}
use ozzb2b.Shared.Compare.{if◌then◌else◌, Bool-cases}
use ozzb2b.Shared.Lists.{All, any, count, select}

module _ {ℓ} {A : Type ℓ} (before : A → A → Bool) where
  unfoldable pub insert_by : A → List A → List A
  insert_by x [] = x ∷ []
  insert_by x (y ∷ ys) = let rest = y ∷ insert_by x ys in if before x y then x ∷ y ∷ ys else rest

  unfoldable pub sort_by : List A → List A
  sort_by [] = []
  sort_by (x ∷ xs) = insert_by x (sort_by xs)

  -- sorting keeps the number of rows that pass a test
  count-insert_by :
      (p : A → Bool) (x : A) (ys : List A)
      → count p (insert_by x ys) ≡ (if p x then 1 else 0) + count p ys
  unfolding count insert_by
  count-insert_by p x [] = refl
  count-insert_by p x (y ∷ ys) = ground (arith, count-insert_by p x ys)

  pub count-sort_by : (p : A → Bool) (xs : List A) → count p (sort_by xs) ≡ count p xs
  unfolding count sort_by
  count-sort_by p [] = refl
  count-sort_by p (x ∷ xs) = ground (arith, count-insert_by p x (sort_by xs), count-sort_by p xs)

  pub any-insert_by :
      (p : A → Bool) (x : A) (ys : List A) → any p (insert_by x ys) ≡ (p x || any p ys)
  unfolding any insert_by
  any-insert_by p x [] = refl
  any-insert_by p x (y ∷ ys) = ground (arith, any-insert_by p x ys)

  pub any-sort_by : (p : A → Bool) (xs : List A) → any p (sort_by xs) ≡ any p xs
  unfolding any sort_by
  any-sort_by p [] = refl
  any-sort_by p (x ∷ xs) = ground (arith, any-insert_by p x (sort_by xs), any-sort_by p xs)

  pub All-insert_by {κ} :
      (P : A → Type κ) (x : A) (ys : List A) → P x → All P ys → All P (insert_by x ys)
  unfolding insert_by
  All-insert_by P x [] h k = (h, tt)
  All-insert_by P x (y ∷ ys) h k = elim (Bool-cases (before x y)) [
    | inl e ↦ rw e (h, k)
    | inr e ↦ rw e (k.0, All-insert_by P x ys h k.1)
  ]

  pub All-sort_by {κ} : (P : A → Type κ) (xs : List A) → All P xs → All P (sort_by xs)
  unfolding sort_by
  All-sort_by P [] h = tt
  All-sort_by P (x ∷ xs) h = All-insert_by P x (sort_by xs) h.0 (All-sort_by P xs h.1)

  pub All-select_of {κ} :
      (P : A → Type κ) (p : A → Bool) (ys : List A) → All P ys → All P (select p ys)
  unfolding select
  All-select_of P p [] h = tt
  All-select_of P p (y ∷ ys) h = elim (Bool-cases (p y)) [
    | inl e ↦ rw e (h.0, All-select_of P p ys h.1)
    | inr e ↦ rw e (All-select_of P p ys h.1)
  ]

  -- each row stands before all that follow
  abbrev pub IsSorted : List A → Type 0
  IsSorted [] = Unit
  IsSorted (x ∷ xs) = All (λ y. before x y ≡ true) xs × IsSorted xs

  -- for a test that relates any two rows one way or the other and is transitive
  module _ (total : (x y : A) → before x y ≡ false → before y x ≡ true)
      (trans : (x y z : A) → before x y ≡ true → before y z ≡ true → before x z ≡ true) where
    All-before :
        (x y : A) (ys : List A)
        → before x y ≡ true
        → All (λ z. before y z ≡ true) ys
        → All (λ z. before x z ≡ true) ys
    All-before x y [] h k = tt
    All-before x y (z ∷ zs) h k = (trans x y z h k.0, All-before x y zs h k.1)

    pub insert_by-IsSorted : (x : A) (ys : List A) → IsSorted ys → IsSorted (insert_by x ys)
    unfolding insert_by
    insert_by-IsSorted x [] h = (tt, tt)
    insert_by-IsSorted x (y ∷ ys) h = elim (Bool-cases (before x y)) [
      | inl e ↦ rw e ((e, All-before x y ys e h.0), h)
      | inr e ↦ rw e (
        All-insert_by (λ z. before y z ≡ true) x ys (total x y e) h.0,
        insert_by-IsSorted x ys h.1,
      )
    ]

    pub sort_by-IsSorted : (xs : List A) → IsSorted (sort_by xs)
    unfolding sort_by
    sort_by-IsSorted [] = tt
    sort_by-IsSorted (x ∷ xs) = insert_by-IsSorted x (sort_by xs) (sort_by-IsSorted xs)

    -- a row that stands before all of a sorted list goes to its front
    insert_by-front :
        (x : A) (ys : List A) → All (λ y. before x y ≡ true) ys → insert_by x ys ≡ x ∷ ys
    unfolding insert_by
    insert_by-front x [] h = refl
    insert_by-front x (y ∷ ys) h = rw h.0 refl

    select-insert_by :
        (p : A → Bool) (x : A) (ys : List A)
        → IsSorted ys
        → select p (insert_by x ys) ≡ (if p x then insert_by x (select p ys) else select p ys)
    unfolding select insert_by
    select-insert_by p x [] h = ground arith
    select-insert_by p x (y ∷ ys) h = elim (Bool-cases (before x y)) [
      | inl e ↦ ground (
        arith,
        e,
        insert_by-front x (select p (y ∷ ys))
            (All-select_of (λ z. before x z ≡ true) p (y ∷ ys) (e, All-before x y ys e h.0)),
      )
      | inr e ↦ ground (arith, e, select-insert_by p x ys h.1)
    ]

    -- filtering and sorting commute
    pub select-sort_by :
        (p : A → Bool) (xs : List A) → select p (sort_by xs) ≡ sort_by (select p xs)
    unfolding select sort_by
    select-sort_by p [] = refl
    select-sort_by p (x ∷ xs) =
        ground (arith, select-insert_by p x (sort_by xs) (sort_by-IsSorted xs), select-sort_by p xs)
