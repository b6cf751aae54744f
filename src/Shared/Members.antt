-- ===== src/Shared/Members.antt =====
-- Rows of a table: what a search or an ordered query gives is one of them.
use mathlib.Core.Path.{◌≡◌, refl, sym, ap, subst, ◌∙◌}
use mathlib.Core.Logic.{◌⊎◌, inl, inr}
use mathlib.Core.Bool.{Bool, true, false}
use mathlib.Core.Option.{none, some}
use mathlib.Core.List.{List, [], ◌∷◌, Memᴰ}
use mathlib.Core.List.Memᴰ.{head, tail}
use native.Mathlib.Omega.{arith}
use ozzb2b.Shared.Compare.{Eq, ◌==◌, eq_iff, Bool-cases}
use ozzb2b.Shared.Lists.{All, update, any, find}
use ozzb2b.Shared.Tables.{IsUnique}

module _ {ℓ} {A : Type ℓ} where
  pub find-Mem : (p : A → Bool) (xs : List A) {x : A} → find p xs ≡ some x → Memᴰ x xs
  unfolding find
  find-Mem p [] h = absurd cc
  find-Mem p (y ∷ xs) {x} h = elim (Bool-cases (p y)) [
    | inl e ↦ head (ground arith)
    | inr e ↦ tail (find-Mem p xs (ground arith))
  ]

  pub any-of_find-none : (p : A → Bool) (xs : List A) → find p xs ≡ none → any p xs ≡ false
  unfolding any find
  any-of_find-none p [] e = refl
  any-of_find-none p (x ∷ xs) e = ground (arith, any-of_find-none p xs)

  pub All-Mem {κ} : (P : A → Type κ) (xs : List A) {x : A} → All P xs → Memᴰ x xs → P x
  All-Mem P [] h m = elim m [ ]
  All-Mem P (y ∷ xs) {x} h (head e) = subst P (sym e) h.0
  All-Mem P (y ∷ xs) h (tail m) = All-Mem P xs h.1 m

  pub All-of_Mem {κ} : (P : A → Type κ) (xs : List A) → ((x : A) → Memᴰ x xs → P x) → All P xs
  All-of_Mem P [] h = tt
  All-of_Mem P (x ∷ xs) h = (h x (head refl), All-of_Mem P xs λ y m. h y (tail m))

  pub any-Mem : (p : A → Bool) (xs : List A) {x : A} → any p xs ≡ false → Memᴰ x xs → p x ≡ false
  unfolding any
  any-Mem p [] h m = elim m [ ]
  any-Mem p (y ∷ xs) {x} h (head e) = rw e (ground arith)
  any-Mem p (y ∷ xs) h (tail m) = any-Mem p xs (ground arith) m

  pub any-of_Mem :
      (p : A → Bool) (xs : List A) → ((x : A) → Memᴰ x xs → p x ≡ false) → any p xs ≡ false
  unfolding any
  any-of_Mem p [] h = refl
  any-of_Mem p (x ∷ xs) h = ground (arith, h x (head refl), any-of_Mem p xs λ y m. h y (tail m))

  -- an element that passes the test
  pub any-eq-true :
      (p : A → Bool) (xs : List A) → any p xs ≡ true → (x : A) × Memᴰ x xs × (p x ≡ true)
  unfolding any
  any-eq-true p [] h = absurd (ground (arith, h))
  any-eq-true p (x ∷ xs) h = elim (Bool-cases (p x)) [
    | inl e ↦ (x, head refl, e)
    | inr e ↦ let (y, there, hit) = any-eq-true p xs (ground (arith, h, e)) in (y, tail there, hit)
  ]

  pub any-of_one : (p : A → Bool) (xs : List A) {x : A} → Memᴰ x xs → p x ≡ true → any p xs ≡ true
  any-of_one p xs m h = elim (Bool-cases (any p xs)) [
    | inl e ↦ e
    | inr e ↦ absurd (ground (arith, any-Mem p xs e m, h))
  ]

  -- a row after an update is one that it changed or one that it left
  pub update-Mem :
      (p : A → Bool) (f : A → A) (xs : List A) {y : A}
      → Memᴰ y (update p f xs)
      → (x : A) × (Memᴰ x xs × (((p x ≡ true) × (y ≡ f x)) ⊎ ((p x ≡ false) × (y ≡ x))))
  unfolding update
  update-Mem p f [] m = elim m [ ]
  update-Mem p f (x ∷ xs) {y} (head h) = elim (Bool-cases (p x)) [
    | inl e ↦ (x, (head refl, inl (e, h ∙ (rw e refl))))
    | inr e ↦ (x, (head refl, inr (e, h ∙ (rw e refl))))
  ]
  update-Mem p f (x ∷ xs) (tail m) =
      let (z, (there, how)) = update-Mem p f xs m in (z, (tail there, how))

module _ {ℓ κ} {A : Type ℓ} {K : Type κ} ⦃e : Eq K⦄ (key : A → K) where
  apart : {b : Bool} → b ≡ false → b ≡ true → ⊥
  apart {b} f t = cc

  -- two rows with one key are the same row
  pub IsUnique-eq :
      (xs : List A) {x y : A} → IsUnique key xs → Memᴰ x xs → Memᴰ y xs → key x ≡ key y → x ≡ y
  IsUnique-eq [] u m n h = elim m [ ]
  IsUnique-eq (z ∷ xs) {x} {y} u (head a) (head b) h = a ∙ sym b
  IsUnique-eq (z ∷ xs) {x} {y} u (head a) (tail n) h = absurd (
      apart (any-Mem (λ w. key w == key z) xs u.0 n)
        ((eq_iff (key y) (key z)).1 (sym h ∙ ap key a)))
  IsUnique-eq (z ∷ xs) {x} {y} u (tail m) (head b) h =
      absurd
        (apart (any-Mem (λ w. key w == key z) xs u.0 m) ((eq_iff (key x) (key z)).1 (h ∙ ap key b)))
  IsUnique-eq (z ∷ xs) u (tail m) (tail n) h = IsUnique-eq xs u.1 m n h
