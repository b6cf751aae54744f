-- ===== src/Shared/Session.antt =====
-- Python code that changes a state and may raise. What was written before a raise stays written, so
-- the state comes back beside the error too; `get_db` is what takes it back.
use mathlib.Core.Path.{◌≡◌, refl}
use mathlib.Core.Logic.{◌⊎◌, inl, inr}
use mathlib.Core.Bool.{Bool, true, false}
use mathlib.Core.Option.{Option, none, some}
use mathlib.Core.List.{List, [], ◌∷◌}

pub data Result {ℓ} (E A : Type ℓ) : Type ℓ where
  ok : A → Result E A
  err : E → Result E A

abbrev pub Exec {ℓ} : Type ℓ → Type ℓ → Type ℓ → Type ℓ
Exec S E A = S → Result E A × S

module _ {ℓ} {S E A B : Type ℓ} where
  abbrev pub resume : Result E A → (A → Exec S E B) → Exec S E B
  resume (ok a) f s = f a s
  resume (err e) f s = (err e, s)

  infixl 5 ◌>>=◌ ◌>>◌
  abbrev pub ◌>>=◌ : Exec S E A → (A → Exec S E B) → Exec S E B
  ◌>>=◌ m f s = resume (m s).0 f (m s).1

  abbrev pub ◌>>◌ : Exec S E A → Exec S E B → Exec S E B
  ◌>>◌ m n s = resume (m s).0 (λ _. n) (m s).1

abbrev pub found_or {ℓ} : {E A : Type ℓ} → E → Option A → Result E A
found_or e none = err e
found_or e (some a) = ok a

module _ {ℓ} {S E A : Type ℓ} where
  abbrev pub pure : A → Exec S E A
  pure a s = (ok a, s)

  abbrev pub raise : E → Exec S E A
  raise e s = (err e, s)

  abbrev pub lift : Result E A → Exec S E A
  lift r s = (r, s)

  abbrev pub gets : (S → A) → Exec S E A
  gets f s = (ok (f s), s)

  -- `if x is None: raise e`
  abbrev pub or_raise : E → Option A → Exec S E A
  or_raise e o s = (found_or e o, s)

abbrev pub check : {E : Type 0} → Bool → E → Result E Unit
check true e = ok tt
check false e = err e

module _ {S E : Type 0} where
  abbrev pub modify : (S → S) → Exec S E Unit
  modify f s = (ok tt, f s)

  -- `if not b: raise e`
  abbrev pub guard : Bool → E → Exec S E Unit
  guard b e s = (check b e, s)

-- `scalar_one_or_none`: several rows are an error
abbrev pub scalar_one_or_none {ℓ} : {E A : Type ℓ} → E → List A → Result E (Option A)
scalar_one_or_none e [] = ok none
scalar_one_or_none e (x ∷ []) = ok (some x)
scalar_one_or_none e (x ∷ y ∷ rest) = err e

-- `scalar_one_or_none`, and an error of its own for no row
abbrev pub one_or_raise {ℓ} : {E A : Type ℓ} → E → E → List A → Result E A
one_or_raise many missing [] = err missing
one_or_raise many missing (x ∷ []) = ok x
one_or_raise many missing (x ∷ y ∷ rest) = err many

-- The dependency `get_db`: commit when the handler returns, roll back when it raises. `rollback`
-- takes the state before and after to the state that a rollback leaves.
unfoldable pub get_db {ℓ} : {S E A : Type ℓ} → (S → S → S) → Exec S E A → Exec S E A
get_db rollback m s = elim (m s).0 [ ok a ↦ (ok a, (m s).1) | err e ↦ (err e, rollback s (m s).1) ]

-- A property of the state that the first step leaves, and that the rest keeps, holds at the end.
module _ {ℓ κ} {S E A B : Type ℓ} (P : S → Type κ) where
  resume-holds :
      (r : Result E A) (f : A → Exec S E B) (s : S)
      → P s
      → ((a : A) → r ≡ ok a → P (f a s).1)
      → P (resume r f s).1
  resume-holds (ok a) f s h k = k a refl
  resume-holds (err e) f s h k = h

  pub bind-holds :
      (m : Exec S E A) (f : A → Exec S E B) (s : S)
      → P (m s).1
      → ((a : A) → (m s).0 ≡ ok a → P (f a (m s).1).1)
      → P ((m >>= f) s).1
  bind-holds m f s h k = resume-holds (m s).0 f (m s).1 h k

-- Inversion of a chain that returns.
module _ {ℓ} {S E A B : Type ℓ} where
  resume-eq-ok :
      (r : Result E A) (f : A → Exec S E B) (s : S) {b : B} {t : S}
      → resume r f s ≡ (ok b, t)
      → (a : A) × (r ≡ ok a) × (f a s ≡ (ok b, t))
  resume-eq-ok (ok a) f s h = (a, refl, h)
  resume-eq-ok (err e) f s h = cc

  pub bind-eq-ok :
      (m : Exec S E A) (f : A → Exec S E B) (s : S) {b : B} {t : S}
      → (m >>= f) s ≡ (ok b, t)
      → (a : A) × ((m s).0 ≡ ok a) × (f a (m s).1 ≡ (ok b, t))
  bind-eq-ok m f s h = resume-eq-ok (m s).0 f (m s).1 h

module _ {ℓ} {S E A B : Type ℓ} where
  resume_returns :
      (r : Result E A) (f : A → Exec S E B) (s : S) {b : B}
      → (resume r f s).0 ≡ ok b
      → (a : A) × (r ≡ ok a) × ((f a s).0 ≡ ok b)
  resume_returns (ok a) f s h = (a, refl, h)
  resume_returns (err e) f s h = cc

  pub bind_returns :
      (m : Exec S E A) (f : A → Exec S E B) (s : S) {b : B}
      → ((m >>= f) s).0 ≡ ok b
      → (a : A) × ((m s).0 ≡ ok a) × ((f a (m s).1).0 ≡ ok b)
  bind_returns m f s h = resume_returns (m s).0 f (m s).1 h

pub check-eq-ok : {E : Type 0} (b : Bool) (e : E) → check b e ≡ ok tt → b ≡ true
check-eq-ok true e h = refl
check-eq-ok false e h = cc

pub Result-cases {ℓ} :
    {E A : Type ℓ} (r : Result E A) → ((a : A) × (r ≡ ok a)) ⊎ ((e : E) × (r ≡ err e))
Result-cases (ok a) = inl (a, refl)
Result-cases (err e) = inr (e, refl)
