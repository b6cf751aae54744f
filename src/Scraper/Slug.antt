-- ===== src/Scraper/Slug.antt =====
-- The slug of a new provider: `_make_unique_slug` in apps/scraper/src/ozzb2b_scraper/pipeline.py.
use ozzb2b.Shared.{
  ℕ, zero, suc, ◌+◌, ◌≤◌, ◌<◌, ◌≡◌, ◌⊎◌, inl, inr, refl, sym, ap, Bool, true, false, List, [], ◌∷◌,
  ◌++◌, ◌==◌, text_eq, nat_eq, eq_iff, ◌∙◌, Text, take, length, any, delete, is_truthy,
  if◌then◌else◌, arith, Bool-cases,
}
use ozzb2b.Leads.Form.{decimal, int_of}
use ozzb2b.Leads.Form.RoundTrip.{int_of-decimal}
use ozzb2b.Scraper.{ProviderRow, Externals}

-- `SELECT 1 FROM providers WHERE slug = $1`
unfoldable pub is_taken : List ProviderRow → Text → Bool
is_taken rows slug = any (λ p. p.slug == slug) rows

-- `slugify(base)[:140] or uuid.uuid4().hex[:12]`
unfoldable pub base_slug : Externals → Text → Text → Text
base_slug ext hex name =
    let slug = take 140 (ext.slugify name) in if is_truthy slug then slug else take 12 hex

unfoldable pub numbered : Text → ℕ → Text
numbered slug i = slug ++ b'-' ∷ decimal i

-- the loop from `i` on; as many rounds as there are rows, and one, are enough
unfoldable pub first_free : ℕ → List ProviderRow → Text → ℕ → Text
first_free zero rows slug i = numbered slug i
first_free (suc fuel) rows slug i =
    let later = first_free fuel rows slug (i + 1) in
    if is_taken rows (numbered slug i) then later else numbered slug i

unfoldable pub make_unique_slug : Externals → List ProviderRow → Text → Text → Text
make_unique_slug ext rows hex name =
    if is_taken rows (base_slug ext hex name)
    then first_free (suc (length rows)) rows (base_slug ext hex name) 2
    else base_slug ext hex name

append_cancel : (s a b : Text) → s ++ a ≡ s ++ b → a ≡ b
append_cancel [] a b h = h
append_cancel (c ∷ s) a b h = append_cancel s a b cc

numbered_inj : (slug : Text) (i j : ℕ) → numbered slug i ≡ numbered slug j → i ≡ j
unfolding numbered
numbered_inj slug i j h =
    let tails = append_cancel slug (b'-' ∷ decimal i) (b'-' ∷ decimal j) h in
    let digits : decimal i ≡ decimal j = cc in
    sym (int_of-decimal i) ∙ ap int_of digits ∙ int_of-decimal j

length-delete_le :
    (p : ProviderRow → Bool) (rows : List ProviderRow) → length (delete p rows) ≤ length rows
unfolding delete
length-delete_le p [] = omega arith
length-delete_le p (x ∷ rows) = ground (arith, length-delete_le p rows)

length-delete :
    (p : ProviderRow → Bool) (rows : List ProviderRow)
    → any p rows ≡ true
    → suc (length (delete p rows)) ≤ length rows
unfolding any delete
length-delete p [] h = cc
length-delete p (x ∷ rows) h = ground (arith, length-delete_le p rows, length-delete p rows)

any-delete_other :
    (p q : ProviderRow → Bool) (rows : List ProviderRow)
    → ((x : ProviderRow) → q x ≡ true → p x ≡ false)
    → any q (delete p rows) ≡ any q rows
unfolding any delete
any-delete_other p q [] apart = refl
any-delete_other p q (x ∷ rows) apart = ground (arith, apart x, any-delete_other p q rows apart)

-- `r` is the first free slug of those numbered from `i` on
pub record IsFirstFree (rows : List ProviderRow) (slug : Text) (i : ℕ) (r : Text) : Type 0 where
  pub place : ℕ
  pub named : r ≡ numbered slug place
  pub late : i ≤ place
  pub free : is_taken rows r ≡ false
  pub passed : (j : ℕ) → i ≤ j → j < place → is_taken rows (numbered slug j) ≡ true

-- a slug that is taken is passed
IsFirstFree-next :
    (rows : List ProviderRow) (slug : Text) (i : ℕ) (r : Text)
    → is_taken rows (numbered slug i) ≡ true
    → IsFirstFree rows slug (i + 1) r
    → IsFirstFree rows slug i r
IsFirstFree-next rows slug i r taken later = record {
  place = later.place;
  named = later.named;
  late = omega (arith, later.late);
  free = later.free;
  passed = λ j le lt. elim (Bool-cases (j == i)) [
    | inl here ↦ rw ((eq_iff j i).0 here) taken
    | inr past ↦ later.passed j (ground (arith, le, past)) lt
  ];
}

-- the later slugs that are taken are taken in the rows without the slug that was passed
later_taken :
    (left : List ProviderRow) (slug : Text) (i j : ℕ)
    → i + 1 ≤ j
    → is_taken left (numbered slug j) ≡ true
    → is_taken (delete (λ p. p.slug == numbered slug i) left) (numbered slug j) ≡ true
unfolding any is_taken
later_taken left slug i j le taken =
    any-delete_other (λ p. p.slug == numbered slug i) (λ p. p.slug == numbered slug j) left apart
    ∙ taken
  where
    apart :
        (x : ProviderRow) → (x.slug == numbered slug j) ≡ true → (x.slug == numbered slug i) ≡ false
    apart x h = elim (Bool-cases (x.slug == numbered slug i)) [
      | inl e ↦
          let same =
            numbered_inj slug i j (
              sym ((eq_iff x.slug (numbered slug i)).0 e)
              ∙ (eq_iff x.slug (numbered slug j)).0 h) in
          absurd (omega (arith, same, le))
      | inr e ↦ e
    ]

first_free-IsFirstFree :
    (fuel : ℕ) (rows left : List ProviderRow) (slug : Text) (i : ℕ)
    → ((j : ℕ)
        → i ≤ j
        → is_taken rows (numbered slug j) ≡ true
        → is_taken left (numbered slug j) ≡ true)
    → length left < fuel
    → IsFirstFree rows slug i (first_free fuel rows slug i)
unfolding first_free any is_taken
first_free-IsFirstFree zero rows left slug i in_left enough = absurd (omega (arith, enough))
first_free-IsFirstFree (suc fuel) rows left slug i in_left enough =
    elim (Bool-cases (is_taken rows (numbered slug i))) [
      | inl taken ↦
          let less =
            length-delete (λ p. p.slug == numbered slug i) left (in_left i (omega arith) taken) in
          rw taken (
            IsFirstFree-next rows slug i _ taken (
              first_free-IsFirstFree fuel rows (delete (λ p. p.slug == numbered slug i) left) slug
                (i + 1) (λ j le h. later_taken left slug i j le (in_left j (omega (arith, le)) h))
                (omega (arith, less, enough))))
      | inr free ↦ rw free (record {
        place = i;
        named = refl;
        late = omega arith;
        free = free;
        passed = λ j le lt. absurd (omega (arith, le, lt));
      })
    ]

-- The search for a slug ends, whatever slugs the other providers have: it gives the base slug when no
-- provider has it, and otherwise the base slug with the least number from 2 on that is free.
pub make_unique_slug_lem :
    (ext : Externals) (rows : List ProviderRow) (hex name : Text)
    → (is_taken rows (make_unique_slug ext rows hex name) ≡ false)
      × ((make_unique_slug ext rows hex name ≡ base_slug ext hex name)
          ⊎ ((is_taken rows (base_slug ext hex name) ≡ true)
              × IsFirstFree rows (base_slug ext hex name) 2 (make_unique_slug ext rows hex name)))
unfolding make_unique_slug
make_unique_slug_lem ext rows hex name =
    elim (Bool-cases (is_taken rows (base_slug ext hex name))) [
      | inl taken ↦
          let first =
            first_free-IsFirstFree (suc (length rows)) rows rows (base_slug ext hex name) 2
              (λ j le h. h) (omega arith) in
          rw taken (first.free, inr (refl, first))
      | inr free ↦ rw free (free, inl refl)
    ]
