-- ===== src/Scraper/Invariant.antt =====
-- The keys of the table of providers: ids, slugs, and sources with their ids.
use ozzb2b.Shared.{
  ℕ, ◌≡◌, ◌≢◌, refl, sym, ap, ◌∙◌, ◌⊎◌, inl, inr, true, false, not, ◌&&◌, Option, none, some, List,
  [], ◌∷◌, ◌==◌, nat_eq, text_eq, option_nat_eq, eq_iff, eq_refl, Text, any, update, is_some,
  Bool-cases, Option-cases, All, IsUnique, update-IsUnique, arith, any-Mem, any-of_Mem, update-Mem,
}
use mathlib.Core.List.{Memᴰ}
use mathlib.Core.List.Memᴰ.{head, tail}
use ozzb2b.Scraper.{ProviderRow, has_source, is_text}
use ozzb2b.Scraper.Upsert.{shares_source, clashes}

-- no row shares its source and the id there with a row that follows
abbrev pub AllApart : List ProviderRow → Type 0
AllApart [] = Unit
AllApart (p ∷ rows) = (any (shares_source p) rows ≡ false) × AllApart rows

-- the source is set if the id there is
unfoldable pub IsPaired : ProviderRow → Type 0
IsPaired p = is_some p.source ≡ is_some p.source_id

pub record IsSound (rows : List ProviderRow) : Type 0 where
  pub ids : IsUnique (λ (p : ProviderRow). p.id) rows
  pub slugs : IsUnique (λ (p : ProviderRow). p.slug) rows
  pub apart : AllApart rows
  pub paired : All IsPaired rows

is_text-eq : (o : Option Text) (s : Text) → is_text o s ≡ true → o ≡ some s
unfolding is_text
is_text-eq none s h = absurd cc
is_text-eq (some t) s h = ap some ((eq_iff t s).0 h)

is_text-some : (s : Text) → is_text (some s) s ≡ true
unfolding is_text
is_text-some s = eq_refl s

-- what both rows have
record Shared (p q : ProviderRow) : Type 0 where
  source : Text
  id : Text
  first : (p.source ≡ some source) × (p.source_id ≡ some id)
  second : (q.source ≡ some source) × (q.source_id ≡ some id)

has_source-eq :
    (source id : Text) (q : ProviderRow)
    → has_source source id q ≡ true
    → (q.source ≡ some source) × (q.source_id ≡ some id)
unfolding has_source
has_source-eq source id q h =
    (is_text-eq q.source source (ground arith), is_text-eq q.source_id id (ground arith))

shares_source-Shared : (p q : ProviderRow) → shares_source p q ≡ true → Shared p q
unfolding shares_source
shares_source-Shared p q h = elim (Option-cases p.source) [
  | inl a ↦ absurd (ground (arith, a))
  | inr (s, a) ↦ elim (Option-cases p.source_id) [
    | inl b ↦ absurd (ground (arith, a, b))
    | inr (i, b) ↦ record {
      source = s;
      id = i;
      first = (a, b);
      second = has_source-eq s i q (ground (arith, a, b));
    }
  ]
]

Shared-shares_source : (p q : ProviderRow) → Shared p q → shares_source p q ≡ true
unfolding shares_source has_source
Shared-shares_source p q w =
    rw (w.first.0, w.first.1, w.second.0, w.second.1, is_text-some w.source, is_text-some w.id) refl

shares_source_sym : (p q : ProviderRow) → shares_source p q ≡ shares_source q p
shares_source_sym p q = elim (Bool-cases (shares_source p q)) [
  | inl h ↦
      let w = shares_source-Shared p q h in
      h
      ∙ sym (
          Shared-shares_source q p
            (record { source = w.source; id = w.id; first = w.second; second = w.first }))
  | inr h ↦ elim (Bool-cases (shares_source q p)) [
    | inl k ↦
        let w = shares_source-Shared q p k in
        absurd (
          ground (
            arith,
            h,
            Shared-shares_source p q
                (record { source = w.source; id = w.id; first = w.second; second = w.first }),
          ))
    | inr k ↦ h ∙ sym k
  ]
]

-- rows apart stand for: two rows of a list with distinct ids share nothing
pub AllApart-Mem :
    (rows : List ProviderRow) {p q : ProviderRow}
    → AllApart rows
    → Memᴰ p rows
    → Memᴰ q rows
    → p.id ≢ q.id
    → shares_source p q ≡ false
AllApart-Mem [] a m n h = elim m [ ]
AllApart-Mem (x ∷ rows) {p} {q} a (head e) (head e') h = absurd (h (ap (λ r. r.id) (e ∙ sym e')))
AllApart-Mem (x ∷ rows) {p} {q} a (head e) (tail n) h = rw e (any-Mem (shares_source x) rows a.0 n)
AllApart-Mem (x ∷ rows) {p} {q} a (tail m) (head e) h =
    rw e (shares_source_sym p x ∙ any-Mem (shares_source x) rows a.0 m)
AllApart-Mem (x ∷ rows) {p} {q} a (tail m) (tail n) h = AllApart-Mem rows a.1 m n h

AllApart-of_Mem :
    (rows : List ProviderRow)
    → IsUnique (λ (p : ProviderRow). p.id) rows
    → ((p q : ProviderRow) → Memᴰ p rows → Memᴰ q rows → p.id ≢ q.id → shares_source p q ≡ false)
    → AllApart rows
AllApart-of_Mem [] u h = tt
AllApart-of_Mem (x ∷ rows) u h = (
  any-of_Mem (shares_source x) rows λ y n. h x y (head refl) (tail n) (other y n),
  AllApart-of_Mem rows u.1 λ p q m n. h p q (tail m) (tail n),
)
  where
    other : (y : ProviderRow) → Memᴰ y rows → x.id ≢ y.id
    other y n e = ground (
      arith,
      any-Mem (λ (q : ProviderRow). q.id == x.id) rows u.0 n,
      (eq_iff y.id x.id).1 (sym e),
    )

unclashed :
    (f : ProviderRow → ProviderRow) (id : ℕ) (rows : List ProviderRow) {p q : ProviderRow}
    → clashes f id rows ≡ false
    → Memᴰ p rows
    → Memᴰ q rows
    → (p.id == id) ≡ true
    → (q.id == id) ≡ false
    → shares_source (f p) q ≡ false
unfolding clashes
unclashed f id rows {p} {q} c m n e e' =
    let row =
      any-Mem (λ p. p.id == id && any (λ q. not (q.id == id) && shares_source (f p) q) rows) rows c
        m in
    let others : any (λ q. not (q.id == id) && shares_source (f p) q) rows ≡ false =
      ground (arith, row, e) in
    let pair = any-Mem (λ q. not (q.id == id) && shares_source (f p) q) rows others n in
    ground (arith, pair, e')

-- an UPDATE that keeps the ids and the slugs, and clashes with no other row
module _ (f : ProviderRow → ProviderRow) (id : ℕ) (same_id : (p : ProviderRow) → (f p).id ≡ p.id)
    (same_slug : (p : ProviderRow) → (f p).slug ≡ p.slug)
    (pairs : (p : ProviderRow) → IsPaired p → IsPaired (f p)) where
  -- where a row of the updated list comes from
  abbrev From : List ProviderRow → ProviderRow → Type 0
  From rows y =
      (x : ProviderRow) × (Memᴰ x rows
        × ((((x.id == id) ≡ true) × (y ≡ f x)) ⊎ (((x.id == id) ≡ false) × (y ≡ x))))

  update-AllApart :
      (rows : List ProviderRow)
      → IsUnique (λ (p : ProviderRow). p.id) rows
      → AllApart rows
      → clashes f id rows ≡ false
      → AllApart (update (λ p. p.id == id) f rows)
  update-AllApart rows u a c =
      AllApart-of_Mem (update (λ p. p.id == id) f rows)
        (update-IsUnique (λ (p : ProviderRow). p.id) (λ p. p.id == id) f rows (λ p _. same_id p) u)
        λ p q m n h.
          two p q (update-Mem (λ p. p.id == id) f rows m) (update-Mem (λ p. p.id == id) f rows n) h
    where
      two :
          (p q : ProviderRow) → From rows p → From rows q → p.id ≢ q.id → shares_source p q ≡ false
      two p q (x, (m, inl (e, s))) (y, (n, inl (e', s'))) h = absurd (
          h (
            ap (λ r. r.id) s
            ∙ same_id x
            ∙ (eq_iff x.id id).0 e
            ∙ sym (ap (λ r. r.id) s' ∙ same_id y ∙ (eq_iff y.id id).0 e')))
      two p q (x, (m, inl (e, s))) (y, (n, inr (e', s'))) h =
          rw (s, s') (unclashed f id rows c m n e e')
      two p q (x, (m, inr (e, s))) (y, (n, inl (e', s'))) h =
          rw (s, s') (shares_source_sym x (f y) ∙ unclashed f id rows c n m e' e)
      two p q (x, (m, inr (e, s))) (y, (n, inr (e', s'))) h =
          rw (s, s')
            (AllApart-Mem rows a m n λ same. h (ap (λ r. r.id) s ∙ same ∙ sym (ap (λ r. r.id) s')))

  update-All_IsPaired :
      (rows : List ProviderRow) → All IsPaired rows → All IsPaired (update (λ p. p.id == id) f rows)
  unfolding update
  update-All_IsPaired [] h = tt
  update-All_IsPaired (p ∷ rows) h = elim (Bool-cases (p.id == id)) [
    | inl e ↦ rw e (pairs p h.0, update-All_IsPaired rows h.1)
    | inr e ↦ rw e (h.0, update-All_IsPaired rows h.1)
  ]

  pub update-IsSound :
      (rows : List ProviderRow)
      → IsSound rows
      → clashes f id rows ≡ false
      → IsSound (update (λ p. p.id == id) f rows)
  update-IsSound rows s c = record {
    ids =
        update-IsUnique (λ (p : ProviderRow). p.id) (λ p. p.id == id) f rows (λ p _. same_id p)
          s.ids;
    slugs =
        update-IsUnique (λ (p : ProviderRow). p.slug) (λ p. p.id == id) f rows (λ p _. same_slug p)
          s.slugs;
    apart = update-AllApart rows s.ids s.apart c;
    paired = update-All_IsPaired rows s.paired;
  }
