-- ===== src/Leads/Match/Laws.antt =====
-- Whom match_providers returns, in which order, and when nobody is left out.
use ozzb2b.Shared.{
  ℕ, zero, suc, ◌≤◌, ◌≡◌, refl, Bool, true, false, Option, none, some, List, [], ◌∷◌, nat_eq, Text,
  length, length-take, take, All, All-take, All-map_of, select, count, arith, min, inl, inr,
  Bool-cases, Option-cases, option_nat_eq, text_eq, ◌↔◌,
}
use ozzb2b.Domain.{Provider}
use ozzb2b.Leads.Data.{Lead, LeadsDb}
use ozzb2b.Leads.Match.Addressees.{
  IsAddressee, MayPrecede, IsOrdered, rank-MayPrecede, published_iff, in_category_iff,
}
use ozzb2b.Leads.Match.{is_eligible, rank, precedes, place, order_by, match_in, match_providers}

-- Each provider's rank is at most that of those behind it.
abbrev pub IsRanked : Lead → List Provider → Type 0
IsRanked lead [] = Unit
IsRanked lead (p ∷ ps) = All (λ q. rank lead p ≤ rank lead q) ps × IsRanked lead ps

IsRanked-IsOrdered : (lead : Lead) (ps : List Provider) → IsRanked lead ps → IsOrdered lead ps
IsRanked-IsOrdered lead [] h = tt
IsRanked-IsOrdered lead (p ∷ ps) (first, rest) = (
  All-map_of (λ q. rank lead p ≤ rank lead q) (MayPrecede lead p) ps
      (λ q k. rank-MayPrecede lead p q k) first,
  IsRanked-IsOrdered lead ps rest,
)

All-select : (t : Provider → Bool) (ps : List Provider) → All (λ p. t p ≡ true) (select t ps)
unfolding select
All-select t [] = tt
All-select t (p ∷ ps) = ground (arith, All-select t ps)

length-select : (t : Provider → Bool) (ps : List Provider) → length (select t ps) ≡ count t ps
unfolding select count
length-select t [] = refl
length-select t (p ∷ ps) = ground (arith, length-select t ps)

IsRanked-take :
    (lead : Lead) (n : ℕ) (ps : List Provider) → IsRanked lead ps → IsRanked lead (take n ps)
IsRanked-take lead zero ps h = tt
IsRanked-take lead (suc n) [] h = tt
IsRanked-take lead (suc n) (p ∷ ps) h =
    (All-take (λ q. rank lead p ≤ rank lead q) n ps h.0, IsRanked-take lead n ps h.1)

module _ (name_le : Text → Text → Bool) (lead : Lead) where
  All-place :
      (P : Provider → Type 0) (p : Provider) (ps : List Provider)
      → P p
      → All P ps
      → All P (place name_le lead p ps)
  unfolding place
  All-place P p [] h k = (h, tt)
  All-place P p (q ∷ qs) h k = elim (Bool-cases (precedes name_le lead p q)) [
    | inl e ↦ rw e (h, k)
    | inr e ↦ rw e (k.0, All-place P p qs h k.1)
  ]

  All-order_by :
      (P : Provider → Type 0) (ps : List Provider) → All P ps → All P (order_by name_le lead ps)
  unfolding order_by
  All-order_by P [] h = tt
  All-order_by P (p ∷ ps) h = All-place P p _ h.0 (All-order_by P ps h.1)

  length-place :
      (p : Provider) (ps : List Provider) → length (place name_le lead p ps) ≡ suc (length ps)
  unfolding place
  length-place p [] = refl
  length-place p (q ∷ qs) = ground (arith, length-place p qs)

  length-order_by : (ps : List Provider) → length (order_by name_le lead ps) ≡ length ps
  unfolding order_by
  length-order_by [] = refl
  length-order_by (p ∷ ps) =
      omega (arith, length-place p (order_by name_le lead ps), length-order_by ps)

  precedes-le : (p q : Provider) → precedes name_le lead p q ≡ true → rank lead p ≤ rank lead q
  unfolding precedes
  precedes-le p q e = ground arith

  not_precedes-le : (p q : Provider) → precedes name_le lead p q ≡ false → rank lead q ≤ rank lead p
  unfolding precedes
  not_precedes-le p q e = ground arith

  IsRanked-place :
      (p : Provider) (ps : List Provider)
      → IsRanked lead ps
      → IsRanked lead (place name_le lead p ps)
  unfolding place
  IsRanked-place p [] h = (tt, tt)
  IsRanked-place p (q ∷ qs) h = elim (Bool-cases (precedes name_le lead p q)) [
    | inl e ↦ rw e (
      (
        precedes-le p q e,
        All-map_of (λ r. rank lead q ≤ rank lead r) (λ r. rank lead p ≤ rank lead r) qs
            (λ r k. omega (arith, precedes-le p q e)) h.0,
      ),
      h,
    )
    | inr e ↦ rw e (
      All-place (λ r. rank lead q ≤ rank lead r) p qs (not_precedes-le p q e) h.0,
      IsRanked-place p qs h.1,
    )
  ]

  IsRanked-order_by : (ps : List Provider) → IsRanked lead (order_by name_le lead ps)
  unfolding order_by
  IsRanked-order_by [] = tt
  IsRanked-order_by (p ∷ ps) = IsRanked-place p _ (IsRanked-order_by ps)

  unfoldable pub eligible : LeadsDb → Option ℕ → Provider → Bool
  eligible db none p = false
  eligible db (some category) p = is_eligible db category p

  count_none : (ps : List Provider) → count (λ (p : Provider). false) ps ≡ 0
  unfolding count
  count_none [] = refl
  count_none (p ∷ ps) = omega (arith, count_none ps)

  eligible_iff :
      (db : LeadsDb) (p : Provider)
      → (eligible db lead.category_id p ≡ true) ↔ IsAddressee lead db p
  unfolding eligible is_eligible
  eligible_iff db p = (there lead.category_id refl, back)
    where
      there : (o : Option ℕ) → lead.category_id ≡ o → eligible db o p ≡ true → IsAddressee lead db p
      there none e h = absurd (ground arith)
      there (some category) e h =
          let (l, m, own, below) = (in_category_iff db category p).0 (ground (arith, h)) in
          elim (Option-cases p.email) [
            | inl unset ↦ absurd (ground (arith, h, unset))
            | inr (email, given) ↦ record {
              category = category;
              asked = e;
              listing = l;
              listed = m;
              own = own;
              below = below;
              published = (published_iff p.status).0 (ground (arith, h));
              email = email;
              has_email = given;
              non_empty = ground (arith, h, given);
              welcome = ground (arith, h, given);
            }
          ]

      back : IsAddressee lead db p → eligible db lead.category_id p ≡ true
      back a =
          rw (a.asked, a.has_email)
            (ground (
              arith,
              (in_category_iff db a.category p).1 (a.listing, a.listed, a.own, a.below),
              (published_iff p.status).1 a.published,
              a.non_empty,
              a.welcome,
            ))

  match_in_laws :
      (db : LeadsDb) (category : Option ℕ) (limit : ℕ)
      → All (λ p. eligible db category p ≡ true) (match_in name_le lead db category limit)
        × IsRanked lead (match_in name_le lead db category limit)
        × (length (match_in name_le lead db category limit)
            ≡ min limit (count (eligible db category) db.providers))
  unfolding match_in eligible
  match_in_laws db none limit = (tt, tt, omega (arith, count_none db.providers))
  match_in_laws db (some category) limit =
      let chosen = select (is_eligible db category) db.providers in
      (
        All-take _ limit _ (
            All-order_by (λ p. is_eligible db category p ≡ true) chosen
              (All-select _ db.providers)),
        IsRanked-take lead limit _ (IsRanked-order_by chosen),
        omega (
          arith,
          length-take limit (order_by name_le lead chosen),
          length-order_by chosen,
          length-select (is_eligible db category) db.providers,
        ),
      )

  pub length-match_providers :
      (db : LeadsDb) (limit : ℕ)
      → length (match_providers name_le lead db limit)
        ≡ min limit (count (eligible db lead.category_id) db.providers)
  unfolding match_providers
  length-match_providers db limit =
      let (_, _, size) = match_in_laws db lead.category_id limit in size

  -- Every provider returned is an addressee: listed in the lead's category or in a child of it,
  -- published, with an e-mail that is not suppressed. Those of the lead's city come first, and in each of
  -- the two groups the claimed ones. As many are returned as pass a test that exactly the addressees
  -- pass, cut at the limit.
  pub match_providers_laws :
      (db : LeadsDb) (limit : ℕ)
      → All (IsAddressee lead db) (match_providers name_le lead db limit)
        × IsOrdered lead (match_providers name_le lead db limit)
        × ((test : Provider → Bool) × ((p : Provider) → (test p ≡ true) ↔ IsAddressee lead db p)
            × (length (match_providers name_le lead db limit)
                ≡ min limit (count test db.providers)))
  unfolding match_providers
  match_providers_laws db limit =
      let (chosen, ranked, number) = match_in_laws db lead.category_id limit in
      (
        All-map_of (λ p. eligible db lead.category_id p ≡ true) (IsAddressee lead db) _
            (λ p e. (eligible_iff db p).0 e) chosen,
        IsRanked-IsOrdered lead _ ranked,
        (eligible db lead.category_id, eligible_iff db, number),
      )
