-- ===== src/Claims/Verified.antt =====
-- What a verification that returns has checked and done, and what two verifications do whose
-- homepage fetches overlap.
use ozzb2b.Shared.{
  subst, ℕ, ◌≡◌, ◌≢◌, refl, sym, ap, ◌∙◌, true, false, not, Option, none, some, List, [], ◌∷◌, ◌==◌,
  nat_eq, text_eq, option_nat_eq, nat_beq_iff, eq_iff, eq_refl, Text, is_truthy, or_empty, any, all,
  find, select, err, arith, ok, Result, Bool-cases, inl, inr, bind-eq-ok, guard, or_raise,
  scalar_one_or_none, found_or, check-eq-ok,
}
use ozzb2b.Errors.{
  Error, ErrorClass, error, multiple, meta_tag_not_found, homepage_unreachable,
  no_verifiable_website,
}
use ozzb2b.Domain.{User, Provider}
use ozzb2b.Claims.Rows.{
  is_owned_if, all_owned, select-update_other, none_pending, verified_found, rejected_found,
  any-of_find, is_rival, marked,
}
use ozzb2b.Claims.{
  ProviderClaim, ClaimsDb, ClaimMethod, Tools, pending_for, pending_of, is_owned_by_other,
  pending_claim, already_claimed, verify_row, reject_row, mark_claim_verified, verified_tables,
  other_verified, holds_token, check_claim, settle_claim, extract_token_from_html, verify_claim,
}

mark_claim_verified-eq-ok :
    (how : ClaimMethod) (c : ProviderClaim) (provider : Provider) (user : User) (now : ℕ)
    (db : ClaimsDb) {db' : ClaimsDb}
    → mark_claim_verified how c provider user now db ≡ (ok tt, db')
    → (other_verified c.id db.claims ≡ false) × (db' ≡ verified_tables how c provider user now db)
unfolding mark_claim_verified
mark_claim_verified-eq-ok how c provider user now db h = ground arith

module _ (tools : Tools) where
  settle_claim-eq-ok :
      (provider : Provider) (user : User) (page : Option Text) (now : ℕ) (c : ProviderClaim)
      (db : ClaimsDb) {c' : ProviderClaim} {db' : ClaimsDb}
      → settle_claim tools provider user page now c db ≡ (ok c', db')
      → (html : Text) × (page ≡ some html)
        × (holds_token tools c (extract_token_from_html tools html) ≡ true)
        × (c' ≡ verify_row c.method now c)
        × (other_verified c.id db.claims ≡ false)
        × (db' ≡ verified_tables c.method c provider user now db)
  unfolding settle_claim
  settle_claim-eq-ok provider user page now c db h =
      let (html, given, rest) =
        bind-eq-ok (or_raise (error homepage_unreachable "homepage unreachable") page) _ db h in
      let (_, passed, rest') =
        bind-eq-ok
          (guard (holds_token tools c (extract_token_from_html tools html))
            (error meta_tag_not_found "verification meta tag missing or invalid"))
          _ db rest in
      let (_, marked_ok, ends) =
        bind-eq-ok (mark_claim_verified c.method c provider user now) _ db rest' in
      let (free, stored) =
        mark_claim_verified-eq-ok c.method c provider user now db
          (ap (λ r. (r, (mark_claim_verified c.method c provider user now db).1)) marked_ok) in
      (
        html,
        ground arith,
        check-eq-ok _ _ passed,
        ground arith,
        free,
        sym (ap (λ (r : Result Error ProviderClaim × ClaimsDb). r.1) ends) ∙ stored,
      )

  -- what a verification that returns has checked and done
  pub record Verification (homepage_fetcher : Text → Option Text) (provider : Provider)
      (user : User) (db : ClaimsDb) (now : ℕ) (c : ProviderClaim) (db' : ClaimsDb) : Type 0 where
    pub row : ProviderClaim
    pub free : is_owned_by_other provider user ≡ false
    pub listed : select (pending_of provider.id user.id) db.claims ≡ row ∷ []
    pub website : Text
    pub has_website : provider.website ≡ some website
    pub html : Text
    pub fetched : homepage_fetcher website ≡ some html
    pub token : Text
    pub placed : extract_token_from_html tools html ≡ some token
    pub proven : tools.sha256 token ≡ row.token_hash
    pub result : c ≡ verify_row row.method now row
    pub owned : all (is_owned_if provider.id user.id) db'.providers ≡ true
    pub others :
        select (λ (p : Provider). not (p.id == provider.id)) db'.providers
        ≡ select (λ (p : Provider). not (p.id == provider.id)) db.providers
    pub alone : other_verified row.id db.claims ≡ false
    pub no_rival : any (pending_for provider.id) db'.claims ≡ false

  one_listed :
      (xs : List ProviderClaim) (e : Error) (many : Error) {c : ProviderClaim}
      {o : Option ProviderClaim}
      → scalar_one_or_none many xs ≡ ok o
      → found_or e o ≡ ok c
      → xs ≡ c ∷ []
  one_listed [] e many h k = ground arith
  one_listed (x ∷ []) e many h k = ground arith
  one_listed (x ∷ y ∷ xs) e many h k = absurd (ground arith)

  no_claim : Error
  no_claim = error ErrorClass.claim "no pending claim for this user and provider"

  check_claim-eq-ok :
      (provider : Provider) (user : User) (db : ClaimsDb) {c : ProviderClaim} {s : ClaimsDb}
      → check_claim provider user db ≡ (ok c, s)
      → (is_owned_by_other provider user ≡ false)
        × (is_truthy (or_empty provider.website) ≡ true)
        × (select (pending_of provider.id user.id) db.claims ≡ c ∷ [])
        × (s ≡ db)
  unfolding check_claim pending_claim no_claim
  check_claim-eq-ok provider user db {c} {s} h =
      let (_, free, rest) =
        bind-eq-ok (guard (not (is_owned_by_other provider user)) already_claimed) _ db h in
      let (_, sited, rest') =
        bind-eq-ok
          (guard (is_truthy (or_empty provider.website))
            (error no_verifiable_website "provider has no website"))
          _ db rest in
      let (o, found, rest'') = bind-eq-ok (pending_claim provider user) _ db rest' in
      let ends = rest'' in
      (
        ground (arith, check-eq-ok (not (is_owned_by_other provider user)) already_claimed free),
        check-eq-ok _ _ sited,
        one_listed _ no_claim multiple found
            (ap (λ (p : Result Error ProviderClaim × ClaimsDb). p.0) ends),
        sym (ap (λ (p : Result Error ProviderClaim × ClaimsDb). p.1) ends),
      )

  token_of :
      (c : ProviderClaim) (o : Option Text)
      → holds_token tools c o ≡ true
      → (t : Text) × (o ≡ some t) × (tools.sha256 t ≡ c.token_hash)
  token_of c none h = absurd (ground arith)
  token_of c (some t) h = (t, refl, ground (arith, eq_iff (tools.sha256 t) c.token_hash))

  some_of_truthy : (o : Option Text) → is_truthy (or_empty o) ≡ true → o ≡ some (or_empty o)
  some_of_truthy none h = absurd (ground arith)
  some_of_truthy (some w) h = refl

  -- Only the owner of the homepage gets the profile: a verification that returns found the one
  -- pending claim of the user for the provider, whose owner, if any, is the user; the page that it
  -- fetched from the provider's website carries a token with that claim's hash; no other claim for the
  -- claim's provider was verified; and it leaves the provider owned by the user, with no pending claim,
  -- and the rows of other providers as they were.
  pub verify_claim-eq-ok :
      (homepage_fetcher : Text → Option Text) (provider : Provider) (user : User) (now : ℕ)
      (db : ClaimsDb) {c : ProviderClaim} {db' : ClaimsDb}
      → verify_claim tools homepage_fetcher provider user now db ≡ (ok c, db')
      → Verification homepage_fetcher provider user db now c db'
  unfolding verify_claim verified_tables
  verify_claim-eq-ok homepage_fetcher provider user now db {c} {db'} h =
      let page = homepage_fetcher (or_empty provider.website) in
      let (row, checked, rest) = bind-eq-ok (check_claim provider user) _ db h in
      let (free, sited, listed, same) =
        check_claim-eq-ok provider user db
          (ap (λ r. (r, (check_claim provider user db).1)) checked) in
      let (html, given, held, result, alone, after) =
        settle_claim-eq-ok provider user page now row db
          (subst (λ s. settle_claim tools provider user page now row s ≡ (ok c, db')) same rest) in
      let (token, placed, proven) = token_of row (extract_token_from_html tools html) held in
      record {
        row = row;
        free = free;
        listed = listed;
        website = or_empty provider.website;
        has_website = some_of_truthy provider.website sited;
        html = html;
        fetched = given;
        token = token;
        placed = placed;
        proven = proven;
        result = result;
        owned = rw after (all_owned provider.id user.id db.providers);
        others = rw after (select-update_other provider.id _ db.providers (λ p. refl));
        alone = alone;
        no_rival = rw after (none_pending provider.id row.id row.method now db.claims);
      }

  -- the index refuses whatever passes the checks on the page
  settle_claim-taken :
      (provider : Provider) (user : User) (page : Option Text) (now : ℕ) (c : ProviderClaim)
      (db : ClaimsDb)
      → other_verified c.id db.claims ≡ true
      → (e : Error) × (settle_claim tools provider user page now c db ≡ (err e, db))
  unfolding settle_claim mark_claim_verified
  settle_claim-taken provider user none now c db taken = (_, refl)
  settle_claim-taken provider user (some html) now c db taken =
      elim (Bool-cases (holds_token tools c (extract_token_from_html tools html))) [
        | inl held ↦ rw (held, taken) (_, refl)
        | inr bare ↦ rw bare (_, refl)
      ]

  -- Of two verifications for one provider that read their claims before either settled, the second
  -- fails: once the first has settled, settling a rival claim that was pending raises an error for
  -- whatever page, and leaves the tables as the first one left them.
  pub settle_claim_loser :
      (provider : Provider) (u v : User) (page page' : Option Text) (now now' : ℕ)
      (c d : ProviderClaim) (db : ClaimsDb) {c' : ProviderClaim} {db' : ClaimsDb}
      → c.id ≢ d.id
      → c.provider_id ≡ provider.id
      → pending_for provider.id d ≡ true
      → find (λ e. e.id == c.id) db.claims ≡ some c
      → find (λ e. e.id == d.id) db.claims ≡ some d
      → settle_claim tools provider u page now c db ≡ (ok c', db')
      → (e : Error) × (settle_claim tools provider v page' now' d db' ≡ (err e, db'))
  unfolding verified_tables other_verified marked is_rival
  settle_claim_loser provider u v page page' now now' c d db {c'} {db'} other own rival found_c
        found_d h =
      let (_, _, _, _, _, first) = settle_claim-eq-ok provider u page now c db h in
      let winner : find (λ e. e.id == c.id) (marked provider.id c.id c.method now db.claims)
          ≡ some (verify_row c.method now c) =
        verified_found provider.id c.id c.method now db.claims c found_c in
      let loser : find (λ e. e.id == d.id) (marked provider.id c.id c.method now db.claims)
          ≡ some (reject_row now d) =
        rejected_found provider.id c.id c.method now db.claims d (λ k. other (sym k)) rival
          found_d in
      let d_own : d.provider_id ≡ provider.id =
        ground (arith, nat_beq_iff d.provider_id provider.id) in
      settle_claim-taken provider v page' now' d db' (
        rw first (
          any-of_find _ (λ e. e.id == d.id) _ (reject_row now d) loser
            (rw (eq_refl d.id, d_own)
              (any-of_find _ (λ e. e.id == c.id) _ (verify_row c.method now c) winner
                (rw (own, eq_refl provider.id) (ground (arith, nat_beq_iff c.id d.id, other)))))))
