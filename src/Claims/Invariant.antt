-- ===== src/Claims/Invariant.antt =====
-- The claims' table stays consistent: a key names one row, and a provider has one verified claim at most.
use ozzb2b.Shared.{
  ℕ, ◌≤◌, ◌≡◌, refl, Bool, true, false, not, ◌&&◌, Option, none, some, List, [], ◌∷◌, ◌==◌, nat_eq,
  option_nat_eq, Text, update, count, any, find, IsUnique, update-IsUnique, any-count, arith, Exec,
  Bool-cases, inl, inr, bind-holds, guard, or_raise, pure, ◌>>◌,
}
use ozzb2b.Errors.{Error}
use ozzb2b.Domain.{User, Provider, is_admin}
use ozzb2b.Claims.{
  ProviderClaim, ClaimsDb, ClaimMethod, Tools, Step, stores, settles, approves, rejects,
  pending_for, verified_for, other_verified, verified_tables, is_owned_by_other, add_claim,
  flush_claim, fresh_claim, store_claim, already_claimed, verify_row, reject_row, rejected_row,
  mark_claim_verified, holds_token, settle_claim, extract_token_from_html, or_missing,
  admin_verify_claim, admin_reject_claim, step, steps,
}
use ozzb2b.Claims.Index.{
  count-update_le, count-verify_le, count-verify_none, count-key_le, other_verified_lem,
  other_verified-reject,
}

pub record IsConsistent (db : ClaimsDb) : Type 0 where
  pub ids : IsUnique (λ (c : ProviderClaim). c.id) db.claims
  pub one_verified : (p : ℕ) → count (verified_for p) db.claims ≤ 1

update_claims-IsConsistent :
    (p : ProviderClaim → Bool) (f : ProviderClaim → ProviderClaim) (db db' : ClaimsDb)
    → ((c : ProviderClaim) → (f c).id ≡ c.id)
    → ((a : ℕ) (c : ProviderClaim) → verified_for a (f c) ≡ true → verified_for a c ≡ true)
    → db'.claims ≡ update p f db.claims
    → IsConsistent db
    → IsConsistent db'
update_claims-IsConsistent p f db db' same keeps e c = record {
  ids = rw e (update-IsUnique (λ (c : ProviderClaim). c.id) p f db.claims (λ c _. same c) c.ids);
  one_verified = λ a.
      rw e
        (omega (arith, count-update_le (verified_for a) p f db.claims (keeps a), c.one_verified a));
}

flush_claim-IsConsistent :
    (id : ℕ) (f : ProviderClaim → ProviderClaim) (db : ClaimsDb)
    → ((c : ProviderClaim) → (f c).id ≡ c.id)
    → ((a : ℕ) (c : ProviderClaim) → verified_for a (f c) ≡ true → verified_for a c ≡ true)
    → IsConsistent db
    → IsConsistent (flush_claim id f db).1
unfolding flush_claim
flush_claim-IsConsistent id f db same keeps c =
    update_claims-IsConsistent (λ e. e.id == id) f db _ same keeps refl c

verify_row-IsConsistent :
    (how : ClaimMethod) (k now : ℕ) (db db' : ClaimsDb)
    → other_verified k db.claims ≡ false
    → db'.claims ≡ update (λ e. e.id == k) (verify_row how now) db.claims
    → IsConsistent db
    → IsConsistent db'
unfolding other_verified
verify_row-IsConsistent how k now db db' free e c = record {
  ids = rw e (
      update-IsUnique (λ (c : ProviderClaim). c.id) (λ e. e.id == k) (verify_row how now) db.claims
        (λ _ _. refl) c.ids);
  one_verified = λ p. rw e (one p);
}
  where
    one :
        (p : ℕ)
        → count (verified_for p) (update (λ e. e.id == k) (verify_row how now) db.claims) ≤ 1
    one p = elim (Bool-cases (any (λ e. e.id == k && e.provider_id == p) db.claims)) [
      | inl here ↦ omega (
        arith,
        count-verify_le p k how now db.claims,
        count-key_le p k db.claims c.ids,
        any-count (λ e. verified_for p e && not (e.id == k)) db.claims
            (other_verified_lem p k db.claims db.claims free here),
      )
      | inr gone ↦ omega (arith, count-verify_none p k how now db.claims gone, c.one_verified p)
    ]

mark_claim_verified-IsConsistent :
    (how : ClaimMethod) (k : ProviderClaim) (provider : Provider) (user : User) (now : ℕ)
    (db : ClaimsDb)
    → IsConsistent db
    → IsConsistent (mark_claim_verified how k provider user now db).1
unfolding mark_claim_verified verified_tables
mark_claim_verified-IsConsistent how k provider user now db c =
    elim (Bool-cases (other_verified k.id db.claims)) [
      | inl taken ↦ rw taken c
      | inr free ↦ rw free (
          verify_row-IsConsistent how k.id now rejected_db _
            (other_verified-reject provider.id k.id now db.claims free) refl
            (update_claims-IsConsistent (λ e. pending_for provider.id e && not (e.id == k.id))
              (reject_row now) db rejected_db (λ _. refl) (λ a e h. ground arith) refl c))
    ]
  where
    rejected_db : ClaimsDb
    rejected_db = record db {
      claims =
          update (λ e. pending_for provider.id e && not (e.id == k.id)) (reject_row now) db.claims;
    }

module _ (tools : Tools) where
  add_claim-IsConsistent :
      (c : ProviderClaim) (db : ClaimsDb)
      → ((a : ℕ) → verified_for a c ≡ false)
      → IsConsistent db
      → IsConsistent (add_claim c db).1
  unfolding add_claim count
  add_claim-IsConsistent k db unverified c = elim (Bool-cases (any (λ e. e.id == k.id) db.claims)) [
    | inl taken ↦ rw taken c
    | inr fresh ↦ rw fresh (record {
      ids = (fresh, c.ids);
      one_verified = λ a. rw (unverified a) (omega (arith, c.one_verified a));
    })
  ]

  store_claim-IsConsistent :
      (provider : Provider) (user : User) (id : ℕ) (raw : Text) (now : ℕ) (o : Option ProviderClaim)
      (db : ClaimsDb)
      → IsConsistent db
      → IsConsistent (store_claim tools provider user id raw now o db).1
  unfolding store_claim
  store_claim-IsConsistent provider user id raw now none db c =
      bind-holds IsConsistent (add_claim (fresh_claim tools provider user id raw now)) _ db added
        λ _ _. added
    where
      added : IsConsistent (add_claim (fresh_claim tools provider user id raw now) db).1
      added =
          add_claim-IsConsistent (fresh_claim tools provider user id raw now) db (λ a. ground arith)
            c
  store_claim-IsConsistent provider user id raw now (some k) db c =
      bind-holds IsConsistent (flush_claim k.id _) _ db flushed λ _ _. flushed
    where
      flushed :
          IsConsistent
            (flush_claim k.id
              (λ e. record e { token_hash = tools.sha256 raw; updated_at = now })
              db).1
      flushed = flush_claim-IsConsistent k.id _ db (λ _. refl) (λ a e h. h) c

  then_done :
      {A B : Type 0} (h : Exec ClaimsDb Error A) (b : B) (db : ClaimsDb)
      → IsConsistent (h db).1
      → IsConsistent ((h >> pure b) db).1
  then_done h b db c = bind-holds IsConsistent h (λ _. pure b) db c (λ _ _. c)

  settle_claim-IsConsistent :
      (provider : Provider) (user : User) (page : Option Text) (now : ℕ) (k : ProviderClaim)
      (db : ClaimsDb)
      → IsConsistent db
      → IsConsistent (settle_claim tools provider user page now k db).1
  unfolding settle_claim
  settle_claim-IsConsistent provider user page now k db c =
      bind-holds IsConsistent (or_raise _ page) _ db c λ html _.
        bind-holds IsConsistent (guard (holds_token tools k (extract_token_from_html tools html)) _)
          _ db c
          λ _ _.
            then_done (mark_claim_verified k.method k provider user now) _ db
              (mark_claim_verified-IsConsistent k.method k provider user now db c)

  admin_verify_claim-IsConsistent :
      (k : ProviderClaim) (reviewer : User) (now : ℕ) (db : ClaimsDb)
      → IsConsistent db
      → IsConsistent (admin_verify_claim k reviewer now db).1
  unfolding admin_verify_claim
  admin_verify_claim-IsConsistent k reviewer now db c =
      bind-holds IsConsistent (guard (is_admin reviewer.role) _) _ db c λ _ _.
        bind-holds IsConsistent
          (λ s. (or_missing (find (λ (p : Provider). p.id == k.provider_id) s.providers), s)) _ db c
          λ provider _.
            bind-holds IsConsistent
              (λ s. (or_missing (find (λ (u : User). u.id == k.user_id) s.users), s)) _ db c
              λ user _.
                bind-holds IsConsistent
                  (guard (not (is_owned_by_other provider user)) already_claimed) _ db c
                  λ _ _.
                    then_done (mark_claim_verified ClaimMethod.admin_manual k provider user now) _
                      db
                      (mark_claim_verified-IsConsistent ClaimMethod.admin_manual k provider user now
                        db c)

  admin_reject_claim-IsConsistent :
      (k : ProviderClaim) (reviewer : User) (reason : Option Text) (now : ℕ) (db : ClaimsDb)
      → IsConsistent db
      → IsConsistent (admin_reject_claim k reviewer reason now db).1
  unfolding admin_reject_claim flush_claim
  admin_reject_claim-IsConsistent k reviewer reason now db c =
      bind-holds IsConsistent (guard (is_admin reviewer.role) _) _ db c λ _ _.
        flush_claim-IsConsistent k.id (rejected_row reason now) db (λ _. refl)
          (λ a e h. ground arith) c

  step-IsConsistent :
      (s : Step) (now : ℕ) (db : ClaimsDb) → IsConsistent db → IsConsistent (step tools s now db).1
  unfolding step
  step-IsConsistent (stores provider user id raw existing) now db c =
      then_done (store_claim tools provider user id raw now existing) tt db
        (store_claim-IsConsistent provider user id raw now existing db c)
  step-IsConsistent (settles provider user page k) now db c =
      then_done (settle_claim tools provider user page now k) tt db
        (settle_claim-IsConsistent provider user page now k db c)
  step-IsConsistent (approves k reviewer) now db c =
      then_done (admin_verify_claim k reviewer now) tt db
        (admin_verify_claim-IsConsistent k reviewer now db c)
  step-IsConsistent (rejects k reviewer reason) now db c =
      then_done (admin_reject_claim k reviewer reason now) tt db
        (admin_reject_claim-IsConsistent k reviewer reason now db c)

  -- In any sequence of steps (initiations that store and verifications that settle with a claim read
  -- earlier, and the admin's decisions), keys stay unique and no provider gets a second verified claim.
  pub steps-IsConsistent :
      (db : ClaimsDb) (ss : List (Step × ℕ)) → IsConsistent db → IsConsistent (steps tools db ss)
  unfolding steps
  steps-IsConsistent db [] c = c
  steps-IsConsistent db ((s, now) ∷ ss) c =
      steps-IsConsistent (step tools s now db).1 ss (step-IsConsistent s now db c)
