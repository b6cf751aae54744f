-- ===== src/Claims/Tests.antt =====
-- Runs of the claim service on small tables, and its theorems applied there.
use ozzb2b.Shared.{
  ℕ, ◌≡◌, ◌≢◌, ◌⊎◌, refl, Bool, true, false, Option, none, some, List, [], ◌∷◌, ◌++◌, ◌==◌, nat_eq,
  text_eq, Text, codes, any, all, count, find, Result, ok, err, arith, if◌then◌else◌, list_beq,
}
use ozzb2b.Domain.{User, UserRole, Provider, ProviderStatus}
use ozzb2b.Claims.{
  ProviderClaim, ClaimsDb, ClaimStatus, ClaimMethod, Tools, pending_for, verify_row, reject_row,
  settle_claim, verify_claim, Step, steps,
}
use ozzb2b.Claims.Editing.{EditedField, user_may_edit_provider, update_owned_provider}
use ozzb2b.Claims.Owned.{Intact, update_owned_provider_safety}
use ozzb2b.Errors.{Error, error, multiple, integrity, permission}
use ozzb2b.Claims.Invariant.{IsConsistent, steps-IsConsistent}
use ozzb2b.Claims.Verified.{Verification, verify_claim-eq-ok, settle_claim_loser}

-- the page is its own token
abbrev tools : Tools
tools = record { sha256 = λ s. s; search_meta_tag = λ s. some (some s, none) }

abbrev firm : Provider
firm = record {
  id = 1;
  slug = codes "firm";
  display_name = codes "Firm";
  description = none;
  website = some (codes "firm.ru");
  email = none;
  phone = none;
  address = none;
  logo_url = none;
  city_id = none;
  status = ProviderStatus.published;
  is_claimed = false;
  claimed_by_user_id = none;
}

abbrev ann : User
ann = record {
  id = 1;
  email = codes "ann@x.ru";
  password_hash = codes "p";
  display_name = none;
  role = UserRole.client;
  last_login_at = none;
}

abbrev bob : User
bob = record ann { id = 2; email = codes "bob@x.ru" }

abbrev ann_claim : ProviderClaim
ann_claim = record {
  id = 5;
  provider_id = 1;
  user_id = 1;
  status = ClaimStatus.pending;
  method = ClaimMethod.meta_tag;
  token_hash = codes "a";
  updated_at = 10;
  verified_at = none;
  rejected_at = none;
  rejected_reason = none;
}

abbrev fetcher : Text → Option Text
fetcher url = if url == codes "firm.ru" then some (codes "a") else none

abbrev bob_claim : ProviderClaim
bob_claim = record ann_claim { id = 6; user_id = 2; token_hash = codes "b" }

abbrev db : ClaimsDb
db = record { providers = firm ∷ []; users = ann ∷ bob ∷ []; claims = ann_claim ∷ bob_claim ∷ [] }

db-IsConsistent : IsConsistent db
unfolding any count
db-IsConsistent = record { ids = (refl, (refl, tt)); one_verified = λ p. ground arith }

abbrev requests : List (Step × ℕ)
requests =
    (Step.stores firm ann 7 (codes "c") (some ann_claim), 20)
    ∷ (Step.settles firm bob (some (codes "b")) bob_claim, 21)
    ∷ (Step.settles firm ann (some (codes "c")) (record ann_claim { token_hash = codes "c" }), 22)
    ∷ (Step.stores firm ann 8 (codes "d") none, 23)
    ∷ (Step.rejects bob_claim ann none, 24)
    ∷ []

steps-IsConsistent_example : IsConsistent (steps tools db requests)
steps-IsConsistent_example = steps-IsConsistent tools db requests db-IsConsistent

abbrev after_ann : ClaimsDb
after_ann = (settle_claim tools firm ann (some (codes "a")) 30 ann_claim db).1

ann_settles :
    settle_claim tools firm ann (some (codes "a")) 30 ann_claim db
    ≡ (ok (verify_row ClaimMethod.meta_tag 30 ann_claim), after_ann)
unfolding settle_claim ozzb2b.Claims.extract_token_from_html ozzb2b.Shared.strip
    ozzb2b.Shared.rstrip ozzb2b.Shared.lstrip ozzb2b.Shared.is_space ozzb2b.Shared.list_beq
    ozzb2b.Claims.mark_claim_verified ozzb2b.Claims.other_verified any
ann_settles = refl

ann_verifies :
    verify_claim tools fetcher firm ann 30 db
    ≡ (ok (verify_row ClaimMethod.meta_tag 30 ann_claim), after_ann)
unfolding verify_claim ozzb2b.Claims.check_claim ozzb2b.Claims.pending_claim ozzb2b.Shared.select
    settle_claim ozzb2b.Claims.extract_token_from_html ozzb2b.Shared.strip ozzb2b.Shared.rstrip
    ozzb2b.Shared.lstrip ozzb2b.Shared.is_space ozzb2b.Shared.list_beq
    ozzb2b.Claims.mark_claim_verified ozzb2b.Claims.other_verified any
ann_verifies = refl

verify_claim-eq-ok_example :
    Verification tools fetcher firm ann db 30
      (verify_row ClaimMethod.meta_tag 30 ann_claim)
      after_ann
verify_claim-eq-ok_example = verify_claim-eq-ok tools fetcher firm ann 30 db ann_verifies

ann_there : find (λ (e : ProviderClaim). e.id == 5) db.claims ≡ some ann_claim
unfolding find
ann_there = refl

bob_there : find (λ (e : ProviderClaim). e.id == 6) db.claims ≡ some bob_claim
unfolding find
bob_there = refl

five_six : ann_claim.id ≢ bob_claim.id
five_six h = omega arith

settle_claim_loser_example :
    (e : Error) × (settle_claim tools firm bob (some (codes "b")) 31 bob_claim after_ann
      ≡ (err e, after_ann))
settle_claim_loser_example =
    settle_claim_loser tools firm ann bob (some (codes "a")) (some (codes "b")) 30 31 ann_claim
      bob_claim db five_six refl refl ann_there bob_there ann_settles

-- the second of two initiations that both read no claim: the user has two pending claims from then on
abbrev twice : ClaimsDb
twice =
    steps tools (record db { claims = [] })
      ((Step.stores firm ann 7 (codes "c") none, 20)
        ∷ (Step.stores firm ann 8 (codes "d") none, 21)
        ∷ [])

stuck : (verify_claim tools fetcher firm ann 30 twice).0 ≡ err multiple
unfolding verify_claim ozzb2b.Claims.check_claim ozzb2b.Claims.pending_claim ozzb2b.Shared.select
    steps ozzb2b.Claims.step ozzb2b.Claims.store_claim ozzb2b.Claims.add_claim any
stuck = refl

abbrev claimed_firm : Provider
claimed_firm = record firm { is_claimed = true; claimed_by_user_id = some 1 }

abbrev owned : ClaimsDb
owned = record db { providers = claimed_firm ∷ record firm { id = 2 } ∷ [] }

abbrev edits : List (EditedField × Option Text)
edits = (EditedField.display_name, some (codes "New")) ∷ (EditedField.phone, some (codes "  ")) ∷ []

edited_by_owner :
    (update_owned_provider claimed_firm ann edits owned).1.providers
    ≡ record claimed_firm { display_name = codes "New" } ∷ record firm { id = 2 } ∷ []
unfolding update_owned_provider user_may_edit_provider ozzb2b.Shared.option_beq
    ozzb2b.Claims.Editing.flush_edit ozzb2b.Claims.Editing.set_fields
    ozzb2b.Claims.Editing.set_field ozzb2b.Shared.strip ozzb2b.Shared.rstrip ozzb2b.Shared.lstrip
    ozzb2b.Shared.is_space ozzb2b.Shared.update
edited_by_owner = refl

-- clearing the name ends in an integrity error
cleared_name :
    (update_owned_provider claimed_firm ann ((EditedField.display_name, none) ∷ []) owned).0
    ≡ err (error integrity "unique constraint")
unfolding update_owned_provider user_may_edit_provider ozzb2b.Shared.option_beq
    ozzb2b.Claims.Editing.flush_edit ozzb2b.Claims.Editing.set_fields
    ozzb2b.Claims.Editing.set_field
cleared_name = refl

update_owned_provider_safety_example :
    ((user_may_edit_provider bob claimed_firm ≡ true)
      ⊎ (update_owned_provider claimed_firm bob edits owned
          ≡ (err (error permission "not an owner of this provider"), owned)))
    × Intact claimed_firm edits owned (update_owned_provider claimed_firm bob edits owned).1
update_owned_provider_safety_example = update_owned_provider_safety claimed_firm edits bob owned
