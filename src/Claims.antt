-- ===== src/Claims.antt =====
-- Claims of company profiles by their owners: apps/api/src/ozzb2b_api/services/claims.py, with the
-- rows of db/models/provider_claim.py. An UPDATE sets the columns that changed.
-- An operation raises before its first write, is rolled back by the index on verified claims, or commits
-- all of its writes, so the tables returned are the ones stored.
pub mod Index
pub mod Invariant
pub mod Rows
pub mod Verified
pub mod Editing
pub mod Owned
pub mod Routes
mod Tests
use ozzb2b.Shared.{
  ℕ, Bool, true, false, not, ◌&&◌, Option, none, some, List, [], ◌∷◌, ◌++◌, ◌==◌, nat_eq, text_eq,
  option_nat_eq, if◌then◌else◌, Text, codes, strip, prefix, is_truthy, or_empty, or_none, find,
  select, update, any, Exec, Result, ok, err, ◌>>=◌, ◌>>◌, pure, lift, guard, or_raise, modify,
  scalar_one_or_none, is_some,
}
use ozzb2b.Errors.{
  Error, ErrorClass, error, multiple, violation, provider_already_claimed, no_verifiable_website,
  homepage_unreachable, meta_tag_not_found, permission,
}
use ozzb2b.Domain.{User, UserRole, is_admin, Provider}

pub data ClaimStatus : Type 0 where
  pending verified rejected : ClaimStatus

pub data ClaimMethod : Type 0 where
  meta_tag admin_manual : ClaimMethod

pub record ProviderClaim : Type 0 where
  pub id : ℕ
  pub provider_id : ℕ
  pub user_id : ℕ
  pub status : ClaimStatus
  pub method : ClaimMethod
  pub token_hash : Text
  pub updated_at : ℕ
  pub verified_at : Option ℕ
  pub rejected_at : Option ℕ
  pub rejected_reason : Option Text

pub record ClaimsDb : Type 0 where
  pub providers : List Provider
  pub users : List User
  pub claims : List ProviderClaim

-- hashlib and re: the hash of a token, and the two groups of the first match of the pattern for the
-- meta tag, one of which takes part in it
pub record Tools : Type 0 where
  pub sha256 : Text → Text
  pub search_meta_tag : Text → Option (Option Text × Option Text)

pub record ClaimInitiation : Type 0 where
  pub record_id : ℕ
  pub raw_token : Text
  pub meta_tag_snippet : Text

abbrev pub is_pending : ClaimStatus → Bool
is_pending pending = true
is_pending _ = false

abbrev pub is_verified : ClaimStatus → Bool
is_verified verified = true
is_verified _ = false

-- a verified claim for the provider
abbrev pub verified_for : ℕ → ProviderClaim → Bool
verified_for provider_id c = c.provider_id == provider_id && is_verified c.status

-- a pending claim for the provider, and one of the user for it
abbrev pub pending_for : ℕ → ProviderClaim → Bool
pending_for provider_id c = c.provider_id == provider_id && is_pending c.status

abbrev pub pending_of : ℕ → ℕ → ProviderClaim → Bool
pending_of provider_id user_id c = pending_for provider_id c && c.user_id == user_id

-- `provider.is_claimed and provider.claimed_by_user_id != user.id`
abbrev pub is_owned_by_other : Provider → User → Bool
is_owned_by_other provider user =
    provider.is_claimed && not (provider.claimed_by_user_id == some user.id)

abbrev pub already_claimed : Error
already_claimed = error provider_already_claimed "provider already claimed"

pub pending_claim : Provider → User → Exec ClaimsDb Error (Option ProviderClaim)
pending_claim provider user db =
    (scalar_one_or_none multiple (select (pending_of provider.id user.id) db.claims), db)

-- INSERT, under the primary key
pub add_claim : ProviderClaim → Exec ClaimsDb Error Unit
add_claim c db =
    if any (λ e. e.id == c.id) db.claims
    then (err violation, db)
    else (ok tt, record db { claims = c ∷ db.claims })

-- the flush of a claim: an UPDATE of the changed columns of the row with its key
pub flush_claim : ℕ → (ProviderClaim → ProviderClaim) → Exec ClaimsDb Error Unit
flush_claim id f = modify λ db. record db { claims = update (λ e. e.id == id) f db.claims }

abbrev pub fresh_claim : Tools → Provider → User → ℕ → Text → ℕ → ProviderClaim
fresh_claim tools provider user id raw now = record {
  id = id;
  provider_id = provider.id;
  user_id = user.id;
  status = pending;
  method = meta_tag;
  token_hash = tools.sha256 raw;
  updated_at = now;
  verified_at = none;
  rejected_at = none;
  rejected_reason = none;
}

pub snippet : Text → Text
snippet raw = codes "<meta name=\"ozzb2b-verify\" content=\"" ++ raw ++ codes "\">"

-- the row to store: a fresh one, or the pending one with a new token
pub store_claim :
    Tools → Provider → User → ℕ → Text → ℕ → Option ProviderClaim → Exec ClaimsDb Error ℕ
store_claim tools provider user id raw now none = do
  add_claim (fresh_claim tools provider user id raw now)
  pure id
store_claim tools provider user id raw now (some c) = do
  flush_claim c.id (λ e. record e { token_hash = tools.sha256 raw; updated_at = now })
  pure c.id

-- `id` and `raw` are the fresh key and the fresh token
pub initiate_claim : Tools → Provider → User → ℕ → Text → ℕ → Exec ClaimsDb Error ClaimInitiation
initiate_claim tools provider user id raw now = do
  guard (not (is_owned_by_other provider user)) already_claimed
  existing ← pending_claim provider user
  stored ← store_claim tools provider user id raw now existing
  pure (record { record_id = stored; raw_token = raw; meta_tag_snippet = snippet raw })

abbrev pub max_homepage_bytes : ℕ
max_homepage_bytes = 524288

-- `match.group(1) or match.group(2)`
abbrev pub group_text : Option Text × Option Text → Text
group_text (a, b) = if is_truthy (or_empty a) then or_empty a else or_empty b

pub extract_token_from_html : Tools → Text → Option Text
extract_token_from_html tools html =
    if is_truthy html
    then (elim (tools.search_meta_tag (prefix max_homepage_bytes html)) [
      | none ↦ none
      | some groups ↦ some (strip (group_text groups))
    ])
    else none

-- `if user.role == UserRole.CLIENT: …`, for the role read before and the one stored
abbrev pub promoted : UserRole → UserRole → UserRole
promoted UserRole.client stored = UserRole.provider_owner
promoted _ stored = stored

abbrev pub verify_row : ClaimMethod → ℕ → ProviderClaim → ProviderClaim
verify_row how now c = record c { status = verified; method = how; verified_at = some now }

abbrev pub reject_row : ℕ → ProviderClaim → ProviderClaim
reject_row now c = record c {
  status = rejected;
  rejected_at = some now;
  rejected_reason = some (codes "provider already claimed by another user");
}

-- what the commit of _mark_claim_verified stores
pub verified_tables : ClaimMethod → ProviderClaim → Provider → User → ℕ → ClaimsDb → ClaimsDb
verified_tables how c provider user now db = record {
  providers =
      update (λ (p : Provider). p.id == provider.id)
        (λ p. record p { is_claimed = true; claimed_by_user_id = some user.id }) db.providers;
  users =
      update (λ (u : User). u.id == user.id) (λ u. record u { role = promoted user.role u.role })
        db.users;
  claims =
      update (λ e. e.id == c.id) (verify_row how now)
        (update (λ e. pending_for provider.id e && not (e.id == c.id)) (reject_row now) db.claims);
}

-- the index uq_provider_claims_verified_per_provider of the migration 20260423_0004: another claim for the
-- provider of the row `id` is verified
unfoldable pub other_verified : ℕ → List ProviderClaim → Bool
other_verified id claims =
    any
      (λ (e : ProviderClaim).
        e.id == id && any (λ f. verified_for e.provider_id f && not (f.id == id)) claims)
      claims

-- _mark_claim_verified, with the method that the caller sets: the index refuses the UPDATE, and the
-- transaction is rolled back
pub mark_claim_verified :
    ClaimMethod → ProviderClaim → Provider → User → ℕ → Exec ClaimsDb Error Unit
mark_claim_verified how c provider user now db =
    if other_verified c.id db.claims
    then (err violation, db)
    else (ok tt, verified_tables how c provider user now db)

-- the checks and the query before the homepage is fetched
pub check_claim : Provider → User → Exec ClaimsDb Error ProviderClaim
check_claim provider user = do
  guard (not (is_owned_by_other provider user)) already_claimed
  guard (is_truthy (or_empty provider.website))
      (error no_verifiable_website "provider has no website")
  found ← pending_claim provider user
  or_raise (error ErrorClass.claim "no pending claim for this user and provider") found

abbrev pub holds_token : Tools → ProviderClaim → Option Text → Bool
holds_token tools c token =
    is_truthy (or_empty token) && tools.sha256 (or_empty token) == c.token_hash

-- the checks on the page and the writes; `none` is a fetch that failed
pub settle_claim :
    Tools → Provider → User → Option Text → ℕ → ProviderClaim → Exec ClaimsDb Error ProviderClaim
settle_claim tools provider user page now c = do
  html ← or_raise (error homepage_unreachable "homepage unreachable") page
  guard (holds_token tools c (extract_token_from_html tools html))
      (error meta_tag_not_found "verification meta tag missing or invalid")
  mark_claim_verified c.method c provider user now
  pure (verify_row c.method now c)

-- `homepage_fetcher` answers a URL with its page, or `none` where it raises
pub verify_claim :
    Tools → (Text → Option Text) → Provider → User → ℕ → Exec ClaimsDb Error ProviderClaim
verify_claim tools homepage_fetcher provider user now = do
  c ← check_claim provider user
  settle_claim tools provider user (homepage_fetcher (or_empty provider.website)) now c

abbrev pub or_missing : {A : Type 0} → Option A → Result Error A
or_missing none = err (error ErrorClass.claim "claim references missing entities")
or_missing (some a) = ok a

pub admin_verify_claim : ProviderClaim → User → ℕ → Exec ClaimsDb Error ProviderClaim
admin_verify_claim c reviewer now = do
  guard (is_admin reviewer.role) (error permission "admin only")
  provider ← λ db. (or_missing (find (λ (p : Provider). p.id == c.provider_id) db.providers), db)
  user ← λ db. (or_missing (find (λ (u : User). u.id == c.user_id) db.users), db)
  guard (not (is_owned_by_other provider user)) already_claimed
  mark_claim_verified admin_manual c provider user now
  pure (verify_row admin_manual now c)

-- `(reason or "")[:1000] or None`
abbrev pub rejected_row : Option Text → ℕ → ProviderClaim → ProviderClaim
rejected_row reason now c = record c {
  status = rejected;
  rejected_at = some now;
  rejected_reason = or_none (prefix 1000 (or_empty reason));
}

pub admin_reject_claim : ProviderClaim → User → Option Text → ℕ → Exec ClaimsDb Error ProviderClaim
admin_reject_claim c reviewer reason now = do
  guard (is_admin reviewer.role) (error permission "admin only")
  flush_claim c.id (rejected_row reason now)
  pure (rejected_row reason now c)

-- What a request does to the tables, with the rows that it read before: an initiation reads the user's
-- pending claim and then stores, a verification reads its claim, fetches the homepage, and then
-- settles, and other requests run in between.
pub data Step : Type 0 where
  stores : Provider → User → ℕ → Text → Option ProviderClaim → Step
  settles : Provider → User → Option Text → ProviderClaim → Step
  approves : ProviderClaim → User → Step
  rejects : ProviderClaim → User → Option Text → Step

pub step : Tools → Step → ℕ → Exec ClaimsDb Error Unit
step tools (stores provider user id raw existing) now = do
  store_claim tools provider user id raw now existing
  pure tt
step tools (settles provider user page c) now = do
  settle_claim tools provider user page now c
  pure tt
step tools (approves c reviewer) now = do admin_verify_claim c reviewer now; pure tt
step tools (rejects c reviewer reason) now = do admin_reject_claim c reviewer reason now; pure tt

pub steps : Tools → ClaimsDb → List (Step × ℕ) → ClaimsDb
steps tools db [] = db
steps tools db ((s, now) ∷ rest) = steps tools (step tools s now db).1 rest
