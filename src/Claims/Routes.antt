-- ===== src/Claims/Routes.antt =====
-- The endpoints of the claims: apps/api/src/ozzb2b_api/routes/claims.py, and those for administrators in
-- routes/admin.py. The user is the one that get_current_user gives, and an answer is the row that the
-- schema shows. What a request changes before it fails in the limiter or on the network stays changed;
-- the services leave the tables as they were when they raise.
use ozzb2b.Shared.{
  ℕ, Bool, not, ◌&&◌, Option, none, some, List, ◌==◌, nat_eq, text_eq, leb, Text, codes, length,
  or_empty, is_truthy, find, all, select, Exec, Result, ok, err, ◌>>=◌, ◌>>◌, guard, or_raise, pure,
  gets, scalar_one_or_none,
}
use ozzb2b.Errors.{Error, error, http, multiple, permission, unsafe_url, homepage_unreachable}
use ozzb2b.Domain.{User, is_admin, Provider, is_published}
use ozzb2b.RateLimit.{Redis, LimitSettings, enforce_rate_limit}
use ozzb2b.SafeHttp.{Net, Wire, fetch_text}
use ozzb2b.Claims.{
  ClaimsDb, ProviderClaim, Tools, ClaimInitiation, initiate_claim, check_claim, settle_claim,
  admin_verify_claim, admin_reject_claim,
}
use ozzb2b.Claims.Editing.{
  EditedField, update_owned_provider, list_claims_for_user, list_pending_claims,
  list_owned_providers,
}

-- the tables, the store of the rate limiter and the network
pub record ClaimsWorld (S N : Type 0) : Type 0 where
  pub db : ClaimsDb
  pub limiter : S
  pub wire : Wire N

-- what the endpoints read from the settings
pub record ClaimSettings : Type 0 where
  pub limits : LimitSettings
  pub rate_limit_claim_init_max : ℕ
  pub rate_limit_claim_verify_max : ℕ
  pub is_production : Bool
  pub max_redirects : ℕ
  pub max_bytes : ℕ

-- the headers of a request and the address of its peer
pub record Peer : Type 0 where
  pub headers : List (Text × Text)
  pub host : Option Text

pub load_provider_or_404 : Text → ClaimsDb → Result Error Provider
load_provider_or_404 slug db =
    elim (scalar_one_or_none multiple
      (select (λ (p : Provider). p.slug == slug && is_published p.status) db.providers)) [
        | err e ↦ err e
        | ok none ↦ err (error (http 404) "provider not found")
        | ok (some p) ↦ ok p
      ]

-- `raise HTTPException(403, str(exc))` for a PermissionError
abbrev pub as_forbidden : {A : Type 0} → Result Error A → Result Error A
as_forbidden (ok a) = ok a
as_forbidden (err e) = elim e.cls [ permission ↦ err (error (http 403) e.detail) | _ ↦ err e ]

-- UnsafeUrlError becomes HomepageUnreachableError
abbrev pub as_unreachable : Result Error Text → Result Error Text
as_unreachable (ok page) = ok page
as_unreachable (err e) = elim e.cls [
  | unsafe_url ↦ err (error homepage_unreachable e.detail)
  | _ ↦ err e
]

-- the page that `settle_claim` is given
abbrev pub page_of : Result Error Text → Option Text
page_of (ok page) = some page
page_of (err e) = none

-- the limits of the lengths in ProviderUpdateRequest
abbrev pub max_field_length : EditedField → ℕ
max_field_length EditedField.display_name = 255
max_field_length EditedField.description = 4000
max_field_length EditedField.email = 255
max_field_length EditedField.phone = 64
max_field_length EditedField.address = 500
max_field_length EditedField.logo_url = 500

pub fits : EditedField × Option Text → Bool
fits f = leb (length (or_empty f.1)) (max_field_length f.0)

-- a fetch that fails is a value
abbrev pub tried : {N : Type 0} → Exec (Wire N) Error Text → Exec (Wire N) Error (Result Error Text)
tried m wire = (ok (as_unreachable (m wire).0), (m wire).1)

module _ {S N : Type 0} where
  -- a part of a request on the part of the world that it uses
  abbrev pub in_db : {A : Type 0} → Exec ClaimsDb Error A → Exec (ClaimsWorld S N) Error A
  in_db m w = ((m w.db).0, record w { db = (m w.db).1 })

  abbrev pub in_limiter : {A : Type 0} → Exec S Error A → Exec (ClaimsWorld S N) Error A
  in_limiter m w = ((m w.limiter).0, record w { limiter = (m w.limiter).1 })

  abbrev pub on_wire : {A : Type 0} → Exec (Wire N) Error A → Exec (ClaimsWorld S N) Error A
  on_wire m w = ((m w.wire).0, record w { wire = (m w.wire).1 })

  module _ (redis : Redis S) (net : Net N) (tools : Tools) (cfg : ClaimSettings) where
    pub fetch_homepage : Text → Exec (Wire N) Error (Result Error Text)
    fetch_homepage url = tried (
        fetch_text net
          (record {
            allow_http = not cfg.is_production;
            max_redirects = cfg.max_redirects;
            max_bytes = cfg.max_bytes;
          })
          url)

    pub initiate_claim_endpoint :
        Peer → User → Text → Text → ℕ → Text → ℕ → Exec (ClaimsWorld S N) Error ClaimInitiation
    initiate_claim_endpoint peer user user_scope slug id raw now = do
      in_limiter (
          enforce_rate_limit redis cfg.limits peer.headers peer.host (codes "claim_init")
            cfg.rate_limit_claim_init_max (some user_scope))
      provider ← in_db (λ db. (load_provider_or_404 slug db, db))
      guard (is_truthy (or_empty provider.website))
          (error (http 400) "provider has no website, verification impossible")
      in_db (initiate_claim tools provider user id raw now)

    -- the service checks the claim, fetches the homepage and settles
    pub verify_claim_endpoint :
        Peer → User → Text → Text → ℕ → Exec (ClaimsWorld S N) Error ProviderClaim
    verify_claim_endpoint peer user user_scope slug now = do
      in_limiter (
          enforce_rate_limit redis cfg.limits peer.headers peer.host (codes "claim_verify")
            cfg.rate_limit_claim_verify_max (some user_scope))
      provider ← in_db (λ db. (load_provider_or_404 slug db, db))
      c ← in_db (check_claim provider user)
      page ← on_wire (fetch_homepage (or_empty provider.website))
      in_db (settle_claim tools provider user (page_of page) now c)

pub update_provider_endpoint :
    User → Text → List (EditedField × Option Text) → Exec ClaimsDb Error Provider
update_provider_endpoint user slug fields = do
  guard (all fits fields) (error (http 422) "Unprocessable Entity")
  provider ← λ db. (load_provider_or_404 slug db, db)
  λ db. (
    as_forbidden (update_owned_provider provider user fields db).0,
    (update_owned_provider provider user fields db).1,
  )

pub list_my_claims : (ProviderClaim → ℕ) → User → Exec ClaimsDb Error (List ProviderClaim)
list_my_claims created_at user = gets λ db. list_claims_for_user created_at db user

pub list_my_providers : (Text → Text → Bool) → User → Exec ClaimsDb Error (List Provider)
list_my_providers name_le user = gets λ db. list_owned_providers name_le db user

abbrev pub admin_only : Error
admin_only = error (http 403) "admin only"

pub require_admin : User → Exec ClaimsDb Error User
require_admin user = do guard (is_admin user.role) admin_only; pure user

-- an id in the path that is no UUID, or that no claim has
pub load_claim_or_404 : Option ℕ → Exec ClaimsDb Error ProviderClaim
load_claim_or_404 none db = (err (error (http 404) "claim not found"), db)
load_claim_or_404 (some id) db =
    or_raise (error (http 404) "claim not found")
      (find (λ (c : ProviderClaim). c.id == id) db.claims) db

pub list_pending_claims_endpoint :
    (ProviderClaim → ℕ) → User → Exec ClaimsDb Error (List ProviderClaim)
list_pending_claims_endpoint created_at user = do
  require_admin user
  gets (list_pending_claims created_at)

pub approve_claim_endpoint : User → Option ℕ → ℕ → Exec ClaimsDb Error ProviderClaim
approve_claim_endpoint user id now = do
  admin ← require_admin user
  c ← load_claim_or_404 id
  admin_verify_claim c admin now

pub reject_claim_endpoint : User → Option ℕ → Option Text → ℕ → Exec ClaimsDb Error ProviderClaim
reject_claim_endpoint user id reason now = do
  admin ← require_admin user
  guard (leb (length (or_empty reason)) 1000) (error (http 422) "Unprocessable Entity")
  c ← load_claim_or_404 id
  admin_reject_claim c admin reason now
