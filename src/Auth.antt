-- ===== src/Auth.antt =====
-- Accounts, logins and refresh tokens: apps/api/src/ozzb2b_api/services/auth.py, with the rows of
-- db/models/user.py, the refresh-token half of security/tokens.py, and the refresh endpoint of
-- routes/auth.py with the transaction that db/session.py puts round it.
pub mod Invariant
pub mod Keeping
pub mod Rotation
pub mod Reuse
pub mod Accounts
pub mod Requests
mod Tests
use ozzb2b.Shared.{
  ℕ, ◌+◌, Bool, true, false, not, ◌&&◌, ◌||◌, Option, none, some, List, [], ◌∷◌, leb, ltb, ◌==◌,
  nat_eq, text_eq, if◌then◌else◌, Text, normalize, is_truthy, or_empty, or_none, length, select,
  update, any, is_some, is_none, Result, ok, err, Exec, ◌>>=◌, ◌>>◌, pure, raise, lift, gets,
  or_raise, modify, guard, scalar_one_or_none, get_db, IsUnique,
}
use ozzb2b.Errors.{
  Error, error, multiple, violation, email_already_registered, invalid_credentials,
  invalid_refresh_token, token_error, http,
}
use ozzb2b.Domain.{User, UserRole, client}

pub record RefreshToken : Type 0 where
  pub id : ℕ
  pub user_id : ℕ
  pub token_hash : Text
  pub family_id : ℕ
  pub expires_at : ℕ
  pub revoked_at : Option ℕ
  pub user_agent : Option Text
  pub ip_address : Option Text

pub record AuthDb : Type 0 where
  pub users : List User
  pub refresh_tokens : List RefreshToken

-- hashlib, the password library and PyJWT's `encode`, which the service only calls
pub record Crypto : Type 0 where
  pub sha256 : Text → Text
  pub hash_password : Text → Text
  pub verify_password : Text → Text → Bool
  pub encode_access : ℕ → UserRole → ℕ → ℕ → Text → Text

-- config.py, as far as tokens go
pub record TokenSettings : Type 0 where
  pub jwt_access_ttl_seconds : ℕ
  pub jwt_refresh_ttl_seconds : ℕ

-- What the runtime gives to one call: fresh ids, random strings and the readings of the clock.
pub record Draw : Type 0 where
  pub user_id : ℕ
  pub record_id : ℕ
  pub family_id : ℕ
  pub refresh_raw : Text
  pub jti : Text
  pub checked_at : ℕ
  pub revoked_at : ℕ
  pub issued_at : ℕ

pub record IssuedTokens : Type 0 where
  pub access_token : Text
  pub access_expires_at : ℕ
  pub refresh_token : Text
  pub refresh_expires_at : ℕ

abbrev pub normalize_email : Text → Text
normalize_email = normalize

abbrev pub has_hash : Text → RefreshToken → Bool
has_hash h r = r.token_hash == h

abbrev pub revoke_at : ℕ → RefreshToken → RefreshToken
revoke_at t r = record r { revoked_at = some t }

-- INSERT, under the primary key and the unique constraint on `email`
pub add_user : User → Exec AuthDb Error Unit
add_user u db =
    if any (λ v. v.id == u.id || v.email == u.email) db.users
    then (err violation, db)
    else (ok tt, record db { users = u ∷ db.users })

-- INSERT, under the primary key and the unique constraint on `token_hash`
pub add_refresh : RefreshToken → Exec AuthDb Error Unit
add_refresh r db =
    if any (λ s. s.id == r.id || s.token_hash == r.token_hash) db.refresh_tokens
    then (err violation, db)
    else (ok tt, record db { refresh_tokens = r ∷ db.refresh_tokens })

-- UPDATE refresh_tokens SET revoked_at WHERE p
pub revoke_where : (RefreshToken → Bool) → ℕ → Exec AuthDb Error Unit
revoke_where p t =
    modify λ db. record db { refresh_tokens = update p (revoke_at t) db.refresh_tokens }

pub user_by_email : Text → Exec AuthDb Error (Option User)
user_by_email email db = (scalar_one_or_none multiple (select (λ u. u.email == email) db.users), db)

pub user_by_id : ℕ → Exec AuthDb Error (Option User)
user_by_id i db = (scalar_one_or_none multiple (select (λ u. u.id == i) db.users), db)

pub token_by_hash : Text → Exec AuthDb Error (Option RefreshToken)
token_by_hash h db = (scalar_one_or_none multiple (select (has_hash h) db.refresh_tokens), db)

-- a token of the family `f` that is not revoked
abbrev pub live_in : ℕ → RefreshToken → Bool
live_in f r = r.family_id == f && not (is_some r.revoked_at)

module _ (crypto : Crypto) (cfg : TokenSettings) where
  abbrev pub new_user : Text → Text → Option Text → Draw → User
  new_user email password display_name d = record {
    id = d.user_id;
    email = email;
    password_hash = crypto.hash_password password;
    display_name = display_name;
    role = client;
    last_login_at = none;
  }

  pub register : Text → Text → Option Text → Draw → Exec AuthDb Error User
  register email password display_name d = do
    existing ← user_by_email (normalize_email email)
    guard (is_none existing) (error email_already_registered "email already registered")
    add_user (new_user (normalize_email email) password display_name d)
    pure (new_user (normalize_email email) password display_name d)

  -- `if user is None or not verify_password(…): raise`
  pub check_password : Text → Option User → Result Error User
  check_password password none = err (error invalid_credentials "invalid email or password")
  check_password password (some u) =
      if crypto.verify_password password u.password_hash
      then ok u
      else err (error invalid_credentials "invalid email or password")

  pub touch_login : ℕ → ℕ → Exec AuthDb Error Unit
  touch_login user_id now = modify λ db. record db {
    users = update (λ u. u.id == user_id) (λ u. record u { last_login_at = some now }) db.users;
  }

  pub authenticate : Text → Text → Draw → Exec AuthDb Error User
  authenticate email password d = do
    found ← user_by_email (normalize_email email)
    user ← lift (check_password password found)
    touch_login user.id d.checked_at
    pure user

  -- hash_refresh_token
  abbrev pub hash_refresh_token : Text → Text
  hash_refresh_token = crypto.sha256

  -- `family_id or uuid.uuid4()`
  abbrev pub family_or_new : Option ℕ → Draw → ℕ
  family_or_new none d = d.family_id
  family_or_new (some f) d = f

  abbrev pub new_refresh : User → Option Text → Option Text → Option ℕ → Draw → RefreshToken
  new_refresh user user_agent ip_address family d = record {
    id = d.record_id;
    user_id = user.id;
    token_hash = hash_refresh_token d.refresh_raw;
    family_id = family_or_new family d;
    expires_at = d.issued_at + cfg.jwt_refresh_ttl_seconds;
    revoked_at = none;
    user_agent = or_none (or_empty user_agent);
    ip_address = or_none (or_empty ip_address);
  }

  abbrev pub issued : User → Draw → IssuedTokens
  issued user d = record {
    access_token =
        crypto.encode_access user.id user.role (d.issued_at + cfg.jwt_access_ttl_seconds)
          d.issued_at d.jti;
    access_expires_at = d.issued_at + cfg.jwt_access_ttl_seconds;
    refresh_token = d.refresh_raw;
    refresh_expires_at = d.issued_at + cfg.jwt_refresh_ttl_seconds;
  }

  pub issue_tokens :
      User → Option Text → Option Text → Option ℕ → Draw → Exec AuthDb Error IssuedTokens
  issue_tokens user user_agent ip_address family d = do
    add_refresh (new_refresh user user_agent ip_address family d)
    pure (issued user d)

  -- The branch on a revoked token: the whole family goes, and the call raises.
  pub reject_reused : RefreshToken → Draw → Exec AuthDb Error (User × IssuedTokens)
  reject_reused existing d = do
    revoke_where (λ r. r.family_id == existing.family_id) d.revoked_at
    raise (error invalid_refresh_token "refresh token already used")

  -- Revoke the current token and issue a new pair under the same family.
  pub rotate_for :
      RefreshToken
      → User
      → Option Text
      → Option Text
      → Draw
      → Exec AuthDb Error (User × IssuedTokens)
  rotate_for existing user user_agent ip_address d = do
    revoke_where (λ r. r.id == existing.id) d.revoked_at
    tokens ← issue_tokens user user_agent ip_address (some existing.family_id) d
    pure (user, tokens)

  -- The branches on a token that is not revoked.
  pub rotate_live :
      RefreshToken → Option Text → Option Text → Draw → Exec AuthDb Error (User × IssuedTokens)
  rotate_live existing user_agent ip_address d = do
    guard (ltb d.checked_at existing.expires_at)
        (error invalid_refresh_token "refresh token expired")
    found ← user_by_id existing.user_id
    user ← or_raise (error invalid_refresh_token "user not found") found
    rotate_for existing user user_agent ip_address d

  pub rotate_found :
      RefreshToken → Option Text → Option Text → Draw → Exec AuthDb Error (User × IssuedTokens)
  rotate_found existing user_agent ip_address d =
      if is_some existing.revoked_at
      then reject_reused existing d
      else rotate_live existing user_agent ip_address d

  pub rotate_refresh :
      Text → Option Text → Option Text → Draw → Exec AuthDb Error (User × IssuedTokens)
  rotate_refresh raw user_agent ip_address d = do
    found ← token_by_hash (hash_refresh_token raw)
    existing ← or_raise (error invalid_refresh_token "refresh token not found") found
    rotate_found existing user_agent ip_address d

  pub revoke_refresh : Text → Draw → Exec AuthDb Error Unit
  revoke_refresh raw d =
      revoke_where (λ r. has_hash (hash_refresh_token raw) r && not (is_some r.revoked_at))
        d.revoked_at

  -- decode_refresh_token, which no caller uses: the length check of a raw token
  pub decode_refresh_token : Text → Result Error Text
  decode_refresh_token token =
      if ltb (length token) 32
      then err (error token_error "refresh token malformed")
      else ok (hash_refresh_token token)

  -- POST /auth/refresh behind the rate limit: the cookie, and the 401 for a refused token
  -- a refused token is a 401
  pub as_unauthorized : Result Error (User × IssuedTokens) → Result Error (User × IssuedTokens)
  as_unauthorized (ok r) = ok r
  as_unauthorized (err e) = elim e.cls [
    | invalid_refresh_token ↦ err (error (http 401) e.detail)
    | _ ↦ err e
  ]

  pub refresh_endpoint :
      Option Text → Option Text → Option Text → Draw → Exec AuthDb Error (User × IssuedTokens)
  refresh_endpoint none user_agent ip_address d db =
      (err (error (http 401) "missing refresh token"), db)
  refresh_endpoint (some raw) user_agent ip_address d db =
      if is_truthy raw
      then (
        as_unauthorized (rotate_refresh raw user_agent ip_address d db).0,
        (rotate_refresh raw user_agent ip_address d db).1,
      )
      else (err (error (http 401) "missing refresh token"), db)

  -- POST /auth/logout
  pub logout_endpoint : Option Text → Draw → Exec AuthDb Error Unit
  logout_endpoint none d = pure tt
  logout_endpoint (some raw) d = if is_truthy raw then revoke_refresh raw d else pure tt

  -- the request as `get_db` runs it
  pub refresh_request :
      Option Text → Option Text → Option Text → Draw → Exec AuthDb Error (User × IssuedTokens)
  refresh_request cookie user_agent ip_address d =
      get_db (λ before after. before) (refresh_endpoint cookie user_agent ip_address d)
