-- ===== src/Auth/Requests.antt =====
-- The endpoints of routes/auth.py behind their rate limits, each in the transaction of its request,
-- and the tables that requests can lead to.
pub mod Histories
use ozzb2b.Shared.{
  ℕ, ◌≡◌, Bool, Option, none, some, List, [], Text, count, IsUnique, Result, ok, err, Exec, ◌>>=◌,
  ◌>>◌, pure, get_db,
}
use ozzb2b.Errors.{Error, error, email_already_registered, invalid_credentials, http}
use ozzb2b.Domain.{User}
use ozzb2b.Auth.{
  AuthDb, Crypto, TokenSettings, Draw, IssuedTokens, live_in, register, authenticate, issue_tokens,
  refresh_endpoint, logout_endpoint,
}

-- `except EmailAlreadyRegisteredError`, `except InvalidCredentialsError`
abbrev pub as_conflict : Error → Error
as_conflict e = elim e.cls [ email_already_registered ↦ error (http 409) e.detail | _ ↦ e ]

abbrev pub as_refused : Error → Error
as_refused e = elim e.cls [ invalid_credentials ↦ error (http 401) e.detail | _ ↦ e ]

abbrev pub answer : {A : Type 0} → (Error → Error) → Result Error A → Result Error A
answer f (ok a) = ok a
answer f (err e) = err (f e)

pub catch : {A : Type 0} → (Error → Error) → Exec AuthDb Error A → Exec AuthDb Error A
catch f m db = (answer f (m db).0, (m db).1)

pub data AuthRequest : Type 0 where
  registers : Text → Text → Option Text → AuthRequest
  logs_in : Text → Text → AuthRequest
  refreshes logs_out : Option Text → AuthRequest

module _ (crypto : Crypto) (cfg : TokenSettings) where
  pub register_endpoint :
      Text
      → Text
      → Option Text
      → Option Text
      → Option Text
      → Draw
      → Exec AuthDb Error (User × IssuedTokens)
  register_endpoint email password display_name user_agent host d = do
    user ← catch as_conflict (register crypto cfg email password display_name d)
    tokens ← issue_tokens crypto cfg user user_agent host none d
    pure (user, tokens)

  pub login_endpoint :
      Text → Text → Option Text → Option Text → Draw → Exec AuthDb Error (User × IssuedTokens)
  login_endpoint email password user_agent host d = do
    user ← catch as_refused (authenticate crypto cfg email password d)
    tokens ← issue_tokens crypto cfg user user_agent host none d
    pure (user, tokens)

  pub auth_handle : AuthRequest → Option Text → Option Text → Draw → Exec AuthDb Error Unit
  auth_handle (registers email password display_name) user_agent host d = do
    register_endpoint email password display_name user_agent host d
    pure tt
  auth_handle (logs_in email password) user_agent host d = do
    login_endpoint email password user_agent host d
    pure tt
  auth_handle (refreshes cookie) user_agent host d = do
    refresh_endpoint crypto cfg cookie user_agent host d
    pure tt
  auth_handle (logs_out cookie) user_agent host d = logout_endpoint crypto cfg cookie d

  pub auth_request : AuthRequest → Option Text → Option Text → Draw → Exec AuthDb Error Unit
  auth_request r user_agent host d =
      get_db (λ before after. before) (auth_handle r user_agent host d)

  -- The tables that requests lead to from empty ones, when each draws a family that no live token
  -- has: `uuid.uuid4()` gives a new one.
  pub data Reachable : AuthDb → Type 0 where
    start : Reachable (record { users = []; refresh_tokens = [] })
    served :
        (db : AuthDb) (r : AuthRequest) (user_agent host : Option Text) (d : Draw)
        → Reachable db
        → count (live_in d.family_id) db.refresh_tokens ≡ 0
        → Reachable (auth_request r user_agent host d db).1
