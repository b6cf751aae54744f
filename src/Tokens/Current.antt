-- ===== src/Tokens/Current.antt =====
-- The user of a request: apps/api/src/ozzb2b_api/routes/deps.py. `uuid.UUID` is an argument; the user is read
-- from the table of users.
use ozzb2b.Shared.{
  ℕ, String, ◌≡◌, ◌↔◌, Bool, Option, none, some, List, ◌==◌, nat_eq, if◌then◌else◌, Text, codes,
  lower, strip, partition, has_prefix, is_truthy, or_empty, select, Result, ok, err,
  scalar_one_or_none, inl, inr, Bool-cases,
}
use ozzb2b.Errors.{Error, error, http, multiple}
use ozzb2b.Domain.{User}
use ozzb2b.Tokens.{Jwt, JwtSettings, AccessTokenClaims, decode_access_token}

-- `authorization and authorization.lower().startswith("bearer ")`
abbrev is_bearer : Option Text → Bool
is_bearer authorization = has_prefix (codes "bearer ") (lower (or_empty authorization))

unfoldable pub extract_access_token : Option Text → Option Text → Option Text
extract_access_token authorization cookie_token =
    if is_bearer authorization
    then some (strip (partition b' ' (or_empty authorization)).1)
    else cookie_token

abbrev pub unauthorized : String → Error
unauthorized = error (http 401)

module _ (jwt : Jwt) (cfg : JwtSettings) (uuid : Text → Option ℕ) (users : List User) where
  -- `select(User).where(User.id == user_id)`
  unfoldable pub user_of_id : ℕ → Result Error (Option User)
  user_of_id id = scalar_one_or_none multiple (select (λ (u : User). u.id == id) users)

  abbrev pub found_user : Result Error (Option User) → Result Error User
  found_user (err e) = err e
  found_user (ok none) = err (unauthorized "user not found")
  found_user (ok (some u)) = ok u

  abbrev pub user_of_subject : Option ℕ → Result Error User
  user_of_subject none = err (unauthorized "invalid subject")
  user_of_subject (some id) = found_user (user_of_id id)

  abbrev pub user_of_claims : Result Error AccessTokenClaims → Result Error User
  user_of_claims (err e) = err (unauthorized e.detail)
  user_of_claims (ok claims) = user_of_subject (uuid claims.sub)

  unfoldable pub get_current_user : Option Text → Option Text → ℕ → Result Error User
  get_current_user authorization cookie_token now =
      let token = or_empty (extract_access_token authorization cookie_token) in
      if is_truthy token
      then user_of_claims (decode_access_token jwt cfg token now)
      else err (unauthorized "authentication required")

  -- an error of the token or of its subject is no user; one of the query goes through
  abbrev pub user_of_subject_or_none : Option ℕ → Result Error (Option User)
  user_of_subject_or_none none = ok none
  user_of_subject_or_none (some id) = user_of_id id

  abbrev pub user_of_claims_or_none : Result Error AccessTokenClaims → Result Error (Option User)
  user_of_claims_or_none (err e) = ok none
  user_of_claims_or_none (ok claims) = user_of_subject_or_none (uuid claims.sub)

  unfoldable pub get_current_user_optional :
      Option Text → Option Text → ℕ → Result Error (Option User)
  get_current_user_optional authorization cookie_token now =
      let token = or_empty (extract_access_token authorization cookie_token) in
      if is_truthy token
      then user_of_claims_or_none (decode_access_token jwt cfg token now)
      else ok none

  found_user_iff :
      (r : Result Error (Option User)) (u : User) → (found_user r ≡ ok u) ↔ (r ≡ ok (some u))
  found_user_iff (err e) u = (λ h. cc, λ h. cc)
  found_user_iff (ok none) u = (λ h. cc, λ h. cc)
  found_user_iff (ok (some v)) u = (λ h. cc, λ h. cc)

  user_of_subject_iff :
      (o : Option ℕ) (u : User)
      → (user_of_subject o ≡ ok u) ↔ (user_of_subject_or_none o ≡ ok (some u))
  user_of_subject_iff none u = (λ h. cc, λ h. cc)
  user_of_subject_iff (some id) u = found_user_iff (user_of_id id) u

  user_of_claims_iff :
      (r : Result Error AccessTokenClaims) (u : User)
      → (user_of_claims r ≡ ok u) ↔ (user_of_claims_or_none r ≡ ok (some u))
  user_of_claims_iff (err e) u = (λ h. cc, λ h. cc)
  user_of_claims_iff (ok claims) u = user_of_subject_iff (uuid claims.sub) u

  -- A request is answered for a user by `get_current_user` exactly when `get_current_user_optional` gives
  -- that user, whatever the header, the cookie and the time are.
  pub get_current_user_iff :
      (authorization cookie_token : Option Text) (now : ℕ) (u : User)
      → (get_current_user authorization cookie_token now ≡ ok u)
        ↔ (get_current_user_optional authorization cookie_token now ≡ ok (some u))
  unfolding get_current_user get_current_user_optional
  get_current_user_iff authorization cookie_token now u =
      elim (Bool-cases (is_truthy (or_empty (extract_access_token authorization cookie_token)))) [
        | inl e ↦ rw e (
            user_of_claims_iff
              (decode_access_token jwt cfg
                (or_empty (extract_access_token authorization cookie_token)) now)
              u)
        | inr e ↦ rw e (λ h. cc, λ h. cc)
      ]
