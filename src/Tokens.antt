-- ===== src/Tokens.antt =====
-- Signed tokens: apps/api/src/ozzb2b_api/security/tokens.py, without the opaque refresh tokens (see Auth), and
-- the dependencies of routes/deps.py that find the user of a request. PyJWT is an argument.
pub mod Purpose
pub mod Current
mod Tests
use ozzb2b.Shared.{
  ℕ, ◌+◌, ◌*◌, String, Bool, true, false, not, ◌&&◌, ◌||◌, Option, none, some, List, [], ◌∷◌, ◌==◌,
  nat_eq, text_eq, if◌then◌else◌, Text, codes, Result, ok, err,
}
use ozzb2b.Errors.{Error, error, token_error}

-- a value in a payload: a text, a number, or anything else that JSON has
pub data ClaimValue : Type 0 where
  text : Text → ClaimValue
  number : ℕ → ClaimValue
  other : ClaimValue

-- the claims that the code writes and reads, each of which may be missing
pub record Payload : Type 0 where
  pub sub : Option ClaimValue
  pub role : Option ClaimValue
  pub conv : Option ClaimValue
  pub exp : Option ClaimValue
  pub iat : Option ClaimValue
  pub jti : Option ClaimValue
  pub typ : Option ClaimValue
  pub iss : Option ClaimValue
  pub aud : Option ClaimValue

-- MissingRequiredClaimError with its claim, and any other PyJWTError; `str(exc)` is the text
pub data JwtError : Type 0 where
  missing_required_claim : Text → String → JwtError
  refused_token : String → JwtError

abbrev pub message : JwtError → String
message (missing_required_claim claim s) = s
message (refused_token s) = s

-- what `jwt.decode` is told to verify beside the signature, the times and the required claims
pub record Verify : Type 0 where
  pub audience : Option Text
  pub issuer : Option Text
  pub leeway : ℕ

-- Times of the clock are in microseconds.
abbrev pub one_second : ℕ
one_second = 1000000

-- `numeric_date` is the number of seconds as which PyJWT writes a datetime,
-- `jwt.encode(payload, secret, algorithm)` and `jwt.decode(token, secret, [algorithm], …)` at a time
pub record Jwt : Type 0 where
  pub numeric_date : ℕ → ℕ
  pub encode : Payload → Text → Text → Text
  pub decode : Text → Text → Text → Verify → ℕ → Result JwtError Payload

pub record JwtSettings : Type 0 where
  pub jwt_secret : Text
  pub jwt_algorithm : Text
  pub jwt_issuer : Text
  pub jwt_audience_api : Text
  pub jwt_audience_ws_chat : Text
  pub jwt_leeway_seconds : ℕ
  pub jwt_access_ttl_seconds : ℕ

abbrev pub type_access : Text
type_access = codes "access"

abbrev pub type_ws_chat : Text
type_ws_chat = codes "ws_chat"

abbrev pub ws_chat_ttl_seconds : ℕ
ws_chat_ttl_seconds = 120

pub record AccessTokenClaims : Type 0 where
  pub sub : Text
  pub role : Text
  pub exp : ℕ
  pub jti : Text

pub record WsChatClaims : Type 0 where
  pub user_id : Text
  pub conversation_id : Text
  pub exp : ℕ
  pub jti : Text

abbrev pub refused : {A : Type 0} → JwtError → Result Error A
refused e = err (error token_error (message e))

abbrev pub is_legacy_claim : Text → Bool
is_legacy_claim claim = claim == codes "iss" || claim == codes "aud"

abbrev pub or_refused : Result JwtError Payload → Result Error Payload
or_refused (ok p) = ok p
or_refused (err e) = refused e

-- `datetime.fromtimestamp` of `payload.get("exp")`, and now where it is no number
abbrev pub time_or : ℕ → Option ClaimValue → ℕ
time_or now (some (number n)) = n * one_second
time_or now _ = now

abbrev pub is_type : Text → Option ClaimValue → Bool
is_type t (some (text s)) = s == t
is_type t _ = false

abbrev pub malformed : Error
malformed = error token_error "malformed token payload"

-- `isinstance(…, str)` of the three claims
abbrev pub texts :
    Option ClaimValue → Option ClaimValue → Option ClaimValue → Option (Text × Text × Text)
texts (some (text a)) (some (text b)) (some (text c)) = some (a, b, c)
texts _ _ _ = none

abbrev pub and_then : {A B : Type 0} → Result Error A → (A → Result Error B) → Result Error B
and_then (ok a) f = f a
and_then (err e) f = err e

unfoldable pub access_claims : ℕ → Payload → Result Error AccessTokenClaims
access_claims now p =
    if is_type type_access p.typ
    then (elim (texts p.sub p.role p.jti) [
      | none ↦ err malformed
      | some (sub, role, jti) ↦
          ok (record { sub = sub; role = role; exp = time_or now p.exp; jti = jti })
    ])
    else err (error token_error "unexpected token type")

unfoldable pub ws_chat_claims : ℕ → Payload → Result Error WsChatClaims
ws_chat_claims now p =
    if is_type type_ws_chat p.typ
    then (elim (texts p.sub p.conv p.jti) [
      | none ↦ err malformed
      | some (sub, conv, jti) ↦
          ok (record { user_id = sub; conversation_id = conv; exp = time_or now p.exp; jti = jti })
    ])
    else err (error token_error "unexpected token type")

-- the first attempt, and the second one without `iss` and `aud` for a token that lacks one of them
abbrev pub with_legacy : Result JwtError Payload → Result JwtError Payload → Result Error Payload
with_legacy (ok p) second = ok p
with_legacy (err (refused_token s)) second = err (error token_error s)
with_legacy (err (missing_required_claim claim s)) second =
    if is_legacy_claim claim then or_refused second else err (error token_error s)

module _ (jwt : Jwt) (cfg : JwtSettings) where
  abbrev pub read : Text → Verify → ℕ → Result JwtError Payload
  read token = jwt.decode token cfg.jwt_secret cfg.jwt_algorithm

  abbrev pub for_audience : Text → Verify
  for_audience audience = record {
    audience = some audience;
    issuer = some cfg.jwt_issuer;
    leeway = cfg.jwt_leeway_seconds;
  }

  abbrev pub for_anyone : Verify
  for_anyone = record { audience = none; issuer = none; leeway = cfg.jwt_leeway_seconds }

  unfoldable pub decode_with_audience : Text → Text → ℕ → Result Error Payload
  decode_with_audience token audience now =
      with_legacy (read token (for_audience audience) now) (read token for_anyone now)

  unfoldable pub access_payload : Text → Text → Text → ℕ → ℕ → Payload
  access_payload user_id role jti now issued = record {
    sub = some (text user_id);
    role = some (text role);
    conv = none;
    exp = some (number (jwt.numeric_date (now + cfg.jwt_access_ttl_seconds * one_second)));
    iat = some (number (jwt.numeric_date issued));
    jti = some (text jti);
    typ = some (text type_access);
    iss = some (text cfg.jwt_issuer);
    aud = some (text cfg.jwt_audience_api);
  }

  -- `now` and `issued` are the two readings of the clock, `jti` the random text
  unfoldable pub create_access_token : Text → Text → Text → ℕ → ℕ → Text × ℕ
  create_access_token user_id role jti now issued = (
    jwt.encode (access_payload user_id role jti now issued) cfg.jwt_secret cfg.jwt_algorithm,
    now + cfg.jwt_access_ttl_seconds * one_second,
  )

  unfoldable pub decode_access_token : Text → ℕ → Result Error AccessTokenClaims
  decode_access_token token now =
      and_then (decode_with_audience token cfg.jwt_audience_api now) (access_claims now)

  unfoldable pub ws_chat_payload : Text → Text → Text → ℕ → ℕ → Payload
  ws_chat_payload user_id conversation_id jti now issued = record {
    sub = some (text user_id);
    role = none;
    conv = some (text conversation_id);
    exp = some (number (jwt.numeric_date (now + ws_chat_ttl_seconds * one_second)));
    iat = some (number (jwt.numeric_date issued));
    jti = some (text jti);
    typ = some (text type_ws_chat);
    iss = some (text cfg.jwt_issuer);
    aud = some (text cfg.jwt_audience_ws_chat);
  }

  unfoldable pub create_ws_chat_token : Text → Text → Text → ℕ → ℕ → Text × ℕ
  create_ws_chat_token user_id conversation_id jti now issued = (
    jwt.encode (ws_chat_payload user_id conversation_id jti now issued) cfg.jwt_secret
        cfg.jwt_algorithm,
    now + ws_chat_ttl_seconds * one_second,
  )

  unfoldable pub decode_ws_chat_token : Text → ℕ → Result Error WsChatClaims
  decode_ws_chat_token token now =
      and_then (decode_with_audience token cfg.jwt_audience_ws_chat now) (ws_chat_claims now)
