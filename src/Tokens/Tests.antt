-- ===== src/Tokens/Tests.antt =====
-- Tokens of a stand-in for PyJWT, and the theorems on them applied there.
use ozzb2b.Shared.{
  ℕ, ◌+◌, ◌*◌, ◌/◌, ◌≤◌, ◌<◌, ◌≡◌, ◌↔◌, refl, sym, Bool, Option, none, some, List, [], ◌∷◌, Text,
  codes, ◌==◌, text_eq, if◌then◌else◌, Result, ok, err, list_beq, arith, has_prefix, lower,
}
use ozzb2b.Tokens.{
  ClaimValue, text, Payload, JwtError, refused_token, Verify, Jwt, JwtSettings, access_payload,
  ws_chat_payload, create_access_token, decode_access_token, decode_ws_chat_token,
}
use ozzb2b.Tokens.Purpose.{
  CutsOff, IsTokenError, Reads, types_are_kept_apart, decode_access_token-create_access_token,
}
use ozzb2b.Domain.{User, UserRole}
use ozzb2b.Tokens.Current.{
  extract_access_token, get_current_user, get_current_user_optional, get_current_user_iff,
}

abbrev cfg : JwtSettings
cfg = record {
  jwt_secret = codes "s";
  jwt_algorithm = codes "HS256";
  jwt_issuer = codes "api";
  jwt_audience_api = codes "web";
  jwt_audience_ws_chat = codes "chat";
  jwt_leeway_seconds = 10;
  jwt_access_ttl_seconds = 900;
}

abbrev idle : Jwt
idle = record {
  numeric_date = λ t. t / 1000000;
  encode = λ p s a. [];
  decode = λ t s a v now. err (refused_token "none");
}

-- a token is the type of its payload, of which there is one for each
abbrev access : Payload
access = access_payload idle cfg (codes "7") (codes "client") (codes "j") 100500000 100500001

abbrev chat : Payload
chat = ws_chat_payload idle cfg (codes "7") (codes "9") (codes "j") 100500000 100500001

abbrev type_of : Option ClaimValue → Text
type_of (some (text t)) = t
type_of _ = []

abbrev simple : Jwt
simple = record {
  numeric_date = λ t. t / 1000000;
  encode = λ p s a. type_of p.typ;
  decode = λ t s a v now.
      if t == codes "access"
      then ok access
      else if t == codes "ws_chat"
      then ok chat
      else err (refused_token "Not enough segments");
}

bearer : extract_access_token (some (codes "BEARER  abc ")) (some (codes "x")) ≡ some (codes "abc")
unfolding extract_access_token has_prefix lower ozzb2b.Shared.lower_char ozzb2b.Shared.strip
    ozzb2b.Shared.rstrip ozzb2b.Shared.lstrip ozzb2b.Shared.is_space ozzb2b.Shared.partition
bearer = refl

same : {a b : Payload} → ◌≡◌ {A = Result JwtError Payload} (ok a) (ok b) → b ≡ a
same h = cc

access_type : access.typ ≡ some (text (codes "access"))
unfolding access_payload
access_type = refl

chat_type : chat.typ ≡ some (text (codes "ws_chat"))
unfolding ws_chat_payload
chat_type = refl

read_access : Reads simple cfg access
unfolding access_payload list_beq
read_access v now q h = same h

read_chat : Reads simple cfg chat
unfolding ws_chat_payload list_beq
read_chat v now q h = same h

types_are_kept_apart_example :
    IsTokenError (decode_ws_chat_token simple cfg (codes "access") 110)
    × IsTokenError (decode_access_token simple cfg (codes "ws_chat") 110)
unfolding access_payload ws_chat_payload
types_are_kept_apart_example =
    types_are_kept_apart simple cfg access chat 110 access_type chat_type read_access read_chat

accept_access :
    (v : Verify) (now : ℕ)
    → simple.decode
        (simple.encode
          (access_payload simple cfg (codes "7") (codes "client") (codes "j") 100500000 100500001)
          cfg.jwt_secret
          cfg.jwt_algorithm)
        cfg.jwt_secret
        cfg.jwt_algorithm
        v
        now
      ≡ ok (access_payload simple cfg (codes "7") (codes "client") (codes "j") 100500000 100500001)
unfolding access_payload list_beq
accept_access v now = refl

cuts_off : CutsOff simple (100500000 + 900 * 1000000)
cuts_off = (omega arith, omega arith)

decode_access_token-create_access_token_example :
    (exp : ℕ) × (decode_access_token simple cfg
        (create_access_token simple cfg
          (codes "7")
          (codes "client")
          (codes "j")
          100500000
          100500001).0
        1005999999
      ≡ ok (record { sub = codes "7"; role = codes "client"; exp = exp; jti = codes "j" }))
    × (exp
        ≤ (create_access_token simple cfg
            (codes "7")
            (codes "client")
            (codes "j")
            100500000
            100500001).1)
    × ((create_access_token simple cfg
          (codes "7")
          (codes "client")
          (codes "j")
          100500000
          100500001).1
        < exp + 1000000)
decode_access_token-create_access_token_example =
    decode_access_token-create_access_token simple cfg (codes "7") (codes "client") (codes "j")
      100500000 100500001 1005999999 (λ v now a b c d. accept_access v now) (omega arith)
      (omega arith) cuts_off

abbrev ann : User
ann = record {
  id = 55;
  email = codes "ann@x.ru";
  password_hash = codes "p";
  display_name = none;
  role = UserRole.client;
  last_login_at = none;
}

-- the id of a user is its one digit
abbrev id_of : Text → Option ℕ
id_of (c ∷ []) = some c
id_of _ = none

signed_in :
    get_current_user simple cfg id_of (ann ∷ []) (some (codes "Bearer access")) none 110 ≡ ok ann
unfolding get_current_user extract_access_token decode_access_token
    ozzb2b.Tokens.decode_with_audience ozzb2b.Tokens.access_claims access_payload
    ozzb2b.Tokens.Current.user_of_id has_prefix lower ozzb2b.Shared.lower_char ozzb2b.Shared.strip
    ozzb2b.Shared.rstrip ozzb2b.Shared.lstrip ozzb2b.Shared.is_space ozzb2b.Shared.partition
    ozzb2b.Shared.select list_beq
signed_in = refl

get_current_user_iff_example :
    (get_current_user simple cfg id_of (ann ∷ []) (some (codes "Bearer access")) none 110 ≡ ok ann)
    ↔ (get_current_user_optional simple cfg id_of (ann ∷ []) (some (codes "Bearer access")) none 110
        ≡ ok (some ann))
get_current_user_iff_example =
    get_current_user_iff simple cfg id_of (ann ∷ []) (some (codes "Bearer access")) none 110 ann
