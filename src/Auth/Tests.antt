-- ===== src/Auth/Tests.antt =====
-- Runs of the account service on a small database, and its theorems applied there.
use ozzb2b.Shared.{
  ℕ, ◌≡◌, ◌≤◌, refl, Bool, true, false, Option, none, some, List, [], ◌∷◌, ◌++◌, ◌==◌, nat_eq,
  text_eq, Text, codes, normalize, any, count, find, IsUnique, Result, ok, err, arith,
}
use ozzb2b.Errors.{error, http}
use ozzb2b.Domain.{User, UserRole}
use ozzb2b.Auth.{
  AuthDb, RefreshToken, Crypto, TokenSettings, Draw, IssuedTokens, has_hash, live_in,
  normalize_email, new_user, issued, register, authenticate, rotate_refresh, refresh_request,
  token_by_hash, user_by_email,
}
use ozzb2b.Auth.Requests.{AuthRequest, Reachable, auth_request}
use ozzb2b.Auth.Requests.Histories.{Reachable-IsConsistent}
use ozzb2b.Auth.Invariant.{IsConsistent}
use ozzb2b.Auth.Rotation.{Rotation, rotate_refresh-eq-ok}
use ozzb2b.Auth.Reuse.{rotate_refresh_reuse, refresh_request_reuse, already_used}
use ozzb2b.Auth.Accounts.{register-authenticate}

abbrev crypto : Crypto
crypto = record {
  sha256 = λ s. codes "h" ++ s;
  hash_password = λ s. codes "p" ++ s;
  verify_password = λ s h. h == codes "p" ++ s;
  encode_access = λ i role until at jti. jti;
}

abbrev cfg : TokenSettings
cfg = record { jwt_access_ttl_seconds = 900; jwt_refresh_ttl_seconds = 5000 }

abbrev ann : User
ann = record {
  id = 1;
  email = codes "ann@x.ru";
  password_hash = codes "psecret";
  display_name = none;
  role = UserRole.client;
  last_login_at = none;
}

abbrev first_token : RefreshToken
first_token = record {
  id = 7;
  user_id = 1;
  token_hash = codes "hone";
  family_id = 3;
  expires_at = 6000;
  revoked_at = none;
  user_agent = none;
  ip_address = none;
}

abbrev used_token : RefreshToken
used_token = record first_token { revoked_at = some 900 }

abbrev second_token : RefreshToken
second_token = record first_token { id = 8; token_hash = codes "htwo" }

abbrev db : AuthDb
db = record { users = ann ∷ []; refresh_tokens = first_token ∷ [] }

abbrev used_db : AuthDb
used_db = record { users = ann ∷ []; refresh_tokens = second_token ∷ used_token ∷ [] }

abbrev draw : Draw
draw = record {
  user_id = 2;
  record_id = 9;
  family_id = 4;
  refresh_raw = codes "three";
  jti = codes "j";
  checked_at = 1000;
  revoked_at = 1001;
  issued_at = 1002;
}

db-IsConsistent : IsConsistent db
unfolding any count
db-IsConsistent = record {
  emails = (refl, tt);
  user_ids = (refl, tt);
  hashes = (refl, tt);
  one_live = λ f. ground arith;
}

used_db-IsConsistent : IsConsistent used_db
unfolding any count ozzb2b.Shared.list_beq
used_db-IsConsistent = record {
  emails = (refl, tt);
  user_ids = (refl, tt);
  hashes = (refl, (refl, tt));
  one_live = λ f. ground arith;
}

abbrev rotated_db : AuthDb
rotated_db = (rotate_refresh crypto cfg (codes "one") none none draw db).1

rotation_runs :
    rotate_refresh crypto cfg (codes "one") none none draw db
    ≡ (ok (ann, issued crypto cfg ann draw), rotated_db)
unfolding rotate_refresh token_by_hash ozzb2b.Shared.select ozzb2b.Shared.list_beq
    ozzb2b.Auth.rotate_found ozzb2b.Auth.rotate_live ozzb2b.Auth.user_by_id ozzb2b.Auth.rotate_for
    ozzb2b.Auth.revoke_where ozzb2b.Auth.issue_tokens ozzb2b.Auth.add_refresh any
    ozzb2b.Shared.update
rotation_runs = refl

rotate_refresh-eq-ok_example :
    Rotation crypto cfg (codes "one") draw db ann (issued crypto cfg ann draw) rotated_db
rotate_refresh-eq-ok_example =
    rotate_refresh-eq-ok crypto cfg (codes "one") none none draw db db-IsConsistent rotation_runs

rotate_refresh_reuse_example :
    (r : RefreshToken) × (find (has_hash (codes "hone")) db.refresh_tokens ≡ some r)
    × ((rotate_refresh crypto cfg (codes "one") none none draw rotated_db).0 ≡ err (already_used))
    × (count
          (live_in r.family_id)
          (rotate_refresh crypto cfg (codes "one") none none draw rotated_db).1.refresh_tokens
        ≡ 0)
rotate_refresh_reuse_example =
    rotate_refresh_reuse crypto cfg (codes "one") none none none none draw draw db db-IsConsistent
      rotation_runs

used_there : find (has_hash (codes "hone")) used_db.refresh_tokens ≡ some used_token
unfolding find ozzb2b.Shared.list_beq
used_there = refl

refresh_request_reuse_example :
    (count
        (live_in 3)
        (rotate_refresh crypto cfg (codes "one") none none draw used_db).1.refresh_tokens
      ≡ 0)
    × (refresh_request crypto cfg (some (codes "one")) none none draw used_db
        ≡ (err (error (http 401) "refresh token already used"), used_db))
refresh_request_reuse_example =
    refresh_request_reuse crypto cfg (codes "one") none none draw used_db used_token 900
      used_db-IsConsistent refl used_there refl

abbrev bob : User
bob = new_user crypto cfg (codes "bob@x.ru") (codes "pw") none draw

registration_runs :
    register crypto cfg (codes " Bob@x.ru") (codes "pw") none draw db
    ≡ (ok bob, record db { users = bob ∷ ann ∷ [] })
unfolding register user_by_email ozzb2b.Shared.select ozzb2b.Shared.list_beq ozzb2b.Shared.lower
    ozzb2b.Shared.strip ozzb2b.Shared.rstrip ozzb2b.Shared.lstrip ozzb2b.Shared.is_space
    ozzb2b.Shared.lower_char ozzb2b.Auth.add_user any
registration_runs = refl

pw_verifies : crypto.verify_password (codes "pw") (crypto.hash_password (codes "pw")) ≡ true
unfolding ozzb2b.Shared.list_beq
pw_verifies = refl

same_address : normalize_email (codes "BOB@X.RU ") ≡ normalize_email (codes " Bob@x.ru")
unfolding ozzb2b.Shared.strip ozzb2b.Shared.lstrip ozzb2b.Shared.is_space ozzb2b.Shared.rstrip
    ozzb2b.Shared.lower ozzb2b.Shared.lower_char
same_address = refl

ann_there : find (λ (v : User). v.email == normalize_email (codes "Ann@X.ru")) db.users ≡ some ann
unfolding find ozzb2b.Shared.list_beq ozzb2b.Shared.lower ozzb2b.Shared.strip ozzb2b.Shared.rstrip
    ozzb2b.Shared.lstrip ozzb2b.Shared.is_space ozzb2b.Shared.lower_char
ann_there = refl

register-authenticate_example :
    (authenticate crypto cfg
      (codes "BOB@X.RU ")
      (codes "pw")
      draw
      (record db { users = bob ∷ ann ∷ [] })).0
    ≡ ok bob
register-authenticate_example =
    register-authenticate crypto cfg (codes " Bob@x.ru") (codes "BOB@X.RU ") (codes "pw") none draw
      draw db pw_verifies same_address registration_runs

abbrev no_rows : AuthDb
no_rows = record { users = []; refresh_tokens = [] }

abbrev registration : AuthRequest
registration = AuthRequest.registers (codes "Bob@x.ru") (codes "pw") none

abbrev first_db : AuthDb
first_db = (auth_request crypto cfg registration none none draw no_rows).1

registered : Reachable crypto cfg first_db
unfolding count
registered = Reachable.served no_rows registration none none draw Reachable.start refl

Reachable-IsConsistent_example : IsConsistent first_db
Reachable-IsConsistent_example = Reachable-IsConsistent crypto cfg first_db registered
